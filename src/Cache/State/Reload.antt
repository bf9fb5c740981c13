-- ===== src/Cache/State/Reload.antt =====
-- A reload of the cache that is asked for is served by the next successful request for events.
use qtoggleserver.Base.{
  when_true, when_false, ℕ, ◌≡◌, refl, ◌∙◌, ap, Bool, true, false, List, [], ◌∷◌, String, if_either,
}
use qtoggleserver.Cache.State.{
  State, CacheEvent, slave_device_event, port_event, device_update, full_update, other_event,
  Effect, load, loaders, reload, on_listen, update_from_event, update_from_events,
}

module _ {M D A V : Type 0} (name : D → String) (now : ℕ) where
  update_from_event-needed :
      (e : CacheEvent M D A V) (s : State M D A V)
      → s.reload_needed ≡ true
      → (update_from_event name now e s).1.reload_needed ≡ true
  unfolding update_from_event reload
  update_from_event-needed (slave_device_event d) s h =
      if_either (λ (r : List Effect × State M D A V). r.1.reload_needed ≡ true) s.cache_ready _ _ h
        h
  update_from_event-needed (port_event p) s h =
      if_either (λ (r : List Effect × State M D A V). r.1.reload_needed ≡ true) s.cache_ready _ _ h
        h
  update_from_event-needed (device_update m) s h =
      if_either (λ (r : List Effect × State M D A V). r.1.reload_needed ≡ true) s.cache_ready _ _ h
        h
  update_from_event-needed full_update s h =
      if_either (λ (r : List Effect × State M D A V). r.1.reload_needed ≡ true) s.cache_ready _ _
        refl h
  update_from_event-needed other_event s h =
      if_either (λ (r : List Effect × State M D A V). r.1.reload_needed ≡ true) s.cache_ready _ _ h
        h

  needed :
      (es : List (CacheEvent M D A V)) (s : State M D A V)
      → s.reload_needed ≡ true
      → (update_from_events name now es s).1.reload_needed ≡ true
  unfolding update_from_events
  needed [] s h = h
  needed (e ∷ es) s h =
      needed es ((update_from_event name now e s).1) (update_from_event-needed e s h)

  asked :
      (s : State M D A V)
      → s.cache_ready ≡ true
      → (update_from_event name now full_update s).1.reload_needed ≡ true
  unfolding update_from_event reload
  asked s h =
      ap (λ (r : List Effect × State M D A V). r.1.reload_needed) (when_true s.cache_ready _ _ h)

  idle :
      (level : ℕ) (slaves failed : Bool) (s : State M D A V)
      → s.reload_needed ≡ false
      → (on_listen failed level slaves s).0 ≡ []
  unfolding on_listen
  idle level slaves true s h = refl
  idle level slaves false s h =
      ap (λ (r : List Effect × State M D A V). r.0) (when_false s.reload_needed _ _ h)

  served :
      (level : ℕ) (slaves : Bool) (s : State M D A V)
      → s.reload_needed ≡ true
      → on_listen false level slaves s
        ≡ (loaders (load level slaves), record s { reload_needed = false })
  unfolding on_listen
  served level slaves s h = when_true s.reload_needed _ _ h

  -- When a full update comes while the cache is ready, then whichever events follow, also when a
  -- request for events fails, the next request that succeeds starts all loaders that the access
  -- level has, and the one after it starts none.
  pub reloads_once :
      (es : List (CacheEvent M D A V)) (s : State M D A V)
      → s.cache_ready ≡ true
      → (level : ℕ) (slaves failed : Bool)
      → let t = (update_from_events name now (full_update ∷ es) s).1 in
        let (effects, u) = on_listen false level slaves ((on_listen true level slaves t).1) in
        (effects ≡ loaders (load level slaves)) × ((on_listen failed level slaves u).0 ≡ [])
  unfolding update_from_events
  reloads_once es s r level slaves failed =
      let t = (update_from_events name now (full_update ∷ es) s).1 in
      let next = served level slaves ((on_listen true level slaves t).1) (
        unfold on_listen in needed es ((update_from_event name now full_update s).1) (asked s r)) in
      (
        ap (λ x. x.0) next,
        ap (λ x. (on_listen failed level slaves x.1).0) next ∙ idle level slaves failed _ refl,
      )
