-- ===== src/Cache/State/Tests.antt =====
-- The reloading of the cache at a concrete input.
use qtoggleserver.Base.{◌≡◌, refl, Bool, true, false, none, some, [], ◌∷◌, String}
use qtoggleserver.Cache.State.{
  State, device_update, full_update, other_event, load, loaders, on_listen, update_from_events,
  call_loader, load_ports, load_prefs,
}
use qtoggleserver.Cache.State.Reload.{reloads_once}

abbrev state : State String String String Bool
state = record {
  cache_ready = true;
  main_device = some "hub";
  slave_devices = none;
  all_ports = some [];
  reload_needed = false;
}

-- The loaders of a user who may only look.
loads : loaders (load 10 true) ≡ call_loader load_ports ∷ call_loader load_prefs ∷ []
unfolding load
loads = refl

reloads_once_example :
    let t =
      (update_from_events
        (λ (d : String). d)
        120
        (full_update ∷ device_update "new" ∷ other_event ∷ [])
        state).1 in
    let (effects, u) = on_listen false 10 true ((on_listen true 10 true t).1) in
    (effects ≡ loaders (load 10 true)) × ((on_listen false 10 true u).0 ≡ [])
reloads_once_example =
    reloads_once (λ (d : String). d) 120 (device_update "new" ∷ other_event ∷ []) state refl 10 true
      false
