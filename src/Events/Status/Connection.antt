-- ===== src/Events/Status/Connection.antt =====
-- What sections are told of the connection.
use mathlib.Core.List.{tail-eq_of_cons-eq}
use qtoggleserver.Base.{
  ℕ, ◌≡◌, refl, ◌∙◌, ap, arith, Bool, true, false, Option, none, some, List, [], ◌∷◌, ◌++◌, map,
  ltb, if◌then◌else◌, inl, inr, Bool-cases, filter, if_either,
}
use qtoggleserver.Events.Status.{
  Sync, Call, on_main_device_disconnect, on_main_device_reconnect, show_progress, hide_progress,
  reload_cache, on_listen, on_listens,
}

abbrev and_then : Option (Bool × Bool) → (Bool × Bool → Option (Bool × Bool)) → Option (Bool × Bool)
and_then none f = none
and_then (some b) f = f b

-- Whether the client is connected, and whether the message about it is shown.
unfoldable pub connection : {E : Type 0} → Sync E → Bool × Bool
connection s = (elim s.sync_listen_error [ none ↦ true | some e ↦ false ], s.shows_progress)

module _ {E S : Type 0} where
  -- What an observer sees of one call, or `none` if the call is out of turn: a section is told of
  -- a disconnection while it is connected and of a reconnection while it is not, and the message is
  -- shown while it is hidden and hidden while it is shown, and the cache is reloaded while sections
  -- are disconnected.
  unfoldable pub follow : (S → Bool) → List (Call E S) → Bool × Bool → Option (Bool × Bool)
  follow is [] (connected, progress) = some (connected, progress)
  follow is (on_main_device_disconnect c e ∷ rest) (connected, progress) =
      let same = follow is rest (connected, progress) in
      let next = follow is rest (false, progress) in
      if is c then (if connected then next else none) else same
  follow is (on_main_device_reconnect c ∷ rest) (connected, progress) =
      let same = follow is rest (connected, progress) in
      let next = follow is rest (true, progress) in
      if is c then (if connected then none else next) else same
  follow is (show_progress ∷ rest) (connected, progress) =
      let next = follow is rest (connected, true) in if progress then none else next
  follow is (hide_progress ∷ rest) (connected, progress) =
      let next = follow is rest (connected, false) in if progress then next else none
  follow is (reload_cache ∷ rest) (connected, progress) =
      let next = follow is rest (connected, progress) in if connected then none else next

  follow-append :
      (is : S → Bool) (xs ys : List (Call E S)) (b : Bool × Bool)
      → follow is (xs ++ ys) b ≡ and_then (follow is xs b) (follow is ys)
  unfolding follow
  follow-append is [] ys b = refl
  follow-append is (on_main_device_disconnect c e ∷ xs) ys (b, p) =
      ground (arith, follow-append is xs ys (b, p), follow-append is xs ys (false, p))
  follow-append is (on_main_device_reconnect c ∷ xs) ys (b, p) =
      ground (arith, follow-append is xs ys (b, p), follow-append is xs ys (true, p))
  follow-append is (show_progress ∷ xs) ys (b, p) = ground (arith, follow-append is xs ys (b, true))
  follow-append is (hide_progress ∷ xs) ys (b, p) =
      ground (arith, follow-append is xs ys (b, false))
  follow-append is (reload_cache ∷ xs) ys (b, p) = ground (arith, follow-append is xs ys (b, p))

  module _ (is : S → Bool) where
    disconnects_none :
        (e : E) (cs : List S) (b : Bool × Bool)
        → filter is cs ≡ []
        → follow is (map (λ c. on_main_device_disconnect c e) cs) b ≡ some b
    unfolding follow
    disconnects_none e [] b h = refl
    disconnects_none e (c ∷ cs) (b, p) h = elim (Bool-cases (is c)) [
      | inl t ↦ absurd (ground (arith, h, t))
      | inr t ↦ rw t (disconnects_none e cs (b, p) (rw t at h))
    ]

    disconnects :
        (e : E) (cs : List S) (one : S) (p : Bool)
        → filter is cs ≡ one ∷ []
        → follow is (map (λ c. on_main_device_disconnect c e) cs) (true, p) ≡ some (false, p)
    unfolding follow
    disconnects e [] one p h = absurd (cc)
    disconnects e (c ∷ cs) one p h = elim (Bool-cases (is c)) [
      | inl t ↦ rw t (disconnects_none e cs (false, p) (tail-eq_of_cons-eq (rw t at h)))
      | inr t ↦ rw t (disconnects e cs one p (rw t at h))
    ]

module _ (E : Type 0) {S : Type 0} (is : S → Bool) where
  shows :
      (b p : Bool)
      → follow {E = E} is (if p then [] else show_progress ∷ []) (b, p) ≡ some (b, true)
  unfolding follow
  shows b true = refl
  shows b false = refl

  reconnects_none :
      (cs : List S) (b : Bool × Bool)
      → filter is cs ≡ []
      → follow {E = E} is (map (λ c. on_main_device_reconnect c) cs) b ≡ some b
  unfolding follow
  reconnects_none [] b h = refl
  reconnects_none (c ∷ cs) (b, p) h = elim (Bool-cases (is c)) [
    | inl t ↦ absurd (ground (arith, h, t))
    | inr t ↦ rw t (reconnects_none cs (b, p) (rw t at h))
  ]

  reconnects :
      (cs : List S) (one : S) (p : Bool)
      → filter is cs ≡ one ∷ []
      → follow {E = E} is (map (λ c. on_main_device_reconnect c) cs) (false, p) ≡ some (true, p)
  unfolding follow
  reconnects [] one p h = absurd (cc)
  reconnects (c ∷ cs) one p h = elim (Bool-cases (is c)) [
    | inl t ↦ rw t (reconnects_none cs (true, p) (tail-eq_of_cons-eq (rw t at h)))
    | inr t ↦ rw t (reconnects cs one p (rw t at h))
  ]

module _ {E S : Type 0} (is : S → Bool) (sections : List S) (one : S)
    (only : filter is sections ≡ one ∷ []) where
  listen_ok :
      (n : ℕ) (e l : Option E) (p : Bool)
      → let s : Sync E = record {
        sync_count = n;
        sync_error = e;
        sync_listen_error = l;
        shows_progress = p;
      } in
        follow is ((on_listen sections none s).0) (connection s)
        ≡ some (connection ((on_listen sections none s).1))
  unfolding on_listen connection follow
  listen_ok n e none p = refl
  listen_ok n e (some f) true = reconnects E is sections one false only
  listen_ok n e (some f) false = reconnects E is sections one false only

  fails_connected :
      (error : E) (seconds n : ℕ) (e : Option E) (p : Bool)
      → let s : Sync E = record {
        sync_count = n;
        sync_error = e;
        sync_listen_error = none;
        shows_progress = p;
      } in
        follow is ((on_listen sections (some (error, seconds)) s).0) (connection s)
        ≡ some (connection ((on_listen sections (some (error, seconds)) s).1))
  unfolding on_listen connection follow
  fails_connected error seconds n e p =
      let told : List (Call E S) = map (λ c. on_main_device_disconnect c error) sections in
      let shown : List (Call E S) = if p then [] else show_progress ∷ [] in
      if_either (λ (r : List (Call E S) × Sync E). follow is r.0 (true, p) ≡ some (connection r.1))
        (ltb 1 seconds) _ _
        (follow-append is shown told (true, p)
          ∙ ap (λ b. and_then b (follow is told)) (shows E is true p)
          ∙ disconnects is error sections one true only)
        (disconnects is error sections one p only)

  fails_disconnected :
      (error f : E) (seconds n : ℕ) (e : Option E) (p : Bool)
      → let s : Sync E = record {
        sync_count = n;
        sync_error = e;
        sync_listen_error = some f;
        shows_progress = p;
      } in
        follow is ((on_listen sections (some (error, seconds)) s).0) (connection s)
        ≡ some (connection ((on_listen sections (some (error, seconds)) s).1))
  unfolding on_listen connection follow
  fails_disconnected error f seconds n e p =
      if_either (λ (r : List (Call E S) × Sync E). follow is r.0 (false, p) ≡ some (connection r.1))
        (ltb 1 seconds) _ _
        (follow-append is (if p then [] else show_progress ∷ []) [] (false, p)
          ∙ ap (λ b. and_then b (follow {E = E} is [])) (shows E is false p))
        refl

  listen_fails :
      (error : E) (seconds n : ℕ) (e l : Option E) (p : Bool)
      → let s : Sync E = record {
        sync_count = n;
        sync_error = e;
        sync_listen_error = l;
        shows_progress = p;
      } in
        follow is ((on_listen sections (some (error, seconds)) s).0) (connection s)
        ≡ some (connection ((on_listen sections (some (error, seconds)) s).1))
  listen_fails error seconds n e none p = fails_connected error seconds n e p
  listen_fails error seconds n e (some f) p = fails_disconnected error f seconds n e p

  on_listen-follow :
      (o : Option (E × ℕ)) (s : Sync E)
      → follow is ((on_listen sections o s).0) (connection s)
        ≡ some (connection ((on_listen sections o s).1))
  on_listen-follow none s = listen_ok s.sync_count s.sync_error s.sync_listen_error s.shows_progress
  on_listen-follow (some (error, seconds)) s =
      listen_fails error seconds s.sync_count s.sync_error s.sync_listen_error s.shows_progress

  -- Whatever requests for events succeed and fail, in whichever order: each call that the application
  -- gets is in turn. A section is told of a disconnection only while it is connected and of a
  -- reconnection only while it is not, so that the two alternate; the message is shown only while
  -- it is hidden and hidden only while it is shown; and the cache is reloaded only before the
  -- section is told of the reconnection. After them, the section and the message are as the state
  -- says. The section is one that stands once among the sections.
  pub told_of_connection :
      (os : List (Option (E × ℕ))) (s : Sync E)
      → let (calls, t) = on_listens sections os s in
        follow is calls (connection s) ≡ some (connection t)
  unfolding on_listens follow
  told_of_connection [] s = refl
  told_of_connection (o ∷ rest) s =
      let (first, t) = on_listen sections o s in
      let (later, u) = on_listens sections rest t in
      follow-append is first later (connection s)
      ∙ ap (λ b. and_then b (follow is later)) (on_listen-follow o s)
      ∙ told_of_connection rest t
