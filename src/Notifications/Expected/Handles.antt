-- ===== src/Notifications/Expected/Handles.antt =====
-- The handles of expected events: no two of them are alike.
use qtoggleserver.Base.{
  ℕ, suc, ◌≡◌, ◌≢◌, Bool, not, Option, none, some, List, [], ◌∷◌, arith, ◌==◌, ◌≤◌, String, All-map,
  get_value, inl, inr, Option-cases,
}
use qtoggleserver.Notifications.Expected.{
  handled, faked, Event, EventSpec, Expected, Action, expect_event, unexpect_event, step, run,
  wait_expected_event, try_match_expected_event, lookup_expected_event_handle, handle_server_event,
  fake_server_event, cleanup_expected_events, is_expired, expect, unexpect, wait_for, receive,
  fake_event, clean_up,
}
use qtoggleserver.Notifications.Expected.Settle.{Filters}
use qtoggleserver.Notifications.Expected.Keys.{
  Keys, Distinct, Keys-append, Keys-delete, Keys-change, Keys-filter, Distinct-append,
  Distinct-delete, Distinct-change, Distinct-filter, get-above, get-append-same, get-append-other,
}

module _ {V : Type 0} where
  -- No handle stands twice, and none is greater than the last one that was given out.
  unfoldable pub IsNumbered : Expected V → Type 0
  IsNumbered s = Keys (λ l. l ≤ s.last_handle) s.specs × Distinct s.specs

  -- `expectEvent` gives out a handle that no expected event has. It then leads to what was passed,
  -- with the timeout or the default one, and every other handle leads to what it led to before.
  pub expect_event_lem :
      (type : Option String) (params : Option (List (String × V))) (timeout : Option ℕ) (now : ℕ)
      (s : Expected V)
      → IsNumbered s
      → let (handle, q) = expect_event type params timeout now s in
        (get_value ◌==◌ handle s.specs ≡ none)
        × (get_value ◌==◌ handle q.specs
            ≡ some (record {
              type = type;
              params = params;
              added = now;
              timeout = elim timeout [ none ↦ 60000 | some t ↦ t ];
              handlers = [];
            }))
        × ((other : ℕ)
            → other ≢ handle
            → get_value ◌==◌ other q.specs ≡ get_value ◌==◌ other s.specs)
        × IsNumbered q
  unfolding expect_event IsNumbered Keys
  expect_event_lem type params timeout now s (u, d) = (
    get-above s.last_handle (suc s.last_handle) s.specs u (omega arith),
    get-append-same s.last_handle (suc s.last_handle) _ s.specs u (omega arith),
    λ other h. get-append-other other (suc s.last_handle) _ s.specs h,
    (
      Keys-append (λ l. l ≤ suc s.last_handle) s.specs _
          (All-map s.specs (λ e h. omega (arith, h)) u) (omega arith, tt),
      Distinct-append (suc s.last_handle) _ s.specs (All-map s.specs (λ e h. omega (arith, h)) u) d,
    ),
  )

module _ {V : Type 0} (same : V → V → Bool)
    (filter_params : (String → V → Bool) → List (String × V) → List (String × V))
    (find_key : (EventSpec V → Bool) → List (ℕ × EventSpec V) → Option ℕ)
    (filter_specs : (ℕ → EventSpec V → Bool) → List (ℕ × EventSpec V) → List (ℕ × EventSpec V))
    (filters : Filters filter_specs) where
  match-IsNumbered :
      (e : Event V) (s : Expected V)
      → IsNumbered s
      → IsNumbered (try_match_expected_event same filter_params find_key e s).1.1
  unfolding try_match_expected_event IsNumbered
  match-IsNumbered e s u =
      elim (Option-cases
        (lookup_expected_event_handle same filter_params find_key e.type e.params s)) [
          | inr n ↦ rw (n, try_match_expected_event) u
          | inl (handle, n) ↦
              rw (n, try_match_expected_event)
                (
                  Keys-delete (λ l. l ≤ s.last_handle) handle s.specs u.0,
                  Distinct-delete handle s.specs u.1,
                )
        ]

  pub step-IsNumbered :
      (a : Action V) (s : Expected V)
      → IsNumbered s
      → IsNumbered (step same filter_params find_key filter_specs a s).1
  unfolding step IsNumbered unexpect_event handle_server_event fake_server_event
      cleanup_expected_events wait_expected_event
  step-IsNumbered (expect type params timeout now) s u =
      (expect_event_lem type params timeout now s u).3
  step-IsNumbered (unexpect handle) s u =
      (Keys-delete (λ l. l ≤ s.last_handle) handle s.specs u.0, Distinct-delete handle s.specs u.1)
  step-IsNumbered (wait_for type params promise) s u =
      elim (Option-cases (lookup_expected_event_handle same filter_params find_key type params s)) [
        | inr n ↦ rw (n, step, wait_expected_event) u
        | inl (handle, n) ↦
            rw (n, step, wait_expected_event)
              (
                Keys-change (λ l. l ≤ s.last_handle) handle _ s.specs u.0,
                Distinct-change handle _ s.specs u.1,
              )
      ]
  step-IsNumbered (receive e) s u = match-IsNumbered (handled e) s u
  step-IsNumbered (fake_event e) s u = match-IsNumbered (faked e) s u
  step-IsNumbered (clean_up now) s u =
      rw (filters.kept (λ handle spec. not (is_expired now handle spec)) s.specs)
        (Keys-filter (λ l. l ≤ s.last_handle) _ s.specs u.0, Distinct-filter _ s.specs u.1)

  -- Whatever happens, handles stay numbered in this way: a new one is never in use.
  pub run-IsNumbered :
      (actions : List (Action V)) (s : Expected V)
      → IsNumbered s
      → IsNumbered (run same filter_params find_key filter_specs actions s).1
  unfolding run
  run-IsNumbered [] s u = u
  run-IsNumbered (a ∷ rest) s u =
      run-IsNumbered rest (step same filter_params find_key filter_specs a s).1
        (step-IsNumbered a s u)
