-- ===== src/Notifications/Expected/Deadline.antt =====
-- When the promises that wait for expected events are settled at the latest.
use qtoggleserver.Base.{
  ℕ, ◌+◌, ◌≤◌, ◌<◌, ◌≡◌, refl, Bool, not, Option, none, some, List, [], ◌∷◌, ◌++◌, arith, ◌==◌,
  String, filter, All, All-append, delete_key, change_value, inl, inr, Bool-cases, Option-cases,
}
use qtoggleserver.Notifications.Expected.{
  handled, faked, Event, EventSpec, Expected, expect_event, unexpect_event,
  try_match_expected_event, wait_expected_event, lookup_expected_event_handle, is_expired,
  cleanup_expected_events, Action, expect, unexpect, wait_for, receive, fake_event, clean_up, step,
  run, handle_server_event, fake_server_event, default_expect_timeout,
}
use qtoggleserver.Notifications.Expected.Settle.{Filters, waits_in, waits, settled, run-settled}

module _ {V : Type 0} where
  -- The timeout of what is expected is over at the given time.
  abbrev IsDue : ℕ → ℕ × EventSpec V → Type 0
  IsDue now e = e.1.added + e.1.timeout < now

  unfoldable pub AllDue : ℕ → Expected V → Type 0
  AllDue now s = All (IsDue now) s.specs

  -- What is expected by the action is due at the given time.
  unfoldable pub Expires : ℕ → Action V → Type 0
  Expires now (expect type params timeout added) =
      added + elim timeout [ none ↦ default_expect_timeout | some t ↦ t ] < now
  Expires now (unexpect handle) = Unit
  Expires now (wait_for type params promise) = Unit
  Expires now (receive e) = Unit
  Expires now (fake_event e) = Unit
  Expires now (clean_up t) = Unit

  delete-IsDue :
      (now handle : ℕ) (specs : List (ℕ × EventSpec V))
      → All (IsDue now) specs
      → All (IsDue now) (delete_key ◌==◌ handle specs)
  delete-IsDue now handle [] d = tt
  delete-IsDue now handle ((h, spec) ∷ rest) d = elim (Bool-cases (h == handle)) [
    | inl e ↦ rw e (d.1)
    | inr e ↦ rw e (d.0, delete-IsDue now handle rest d.1)
  ]

  change-IsDue :
      (now handle promise : ℕ) (specs : List (ℕ × EventSpec V))
      → All (IsDue now) specs
      → All (IsDue now) (
          change_value ◌==◌ handle
            (λ (spec : EventSpec V). record spec { handlers = spec.handlers ++ promise ∷ [] })
            specs)
  change-IsDue now handle promise [] d = tt
  change-IsDue now handle promise ((h, spec) ∷ rest) d = elim (Bool-cases (h == handle)) [
    | inl e ↦ rw e d
    | inr e ↦ rw e (d.0, change-IsDue now handle promise rest d.1)
  ]

  filter-IsDue :
      (now : ℕ) (p : ℕ × EventSpec V → Bool) (specs : List (ℕ × EventSpec V))
      → All (IsDue now) specs
      → All (IsDue now) (filter p specs)
  filter-IsDue now p [] d = tt
  filter-IsDue now p (e ∷ rest) d = elim (Bool-cases (p e)) [
    | inl h ↦ rw h (d.0, filter-IsDue now p rest d.1)
    | inr h ↦ rw h (filter-IsDue now p rest d.1)
  ]

  -- A clean-up keeps nothing that is due.
  none_wait :
      (p now : ℕ) (specs : List (ℕ × EventSpec V))
      → All (IsDue now) specs
      → waits_in p (filter (λ e. not (is_expired now e.0 e.1)) specs) ≡ 0
  unfolding waits_in is_expired
  none_wait p now [] d = refl
  none_wait p now ((h, spec) ∷ rest) d = ground (arith, d, none_wait p now rest d.1)

module _ {V : Type 0} (same : V → V → Bool)
    (filter_params : (String → V → Bool) → List (String × V) → List (String × V))
    (find_key : (EventSpec V → Bool) → List (ℕ × EventSpec V) → Option ℕ)
    (filter_specs : (ℕ → EventSpec V → Bool) → List (ℕ × EventSpec V) → List (ℕ × EventSpec V))
    (filters : Filters filter_specs) (now : ℕ) where
  match-AllDue :
      (e : Event V) (s : Expected V)
      → AllDue now s
      → AllDue now ((try_match_expected_event same filter_params find_key e s).1.1)
  unfolding try_match_expected_event AllDue
  match-AllDue e s d =
      elim (Option-cases
        (lookup_expected_event_handle same filter_params find_key e.type e.params s)) [
          | inr n ↦ rw (n, try_match_expected_event) d
          | inl (handle, n) ↦ rw (n, try_match_expected_event) (delete-IsDue now handle s.specs d)
        ]

  wait-AllDue :
      (type : String) (params : List (String × V)) (promise : ℕ) (s : Expected V)
      → AllDue now s
      → AllDue now
          ((step same filter_params find_key filter_specs (wait_for type params promise) s).1)
  unfolding step wait_expected_event AllDue
  wait-AllDue type params promise s d =
      elim (Option-cases (lookup_expected_event_handle same filter_params find_key type params s)) [
        | inr n ↦ rw (n, step, wait_expected_event) d
        | inl (handle, n) ↦
            rw (n, step, wait_expected_event) (change-IsDue now handle promise s.specs d)
      ]

  step-AllDue :
      (a : Action V) (s : Expected V)
      → Expires now a
      → AllDue now s
      → AllDue now ((step same filter_params find_key filter_specs a s).1)
  unfolding step Expires AllDue expect_event unexpect_event handle_server_event fake_server_event
      cleanup_expected_events
  step-AllDue (expect type params timeout added) s x d =
      All-append (IsDue now) s.specs (_ ∷ []) d (x, tt)
  step-AllDue (unexpect handle) s x d = delete-IsDue now handle s.specs d
  step-AllDue (wait_for type params promise) s x d = wait-AllDue type params promise s d
  step-AllDue (receive e) s x d = match-AllDue (handled e) s d
  step-AllDue (fake_event e) s x d = match-AllDue (faked e) s d
  step-AllDue (clean_up t) s x d =
      rw (filters.kept (λ handle spec. not (is_expired t handle spec)) s.specs)
        (filter-IsDue now (λ e. not (is_expired t e.0 e.1)) s.specs d)

  drained :
      (p : ℕ) (actions : List (Action V)) (s : Expected V)
      → AllDue now s
      → All (Expires now) actions
      → waits p ((run same filter_params find_key filter_specs (actions ++ clean_up now ∷ []) s).1)
        ≡ 0
  unfolding run waits AllDue cleanup_expected_events step
  drained p [] s d x =
      rw (filters.kept (λ handle spec. not (is_expired now handle spec)) s.specs)
        (none_wait p now s.specs d)
  drained p (a ∷ rest) s d x =
      drained p rest ((step same filter_params find_key filter_specs a s).1) (step-AllDue a s x.0 d)
        x.1

  -- When all that is expected, now or by the actions that follow, is due at some time, and the
  -- actions end with a clean-up at that time, then no promise waits any longer, and each promise
  -- that waited has been settled as often as it waited.
  pub settles_in_time :
      (p : ℕ) (actions : List (Action V)) (s : Expected V)
      → AllDue now s
      → All (Expires now) actions
      → let (out, q) =
          run same filter_params find_key filter_specs (actions ++ clean_up now ∷ []) s in
        (waits p q ≡ 0) × (waits p s ≤ settled p out)
  settles_in_time p actions s d x =
      let w = drained p actions s d x in
      let (a, b) =
        run-settled same filter_params find_key filter_specs filters p
          (actions ++ clean_up now ∷ []) s in
      (w, omega (arith, a, w))
