-- ===== src/Notifications/Expected/Account.antt =====
-- The waits of a promise for expected events, each with its end.
use qtoggleserver.Base.{
  ℕ, ◌+◌, ◌≡◌, Bool, Option, none, some, List, [], ◌∷◌, ◌++◌, arith, ◌==◌, if◌then◌else◌, String,
  get_value, change_value, inl, inr, Bool-cases, Option-cases,
}
use qtoggleserver.Notifications.Expected.{
  handled, faked, EventSpec, Expected, wait_expected_event, lookup_expected_event_handle,
  handle_server_event, fake_server_event, Action, expect, unexpect, wait_for, receive, fake_event,
  clean_up, step, run,
}
use qtoggleserver.Notifications.Expected.Settle.{
  Filters, settled, waits_in, waits, times-append, settled-append, match-settled, expect-waits,
  unexpect-settled, cleanup-settled,
}
use qtoggleserver.Notifications.Expected.Match.{Finds}
use qtoggleserver.Notifications.Expected.Handles.{IsNumbered, step-IsNumbered}

module _ {V : Type 0} (p : ℕ) where
  waits-push :
      (q handle : ℕ) (specs : List (ℕ × EventSpec V)) (found : EventSpec V)
      → get_value ◌==◌ handle specs ≡ some found
      → waits_in p (
          change_value ◌==◌ handle
            (λ (spec : EventSpec V). record spec { handlers = spec.handlers ++ q ∷ [] })
            specs)
        ≡ waits_in p specs + (if q == p then 1 else 0)
  unfolding waits_in
  waits-push q handle [] found g = absurd (cc)
  waits-push q handle ((h, spec) ∷ rest) found g = elim (Bool-cases (h == handle)) [
    | inl e ↦ rw e (omega (arith, times-append p spec.handlers q))
    | inr e ↦ rw e (omega (arith, waits-push q handle rest found (rw e at g)))
  ]

module _ {V : Type 0} (same : V → V → Bool)
    (filter_params : (String → V → Bool) → List (String × V) → List (String × V))
    (find_key : (EventSpec V → Bool) → List (ℕ × EventSpec V) → Option ℕ)
    (filter_specs : (ℕ → EventSpec V → Bool) → List (ℕ × EventSpec V) → List (ℕ × EventSpec V))
    (p : ℕ) where
  -- A wait of the promise, when an event like that is expected.
  unfoldable pub begins : Action V → Expected V → ℕ
  begins (expect type params timeout now) s = 0
  begins (unexpect handle) s = 0
  begins (wait_for type params promise) s =
      elim (lookup_expected_event_handle same filter_params find_key type params s) [
        | none ↦ 0
        | some handle ↦ if promise == p then 1 else 0
      ]
  begins (receive e) s = 0
  begins (fake_event e) s = 0
  begins (clean_up now) s = 0

  -- The waits of the promise that begin in a run.
  unfoldable pub begun : List (Action V) → Expected V → ℕ
  unfolding begins
  begun [] s = 0
  begun (a ∷ rest) s = begins a s + begun rest (step same filter_params find_key filter_specs a s).1

  module _ (finds : Finds find_key) (filters : Filters filter_specs) where
    wait-begins :
        (type : String) (params : List (String × V)) (q : ℕ) (s : Expected V)
        → IsNumbered s
        → let (out, t) = step same filter_params find_key filter_specs (wait_for type params q) s in
          settled p out + waits p t ≡ waits p s + begins (wait_for type params q) s
    unfolding step wait_expected_event waits begins settled IsNumbered lookup_expected_event_handle
    wait-begins type params q s u =
        elim (Option-cases
          (lookup_expected_event_handle same filter_params find_key type params s)) [
            | inr n ↦ rw (n, step, wait_expected_event, begins) (omega arith)
            | inl (handle, n) ↦
                let (spec, g, m) = finds.hit _ s.specs handle u.1 n in
                rw (n, step, wait_expected_event, begins)
                  (omega (arith, waits-push p q handle s.specs spec g))
          ]

    step-begins :
        (a : Action V) (s : Expected V)
        → IsNumbered s
        → let (out, t) = step same filter_params find_key filter_specs a s in
          settled p out + waits p t ≡ waits p s + begins a s
    unfolding step begins settled handle_server_event fake_server_event
    step-begins (expect type params timeout now) s u =
        let e =
          expect-waits same filter_params find_key filter_specs filters p type params timeout now
            s in
        omega (arith, e)
    step-begins (unexpect handle) s u =
        omega (arith, unexpect-settled same filter_params find_key filter_specs filters p handle s)
    step-begins (wait_for type params q) s u = wait-begins type params q s u
    step-begins (receive e) s u =
        omega
          (arith, match-settled same filter_params find_key filter_specs filters p (handled e) s)
    step-begins (fake_event e) s u =
        omega (arith, match-settled same filter_params find_key filter_specs filters p (faked e) s)
    step-begins (clean_up now) s u =
        omega (arith, cleanup-settled same filter_params find_key filter_specs filters p now s)

    -- Whatever events are expected, received, no longer expected or timed out, in whichever order,
    -- from a state where no handle stands twice or is greater than the last one given out: a promise
    -- that waits is neither forgotten nor settled twice. Its waits at the start, and those that it
    -- begins while an event like the one it waits for is expected, are as many as its settlings and
    -- the waits that are left.
    pub run-balances :
        (actions : List (Action V)) (s : Expected V)
        → IsNumbered s
        → let (out, q) = run same filter_params find_key filter_specs actions s in
          settled p out + waits p q ≡ waits p s + begun actions s
    unfolding run begun settled
    run-balances [] s u = omega arith
    run-balances (a ∷ rest) s u =
        let t = step same filter_params find_key filter_specs a s in
        let later =
          run-balances rest t.1
            (step-IsNumbered same filter_params find_key filter_specs filters a s u) in
        omega (
          arith,
          step-begins a s u,
          later,
          settled-append p t.0 (run same filter_params find_key filter_specs rest t.1).0,
        )
