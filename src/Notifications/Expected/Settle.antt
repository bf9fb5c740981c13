-- ===== src/Notifications/Expected/Settle.antt =====
-- How often the promises that wait for expected events are settled.
use qtoggleserver.Base.{
  ℕ, ◌+◌, ◌≡◌, refl, Bool, not, Option, none, some, List, [], ◌∷◌, ◌++◌, arith, ◌==◌, ◌≤◌,
  if◌then◌else◌, String, filter, get_value, delete_key, change_value, inl, inr, Bool-cases,
  Option-cases,
}
use qtoggleserver.Notifications.Expected.{
  Event, EventSpec, Expected, Outcome, settle, settle_all, expect_event, unexpect_event,
  try_match_expected_event, wait_expected_event, lookup_expected_event_handle, is_expired,
  cleanup_expected_events, no_longer_expected, timed_out, event, Action, expect, unexpect, wait_for,
  receive, fake_event, clean_up, step, run, handle_server_event, fake_server_event, handled, faked,
}

-- How often a promise stands in a list of handlers.
unfoldable pub times : ℕ → List ℕ → ℕ
times p [] = 0
times p (h ∷ hs) = (if h == p then 1 else 0) + times p hs

pub times-append :
    (p : ℕ) (xs : List ℕ) (q : ℕ) → times p (xs ++ q ∷ []) ≡ times p xs + (if q == p then 1 else 0)
unfolding times
times-append p [] q = omega arith
times-append p (x ∷ xs) q = omega (arith, times-append p xs q)

module _ {V : Type 0} where
  -- How often a promise has been settled.
  unfoldable pub settled : ℕ → List (ℕ × Outcome V) → ℕ
  settled p [] = 0
  settled p ((h, o) ∷ rest) = (if h == p then 1 else 0) + settled p rest

  unfoldable pub waits_in : ℕ → List (ℕ × EventSpec V) → ℕ
  unfolding times
  waits_in p [] = 0
  waits_in p ((handle, spec) ∷ rest) = times p spec.handlers + waits_in p rest

  -- How often a promise waits for an expected event.
  unfoldable pub waits : ℕ → Expected V → ℕ
  unfolding waits_in
  waits p s = waits_in p s.specs

  pub settled-append :
      (p : ℕ) (xs ys : List (ℕ × Outcome V)) → settled p (xs ++ ys) ≡ settled p xs + settled p ys
  unfolding settled
  settled-append p [] ys = omega arith
  settled-append p ((h, o) ∷ xs) ys = omega (arith, settled-append p xs ys)

  settled-settle : (p : ℕ) (o : Outcome V) (hs : List ℕ) → settled p (settle o hs) ≡ times p hs
  unfolding settled settle times
  settled-settle p o [] = refl
  settled-settle p o (h ∷ hs) = omega (arith, settled-settle p o hs)

  waits-delete :
      (p handle : ℕ) (o : Outcome V) (specs : List (ℕ × EventSpec V))
      → settled p
            (elim (get_value ◌==◌ handle specs) [ none ↦ [] | some spec ↦ settle o spec.handlers ])
          + waits_in p (delete_key ◌==◌ handle specs)
        ≡ waits_in p specs
  unfolding settled waits_in
  waits-delete p handle o [] = refl
  waits-delete p handle o ((h, spec) ∷ rest) = elim (Bool-cases (h == handle)) [
    | inl e ↦ rw e (omega (arith, settled-settle p o spec.handlers))
    | inr e ↦ rw e (omega (arith, waits-delete p handle o rest))
  ]

  settled-settle_all :
      (p : ℕ) (o : Outcome V) (now : ℕ) (specs : List (ℕ × EventSpec V))
      → settled p (settle_all o (filter (λ e. is_expired now e.0 e.1) specs))
          + waits_in p (filter (λ e. not (is_expired now e.0 e.1)) specs)
        ≡ waits_in p specs
  unfolding settled settle_all waits_in
  settled-settle_all p o now [] = refl
  settled-settle_all p o now ((h, spec) ∷ rest) = elim (Bool-cases (is_expired now h spec)) [
    | inl e ↦ rw e (
        omega (
          arith,
          settled-append p (settle o spec.handlers)
              (settle_all o (filter (λ e. is_expired now e.0 e.1) rest)),
          settled-settle p o spec.handlers,
          settled-settle_all p o now rest,
        ))
    | inr e ↦ rw e (omega (arith, settled-settle_all p o now rest))
  ]

  waits-append :
      (p : ℕ) (xs ys : List (ℕ × EventSpec V))
      → waits_in p (xs ++ ys) ≡ waits_in p xs + waits_in p ys
  unfolding waits_in
  waits-append p [] ys = omega arith
  waits-append p ((h, spec) ∷ xs) ys = omega (arith, waits-append p xs ys)

  waits-change :
      (p q handle : ℕ) (specs : List (ℕ × EventSpec V))
      → let changed = waits_in p (
          change_value ◌==◌ handle
            (λ (spec : EventSpec V). record spec { handlers = spec.handlers ++ q ∷ [] })
            specs) in
        (waits_in p specs ≤ changed) × (changed ≤ waits_in p specs + (if q == p then 1 else 0))
  unfolding waits_in
  waits-change p q handle [] = (omega arith, omega arith)
  waits-change p q handle ((h, spec) ∷ rest) = elim (Bool-cases (h == handle)) [
    | inl e ↦ rw e (
      omega (arith, times-append p spec.handlers q),
      omega (arith, times-append p spec.handlers q),
    )
    | inr e ↦ let (a, b) = waits-change p q handle rest in rw e (omega (arith, a), omega (arith, b))
  ]

-- The waits for events that are made for the promise.
unfoldable pub asks : {V : Type 0} → ℕ → Action V → ℕ
asks p (expect type params timeout now) = 0
asks p (unexpect handle) = 0
asks p (wait_for type params promise) = if promise == p then 1 else 0
asks p (receive e) = 0
asks p (fake_event e) = 0
asks p (clean_up now) = 0

unfoldable pub asked : {V : Type 0} → ℕ → List (Action V) → ℕ
unfolding asks
asked p [] = 0
asked p (a ∷ rest) = asks p a + asked p rest

-- What the code relies on of `ObjectUtils.filter`: the entries for which the function is true are
-- kept, in their order.
pub record Filters {K A : Type 0} (filters : (K → A → Bool) → List (K × A) → List (K × A))
    : Type 0 where
  pub kept : (f : K → A → Bool) (o : List (K × A)) → filters f o ≡ filter (λ e. f e.0 e.1) o

module _ {V : Type 0} (same : V → V → Bool)
    (filter_params : (String → V → Bool) → List (String × V) → List (String × V))
    (find_key : (EventSpec V → Bool) → List (ℕ × EventSpec V) → Option ℕ)
    (filter_specs : (ℕ → EventSpec V → Bool) → List (ℕ × EventSpec V) → List (ℕ × EventSpec V))
    (filters : Filters filter_specs) (p : ℕ) where
  pub match-settled :
      (e : Event V) (s : Expected V)
      → let m = try_match_expected_event same filter_params find_key e s in
        settled p m.1.0 + waits p m.1.1 ≡ waits p s
  unfolding try_match_expected_event waits settled
  match-settled e s =
      elim (Option-cases
        (lookup_expected_event_handle same filter_params find_key e.type e.params s)) [
          | inr n ↦ rw (n, try_match_expected_event) (omega arith)
          | inl (handle, n) ↦
              rw (n, try_match_expected_event) (waits-delete p handle (event e) s.specs)
        ]

  pub expect-waits :
      (type : Option String) (params : Option (List (String × V))) (timeout : Option ℕ) (now : ℕ)
      (s : Expected V)
      → waits p (expect_event type params timeout now s).1 ≡ waits p s
  unfolding expect_event waits waits_in times
  expect-waits type params timeout now s = omega (arith, waits-append p s.specs)

  pub unexpect-settled :
      (handle : ℕ) (s : Expected V)
      → settled p (unexpect_event handle s).0 + waits p (unexpect_event handle s).1 ≡ waits p s
  unfolding unexpect_event waits
  unexpect-settled handle s = waits-delete p handle no_longer_expected s.specs

  pub cleanup-settled :
      (now : ℕ) (s : Expected V)
      → let (out, q) = cleanup_expected_events filter_specs now s in
        settled p out + waits p q ≡ waits p s
  unfolding cleanup_expected_events waits
  cleanup-settled now s =
      rw (filters.kept (λ handle spec. not (is_expired now handle spec)) s.specs)
        (settled-settle_all p timed_out now s.specs)

  wait-waits :
      (type : String) (params : List (String × V)) (q : ℕ) (s : Expected V)
      → let t = step same filter_params find_key filter_specs (wait_for type params q) s in
        (t.0 ≡ [])
        × (waits p s ≤ waits p t.1)
        × (waits p t.1 ≤ waits p s + (if q == p then 1 else 0))
  unfolding step wait_expected_event waits
  wait-waits type params q s =
      elim (Option-cases (lookup_expected_event_handle same filter_params find_key type params s)) [
        | inr n ↦ rw (n, step, wait_expected_event) (refl, omega arith, omega arith)
        | inl (handle, n) ↦
            let (a, b) = waits-change p q handle s.specs in
            rw (n, step, wait_expected_event) (refl, a, b)
      ]

  step-settled :
      (a : Action V) (s : Expected V)
      → let (out, q) = step same filter_params find_key filter_specs a s in
        (waits p s ≤ settled p out + waits p q) × (settled p out + waits p q ≤ waits p s + asks p a)
  unfolding step asks settled handle_server_event fake_server_event
  step-settled (expect type params timeout now) s =
      let e = expect-waits type params timeout now s in (omega (arith, e), omega (arith, e))
  step-settled (unexpect handle) s =
      let e = unexpect-settled handle s in (omega (arith, e), omega (arith, e))
  step-settled (wait_for type params promise) s =
      let (n, a, b) = wait-waits type params promise s in rw n (omega (arith, a), omega (arith, b))
  step-settled (receive e) s =
      let m = match-settled (handled e) s in (omega (arith, m), omega (arith, m))
  step-settled (fake_event e) s =
      let m = match-settled (faked e) s in (omega (arith, m), omega (arith, m))
  step-settled (clean_up now) s =
      let e = cleanup-settled now s in (omega (arith, e), omega (arith, e))

  -- Whatever happens, in whichever order: the waits of a promise and its settlings are together at
  -- least as many as there were waits, and at most as many as there were with the calls of
  -- `waitExpectedEvent` for it.
  pub run-settled :
      (actions : List (Action V)) (s : Expected V)
      → let (out, q) = run same filter_params find_key filter_specs actions s in
        (waits p s ≤ settled p out + waits p q)
        × (settled p out + waits p q ≤ waits p s + asked p actions)
  unfolding run asked settled
  run-settled [] s = (omega arith, omega arith)
  run-settled (a ∷ rest) s =
      let t = step same filter_params find_key filter_specs a s in
      let (b, c) = step-settled a s in
      let (d, e) = run-settled rest t.1 in
      let f = settled-append p t.0 (run same filter_params find_key filter_specs rest t.1).0 in
      (omega (arith, b, d, f), omega (arith, c, e, f))
