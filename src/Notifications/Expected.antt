-- ===== src/Notifications/Expected.antt =====
-- The expected events and the event listeners of qtoggleserver/frontend/js/api/notifications.js.
-- `V` stands for the values of JavaScript and `same` for `===` on them. A handler of an expected
-- event settles one promise; a promise is a number here. The callers of `waitExpectedEvent` give
-- `params`. The two `filter_…` are `ObjectUtils.filter` and `find_key` is `ObjectUtils.findKey` of
-- the qui package.
pub mod Settle
pub mod Account
pub mod Match
pub mod Handles
pub mod Keys
pub mod Deadline
use qtoggleserver.Base.{
  ℕ, zero, suc, ◌+◌, ◌-◌, Bool, true, false, not, ◌||◌, ◌&&◌, Option, none, some, List, [], ◌∷◌,
  ◌++◌, map, ltb, leb, ◌==◌, if◌then◌else◌, String, length, filter, get_value, delete_key,
  change_value,
}
use text.Mathlib.Text.{◌==◌ as str_eq}

pub record Event (V : Type 0) : Type 0 where
  pub type : String
  pub params : List (String × V)
  pub session_id : Option String
  pub expected : Bool
  pub fake : Bool

-- `type` and `params` may be left out of what is expected.
pub record EventSpec (V : Type 0) : Type 0 where
  pub type : Option String
  pub params : Option (List (String × V))
  pub added : ℕ
  pub timeout : ℕ
  pub handlers : List ℕ

-- `expectedEventSpecs` and `expectedEventLastHandle`
pub record Expected (V : Type 0) : Type 0 where
  pub specs : List (ℕ × EventSpec V)
  pub last_handle : ℕ

-- What a handler is called with.
pub data Outcome (V : Type 0) : Type 0 where
  event : Event V → Outcome V
  no_longer_expected : Outcome V
  timed_out : Outcome V

abbrev pub default_expect_timeout : ℕ
default_expect_timeout = 60000

module _ {V : Type 0} where
  pub settle : Outcome V → List ℕ → List (ℕ × Outcome V)
  settle o handlers = map (λ p. (p, o)) handlers

  -- `expectEvent`. The new handle is the greatest key, so it comes last.
  unfoldable pub expect_event :
      Option String → Option (List (String × V)) → Option ℕ → ℕ → Expected V → ℕ × Expected V
  expect_event type params timeout now s =
      let handle = suc s.last_handle in
      (
        handle,
        record {
          last_handle = handle;
          specs =
              s.specs
              ++ (
                handle,
                record {
                  type = type;
                  params = params;
                  added = now;
                  timeout = elim timeout [ none ↦ default_expect_timeout | some t ↦ t ];
                  handlers = [];
                },
              )
                ∷ [];
        },
      )

  -- `unexpectEvent`
  unfoldable pub unexpect_event : ℕ → Expected V → List (ℕ × Outcome V) × Expected V
  unfolding settle
  unexpect_event handle s = (
    elim (get_value ◌==◌ handle s.specs) [
      | none ↦ []
      | some spec ↦ settle no_longer_expected spec.handlers
    ],
    record s { specs = delete_key ◌==◌ handle s.specs },
  )

  -- `params[key] !== value`
  unfoldable pub differs : (V → V → Bool) → List (String × V) → String → V → Bool
  differs same params key value = elim (get_value str_eq key params) [
    | none ↦ true
    | some v ↦ not (same v value)
  ]

  unfoldable pub is_empty : List (String × V) → Bool
  is_empty [] = true
  is_empty (x ∷ xs) = false

  -- `!eventSpec.type || eventSpec.type === type`
  unfoldable pub type_matches : String → EventSpec V → Bool
  type_matches type spec = elim spec.type [ none ↦ true | some t ↦ str_eq t type ]

  module _ (same : V → V → Bool)
      (filter_params : (String → V → Bool) → List (String × V) → List (String × V)) where
    -- The function that `lookupExpectedEventHandle` passes to `findKey`.
    unfoldable pub matches : String → List (String × V) → EventSpec V → Bool
    unfolding type_matches differs is_empty
    matches type params spec =
        if type_matches type spec
        then elim spec.params [
          | none ↦ true
          | some ps ↦ is_empty (filter_params (differs same params) ps)
        ]
        else false

  -- An event that meets an expected one, as it is once it has been handled.
  abbrev pub handled : Event V → Event V
  handled e = record e { expected = true }

  abbrev pub faked : Event V → Event V
  faked e = record e { expected = true; fake = true }

  -- `if (handle != null) event.expected = true`
  unfoldable pub mark : Option ℕ → Event V → Event V
  mark none e = e
  mark (some handle) e = record e { expected = true }

  module _ (same : V → V → Bool)
      (filter_params : (String → V → Bool) → List (String × V) → List (String × V))
      (find_key : (EventSpec V → Bool) → List (ℕ × EventSpec V) → Option ℕ) where
    unfoldable pub lookup_expected_event_handle : String → List (String × V) → Expected V → Option ℕ
    unfolding matches
    lookup_expected_event_handle type params s =
        find_key (matches same filter_params type params) s.specs

    -- `waitExpectedEvent` for a new promise, which is rejected at once when nothing is expected.
    unfoldable pub wait_expected_event :
        String → List (String × V) → ℕ → Expected V → Option (Expected V)
    unfolding lookup_expected_event_handle
    wait_expected_event type params promise s = elim (lookup_expected_event_handle type params s) [
      | none ↦ none
      | some handle ↦ some (record s {
        specs =
            change_value ◌==◌ handle
              (λ (spec : EventSpec V). record spec { handlers = spec.handlers ++ promise ∷ [] })
              s.specs;
      })
    ]

    -- `tryMatchExpectedEvent`
    unfoldable pub try_match_expected_event :
        Event V → Expected V → Option ℕ × (List (ℕ × Outcome V) × Expected V)
    unfolding lookup_expected_event_handle settle
    try_match_expected_event e s = elim (lookup_expected_event_handle e.type e.params s) [
      | none ↦ (none, ([], s))
      | some handle ↦ (
        some handle,
        (
          elim (get_value ◌==◌ handle s.specs) [
            | none ↦ []
            | some spec ↦ settle (event e) spec.handlers
          ],
          record s { specs = delete_key ◌==◌ handle s.specs },
        ),
      )
    ]

    -- `handleServerEvent` for a parsed event, and the listeners that it calls, each with a clone. The
    -- handlers get the event itself, and settle their promises after the listeners were called: with
    -- the event as it is then, marked as expected.
    unfoldable pub handle_server_event :
        {C : Type 0}
        → Event V
        → List C
        → Expected V
        → List (C × Event V) × (List (ℕ × Outcome V) × Expected V)
    unfolding try_match_expected_event mark
    handle_server_event e listeners s =
        let (handle, settled) = try_match_expected_event (handled e) s in
        let seen = mark handle e in (map (λ l. (l, seen)) listeners, settled)

    -- `fakeServerEvent`, with the event for the promises as in `handleServerEvent`.
    unfoldable pub fake_server_event :
        {C : Type 0}
        → Event V
        → List C
        → Expected V
        → List (C × Event V) × (List (ℕ × Outcome V) × Expected V)
    unfolding try_match_expected_event mark
    fake_server_event e listeners s =
        let (handle, settled) = try_match_expected_event (faked e) s in
        let seen = mark handle e in (map (λ l. (l, record seen { fake = true })) listeners, settled)

  unfoldable pub is_expired : ℕ → ℕ → EventSpec V → Bool
  is_expired now handle spec = ltb spec.timeout (now - spec.added)

  pub settle_all : Outcome V → List (ℕ × EventSpec V) → List (ℕ × Outcome V)
  unfolding settle
  settle_all o [] = []
  settle_all o ((handle, spec) ∷ rest) = settle o spec.handlers ++ settle_all o rest

  -- `cleanupExpectedEvents`: the function that is passed to `ObjectUtils.filter` is called for each
  -- entry in turn, and puts those that it does not keep into `expiredEventSpecs`.
  unfoldable pub cleanup_expected_events :
      ((ℕ → EventSpec V → Bool) → List (ℕ × EventSpec V) → List (ℕ × EventSpec V))
      → ℕ
      → Expected V
      → List (ℕ × Outcome V) × Expected V
  unfolding is_expired settle_all
  cleanup_expected_events filter_specs now s = (
    settle_all timed_out (filter (λ e. is_expired now e.0 e.1) s.specs),
    record s { specs = filter_specs (λ handle spec. not (is_expired now handle spec)) s.specs },
  )

-- `removeEventListener`, `same_callback` being `===` on functions.
unfoldable pub remove_event_listener : {C : Type 0} → (C → C → Bool) → C → List C → List C
remove_event_listener same_callback c [] = []
remove_event_listener same_callback c (l ∷ rest) =
    let later = remove_event_listener same_callback c rest in
    if same_callback l c then rest else l ∷ later

pub data Action (V : Type 0) : Type 0 where
  expect : Option String → Option (List (String × V)) → Option ℕ → ℕ → Action V
  unexpect : ℕ → Action V
  wait_for : String → List (String × V) → ℕ → Action V
  receive fake_event : Event V → Action V
  clean_up : ℕ → Action V

-- Anything that happens to the expected events, with the promises that it settles.
module _ {V : Type 0} (same : V → V → Bool)
    (filter_params : (String → V → Bool) → List (String × V) → List (String × V))
    (find_key : (EventSpec V → Bool) → List (ℕ × EventSpec V) → Option ℕ)
    (filter_specs : (ℕ → EventSpec V → Bool)
      → List (ℕ × EventSpec V)
      → List (ℕ × EventSpec V)) where
  unfoldable pub step : Action V → Expected V → List (ℕ × Outcome V) × Expected V
  step (expect type params timeout now) s = ([], (expect_event type params timeout now s).1)
  step (unexpect handle) s = unexpect_event handle s
  step (wait_for type params promise) s =
      elim (wait_expected_event same filter_params find_key type params promise s) [
        | none ↦ ([], s)
        | some q ↦ ([], q)
      ]
  step (receive e) s = (handle_server_event same filter_params find_key {C = ℕ} e [] s).1
  step (fake_event e) s = (fake_server_event same filter_params find_key {C = ℕ} e [] s).1
  step (clean_up now) s = cleanup_expected_events filter_specs now s

  unfoldable pub run : List (Action V) → Expected V → List (ℕ × Outcome V) × Expected V
  unfolding step
  run [] s = ([], s)
  run (a ∷ rest) s = let (first, q) = step a s in let (later, r) = run rest q in (first ++ later, r)
