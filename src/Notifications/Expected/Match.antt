-- ===== src/Notifications/Expected/Match.antt =====
-- Which events are expected, and what becomes of one that is.
use mathlib.Core.Path.{subst}
use mathlib.Core.Bool.{false≢true}
use qtoggleserver.Base.{
  ℕ, ◌≡◌, ◌⊎◌, ◌↔◌, refl, sym, ◌∙◌, Bool, true, false, Option, none, some, List, [], ◌∷◌, map,
  arith, ◌==◌, String, filter, All, All-map, get_value, delete_key, inl, inr, Bool-cases,
  Option-cases,
}
use text.Mathlib.Text.{◌==◌ as str_eq}
use text.Mathlib.TextEquality.{eq_iff}
use qtoggleserver.Notifications.Expected.{
  Event, EventSpec, Expected, settle, event, differs, is_empty, type_matches, matches,
  lookup_expected_event_handle, handle_server_event, mark, try_match_expected_event,
}
use qtoggleserver.Notifications.Expected.Settle.{Filters}
use qtoggleserver.Notifications.Expected.Keys.{Distinct}

-- What the code relies on of `ObjectUtils.findKey`: it finds a key whose value passes the test, if
-- there is one. Keys of an object are distinct.
pub record Finds {A : Type 0} (find_key : (A → Bool) → List (ℕ × A) → Option ℕ) : Type 0 where
  pub hit :
      (f : A → Bool) (o : List (ℕ × A)) (k : ℕ)
      → Distinct o
      → find_key f o ≡ some k
      → (a : A) × (get_value ◌==◌ k o ≡ some a) × (f a ≡ true)
  pub miss :
      (f : A → Bool) (o : List (ℕ × A))
      → Distinct o
      → find_key f o ≡ none
      → All (λ e. f e.1 ≡ false) o

module _ {V : Type 0} (same : V → V → Bool) where
  -- The event has the parameter, with the same value.
  unfoldable pub Has : List (String × V) → String × V → Type 0
  Has params (key, value) = (v : V) × (get_value str_eq key params ≡ some v) × (same v value ≡ true)

  unfoldable pub Agrees : String → List (String × V) → EventSpec V → Type 0
  unfolding Has
  Agrees type params spec =
      (elim spec.type [ none ↦ Unit | some t ↦ t ≡ type ])
      × (elim spec.params [ none ↦ Unit | some ps ↦ All (Has params) ps ])

  differs-Has :
      (params : List (String × V)) (key : String) (value : V)
      → differs same params key value ≡ false
      → Has params (key, value)
  unfolding differs Has
  differs-Has params key value e = elim (Option-cases (get_value str_eq key params)) [
    | inr n ↦ ground (arith, n)
    | inl (v, n) ↦ (v, n, ground (arith, n))
  ]

  Has-differs :
      (params : List (String × V)) (key : String) (value : V)
      → Has params (key, value)
      → differs same params key value ≡ false
  unfolding differs Has
  Has-differs params key value (v, e, h) = rw (e, differs) rw h refl

  none_differ :
      (params ps : List (String × V))
      → is_empty (filter (λ e. differs same params e.0 e.1) ps) ≡ true
      → All (Has params) ps
  unfolding is_empty
  none_differ params [] h = tt
  none_differ params ((k, v) ∷ ps) h = elim (Bool-cases (differs same params k v)) [
    | inl e ↦ ground (arith, e)
    | inr e ↦ (differs-Has params k v e, none_differ params ps (ground (arith, e)))
  ]

  none_differ_back :
      (params ps : List (String × V))
      → All (Has params) ps
      → is_empty (filter (λ e. differs same params e.0 e.1) ps) ≡ true
  unfolding is_empty
  none_differ_back params [] h = refl
  none_differ_back params ((k, v) ∷ ps) h =
      rw (Has-differs params k v h.0) (none_differ_back params ps h.1)

  module _ (filter_params : (String → V → Bool) → List (String × V) → List (String × V))
      (filters : Filters filter_params) where
    params_back :
        (params : List (String × V)) (o : Option (List (String × V)))
        → (elim o as (λ o. Type 0) [ none ↦ Unit | some ps ↦ All (Has params) ps ])
        → (elim o as (λ o. Bool) [
          | none ↦ true
          | some ps ↦ is_empty (filter_params (differs same params) ps)
        ])
          ≡ true
    params_back params none h = refl
    params_back params (some ps) h =
        rw (filters.kept (differs same params) ps) (none_differ_back params ps h)

    type_test :
        (type : String) (params : List (String × V)) (spec : EventSpec V) (t : String)
        → matches same filter_params type params spec ≡ true
        → spec.type ≡ some t
        → str_eq t type ≡ true
    unfolding matches type_matches
    type_test type params spec t h n = ground (arith, h, n)

    params_test :
        (type : String) (params : List (String × V)) (spec : EventSpec V) (ps : List (String × V))
        → matches same filter_params type params spec ≡ true
        → spec.params ≡ some ps
        → is_empty (filter (λ e. differs same params e.0 e.1) ps) ≡ true
    unfolding matches
    params_test type params spec ps h n =
        rw (sym (filters.kept (differs same params) ps)) (ground (arith, h, n))

    named :
        {type : String} (o : Option String) (t : String)
        → o ≡ some t
        → (elim o as (λ o. Type 0) [ none ↦ Unit | some u ↦ u ≡ type ])
        → t ≡ type
    named {type} o t n h =
        subst (λ o. elim o as (λ o. Type 0) [ none ↦ Unit | some u ↦ u ≡ type ]) n h

    -- An expected event is met by those events that have its type, if it names one, and each of
    -- its parameters, if it lists any, with the same value.
    pub matches_iff :
        (type : String) (params : List (String × V)) (spec : EventSpec V)
        → (matches same filter_params type params spec ≡ true) ↔ Agrees type params spec
    unfolding matches type_matches Agrees
    matches_iff type params spec = (
      λ h. (
        elim (Option-cases spec.type) [
          | inr n ↦ rw n tt
          | inl (t, n) ↦ rw n ((eq_iff t type).0 (type_test type params spec t h n))
        ],
        elim (Option-cases spec.params) [
          | inr n ↦ rw n tt
          | inl (ps, n) ↦ rw n (none_differ params ps (params_test type params spec ps h n))
        ],
      ),
      λ h. elim (Option-cases spec.type) [
        | inr n ↦ rw (n, matches, type_matches) (params_back params spec.params h.1)
        | inl (t, n) ↦
            rw (n, matches, type_matches) rw ((eq_iff t type).1 (named spec.type t n h.0))
              (params_back params spec.params h.1)
      ],
    )

    module _ (find_key : (EventSpec V → Bool) → List (ℕ × EventSpec V) → Option ℕ)
        (finds : Finds find_key) where
      try_match-hit :
          (e : Event V) (s : Expected V) (handle : ℕ) (spec : EventSpec V)
          → lookup_expected_event_handle same filter_params find_key e.type e.params s ≡ some handle
          → get_value ◌==◌ handle s.specs ≡ some spec
          → try_match_expected_event same filter_params find_key e s ≡ (
            some handle,
            (settle (event e) spec.handlers, record s { specs = delete_key ◌==◌ handle s.specs }),
          )
      unfolding try_match_expected_event
      try_match-hit e s handle spec n g = rw (n, try_match_expected_event) rw g refl

      try_match-miss :
          (e : Event V) (s : Expected V)
          → lookup_expected_event_handle same filter_params find_key e.type e.params s ≡ none
          → try_match_expected_event same filter_params find_key e s ≡ (none, ([], s))
      unfolding try_match_expected_event
      try_match-miss e s n = rw (n, try_match_expected_event) refl

      -- The event that the server sends meets an expected event: that one is expected no longer,
      -- the promises that wait for it are settled with the event, and they and the listeners see the
      -- event marked as expected. Or it meets none, and then nothing is settled and the event is as it
      -- was. The listeners are called either way, each once and in order.
      pub handle_server_event_lem :
          {C : Type 0} (e : Event V) (listeners : List C) (s : Expected V)
          → Distinct s.specs
          → let (calls, (out, q)) = handle_server_event same filter_params find_key e listeners s in
            ((handle : ℕ) × (spec : EventSpec V) × (get_value ◌==◌ handle s.specs ≡ some spec)
              × Agrees e.type e.params spec
              × (out ≡ map (λ p. (p, event (record e { expected = true }))) spec.handlers)
              × (q.specs ≡ delete_key ◌==◌ handle s.specs)
              × (calls ≡ map (λ l. (l, record e { expected = true })) listeners))
            ⊎ (All (λ x. ¬ Agrees e.type e.params x.1) s.specs
                × (out ≡ [])
                × (q ≡ s)
                × (calls ≡ map (λ l. (l, e)) listeners))
      unfolding handle_server_event lookup_expected_event_handle mark settle
      handle_server_event_lem e listeners s d =
          elim (Option-cases (find_key (matches same filter_params e.type e.params) s.specs)) [
            | inl (handle, n) ↦
                let (spec, g, m) = finds.hit _ s.specs handle d n in
                rw
                  (
                    try_match-hit (record e { expected = true }) s handle spec n g,
                    handle_server_event,
                  )
                  (inl (handle, spec, g, (matches_iff e.type e.params spec).0 m, refl, refl, refl))
            | inr n ↦
                rw (try_match-miss (record e { expected = true }) s n, handle_server_event)
                  (inr (
                    All-map s.specs
                        (λ x f a. false≢true (sym f ∙ (matches_iff e.type e.params x.1).1 a))
                        (finds.miss _ s.specs d n),
                    refl,
                    refl,
                    refl,
                  ))
          ]
