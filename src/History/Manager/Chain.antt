-- ===== src/History/Manager/Chain.antt =====
-- The array of intervals is kept in order and without overlap, and `_addInterval` adds just the
-- time of its interval.
use qtoggleserver.Base.{
  ℕ, ◌≤◌, ◌<◌, ◌≡◌, refl, ◌∙◌, ◌⊎◌, inl, inr, Bool, false, ◌&&◌, ◌||◌, none, some, List, [], ◌∷◌,
  arith, ltb, leb, All, Bool-cases, ltb→lt, ltb→le,
}
use qtoggleserver.History.Interval.{Interval, join_samples, try_merge}
use qtoggleserver.History.Interval.Valid.{IsValid}
use qtoggleserver.History.Interval.Merge.{try_merge_lem, try_merge_comm}
use qtoggleserver.History.Manager.{
  bridge, place_between, place_last, place_first, place_after, add_interval,
}

module _ {V : Type 0} where
  -- The intervals are valid and in order, and none begins before the one before it ends.
  abbrev pub Chain : ℕ → List (Interval V) → Type 0
  Chain lo [] = Unit
  Chain lo (i ∷ is) = (lo ≤ i.from) × IsValid i × Chain i.to is

  abbrev pub holds : ℕ → Interval V → Bool
  holds t i = leb i.from t && ltb t i.to

  -- Whether a moment lies in one of the intervals.
  abbrev pub covered : ℕ → List (Interval V) → Bool
  covered t [] = false
  covered t (i ∷ is) = holds t i || covered t is

  -- An interval of the array begins earlier and does not end later, or begins at the end or later.
  abbrev pub Beside : ℕ → ℕ → Interval V → Type 0
  Beside from to i = ((i.from < from) × (i.to ≤ to)) ⊎ (to ≤ i.from)

  pub Chain-mono : (lo lo' : ℕ) (is : List (Interval V)) → lo' ≤ lo → Chain lo is → Chain lo' is
  Chain-mono lo lo' [] h c = tt
  Chain-mono lo lo' (i ∷ is) h c = (omega arith, c.1, c.2)

  pub covered_lower :
      (lo t : ℕ) (is : List (Interval V)) → Chain lo is → t < lo → covered t is ≡ false
  covered_lower lo t [] c h = refl
  covered_lower lo t (i ∷ is) c h = ground (arith, covered_lower i.to t is c.2, c.1.nonempty)

  -- What `tryMerge` does with an interval and one that starts later and does not end earlier.
  merge_cases :
      (i j : Interval V)
      → IsValid i
      → IsValid j
      → i.from ≤ j.from
      → i.to ≤ j.to
      → ((m : Interval V) × (try_merge i j ≡ some m)
          × IsValid m
          × (m.from ≡ i.from)
          × (m.to ≡ j.to)
          × (j.from ≤ i.to))
        ⊎ ((try_merge i j ≡ none) × (i.to < j.from))
  merge_cases i j v w p q =
      let (e, valid, _) = try_merge_lem i j v w p q in
      elim (Bool-cases (ltb i.to j.from)) [
        | inl h ↦ inr (ground arith, ltb→lt i.to j.from h)
        | inr h ↦ inl (
          record { from = i.from; to = j.to; samples = join_samples i j },
          ground arith,
          valid,
          refl,
          refl,
          ltb→le i.to j.from h,
        )
      ]

  -- The result of a placement: the chain holds from `lo` on, and the moments are those of `x`,
  -- `prev` and the rest.
  abbrev Placed : ℕ → List (Interval V) → List (Interval V) → Type 0
  Placed lo before after = Chain lo after × ((t : ℕ) → covered t after ≡ covered t before)

  bridge-Placed :
      (lo : ℕ) (prev next : Interval V) (rest : List (Interval V))
      → Chain lo (prev ∷ next ∷ rest)
      → Placed lo (prev ∷ next ∷ rest) (bridge prev next rest)
  unfolding bridge
  bridge-Placed lo prev next rest (p, v, (q, w, c)) =
      elim (merge_cases prev next v w (omega (arith, v.nonempty)) (omega (arith, w.nonempty))) [
        | inl (m, e, u, a, b, d) ↦
            rw (e, bridge) ((omega arith, u, rw b c), λ t. ground (arith, v.nonempty, w.nonempty))
        | inr (e, d) ↦ rw (e, bridge) ((p, v, (q, w, c)), λ t. refl)
      ]

  module _ (x : Interval V) (valid : IsValid x) where
    place_between-Placed :
        (lo : ℕ) (prev next : Interval V) (rest : List (Interval V))
        → Chain lo (prev ∷ next ∷ rest)
        → prev.from < x.from
        → prev.to ≤ x.to
        → x.to ≤ next.from
        → Placed lo (x ∷ prev ∷ next ∷ rest) (place_between x prev next rest)
    unfolding place_between
    place_between-Placed lo prev next rest (p, v, (q, w, c)) h k l =
        elim (merge_cases prev x v valid (omega arith) k) [
          | inl (m, e, u, a, b, d) ↦
              let (chain, same) =
                bridge-Placed lo m next rest (omega arith, u, (omega arith, w, c)) in
              rw (e, place_between)
                (chain, λ t. same t ∙ ground (arith, v.nonempty, valid.nonempty))
          | inr (e, d) ↦
              rw (e, place_between, try_merge_comm x next valid w l)
                (elim (merge_cases x next valid w (omega (arith, valid.nonempty))
                  (omega (arith, w.nonempty))) [
                    | inl (m, e', u, a, b, d') ↦
                        let (chain, same) =
                          bridge-Placed lo prev m rest (p, v, (omega arith, u, rw b c)) in
                        rw e' (chain, λ t. same t ∙ ground (arith, w.nonempty, valid.nonempty))
                    | inr (e', d') ↦
                        rw e' ((p, v, (omega arith, valid, (l, w, c))), λ t. ground arith)
                  ])
        ]

    place_last-Placed :
        (lo : ℕ) (last : Interval V)
        → Chain lo (last ∷ [])
        → last.from < x.from
        → last.to ≤ x.to
        → Placed lo (x ∷ last ∷ []) (place_last x last)
    unfolding place_last
    place_last-Placed lo last (p, v, c) h k = elim (merge_cases last x v valid (omega arith) k) [
      | inl (m, e, u, a, b, d) ↦
          rw (e, place_last) ((omega arith, u, tt), λ t. ground (arith, v.nonempty, valid.nonempty))
      | inr (e, d) ↦ rw (e, place_last) ((p, v, (omega arith, valid, tt)), λ t. ground arith)
    ]

    place_first-Placed :
        (lo : ℕ) (first : Interval V) (rest : List (Interval V))
        → Chain lo (first ∷ rest)
        → lo ≤ x.from
        → x.to ≤ first.from
        → Placed lo (x ∷ first ∷ rest) (place_first x first rest)
    unfolding place_first
    place_first-Placed lo first rest (p, v, c) h k =
        rw (try_merge_comm x first valid v k, place_first)
          (elim (merge_cases x first valid v (omega (arith, valid.nonempty))
            (omega (arith, v.nonempty))) [
              | inl (m, e, u, a, b, d) ↦
                  rw e ((omega arith, u, rw b c), λ t. ground (arith, v.nonempty, valid.nonempty))
              | inr (e, d) ↦ rw e ((h, valid, (k, v, c)), λ t. refl)
            ])

    place_after-Placed :
        (lo : ℕ) (prev : Interval V) (rest : List (Interval V))
        → Chain lo (prev ∷ rest)
        → prev.from < x.from
        → prev.to ≤ x.to
        → All (Beside x.from x.to) rest
        → Placed lo (x ∷ prev ∷ rest) (place_after x prev rest)
    unfolding place_after
    place_after-Placed lo prev [] c h k b = place_last-Placed lo prev c h k
    place_after-Placed lo prev (next ∷ rest) c h k b = elim (Bool-cases (ltb next.from x.from)) [
      | inl e ↦
          let (chain, same) =
            place_after-Placed prev.to next rest c.2 (ltb→lt next.from x.from e)
              (ground (arith, valid.nonempty)) b.1 in
          rw e ((c.0, c.1, chain), λ t. ground (arith, same t))
      | inr e ↦ rw e (place_between-Placed lo prev next rest c h k (ground arith))
    ]

  -- Where each interval of an ordered array either begins before `x` and does not end after it, or
  -- begins no earlier than `x` ends, `_addInterval` leaves an ordered array, and the moments that it
  -- covers are those that were covered and those of `x`.
  pub add_interval-Chain :
      (x : Interval V) (is : List (Interval V))
      → IsValid x
      → Chain 0 is
      → All (Beside x.from x.to) is
      → Chain 0 (add_interval x is)
        × ((t : ℕ) → covered t (add_interval x is) ≡ (holds t x || covered t is))
  unfolding add_interval
  add_interval-Chain x [] v c b = ((omega arith, v, tt), λ t. refl)
  add_interval-Chain x (first ∷ rest) v c b = elim (Bool-cases (ltb first.from x.from)) [
    | inl e ↦ rw e (
        place_after-Placed x v 0 first rest c (ltb→lt first.from x.from e)
          (ground (arith, v.nonempty)) b.1)
    | inr e ↦
        rw e (place_first-Placed x v 0 first rest c (omega arith) (ground (arith, v.nonempty)))
  ]
