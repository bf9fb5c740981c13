-- ===== src/History/Manager/Gaps/Beside.antt =====
-- The gaps that `_findGaps` returns fit the array: `_addInterval` can take each.
use qtoggleserver.Base.{
  ℕ, ◌≤◌, ◌<◌, inl, inr, List, [], ◌∷◌, arith, ltb, leb, All, All-map, All-map₂, Bool-cases, ltb→lt,
  ltb→le,
}
use qtoggleserver.History.Interval.{Interval}
use qtoggleserver.History.Manager.{
  Gap, from_start_pos, to_stop_pos, holes, last_to, gaps_between, find_gaps,
}
use qtoggleserver.History.Manager.Gaps.{last_to-le}
use qtoggleserver.History.Manager.Chain.{Chain, Beside}

-- The gap does not begin or end earlier.
abbrev Later : ℕ → ℕ → Gap → Type 0
Later from to g = (from ≤ g.from) × (to ≤ g.to)

module _ {V : Type 0} where
  abbrev Fits : List (Interval V) → Gap → Type 0
  Fits is g = All (Beside g.from g.to) is

  after-Beside :
      (lo from to : ℕ) (is : List (Interval V)) → Chain lo is → to ≤ lo → All (Beside from to) is
  after-Beside lo from to [] c h = tt
  after-Beside lo from to (i ∷ is) c h =
      (inr (omega arith), after-Beside i.to from to is c.2 (omega (arith, c.1.nonempty)))

  before-Beside :
      (lo from to : ℕ) (i : Interval V) (is : List (Interval V))
      → Chain lo (i ∷ is)
      → last_to i is ≤ from
      → from ≤ to
      → All (Beside from to) (i ∷ is)
  unfolding last_to
  before-Beside lo from to i [] c h k = (inl (omega (arith, c.1.nonempty), omega arith), tt)
  before-Beside lo from to i (j ∷ is) c h k = (
    inl (
      omega (arith, c.1.nonempty, last_to-le lo i (j ∷ is) c),
      omega (arith, last_to-le lo i (j ∷ is) c),
    ),
    before-Beside i.to from to j is c.2 h k,
  )

  holes-Later :
      (lo to : ℕ) (i : Interval V) (is : List (Interval V))
      → Chain lo (i ∷ is)
      → All (Later i.to i.to) (holes (to_stop_pos to (i ∷ is)))
  unfolding holes to_stop_pos
  holes-Later lo to i [] c = elim (Bool-cases (ltb i.to to)) [ inl e ↦ rw e tt | inr e ↦ rw e tt ]
  holes-Later lo to i (j ∷ is) c = elim (Bool-cases (ltb i.to to)) [
    | inl e ↦ elim (Bool-cases (ltb j.to to)) [
      | inl e' ↦
          let rest : All (Later i.to i.to) (holes (to_stop_pos to (j ∷ is))) =
            All-map (holes (to_stop_pos to (j ∷ is)))
              (λ g l. (omega (arith, c.2.1.nonempty), omega (arith, c.2.1.nonempty)))
              (holes-Later i.to to j is c.2) in
          rw (e, e') ((omega arith, omega arith), rw e' at rest)
      | inr e' ↦ rw (e, e') tt
    ]
    | inr e ↦ rw e tt
  ]

  holes-Fits :
      (lo to : ℕ) (i : Interval V) (is : List (Interval V))
      → Chain lo (i ∷ is)
      → All (Fits (i ∷ is)) (holes (to_stop_pos to (i ∷ is)))
  unfolding holes to_stop_pos
  holes-Fits lo to i [] c = elim (Bool-cases (ltb i.to to)) [ inl e ↦ rw e tt | inr e ↦ rw e tt ]
  holes-Fits lo to i (j ∷ is) c = elim (Bool-cases (ltb i.to to)) [
    | inl e ↦ elim (Bool-cases (ltb j.to to)) [
      | inl e' ↦
          let rest : All (Fits (i ∷ j ∷ is)) (holes (to_stop_pos to (j ∷ is))) =
            All-map₂ (holes (to_stop_pos to (j ∷ is)))
              (λ g l f. (
                inl (omega (arith, c.1.nonempty, c.2.1.nonempty), omega (arith, c.2.1.nonempty)),
                f,
              ))
              (holes-Later i.to to j is c.2) (holes-Fits i.to to j is c.2) in
          rw (e, e')
            (
              (
                inl (c.1.nonempty, omega arith),
                after-Beside j.from i.to j.from (j ∷ is) (omega arith, c.2.1, c.2.2) (omega arith),
              ),
              rw e' at rest,
            )
      | inr e' ↦ rw (e, e') tt
    ]
    | inr e ↦ rw e tt
  ]

  -- The gaps found from an interval on that begins at or after `from`.
  here-Later :
      (lo from to : ℕ) (i : Interval V) (is : List (Interval V))
      → Chain lo (i ∷ is)
      → from ≤ i.from
      → All (Later from i.from) (gaps_between from to (i ∷ is))
  unfolding gaps_between
  here-Later lo from to i is c h =
      let rest : All (Later from i.from) (holes (to_stop_pos to (i ∷ is))) =
        All-map (holes (to_stop_pos to (i ∷ is)))
          (λ g l. (omega (arith, c.1.nonempty), omega (arith, c.1.nonempty)))
          (holes-Later lo to i is c) in
      elim (Bool-cases (ltb from i.from)) [
        | inl e ↦ rw e ((omega arith, omega arith), rest)
        | inr e ↦ rw e rest
      ]

  here-Fits :
      (lo from to : ℕ) (i : Interval V) (is : List (Interval V))
      → Chain lo (i ∷ is)
      → All (Fits (i ∷ is)) (gaps_between from to (i ∷ is))
  unfolding gaps_between
  here-Fits lo from to i is c = elim (Bool-cases (ltb from i.from)) [
    | inl e ↦ rw e (
      after-Beside i.from from i.from (i ∷ is) (omega arith, c.1, c.2) (omega arith),
      holes-Fits lo to i is c,
    )
    | inr e ↦ rw e (holes-Fits lo to i is c)
  ]

  start-Later :
      (lo from to : ℕ) (is : List (Interval V))
      → Chain lo is
      → All (Later from lo) (gaps_between from to (from_start_pos from is))
  unfolding from_start_pos
  start-Later lo from to [] c = unfold gaps_between in tt
  start-Later lo from to (i ∷ is) c = elim (Bool-cases (ltb i.from from)) [
    | inl e ↦ rw e (
        All-map (gaps_between from to (from_start_pos from is))
          (λ g l. (l.0, omega (arith, c.1.nonempty))) (start-Later i.to from to is c.2))
    | inr e ↦ rw e (
        All-map (gaps_between from to (i ∷ is)) (λ g l. (l.0, omega arith))
          (here-Later lo from to i is c (ltb→le i.from from e)))
  ]

  start-Fits :
      (lo from to : ℕ) (is : List (Interval V))
      → Chain lo is
      → All (Fits is) (gaps_between from to (from_start_pos from is))
  unfolding from_start_pos
  start-Fits lo from to [] c = unfold gaps_between in tt
  start-Fits lo from to (i ∷ is) c = elim (Bool-cases (ltb i.from from)) [
    | inl e ↦ rw e (
        All-map₂ (gaps_between from to (from_start_pos from is))
          (λ g l f. (inl (omega (arith, ltb→lt i.from from e), l.1), f))
          (start-Later i.to from to is c.2) (start-Fits i.to from to is c.2))
    | inr e ↦ rw e (here-Fits lo from to i is c)
  ]

  -- For an ordered array and a range that is not empty, every gap of the range lies beside every
  -- interval in the way that `_addInterval` needs: the interval begins before the gap and does not
  -- end after it, or begins no earlier than the gap ends.
  pub find_gaps-Beside :
      (from to : ℕ) (is : List (Interval V))
      → Chain 0 is
      → from < to
      → All (λ g. All (Beside g.from g.to) is) (find_gaps from to is)
  unfolding find_gaps
  find_gaps-Beside from to [] c h = (tt, tt)
  find_gaps-Beside from to (i ∷ is) c h = elim (Bool-cases (leb to i.from)) [
    | inl e ↦ rw e (after-Beside i.from from to (i ∷ is) (omega arith, c.1, c.2) (ground arith), tt)
    | inr e ↦ elim (Bool-cases (leb (last_to i is) from)) [
      | inl e' ↦ rw (e, e') (before-Beside 0 from to i is c (ground arith) (omega arith), tt)
      | inr e' ↦ rw (e, e') (start-Fits 0 from to (i ∷ is) c)
    ]
  ]
