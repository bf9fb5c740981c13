-- ===== src/History/Manager/Gaps/Reach.antt =====
-- Up to where `_findGaps` and the cached intervals cover the range that is asked for.
use qtoggleserver.Base.{
  ℕ, ◌≤◌, ◌<◌, ◌≡◌, refl, inl, inr, true, ◌&&◌, ◌||◌, List, [], ◌∷◌, arith, ltb, leb, if◌then◌else◌,
  max, Bool-cases,
}
use qtoggleserver.History.Interval.{Interval}
use qtoggleserver.History.Manager.{from_start_pos, to_stop_pos, holes, gaps_between, find_gaps}
use qtoggleserver.History.Manager.Chain.{Chain, covered}
use qtoggleserver.History.Manager.Gaps.{in_gaps}

module _ {V : Type 0} where
  -- The latest end of an interval that begins in the range and ends before its end.
  abbrev pub reach : ℕ → ℕ → List (Interval V) → ℕ
  reach from to [] = 0
  reach from to (i ∷ is) =
      max (if leb from i.from && ltb i.to to then i.to else 0) (reach from to is)

  reach_of_le :
      (lo from to : ℕ) (is : List (Interval V)) → Chain lo is → to ≤ lo → reach from to is ≡ 0
  reach_of_le lo from to [] c h = refl
  reach_of_le lo from to (i ∷ is) c h =
      ground (arith, reach_of_le i.to from to is c.2, c.1.nonempty)

  holes-cover :
      (lo from to t : ℕ) (i : Interval V) (is : List (Interval V))
      → Chain lo (i ∷ is)
      → i.from ≤ t
      → t < reach from to (i ∷ is)
      → (covered t (i ∷ is) || in_gaps t (holes (to_stop_pos to (i ∷ is)))) ≡ true
  unfolding holes to_stop_pos
  holes-cover lo from to t i [] c h k = ground arith
  holes-cover lo from to t i (j ∷ js) c h k = ground (
    arith,
    holes-cover i.to from to t j js c.2,
    reach_of_le i.to from to (j ∷ js) c.2,
    reach_of_le j.to from to js c.2.2,
    c.2.1.nonempty,
    c.1.nonempty,
  )

  covers_here :
      (lo from to t : ℕ) (i : Interval V) (is : List (Interval V))
      → Chain lo (i ∷ is)
      → from ≤ t
      → t < reach from to (i ∷ is)
      → (covered t (i ∷ is) || in_gaps t (gaps_between from to (i ∷ is))) ≡ true
  unfolding gaps_between
  covers_here lo from to t i is c h k = ground (arith, holes-cover lo from to t i is c)

  start-covers :
      (lo from to t : ℕ) (is : List (Interval V))
      → Chain lo is
      → from ≤ t
      → t < reach from to is
      → (covered t is || in_gaps t (gaps_between from to (from_start_pos from is))) ≡ true
  unfolding from_start_pos
  start-covers lo from to t [] c h k = absurd (omega arith)
  start-covers lo from to t (i ∷ is) c h k = elim (Bool-cases (ltb i.from from)) [
    | inl e ↦ rw e (ground (arith, start-covers i.to from to t is c.2))
    | inr e ↦ rw e (covers_here lo from to t i is c h k)
  ]

  -- Every moment of the range that lies before the end of a cached interval, one that begins in
  -- the range and ends before the range does, is in a cached interval or in a gap.
  pub find_gaps-covers :
      (from to t : ℕ) (is : List (Interval V))
      → Chain 0 is
      → from ≤ t
      → t < to
      → t < reach from to is
      → (covered t is || in_gaps t (find_gaps from to is)) ≡ true
  unfolding find_gaps
  find_gaps-covers from to t [] c h k l = absurd (omega arith)
  find_gaps-covers from to t (i ∷ is) c h k l =
      ground (arith, start-covers 0 from to t (i ∷ is) c h l)
