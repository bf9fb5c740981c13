-- ===== src/History/Manager/Gaps.antt =====
-- The gaps that `_findGaps` returns.
pub mod Reach
pub mod Beside
use qtoggleserver.Base.{
  ℕ, ◌≤◌, ◌<◌, ◌≡◌, refl, ◌∙◌, ◌⊎◌, inl, inr, Bool, true, false, ◌&&◌, ◌||◌, none, some, List, [],
  ◌∷◌, arith, ltb, leb, if◌then◌else◌, All, Bool-cases, ltb→lt, ltb→le,
}
use qtoggleserver.History.Interval.{Interval}
use qtoggleserver.History.Interval.Valid.{IsValid}
use qtoggleserver.History.Manager.{
  Gap, from_start_pos, to_stop_pos, holes, last_to, gaps_between, find_gaps,
}
use qtoggleserver.History.Manager.Chain.{Chain, covered}

-- Whether a moment lies in one of the gaps.
abbrev pub in_gaps : ℕ → List Gap → Bool
in_gaps t [] = false
in_gaps t (g ∷ gs) = (leb g.from t && ltb t g.to) || in_gaps t gs

module _ {V : Type 0} where
  pub last_to-le :
      (lo : ℕ) (i : Interval V) (is : List (Interval V)) → Chain lo (i ∷ is) → i.to ≤ last_to i is
  unfolding last_to
  last_to-le lo i [] c = omega arith
  last_to-le lo i (j ∷ is) c = omega (arith, last_to-le i.to j is c.2, c.2.1.nonempty)

  -- The holes after an interval end before the last interval ends.
  holes-before :
      (lo to t : ℕ) (i : Interval V) (is : List (Interval V))
      → Chain lo (i ∷ is)
      → last_to i is ≤ t
      → in_gaps t (holes (to_stop_pos to (i ∷ is))) ≡ false
  unfolding last_to holes to_stop_pos
  holes-before lo to t i [] c h = ground arith
  holes-before lo to t i (j ∷ is) c h =
      ground (arith, holes-before i.to to t j is c.2 h, last_to-le i.to j is c.2, c.2.1.nonempty)

  covered-before :
      (lo t : ℕ) (i : Interval V) (is : List (Interval V))
      → Chain lo (i ∷ is)
      → last_to i is ≤ t
      → covered t (i ∷ is) ≡ false
  unfolding last_to
  covered-before lo t i [] c h = ground arith
  covered-before lo t i (j ∷ is) c h =
      ground (arith, covered-before i.to t j is c.2 h, last_to-le lo i (j ∷ is) c)

  gaps_here-before :
      (lo from to t : ℕ) (i : Interval V) (is : List (Interval V))
      → Chain lo (i ∷ is)
      → last_to i is ≤ t
      → in_gaps t (gaps_between from to (i ∷ is)) ≡ false
  unfolding gaps_between
  gaps_here-before lo from to t i is c h =
      ground (arith, holes-before lo to t i is c h, last_to-le lo i is c, c.1.nonempty)

  gaps_between-before :
      (lo from to t : ℕ) (i : Interval V) (is : List (Interval V))
      → Chain lo (i ∷ is)
      → last_to i is ≤ t
      → in_gaps t (gaps_between from to (from_start_pos from (i ∷ is))) ≡ false
  unfolding from_start_pos
  gaps_between-before lo from to t i [] c h = elim (Bool-cases (ltb i.from from)) [
    | inl e ↦ rw e (unfold gaps_between in refl)
    | inr e ↦ rw e (gaps_here-before lo from to t i [] c h)
  ]
  gaps_between-before lo from to t i (j ∷ is) c h = elim (Bool-cases (ltb i.from from)) [
    | inl e ↦ rw e (gaps_between-before i.to from to t j is c.2 (unfold last_to in h))
    | inr e ↦ rw e (gaps_here-before lo from to t i (j ∷ is) c h)
  ]

  -- For a range that begins before the last interval of an ordered array ends, and ends after the
  -- first one begins, no moment from the end of the last interval on lies in a gap or in an
  -- interval: what the range has there is neither cached nor downloaded.
  pub find_gaps_misses :
      (from to t : ℕ) (i : Interval V) (is : List (Interval V))
      → Chain 0 (i ∷ is)
      → from < last_to i is
      → i.from < to
      → last_to i is ≤ t
      → (in_gaps t (find_gaps from to (i ∷ is)) ≡ false) × (covered t (i ∷ is) ≡ false)
  unfolding find_gaps
  find_gaps_misses from to t i is c h k l =
      (ground (arith, gaps_between-before 0 from to t i is c l), covered-before 0 t i is c l)
