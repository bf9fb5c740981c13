-- ===== src/History/Manager/Purge/Prefix.antt =====
-- `purge` of all that is older than a timestamp, as the history chart calls it.
use qtoggleserver.Base.{
  ℕ, zero, suc, ◌+◌, ◌≤◌, ◌<◌, ◌≡◌, refl, ◌∙◌, inl, inr, none, some, List, [], ◌∷◌, ◌*◌, ◌&&◌, min,
  max, arith, ltb, leb, if◌then◌else◌, filter, map, length, Bool-cases,
}
use qtoggleserver.History.Interval.{Interval, get_slice}
use qtoggleserver.History.Interval.Valid.{IsValid, Within-mono}
use qtoggleserver.History.Interval.Slice.{in_range, get_slice_lem, filter-Within}
use qtoggleserver.History.Manager.Chain.{Chain, Chain-mono, covered, covered_lower}
use qtoggleserver.History.Manager.Purge.{done, finite, slice_after, purge_loop, purge_from, purge}

module _ {V : Type 0} where
  -- What is left of an interval from `t` on.
  abbrev pub tail_from : ℕ → Interval V → Interval V
  tail_from t i = record { from = t; to = i.to; samples = filter (in_range t i.to) i.samples }

  -- The intervals without what is before `t`.
  abbrev pub cut : ℕ → List (Interval V) → List (Interval V)
  cut t [] = []
  cut t (i ∷ is) =
      if leb i.to t then cut t is else if ltb i.from t then tail_from t i ∷ is else i ∷ is

  pub get_slice-tail :
      (i : Interval V) (t : ℕ)
      → IsValid i
      → i.from ≤ t
      → t < i.to
      → get_slice i t i.to ≡ some (tail_from t i)
  get_slice-tail i t v h k = rw (get_slice_lem i t i.to v k) (ground (arith, v.nonempty))

  tail_from-IsValid :
      (t : ℕ) (i : Interval V) → IsValid i → i.from ≤ t → t < i.to → IsValid (tail_from t i)
  tail_from-IsValid t i v h k = record {
    nonempty = k;
    ordered =
        Within-mono (max t i.from) t (min i.to i.to) i.to (filter (in_range t i.to) i.samples)
          (omega arith) (omega arith) (filter-Within t i.to i.from i.to i.samples v.ordered);
  }

  -- Intervals that begin after the purged range stay.
  pub loop_after :
      (fuel from to lo : ℕ) (is : List (Interval V))
      → Chain lo is
      → to ≤ lo
      → purge_loop (suc fuel) from (finite to) (map some is) ≡ done (map some is)
  unfolding purge_loop
  loop_after fuel from to lo [] c h = refl
  loop_after fuel from to lo (i ∷ is) c h = ground arith

  loop_cut :
      (fuel to lo : ℕ) (is : List (Interval V))
      → 0 < lo
      → Chain lo is
      → length is < fuel
      → purge_loop fuel 0 (finite to) (map some is) ≡ done (map some (cut to is))
  unfolding purge_loop slice_after
  loop_cut zero to lo is p c h = absurd (omega arith)
  loop_cut (suc fuel) to lo [] p c h = refl
  loop_cut (suc zero) to lo (i ∷ is) p c h = absurd (omega arith)
  loop_cut (suc (suc fuel)) to lo (i ∷ is) p c h = ground (
    arith,
    loop_cut (suc fuel) to i.to is (omega (arith, c.1.nonempty)) c.2 (omega arith),
    loop_after fuel 0 to i.to is c.2,
    get_slice-tail i to c.1,
    c.1.nonempty,
  )

  first_loop :
      (fuel : ℕ) (to : ℕ) (is : List (Interval V))
      → purge_from fuel 0 (finite to) is ≡ purge_loop fuel 0 (finite to) (map some is)
  unfolding purge_from
  first_loop fuel to [] = refl
  first_loop fuel to (i ∷ is) = ground arith

  -- From an ordered array whose times are not 0, `purge(null, to)` takes just what is before `to`:
  -- intervals that end by then go, one that `to` falls into keeps its part from `to` on with the
  -- samples of that part, and the later ones stay; no element of the array becomes `null`.
  pub purge-cut :
      (to : ℕ) (is : List (Interval V))
      → Chain 1 is
      → purge none (some to) is ≡ done (map some (cut to is))
  unfolding purge
  purge-cut to is c =
      first_loop (2 * length is + 2) to is
      ∙ loop_cut (2 * length is + 2) to 1 is (omega arith) c (omega arith)

  -- What is left is an ordered array again, and holds the moments from `to` on that it held before.
  cut-Chain :
      (to lo : ℕ) (is : List (Interval V))
      → Chain lo is
      → Chain lo (cut to is) × ((t : ℕ) → covered t (cut to is) ≡ (covered t is && leb to t))
  cut-Chain to lo [] c = (tt, λ t. refl)
  cut-Chain to lo (i ∷ is) c = elim (Bool-cases (leb i.to to)) [
    | inl e ↦
        let (chain, same) = cut-Chain to i.to is c.2 in
        rw e (
          Chain-mono i.to lo (cut to is) (omega (arith, c.1.nonempty)) chain,
          λ t. ground (arith, same t),
        )
    | inr e ↦ elim (Bool-cases (ltb i.from to)) [
      | inl e' ↦
          rw (e, e')
            (
              (ground arith, tail_from-IsValid to i c.1 (ground arith) (ground arith), c.2),
              λ t. ground (arith, covered_lower i.to t is c.2),
            )
      | inr e' ↦ rw (e, e') (c, λ t. ground (arith, covered_lower i.to t is c.2, c.1.nonempty))
    ]
  ]
