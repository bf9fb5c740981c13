-- ===== src/History/Interval/Merge.antt =====
-- `tryMerge` of two intervals, the earlier of which ends within or right before the later.
use qtoggleserver.Base.{
  ℕ, ◌≤◌, ◌≡◌, none, some, List, [], ◌∷◌, ◌++◌, arith, ltb, leb, ◌==◌, if◌then◌else◌, filter, inl,
  inr, Bool-cases,
}
use qtoggleserver.History.Interval.{Sample, Interval, merge_samples, join_samples, try_merge}
use qtoggleserver.History.Interval.Valid.{Within, IsValid, Within-mono}

module _ {V : Type 0} where
  Within-append :
      (lo mid lo' hi : ℕ) (xs ys : List (Sample V))
      → lo ≤ lo'
      → mid ≤ lo'
      → mid ≤ hi
      → Within lo mid xs
      → Within lo' hi ys
      → Within lo hi (xs ++ ys)
  Within-append lo mid lo' hi [] ys p q r v w = Within-mono lo' lo hi hi ys p (omega arith) w
  Within-append lo mid lo' hi (x ∷ xs) ys p q r v w =
      (v.0, omega arith, Within-append x.timestamp mid lo' hi xs ys (omega arith) q r v.2 w)

  Within-filter :
      (lo hi cut : ℕ) (xs : List (Sample V))
      → Within lo hi xs
      → Within lo cut (filter (λ e. ltb e.timestamp cut) xs)
  Within-filter lo hi cut [] w = tt
  Within-filter lo hi cut (x ∷ xs) w = ground (
    arith,
    Within-filter x.timestamp hi cut xs,
    Within-filter lo hi cut xs,
    Within-mono x.timestamp lo hi hi xs,
  )

  merge_samples-Within :
      (i j : Interval V) (ys : List (Sample V))
      → IsValid i
      → i.from ≤ j.from
      → i.to ≤ j.to
      → Within j.from j.to ys
      → Within i.from j.to (merge_samples i.samples ys)
  unfolding merge_samples
  merge_samples-Within i j [] v p q w =
      Within-mono i.from i.from i.to j.to i.samples (omega arith) q v.ordered
  merge_samples-Within i j (y ∷ ys) v p q w =
      Within-append i.from y.timestamp y.timestamp j.to
        (filter (λ e. ltb e.timestamp y.timestamp) i.samples) (y ∷ ys) (omega arith) (omega arith)
        (omega arith) (Within-filter i.from i.to y.timestamp i.samples v.ordered)
        (omega arith, w.1, w.2)

  join_samples-Within :
      (i j : Interval V)
      → IsValid i
      → IsValid j
      → i.from ≤ j.from
      → i.to ≤ j.to
      → Within i.from j.to (join_samples i j)
  unfolding join_samples
  join_samples-Within i j v w p q = elim (Bool-cases (i.to == j.from)) [
    | inl e ↦ rw e (
        Within-append i.from i.to j.from j.to i.samples j.samples p (ground arith) q v.ordered
          w.ordered)
    | inr e ↦ rw e (merge_samples-Within i j j.samples v p q w.ordered)
  ]

  -- Of two valid intervals of which the second starts later and does not end earlier, the first
  -- merges with the second exactly if it reaches the second's start; the result runs from the
  -- first's start to the second's end, its samples are in order and within it, and two intervals
  -- that only touch keep all their samples.
  pub try_merge_lem :
      (i j : Interval V)
      → IsValid i
      → IsValid j
      → i.from ≤ j.from
      → i.to ≤ j.to
      → (try_merge i j ≡ (
          if leb j.from i.to
          then some (record { from = i.from; to = j.to; samples = join_samples i j })
          else none))
        × IsValid (record { from = i.from; to = j.to; samples = join_samples i j })
        × (i.to ≡ j.from → join_samples i j ≡ i.samples ++ j.samples)
  unfolding try_merge join_samples
  try_merge_lem i j v w p q = (
    ground arith,
    record { nonempty = omega arith; ordered = join_samples-Within i j v w p q },
    λ e. ground arith,
  )

  -- Where the two do not overlap, the order of the call does not matter.
  pub try_merge_comm :
      (i j : Interval V) → IsValid i → IsValid j → i.to ≤ j.from → try_merge j i ≡ try_merge i j
  unfolding try_merge
  try_merge_comm i j v w p = ground arith
