-- ===== src/History/Interval/Slice.antt =====
-- `getSlice` is the intersection with a range, with the samples of the range.
use qtoggleserver.Base.{
  ℕ, ◌≤◌, ◌<◌, ◌≡◌, refl, Bool, ◌&&◌, none, some, List, [], ◌∷◌, arith, false, ◌&&◌, ltb, leb,
  if◌then◌else◌, filter, min, max, inl, inr, Bool-cases,
}
use qtoggleserver.History.Interval.{
  Sample, Interval, skip_samples, take_samples, get_slice_samples, get_slice,
}
use qtoggleserver.History.Interval.Valid.{Within, IsValid, Within-mono}

abbrev pub in_range : {V : Type 0} → ℕ → ℕ → Sample V → Bool
in_range from to s = leb from s.timestamp && ltb s.timestamp to

module _ {V : Type 0} where
  filter_late :
      (from to lo hi : ℕ) (ss : List (Sample V))
      → to ≤ lo
      → Within lo hi ss
      → filter (in_range from to) ss ≡ []
  filter_late from to lo hi [] h w = refl
  filter_late from to lo hi (s ∷ ss) h w = ground (arith, filter_late from to s.timestamp hi ss)

  filter_early :
      (from to lo hi : ℕ) (ss : List (Sample V))
      → hi ≤ from
      → Within lo hi ss
      → filter (in_range from to) ss ≡ []
  filter_early from to lo hi [] h w = refl
  filter_early from to lo hi (s ∷ ss) h w = ground (arith, filter_early from to s.timestamp hi ss)

  -- An interval outside the range has no sample in it.
  pub filter_outside :
      (i : Interval V) (from to : ℕ)
      → IsValid i
      → (ltb from i.to && ltb i.from to) ≡ false
      → filter (in_range from to) i.samples ≡ []
  filter_outside i from to v h =
      ground (
        arith,
        filter_late from to i.from i.to i.samples,
        filter_early from to i.from i.to i.samples,
      )

  -- The samples of a range are in order within it.
  pub filter-Within :
      (from to lo hi : ℕ) (ss : List (Sample V))
      → Within lo hi ss
      → Within (max from lo) (min to hi) (filter (in_range from to) ss)
  filter-Within from to lo hi [] w = tt
  filter-Within from to lo hi (s ∷ ss) w = elim (Bool-cases (in_range from to s)) [
    | inl e ↦ rw e (
      ground arith,
      ground arith,
      Within-mono (max from s.timestamp) s.timestamp (min to hi) (min to hi)
          (filter (in_range from to) ss) (ground arith) (omega arith)
          (filter-Within from to s.timestamp hi ss w.2),
    )
    | inr e ↦ rw e (
        Within-mono (max from s.timestamp) (max from lo) (min to hi) (min to hi)
          (filter (in_range from to) ss) (omega arith) (omega arith)
          (filter-Within from to s.timestamp hi ss w.2))
  ]

  filter_inside :
      (from to lo hi : ℕ) (ss : List (Sample V))
      → from ≤ lo
      → hi ≤ to
      → Within lo hi ss
      → filter (in_range from to) ss ≡ ss
  filter_inside from to lo hi [] h k w = refl
  filter_inside from to lo hi (s ∷ ss) h k w =
      ground (arith, filter_inside from to s.timestamp hi ss)

  take_samples-filter :
      (from to lo hi : ℕ) (ss : List (Sample V))
      → from ≤ lo
      → Within lo hi ss
      → take_samples to ss ≡ filter (in_range from to) ss
  unfolding take_samples
  take_samples-filter from to lo hi [] h w = refl
  take_samples-filter from to lo hi (s ∷ ss) h w =
      ground (
        arith,
        take_samples-filter from to s.timestamp hi ss,
        filter_late from to s.timestamp hi ss,
      )

  take-skip-filter :
      (from to lo hi : ℕ) (ss : List (Sample V))
      → Within lo hi ss
      → take_samples to (skip_samples from ss) ≡ filter (in_range from to) ss
  unfolding skip_samples
  take-skip-filter from to lo hi [] w = take_samples-filter lo to lo hi [] (omega arith) w
  take-skip-filter from to lo hi (s ∷ ss) w = ground (
    arith,
    take-skip-filter from to s.timestamp hi ss,
    take_samples-filter from to s.timestamp hi (s ∷ ss),
  )

  -- Between a bound above all samples and that bound cut down there is no difference.
  filter_cut :
      (from from' to to' lo hi : ℕ) (ss : List (Sample V))
      → max from' lo ≡ max from lo
      → min to' hi ≡ min to hi
      → Within lo hi ss
      → filter (in_range from' to') ss ≡ filter (in_range from to) ss
  filter_cut from from' to to' lo hi [] h k w = refl
  filter_cut from from' to to' lo hi (s ∷ ss) h k w =
      ground (arith, filter_cut from from' to to' s.timestamp hi ss)

  -- `getSlice` returns nothing for a range that the interval does not meet, and otherwise the
  -- intersection of both with just those samples of the interval whose timestamps are in the range.
  pub get_slice_lem :
      (i : Interval V) (from to : ℕ)
      → IsValid i
      → from < to
      → get_slice i from to ≡ (
          if ltb from i.to && ltb i.from to
          then some (record {
            from = max from i.from;
            to = min to i.to;
            samples = filter (in_range from to) i.samples;
          })
          else none)
  unfolding get_slice get_slice_samples
  get_slice_lem i from to v h = ground (
    arith,
    take-skip-filter from i.to i.from i.to i.samples,
    take-skip-filter from to i.from i.to i.samples,
    take-skip-filter i.from to i.from i.to i.samples,
    filter_inside from to i.from i.to i.samples,
    filter_cut from from to i.to i.from i.to i.samples,
    filter_cut from i.from to to i.from i.to i.samples,
  )
