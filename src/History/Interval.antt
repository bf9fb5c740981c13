-- ===== src/History/Interval.antt =====
-- `class Interval` of qtoggleserver/frontend/js/common/history-download-manager.js: a stretch of
-- time whose samples have been downloaded. Timestamps are whole milliseconds since the epoch.
pub mod Valid
pub mod Slice
pub mod Merge
pub mod Add
use qtoggleserver.Base.{
  ℕ, ◌+◌, Bool, ◌&&◌, Option, none, some, List, [], ◌∷◌, ◌++◌, ltb, leb, ◌==◌, if◌then◌else◌,
  filter,
}

pub record Sample (V : Type 0) : Type 0 where
  pub value : V
  pub timestamp : ℕ

pub record Interval (V : Type 0) : Type 0 where
  pub from : ℕ
  pub to : ℕ
  pub samples : List (Sample V)

module _ {V : Type 0} where
  -- The first loop of `getSliceSamples`: the samples before `from` are skipped.
  unfoldable pub skip_samples : ℕ → List (Sample V) → List (Sample V)
  skip_samples from [] = []
  skip_samples from (s ∷ ss) =
      let rest = skip_samples from ss in if ltb s.timestamp from then rest else s ∷ ss

  -- Its second loop: samples are taken while they are before `to`.
  unfoldable pub take_samples : ℕ → List (Sample V) → List (Sample V)
  take_samples to [] = []
  take_samples to (s ∷ ss) =
      let rest = take_samples to ss in if ltb s.timestamp to then s ∷ rest else []

  unfoldable pub get_slice_samples : Interval V → ℕ → ℕ → List (Sample V)
  get_slice_samples i from to = take_samples to (skip_samples from i.samples)

  unfoldable pub get_slice : Interval V → ℕ → ℕ → Option (Interval V)
  get_slice i from to =
      if leb i.to from
      then none
      else if leb to i.from
      then none
      else if ltb from i.to && leb i.to to
      then (if leb from i.from && ltb i.from to
          then some i
          else some (record { from = from; to = i.to; samples = get_slice_samples i from i.to }))
      else if leb i.from from && ltb from i.to
      then some (record { from = from; to = to; samples = get_slice_samples i from to })
      else some (record { from = i.from; to = to; samples = get_slice_samples i i.from to })

  -- The samples of two intervals that meet, the earlier first: from the first sample of the later
  -- interval on, the later one's samples are kept.
  unfoldable pub merge_samples : (earlier later : List (Sample V)) → List (Sample V)
  merge_samples earlier [] = earlier
  merge_samples earlier (s ∷ ss) = filter (λ e. ltb e.timestamp s.timestamp) earlier ++ s ∷ ss

  unfoldable pub join_samples : (earlier later : Interval V) → List (Sample V)
  join_samples earlier later =
      if earlier.to == later.from
      then earlier.samples ++ later.samples
      else merge_samples earlier.samples later.samples

  unfoldable pub try_merge : Interval V → Interval V → Option (Interval V)
  try_merge i j =
      if ltb i.from j.to && leb j.from i.to
      then some (record { from = i.from; to = j.to; samples = join_samples i j })
      else if ltb j.from i.to && leb i.from j.to
      then some (record { from = j.from; to = i.to; samples = join_samples j i })
      else none

  -- The loop of `addSample`, with the sample put before the first that is not earlier.
  unfoldable pub insert_sample : Sample V → List (Sample V) → List (Sample V)
  insert_sample x [] = x ∷ []
  insert_sample x (s ∷ ss) =
      let rest = insert_sample x ss in if ltb s.timestamp x.timestamp then s ∷ rest else x ∷ s ∷ ss

  -- Whether that loop runs through all samples.
  unfoldable pub after_all : Sample V → List (Sample V) → Bool
  after_all x [] = Bool.true
  after_all x (s ∷ ss) = let rest = after_all x ss in ltb s.timestamp x.timestamp && rest

  add_sample_to : Interval V → Sample V → List (Sample V) → Interval V
  add_sample_to i x [] = record i { samples = x ∷ [] }
  add_sample_to i x (s ∷ ss) =
      if ltb x.timestamp s.timestamp
      then record i { samples = x ∷ s ∷ ss; from = x.timestamp }
      else if after_all x (s ∷ ss)
      then record i { samples = insert_sample x (s ∷ ss); to = x.timestamp + 1 }
      else record i { samples = insert_sample x (s ∷ ss) }

  unfoldable pub add_sample : Interval V → Sample V → Interval V
  unfolding add_sample_to
  add_sample i x = add_sample_to i x i.samples
