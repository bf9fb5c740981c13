-- ===== src/History/Manager.antt =====
-- `class HistoryDownloadManager` of qtoggleserver/frontend/js/common/history-download-manager.js.
-- Its state is the array of downloaded intervals, `_intervals`, and the counters of `_download`.
-- Here are `_addInterval`, `_findGaps` and `_getCachedSamples`; the other methods are in the
-- modules below.
pub mod Chain
pub mod Gaps
pub mod Cached
pub mod Purge
pub mod Samples
pub mod Download
use qtoggleserver.Base.{
  ℕ, zero, suc, ◌+◌, ◌-◌, ◌*◌, Bool, true, false, not, ◌&&◌, ◌||◌, Option, none, some, List, [],
  ◌∷◌, ◌++◌, ltb, leb, if◌then◌else◌,
}
use qtoggleserver.History.Interval.{Sample, Interval, get_slice, try_merge, add_sample}

pub record Gap : Type 0 where
  pub from : ℕ
  pub to : ℕ

module _ {V : Type 0} where
  -- `_addInterval`. The loop over `pos` carries `prev`, the interval at `pos - 1`; the array before
  -- it is put back around the result.

  -- The branch between two intervals: `merged` with the interval at `pos - 1` may bridge the gap
  -- to the one at `pos`.
  bridge : Interval V → Interval V → List (Interval V) → List (Interval V)
  bridge prev next rest = elim (try_merge prev next) [
    | none ↦ prev ∷ next ∷ rest
    | some merged ↦ merged ∷ rest
  ]

  place_between : Interval V → Interval V → Interval V → List (Interval V) → List (Interval V)
  unfolding bridge
  place_between x prev next rest = elim (try_merge prev x) [
    | some merged ↦ bridge merged next rest
    | none ↦ elim (try_merge next x) [
      | some merged ↦ bridge prev merged rest
      | none ↦ prev ∷ x ∷ next ∷ rest
    ]
  ]

  place_last : Interval V → Interval V → List (Interval V)
  place_last x last = elim (try_merge last x) [ some merged ↦ merged ∷ [] | none ↦ last ∷ x ∷ [] ]

  place_first : Interval V → Interval V → List (Interval V) → List (Interval V)
  place_first x first rest = elim (try_merge first x) [
    | some merged ↦ merged ∷ rest
    | none ↦ x ∷ first ∷ rest
  ]

  place_after : Interval V → Interval V → List (Interval V) → List (Interval V)
  place_after x prev [] = place_last x prev
  place_after x prev (next ∷ rest) =
      let later = place_after x next rest in
      if ltb next.from x.from then prev ∷ later else place_between x prev next rest

  unfoldable pub add_interval : Interval V → List (Interval V) → List (Interval V)
  unfolding place_after place_first place_last place_between
  add_interval x [] = x ∷ []
  add_interval x (first ∷ rest) =
      if ltb first.from x.from then place_after x first rest else place_first x first rest

  -- `_findGaps`. The loops over `startPos` and `stopPos`: the intervals from `startPos` on, and of
  -- those the ones before `stopPos`.
  unfoldable pub from_start_pos : ℕ → List (Interval V) → List (Interval V)
  from_start_pos from [] = []
  from_start_pos from (i ∷ is) =
      let rest = from_start_pos from is in if ltb i.from from then rest else i ∷ is

  unfoldable pub to_stop_pos : ℕ → List (Interval V) → List (Interval V)
  to_stop_pos to [] = []
  to_stop_pos to (i ∷ is) = let rest = to_stop_pos to is in if ltb i.to to then i ∷ rest else []

  -- `for (let pos = startPos; pos < stopPos - 1; pos++)`: the holes between these intervals.
  unfoldable pub holes : List (Interval V) → List Gap
  holes [] = []
  holes (i ∷ []) = []
  holes (i ∷ j ∷ is) = record { from = i.to; to = j.from } ∷ holes (j ∷ is)

  unfoldable pub last_to : Interval V → List (Interval V) → ℕ
  last_to i [] = i.to
  last_to i (j ∷ is) = last_to j is

  unfoldable pub gaps_between : ℕ → ℕ → List (Interval V) → List Gap
  gaps_between from to [] = []
  gaps_between from to (i ∷ is) =
      if ltb from i.from
      then record { from = from; to = i.from } ∷ holes (to_stop_pos to (i ∷ is))
      else holes (to_stop_pos to (i ∷ is))

  unfoldable pub find_gaps : ℕ → ℕ → List (Interval V) → List Gap
  unfolding last_to gaps_between from_start_pos to_stop_pos holes
  find_gaps from to [] = record { from = from; to = to } ∷ []
  find_gaps from to (i ∷ is) =
      if leb to i.from || leb (last_to i is) from
      then record { from = from; to = to } ∷ []
      else gaps_between from to (from_start_pos from (i ∷ is))

  -- `_getCachedSamples`
  unfoldable pub get_cached_samples : ℕ → ℕ → List (Interval V) → List (Sample V)
  get_cached_samples from to [] = []
  get_cached_samples from to (i ∷ is) =
      elim (get_slice i from to) [ none ↦ [] | some s ↦ s.samples ] ++ get_cached_samples from to is
