-- ===== src/History/Manager/Cached.antt =====
-- `_getCachedSamples` returns the cached samples of the range.

use qtoggleserver.Base.{
  ℕ, ◌<◌, ◌≡◌, refl, inl, inr, ◌&&◌, List, [], ◌∷◌, ◌++◌, ltb, filter, filter-append, Bool-cases,
}
use qtoggleserver.History.Interval.{Sample, Interval}
use qtoggleserver.History.Interval.Slice.{in_range, get_slice_lem, filter_outside}
use qtoggleserver.History.Manager.{get_cached_samples}
use qtoggleserver.History.Manager.Chain.{Chain}

module _ {V : Type 0} where
  -- All the samples of an array of intervals.
  abbrev pub all_samples : List (Interval V) → List (Sample V)
  all_samples [] = []
  all_samples (i ∷ is) = i.samples ++ all_samples is

  cached_from :
      (lo from to : ℕ) (is : List (Interval V))
      → Chain lo is
      → from < to
      → get_cached_samples from to is ≡ filter (in_range from to) (all_samples is)
  unfolding get_cached_samples
  cached_from lo from to [] c h = refl
  cached_from lo from to (i ∷ is) c h = elim (Bool-cases (ltb from i.to && ltb i.from to)) [
    | inl e ↦
        rw (get_slice_lem i from to c.1 h, e, filter-append, cached_from i.to from to is c.2 h) refl
    | inr e ↦ rw (
      get_slice_lem i from to c.1 h,
      e,
      filter-append,
      cached_from i.to from to is c.2 h,
      filter_outside i from to c.1 e,
    )
  ]

  -- From an ordered array `_getCachedSamples` returns just those of its samples whose timestamps
  -- lie in the range, in the order of the array.
  pub get_cached_samples-filter :
      (from to : ℕ) (is : List (Interval V))
      → Chain 0 is
      → from < to
      → get_cached_samples from to is ≡ filter (in_range from to) (all_samples is)
  get_cached_samples-filter = cached_from 0
