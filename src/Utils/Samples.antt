-- ===== src/Utils/Samples.antt =====
-- `decimate` and `movingAverage` of qtoggleserver/frontend/js/utils.js on a list of data points.
-- `P` stands for points; `y_less` compares them by their `yField`, `x_less` and `x_same` by their
-- `xField`.
pub mod Decimate
use qtoggleserver.Base.{
  ℕ, zero, suc, ◌+◌, ◌-◌, ◌*◌, ◌/◌, Bool, true, false, List, [], ◌∷◌, ◌++◌, leb, if◌then◌else◌,
  length, take, drop, min, max,
}

module _ {P : Type 0} where
  -- `data.slice(start, stop)`
  unfoldable pub slice : ℕ → ℕ → List P → List P
  slice start stop points = take (stop - start) (drop start points)

  module _ (y_less : P → P → Bool) where
    -- The loop of `analyzeDecimationWindow`, with `minD` and `maxD`.
    unfoldable pub analyze_from : P → P → List P → P × P
    analyze_from low high [] = (low, high)
    analyze_from low high (d ∷ ds) =
        let new_low = if y_less d low then d else low in
        let new_high = if y_less d low then high else if y_less high d then d else high in
        analyze_from new_low new_high ds

    unfoldable pub analyze_window : P → List P → P × P
    unfolding analyze_from
    analyze_window first rest = analyze_from first first (first ∷ rest)

    module _ (x_less : P → P → Bool) where
      -- The two points that one window adds.
      unfoldable pub window_points : P → List P → List P
      unfolding analyze_window
      window_points first rest =
          let (low, high) = analyze_window first rest in
          if x_less low high then low ∷ high ∷ [] else high ∷ low ∷ []

      -- One round of the loop over the windows, which an empty window ends.
      unfoldable pub add_window : List P → List P → List P
      unfolding window_points
      add_window [] rest = []
      add_window (first ∷ others) rest = window_points first others ++ rest

      -- The loop over the windows: `n` rounds are left, the first of them `i`.
      unfoldable pub window_loop : ℕ → ℕ → ℕ → List P → List P
      unfolding add_window slice
      window_loop zero i size points = []
      window_loop (suc n) i size points =
          let rest = window_loop n (suc i) size points in
          add_window (slice (i * size) (suc i * size) points) rest

  module _ (x_same : P → P → Bool) where
    -- The last loop; the point before is kept in any case.
    unfoldable pub drop_same : P → List P → List P
    drop_same d [] = d ∷ []
    drop_same d (e ∷ es) =
        let dropped = drop_same d es in
        let kept = drop_same e es in if x_same d e then dropped else d ∷ kept

    unfoldable pub drop_duplicates : List P → List P
    unfolding drop_same
    drop_duplicates [] = []
    drop_duplicates (d ∷ ds) = drop_same d ds

  module _ (y_less x_less x_same : P → P → Bool) where
    -- `Math.ceil(data.length * 2 / maxDataPointsLen)`; the loop has as many rounds as there are
    -- numbers below half of `most`.
    unfoldable pub decimate : ℕ → List P → List P
    unfolding window_loop drop_duplicates
    decimate most points =
        if leb (length points) most
        then points
        else drop_duplicates x_same (
            window_loop y_less x_less ((most + 1) / 2) 0 ((length points * 2 + most - 1) / most)
              points)

  -- The window of `movingAverage` around the point at `i`, for a window of `width` points.
  unfoldable pub average_window : ℕ → ℕ → List P → List P
  unfolding slice
  average_window width i points =
      slice (i - width / 2) (min (length points) (i + width - width / 2)) points

  -- The rest of `movingAverage`, `N` standing for numbers with the sum `plus`, and with `over` for the
  -- quotient by a length.
  module _ {N : Type 0} (nought : N) (plus : N → N → N) (over : N → ℕ → N) where
    -- `reduce((a, b) => a + b[yField], 0)`, with the sum so far.
    unfoldable pub total_from : (P → N) → N → List P → N
    total_from y sum [] = sum
    total_from y sum (d ∷ ds) = total_from y (plus sum (y d)) ds

    -- For each point its x and the average of its window. The points from `i` on are `rest`.
    unfoldable pub averages_from :
        {X : Type 0} → (P → X) → (P → N) → ℕ → ℕ → List P → List P → List (X × N)
    unfolding average_window total_from
    averages_from x y width i points [] = []
    averages_from x y width i points (d ∷ rest) =
        let window = average_window width i points in
        (x d, over (total_from y nought window) (length window))
        ∷ averages_from x y width (suc i) points rest

    unfoldable pub moving_average : {X : Type 0} → (P → X) → (P → N) → ℕ → List P → List (X × N)
    unfolding averages_from
    moving_average x y width points = averages_from x y width 0 points points
