-- ===== src/Utils/Samples/Decimate.antt =====
-- What decimation leaves of a list of points.
use qtoggleserver.Base.{
  ℕ, zero, suc, ◌+◌, ◌-◌, ◌*◌, ◌/◌, ◌≡◌, ◌≤◌, ◌<◌, refl, Bool, false, List, [], ◌∷◌, arith,
  if◌then◌else◌, length, All, All-take, All-drop, length-append, Bool-cases, All-append, if_either,
  lt→leb, ap, inl, inr,
}
use qtoggleserver.Utils.Samples.{
  slice, analyze_from, analyze_window, window_points, add_window, window_loop, drop_same,
  drop_duplicates, decimate,
}

module _ {P : Type 0} where
  -- No two points side by side have the same x.
  unfoldable pub Apart : (P → P → Bool) → P → List P → Type 0
  Apart x_same d [] = Unit
  Apart x_same d (e ∷ es) = (x_same d e ≡ false) × Apart x_same e es

  unfoldable pub AllApart : (P → P → Bool) → List P → Type 0
  unfolding Apart
  AllApart x_same [] = Unit
  AllApart x_same (d ∷ ds) = Apart x_same d ds

  module _ (y_less x_less : P → P → Bool) where
    analyze-All :
        (Q : P → Type 0) (low high : P) (ds : List P)
        → Q low
        → Q high
        → All Q ds
        → let (l, h) = analyze_from y_less low high ds in Q l × Q h
    unfolding analyze_from
    analyze-All Q low high [] ql qh q = (ql, qh)
    analyze-All Q low high (d ∷ ds) ql qh q =
        let next_low = if y_less d low then d else low in
        let next_high = if y_less d low then high else if y_less high d then d else high in
        analyze-All Q next_low next_high ds (if_either Q (y_less d low) d low q.0 ql)
          (if_either Q (y_less d low) high (if y_less high d then d else high) qh
            (if_either Q (y_less high d) d high q.0 qh))
          q.1

    points-All :
        (Q : P → Type 0) (first : P) (rest : List P)
        → Q first
        → All Q rest
        → All Q (window_points y_less x_less first rest)
    unfolding window_points analyze_window
    points-All Q first rest q p =
        let (low, high) = analyze_window y_less first rest in
        let (l, h) = analyze-All Q first first (first ∷ rest) q q (q, p) in
        if_either (All Q) (x_less low high) (low ∷ high ∷ []) (high ∷ low ∷ []) (l, (h, tt))
          (h, (l, tt))

    add-All :
        (Q : P → Type 0) (win rest : List P)
        → All Q win
        → All Q rest
        → All Q (add_window y_less x_less win rest)
    unfolding add_window
    add-All Q [] rest q p = tt
    add-All Q (first ∷ others) rest q p = All-append Q _ rest (points-All Q first others q.0 q.1) p

    loop-All :
        (Q : P → Type 0) (n i size : ℕ) (points : List P)
        → All Q points
        → All Q (window_loop y_less x_less n i size points)
    unfolding window_loop slice
    loop-All Q zero i size points q = tt
    loop-All Q (suc n) i size points q =
        add-All Q _ _ (All-take Q _ _ (All-drop Q (i * size) points q))
          (loop-All Q n (suc i) size points q)

    length-points :
        (first : P) (rest : List P) → length (window_points y_less x_less first rest) ≡ 2
    unfolding window_points
    length-points first rest =
        let (low, high) = analyze_window y_less first rest in
        if_either (λ (ps : List P). length ps ≡ 2) (x_less low high) (low ∷ high ∷ [])
          (high ∷ low ∷ []) (omega arith) (omega arith)

    length-add :
        (win rest : List P) (n : ℕ)
        → length rest ≤ n
        → length (add_window y_less x_less win rest) ≤ suc (suc n)
    unfolding add_window
    length-add [] rest n h = omega arith
    length-add (first ∷ others) rest n h = omega (
      arith,
      length-append (window_points y_less x_less first others) rest,
      length-points first others,
    )

    length-loop :
        (n i size : ℕ) (points : List P)
        → length (window_loop y_less x_less n i size points) ≤ 2 * n
    unfolding window_loop
    length-loop zero i size points = omega arith
    length-loop (suc n) i size points = omega (
      arith,
      length-add (slice (i * size) (suc i * size) points)
          (window_loop y_less x_less n (suc i) size points) (2 * n)
          (length-loop n (suc i) size points),
    )

  module _ (x_same : P → P → Bool) where
    drop_same-All :
        (Q : P → Type 0) (d : P) (es : List P) → Q d → All Q es → All Q (drop_same x_same d es)
    unfolding drop_same
    drop_same-All Q d [] q p = (q, tt)
    drop_same-All Q d (e ∷ es) q p = elim (Bool-cases (x_same d e)) [
      | inl h ↦ rw (h, drop_same) (drop_same-All Q d es q p.1)
      | inr h ↦ rw (h, drop_same) (q, drop_same-All Q e es p.0 p.1)
    ]

    length-drop_same : (d : P) (es : List P) → length (drop_same x_same d es) ≤ suc (length es)
    unfolding drop_same
    length-drop_same d [] = omega arith
    length-drop_same d (e ∷ es) = elim (Bool-cases (x_same d e)) [
      | inl h ↦ rw (h, drop_same) (omega (arith, length-drop_same d es))
      | inr h ↦ rw (h, drop_same) (omega (arith, length-drop_same e es))
    ]

    -- The first point is kept, so what follows it is told apart from it.
    drop_same-Apart :
        (d : P) (es : List P)
        → (rest : List P) × (drop_same x_same d es ≡ d ∷ rest) × Apart x_same d rest
    unfolding drop_same Apart
    drop_same-Apart d [] = ([], refl, tt)
    drop_same-Apart d (e ∷ es) = elim (Bool-cases (x_same d e)) [
      | inl h ↦ rw (h, drop_same) (drop_same-Apart d es)
      | inr h ↦
          let (rest, q, a) = drop_same-Apart e es in
          (e ∷ rest, rw (h, drop_same) (ap (λ (ds : List P). d ∷ ds) q), (h, a))
    ]

    drop_duplicates-AllApart : (ds : List P) → AllApart x_same (drop_duplicates x_same ds)
    unfolding drop_duplicates AllApart
    drop_duplicates-AllApart [] = tt
    drop_duplicates-AllApart (d ∷ ds) = let (rest, q, a) = drop_same-Apart d ds in rw q a

    drop_duplicates-All :
        (Q : P → Type 0) (ds : List P) → All Q ds → All Q (drop_duplicates x_same ds)
    unfolding drop_duplicates
    drop_duplicates-All Q [] q = tt
    drop_duplicates-All Q (d ∷ ds) q = drop_same-All Q d ds q.0 q.1

    length-drop_duplicates : (ds : List P) → length (drop_duplicates x_same ds) ≤ length ds
    unfolding drop_duplicates
    length-drop_duplicates [] = omega arith
    length-drop_duplicates (d ∷ ds) = length-drop_same d ds

  -- Of more points than are asked for, decimation leaves at most as many as are asked for, and one
  -- more if that number is odd; no two of them that stand side by side have the same x; and what
  -- holds of all points holds of those that are left.
  pub decimate_lem :
      (y_less x_less x_same : P → P → Bool) (most : ℕ) (points : List P) (Q : P → Type 0)
      → most < length points
      → All Q points
      → let left = decimate y_less x_less x_same most points in
        (length left ≤ 2 * ((most + 1) / 2)) × AllApart x_same left × All Q left
  unfolding decimate
  decimate_lem y_less x_less x_same most points Q h q =
      let size = (length points * 2 + most - 1) / most in
      let windows = window_loop y_less x_less ((most + 1) / 2) 0 size points in
      rw (lt→leb (length points) most h) (
        omega (
          arith,
          length-drop_duplicates x_same windows,
          length-loop y_less x_less ((most + 1) / 2) 0 size points,
        ),
        drop_duplicates-AllApart x_same windows,
        drop_duplicates-All x_same Q windows
            (loop-All y_less x_less Q ((most + 1) / 2) 0 size points q),
      )
