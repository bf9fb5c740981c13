-- ===== src/Dashboard/Panel/Layout.antt =====
-- A panel's layout: each widget within the panel, no two on one cell.
use qtoggleserver.Base.{
  ℕ, ◌+◌, ◌≤◌, ◌<◌, ◌≡◌, ◌≢◌, refl, inl, inr, some, List, [], ◌∷◌, arith, ◌==◌, if◌then◌else◌, All,
  All-map, All-map₂, Bool-cases,
}
use qtoggleserver.Dashboard.Panel.{Widget, Panel}
use qtoggleserver.Dashboard.Panel.Overlap.{Apart, Clear}

-- No cell is taken by both.
abbrev pub Separate : Widget → Widget → Type 0
Separate v w = Apart v.left v.top v.width v.height w.left w.top w.width w.height

pub record Fits (width height : ℕ) (w : Widget) : Type 0 where
  pub wide : 0 < w.width
  pub high : 0 < w.height
  pub right : w.left + w.width ≤ width
  pub below : w.top + w.height ≤ height

abbrev pub Layout : ℕ → ℕ → List Widget → Type 0
Layout width height [] = Unit
Layout width height (w ∷ ws) =
    Fits width height w × All (λ v. (v.ref ≢ w.ref) × Separate w v) ws × Layout width height ws

abbrev pub IsValid : Panel → Type 0
IsValid p = Layout p.width p.height p.widgets

-- The widget `ref` gets another place.
unfoldable pub put_at : ℕ → ℕ → ℕ → ℕ → ℕ → List Widget → List Widget
put_at ref left top width height [] = []
put_at ref left top width height (w ∷ ws) =
    let rest = put_at ref left top width height ws in
    (if w.ref == ref
      then record w { left = left; top = top; width = width; height = height }
      else w)
    ∷ rest

module _ (ref left top width height : ℕ) where
  put_at-same :
      (ws : List Widget) → All (λ v. v.ref ≢ ref) ws → put_at ref left top width height ws ≡ ws
  unfolding put_at
  put_at-same [] h = refl
  put_at-same (w ∷ ws) h = ground (arith, put_at-same ws h.1)

  put_at-others :
      (w : Widget) (ws : List Widget)
      → w.ref ≢ ref
      → Apart left top width height w.left w.top w.width w.height
      → All (λ v. (v.ref ≢ w.ref) × Separate w v) ws
      → All (λ v. (v.ref ≢ w.ref) × Separate w v) (put_at ref left top width height ws)
  unfolding put_at
  put_at-others w [] n a h = tt
  put_at-others w (v ∷ ws) n a h = elim (Bool-cases (v.ref == ref)) [
    | inl e ↦ rw e ((h.0.0, ground arith), put_at-others w ws n a h.1)
    | inr e ↦ rw e (h.0, put_at-others w ws n a h.1)
  ]

  -- A widget put where it lies within the panel and apart from the others leaves a layout.
  pub put_at-Layout :
      (w h : ℕ) (ws : List Widget)
      → 0 < width
      → 0 < height
      → left + width ≤ w
      → top + height ≤ h
      → All (Clear left top width height (some ref)) ws
      → Layout w h ws
      → Layout w h (put_at ref left top width height ws)
  unfolding put_at
  put_at-Layout w h [] a b r d c l = tt
  put_at-Layout w h (v ∷ ws) a b r d c l = elim (Bool-cases (v.ref == ref)) [
    | inl e ↦
        rw (e, put_at-same ws (All-map ws (λ x s. ground (arith, s.0)) l.1))
          (
            record { wide = a; high = b; right = r; below = d },
            All-map₂ ws (λ x s k. (s.0, ground arith)) l.1 c.1,
            l.2,
          )
    | inr e ↦ rw e (
      l.0,
      put_at-others v ws (ground arith) (ground arith) l.1,
      put_at-Layout w h ws a b r d c.1 l.2,
    )
  ]

-- A panel that is enlarged keeps its layout.
pub Layout-mono :
    (w w' h h' : ℕ) (ws : List Widget) → w ≤ w' → h ≤ h' → Layout w h ws → Layout w' h' ws
Layout-mono w w' h h' [] p q l = tt
Layout-mono w w' h h' (v ∷ ws) p q l = (
  record {
    wide = l.0.wide;
    high = l.0.high;
    right = omega (arith, l.0.right);
    below = omega (arith, l.0.below);
  },
  l.1,
  Layout-mono w w' h h' ws p q l.2,
)
