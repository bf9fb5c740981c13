-- ===== src/Dashboard/Panel/Overlap.antt =====
-- `_rectsOverlap` and `verifyWidgetLayout` against the cells that rectangles take.
use qtoggleserver.Base.{
  ℕ, ◌+◌, ◌≤◌, ◌<◌, ◌≡◌, refl, ◌↔◌, ◌⊎◌, inl, inr, true, false, Option, none, some, List, [], ◌∷◌,
  arith, All, max, Bool-cases,
}
use qtoggleserver.Dashboard.Panel.{Widget, Panel, rects_overlap, overlaps_any, verify_widget_layout}

-- A cell of a rectangle.
abbrev pub Holds : (left top width height x y : ℕ) → Type 0
Holds left top width height x y = (left ≤ x) × (x < left + width) × (top ≤ y) × (y < top + height)

-- Two rectangles of which one lies wholly on one side of the other.
abbrev pub Apart : (l1 t1 w1 h1 l2 t2 w2 h2 : ℕ) → Type 0
Apart l1 t1 w1 h1 l2 t2 w2 h2 =
    (l1 + w1 ≤ l2) ⊎ ((l2 + w2 ≤ l1) ⊎ ((t1 + h1 ≤ t2) ⊎ (t2 + h2 ≤ t1)))

rects_overlap-Apart :
    (l1 t1 w1 h1 l2 t2 w2 h2 : ℕ)
    → rects_overlap l1 t1 w1 h1 l2 t2 w2 h2 ≡ false
    → Apart l1 t1 w1 h1 l2 t2 w2 h2
unfolding rects_overlap
rects_overlap-Apart l1 t1 w1 h1 l2 t2 w2 h2 h = ground arith

Apart-rects_overlap :
    (l1 t1 w1 h1 l2 t2 w2 h2 : ℕ)
    → 0 < w1
    → 0 < h1
    → 0 < w2
    → 0 < h2
    → Apart l1 t1 w1 h1 l2 t2 w2 h2
    → rects_overlap l1 t1 w1 h1 l2 t2 w2 h2 ≡ false
unfolding rects_overlap
Apart-rects_overlap l1 t1 w1 h1 l2 t2 w2 h2 a b c d h = ground arith

overlap_cell :
    (l1 t1 w1 h1 l2 t2 w2 h2 : ℕ)
    → 0 < w1
    → 0 < h1
    → 0 < w2
    → 0 < h2
    → rects_overlap l1 t1 w1 h1 l2 t2 w2 h2 ≡ true
    → Holds l1 t1 w1 h1 (max l1 l2) (max t1 t2) × Holds l2 t2 w2 h2 (max l1 l2) (max t1 t2)
unfolding rects_overlap
overlap_cell l1 t1 w1 h1 l2 t2 w2 h2 a b c d h = ground arith

-- `_rectsOverlap` tells for any two rectangles, empty ones excluded, whether they share a cell.
pub rects_overlap_iff :
    (l1 t1 w1 h1 l2 t2 w2 h2 : ℕ)
    → 0 < w1
    → 0 < h1
    → 0 < w2
    → 0 < h2
    → (rects_overlap l1 t1 w1 h1 l2 t2 w2 h2 ≡ true)
      ↔ ((x : ℕ) × (y : ℕ) × Holds l1 t1 w1 h1 x y × Holds l2 t2 w2 h2 x y)
rects_overlap_iff l1 t1 w1 h1 l2 t2 w2 h2 a b c d = (
  λ h. let (p, q) = overlap_cell l1 t1 w1 h1 l2 t2 w2 h2 a b c d h in (max l1 l2, max t1 t2, p, q),
  λ (x, y, p, q). elim (Bool-cases (rects_overlap l1 t1 w1 h1 l2 t2 w2 h2)) [
    | inl e ↦ e
    | inr e ↦ absurd (ground (arith, rects_overlap-Apart l1 t1 w1 h1 l2 t2 w2 h2 e))
  ],
)

-- What `verifyWidgetLayout` checks of another widget.
abbrev pub Clear : (left top width height : ℕ) → Option ℕ → Widget → Type 0
Clear left top width height none w = Apart left top width height w.left w.top w.width w.height
Clear left top width height (some ref) w =
    (w.ref ≡ ref) ⊎ Apart left top width height w.left w.top w.width w.height

overlaps_any-Clear :
    (left top width height : ℕ) (widget : Option ℕ) (ws : List Widget)
    → overlaps_any left top width height widget ws ≡ false
    → All (Clear left top width height widget) ws
unfolding overlaps_any
overlaps_any-Clear left top width height widget [] h = tt
overlaps_any-Clear left top width height none (w ∷ ws) h = (
  rects_overlap-Apart left top width height w.left w.top w.width w.height (ground arith),
  overlaps_any-Clear left top width height none ws (ground arith),
)
overlaps_any-Clear left top width height (some ref) (w ∷ ws) h = (
  ground (arith, rects_overlap-Apart left top width height w.left w.top w.width w.height),
  overlaps_any-Clear left top width height (some ref) ws (ground arith),
)

-- A layout that `verifyWidgetLayout` accepts lies within the panel, and apart from each widget of
-- the panel, other than the one that it is asked to leave out.
pub verify_widget_layout-Clear :
    (p : Panel) (left top width height : ℕ) (widget : Option ℕ)
    → verify_widget_layout p left top width height widget ≡ true
    → (left + width ≤ p.width)
      × (top + height ≤ p.height)
      × All (Clear left top width height widget) p.widgets
unfolding verify_widget_layout
verify_widget_layout-Clear p left top width height widget h = (
  ground arith,
  ground arith,
  overlaps_any-Clear left top width height widget p.widgets (ground arith),
)

Clear-overlaps_any :
    (left top width height : ℕ) (ws : List Widget)
    → 0 < width
    → 0 < height
    → All (λ w. (0 < w.width) × (0 < w.height)) ws
    → All (Clear left top width height none) ws
    → overlaps_any left top width height none ws ≡ false
unfolding overlaps_any
Clear-overlaps_any left top width height [] a b s h = refl
Clear-overlaps_any left top width height (w ∷ ws) a b s h = ground (
  arith,
  Apart-rects_overlap left top width height w.left w.top w.width w.height a b s.0.0 s.0.1 h.0,
  Clear-overlaps_any left top width height ws a b s.1 h.1,
)

-- And a layout for a new widget that does so is accepted.
pub Clear-verify_widget_layout :
    (p : Panel) (left top width height : ℕ)
    → 0 < width
    → 0 < height
    → All (λ w. (0 < w.width) × (0 < w.height)) p.widgets
    → left + width ≤ p.width
    → top + height ≤ p.height
    → All (Clear left top width height none) p.widgets
    → verify_widget_layout p left top width height none ≡ true
unfolding verify_widget_layout
Clear-verify_widget_layout p left top width height a b s l t h =
    ground (arith, Clear-overlaps_any left top width height p.widgets a b s h)
