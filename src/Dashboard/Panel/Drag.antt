-- ===== src/Dashboard/Panel/Drag.antt =====
-- The layout controls of a widget (`_makeMoveControl` and the four `_makeResize…Control` of
-- qtoggleserver/frontend/js/dashboard/widgets/widget.js): their `handleMove` functions. The cell
-- that the pointer is over, `Math.round` of an offset in pixels divided by the cell width, is an
-- argument, since it rests on the geometry of the page.
use qtoggleserver.Base.{
  ℕ, ◌+◌, ◌-◌, ◌<◌, ◌≡◌, inl, inr, Bool, true, false, not, ◌||◌, Option, none, some, List, [], ◌∷◌,
  arith, ◌==◌, if◌then◌else◌, min, max, Bool-cases, Option-cases,
}
use qtoggleserver.Base.Int.{ℤ, pos_part}
use qtoggleserver.Dashboard.Panel.{Widget, Panel, verify_widget_layout}
use qtoggleserver.Dashboard.Panel.Overlap.{verify_widget_layout-Clear}
use qtoggleserver.Dashboard.Panel.Layout.{Layout, IsValid, put_at, put_at-Layout}

put : ℕ → ℕ → ℕ → ℕ → Widget → Panel → Panel
put left top width height w p = record p { widgets = put_at w.ref left top width height p.widgets }

-- `Math.max(0, Math.min(panel width - widget width, newLeft))`: of a negative number on either
-- side `Math.max` makes 0, as `pos_part` and the subtraction do here.
handle_move : ℤ → ℤ → Widget → Panel → Panel
unfolding put
handle_move x y w p =
    let left = min (p.width - w.width) (pos_part x) in
    let top = min (p.height - w.height) (pos_part y) in
    if verify_widget_layout p left top w.width w.height (some w.ref)
    then (if not (left == w.left) || not (top == w.top)
        then put left top w.width w.height w p
        else p)
    else p

handle_resize_top : ℤ → Widget → Panel → Panel
unfolding put
handle_resize_top y w p =
    let top = min (w.top + w.height - 1) (pos_part y) in
    let height = w.height + w.top - top in
    if verify_widget_layout p w.left top w.width height (some w.ref)
    then (if not (top == w.top) then put w.left top w.width height w p else p)
    else p

handle_resize_right : ℤ → Widget → Panel → Panel
unfolding put
handle_resize_right x w p =
    let width = max (w.left + 1) (min p.width (pos_part x)) - w.left in
    if verify_widget_layout p w.left w.top width w.height (some w.ref)
    then (if not (width == w.width) then put w.left w.top width w.height w p else p)
    else p

handle_resize_bottom : ℤ → Widget → Panel → Panel
unfolding put
handle_resize_bottom y w p =
    let height = max (w.top + 1) (min p.height (pos_part y)) - w.top in
    if verify_widget_layout p w.left w.top w.width height (some w.ref)
    then (if not (height == w.height) then put w.left w.top w.width height w p else p)
    else p

handle_resize_left : ℤ → Widget → Panel → Panel
unfolding put
handle_resize_left x w p =
    let left = min (w.left + w.width - 1) (pos_part x) in
    let width = w.width + w.left - left in
    if verify_widget_layout p left w.top width w.height (some w.ref)
    then (if not (left == w.left) then put left w.top width w.height w p else p)
    else p

-- A movement of the pointer while one of the controls is dragged.
pub data Drag : Type 0 where
  move : ℤ → ℤ → Drag
  resize_top resize_right resize_bottom resize_left : ℤ → Drag

handle : Drag → Widget → Panel → Panel
unfolding handle_move handle_resize_top handle_resize_right handle_resize_bottom handle_resize_left
handle (move x y) w p = handle_move x y w p
handle (resize_top y) w p = handle_resize_top y w p
handle (resize_right x) w p = handle_resize_right x w p
handle (resize_bottom y) w p = handle_resize_bottom y w p
handle (resize_left x) w p = handle_resize_left x w p

unfoldable pub get_widget : ℕ → List Widget → Option Widget
get_widget ref [] = none
get_widget ref (w ∷ ws) = let rest = get_widget ref ws in if w.ref == ref then some w else rest

-- The control belongs to the widget `ref` of the panel.
unfoldable pub drag : ℕ → Drag → Panel → Panel
unfolding handle get_widget
drag ref d p = elim (get_widget ref p.widgets) [ none ↦ p | some w ↦ handle d w p ]

-- A sequence of movements.
unfoldable pub drags : List (ℕ × Drag) → Panel → Panel
unfolding drag
drags [] p = p
drags ((ref, d) ∷ rest) p = drags rest (drag ref d p)

get_widget-Fits :
    (ref width height : ℕ) (ws : List Widget) (w : Widget)
    → Layout width height ws
    → get_widget ref ws ≡ some w
    → (0 < w.width) × (0 < w.height)
unfolding get_widget
get_widget-Fits ref width height [] w l e = absurd (cc)
get_widget-Fits ref width height (v ∷ ws) w l e =
    ground (arith, get_widget-Fits ref width height ws w l.2, l.0.wide, l.0.high)

module _ (p : Panel) (w : Widget) (valid : IsValid p) (wide : 0 < w.width)
    (high : 0 < w.height) where
  put-IsValid :
      (left top width height : ℕ)
      → 0 < width
      → 0 < height
      → verify_widget_layout p left top width height (some w.ref) ≡ true
      → IsValid (put left top width height w p)
  unfolding put
  put-IsValid left top width height a b e =
      let (r, d, c) = verify_widget_layout-Clear p left top width height (some w.ref) e in
      put_at-Layout w.ref left top width height p.width p.height p.widgets a b r d c valid

  -- What every handler does with its result.
  kept :
      (left top width height : ℕ) (changed : Bool)
      → 0 < width
      → 0 < height
      → IsValid (
          if verify_widget_layout p left top width height (some w.ref)
          then (if changed then put left top width height w p else p)
          else p)
  kept left top width height false a b =
      elim (Bool-cases (verify_widget_layout p left top width height (some w.ref))) [
        | inl e ↦ rw e valid
        | inr e ↦ rw e valid
      ]
  kept left top width height true a b =
      elim (Bool-cases (verify_widget_layout p left top width height (some w.ref))) [
        | inl e ↦ rw e (put-IsValid left top width height a b e)
        | inr e ↦ rw e valid
      ]

  handle-IsValid : (d : Drag) → IsValid (handle d w p)
  unfolding handle
  handle-IsValid (move x y) = kept _ _ _ _ _ wide high
  handle-IsValid (resize_top y) = kept _ _ _ _ _ wide (omega arith)
  handle-IsValid (resize_right x) = kept _ _ _ _ _ (omega arith) high
  handle-IsValid (resize_bottom y) = kept _ _ _ _ _ wide (omega arith)
  handle-IsValid (resize_left x) = kept _ _ _ _ _ (omega arith) high

drag-IsValid : (ref : ℕ) (d : Drag) (p : Panel) → IsValid p → IsValid (drag ref d p)
unfolding drag
drag-IsValid ref d p v = elim (Option-cases (get_widget ref p.widgets)) [
  | inr e ↦ rw (e, drag) v
  | inl (w, e) ↦
      let (wide, high) = get_widget-Fits ref p.width p.height p.widgets w v e in
      rw (e, drag) (handle-IsValid p w v wide high d)
]

-- However the widgets of a panel are dragged and resized, each stays within the panel, none
-- becomes empty, and no two come to lie on one cell.
pub drags-IsValid : (ds : List (ℕ × Drag)) (p : Panel) → IsValid p → IsValid (drags ds p)
unfolding drags
drags-IsValid [] p v = v
drags-IsValid ((ref, d) ∷ ds) p v = drags-IsValid ds (drag ref d p) (drag-IsValid ref d p v)
