-- ===== src/Dashboard/Panel.antt =====
-- qtoggleserver/frontend/js/dashboard/panel.js and the layout controls of
-- qtoggleserver/frontend/js/dashboard/widgets/widget.js: widgets on a grid of cells. Sizes and
-- positions are whole numbers of cells. `ref` stands for the identity of a widget object.
pub mod Overlap
pub mod Layout
pub mod Place
pub mod Drag
pub mod Widgets
mod Tests
use qtoggleserver.Base.{
  ℕ, zero, suc, ◌+◌, ◌-◌, Bool, true, false, not, ◌&&◌, ◌||◌, Option, none, some, List, [], ◌∷◌,
  ◌++◌, map, min, max, ltb, leb, ◌==◌, if◌then◌else◌,
}
use qtoggleserver.Base.Int.{ℤ, pos_part}

pub record Widget : Type 0 where
  pub ref : ℕ
  pub left : ℕ
  pub top : ℕ
  pub width : ℕ
  pub height : ℕ
  pub selected : Bool

pub record Panel : Type 0 where
  pub width : ℕ
  pub height : ℕ
  pub widgets : List Widget

-- `_rectsOverlap`
unfoldable pub rects_overlap : (l1 t1 w1 h1 l2 t2 w2 h2 : ℕ) → Bool
rects_overlap l1 t1 w1 h1 l2 t2 w2 h2 =
    ((leb l2 l1 && ltb l1 (l2 + w2)) || (leb l1 l2 && ltb l2 (l1 + w1)))
    && ((leb t2 t1 && ltb t1 (t2 + h2)) || (leb t1 t2 && ltb t2 (t1 + h1)))

-- `w === widget`, where the argument may be left out.
abbrev pub is_widget : Option ℕ → Widget → Bool
is_widget none w = false
is_widget (some ref) w = w.ref == ref

-- The `some` of `verifyWidgetLayout`.
unfoldable pub overlaps_any : ℕ → ℕ → ℕ → ℕ → Option ℕ → List Widget → Bool
overlaps_any left top width height widget [] = false
overlaps_any left top width height widget (w ∷ ws) =
    (if is_widget widget w
      then false
      else rects_overlap left top width height w.left w.top w.width w.height)
    || overlaps_any left top width height widget ws

unfoldable pub verify_widget_layout : Panel → ℕ → ℕ → ℕ → ℕ → Option ℕ → Bool
verify_widget_layout p left top width height widget =
    if ltb p.width (left + width) || ltb p.height (top + height)
    then false
    else not (overlaps_any left top width height widget p.widgets)

-- The inner loop of `findWidgetPlace`: `n` columns are left, the first of them `x`.
unfoldable pub find_in_row : Panel → ℕ → ℕ → ℕ → ℕ → ℕ → Option (ℕ × ℕ)
find_in_row p width height y zero x = none
find_in_row p width height y (suc n) x =
    let rest = find_in_row p width height y n (suc x) in
    if verify_widget_layout p x y width height none then some (x, y) else rest

-- The outer loop: `n` rows are left, the first of them `y`.
unfoldable pub find_in_rows : Panel → ℕ → ℕ → ℕ → ℕ → Option (ℕ × ℕ)
find_in_rows p width height zero y = none
find_in_rows p width height (suc n) y =
    let rest = find_in_rows p width height n (suc y) in
    elim (find_in_row p width height y p.width 0) [ some place ↦ some place | none ↦ rest ]

-- `while (!this.verifyWidgetLayout(0, top, width, height)) this._height++`
unfoldable pub grow : ℕ → Panel → ℕ → ℕ → ℕ → Option Panel
grow zero p top width height = none
grow (suc fuel) p top width height =
    let rest = grow fuel (record p { height = p.height + 1 }) top width height in
    if verify_widget_layout p 0 top width height none then some p else rest

abbrev pub last_or : ℕ → List ℕ → ℕ
last_or d [] = d
last_or d (x ∷ xs) = last_or x xs

abbrev pub bottom : Widget → ℕ
bottom w = w.top + w.height

-- What `findWidgetPlace` returns, with the panel after it. `sort_key` is `ArrayUtils.sortKey` of the
-- qui package, with the identity for the key.
unfoldable pub find_widget_place : (List ℕ → List ℕ) → ℕ → Panel → ℕ → ℕ → Option ((ℕ × ℕ) × Panel)
find_widget_place sort_key fuel p0 width height =
    let p = record p0 { width = max p0.width width } in
    elim (find_in_rows p width height p.height 0) [
      | some place ↦ some (place, p)
      | none ↦
          let top = last_or 0 (sort_key (map bottom p.widgets)) in
          elim (grow fuel p top width height) [ none ↦ none | some grown ↦ some ((0, top), grown) ]
    ]

-- The new widget of `_onWidgetPicked` and `duplicateWidget`: it is placed, added and selected.
unfoldable pub deselect : ℕ → List Widget → List Widget
deselect ref [] = []
deselect ref (w ∷ ws) =
    let rest = deselect ref ws in (if w.ref == ref then w else record w { selected = false }) ∷ rest

unfoldable pub select : ℕ → List Widget → List Widget
select ref [] = []
select ref (w ∷ ws) =
    let rest = select ref ws in (if w.ref == ref then record w { selected = true } else w) ∷ rest

-- `setSelectedWidget`
unfoldable pub set_selected_widget : Option ℕ → Panel → Panel
unfolding select deselect
set_selected_widget none p = record p {
  widgets = map (λ (w : Widget). record w { selected = false }) p.widgets;
}
set_selected_widget (some ref) p = record p { widgets = select ref (deselect ref p.widgets) }

unfoldable pub add_widget : (List ℕ → List ℕ) → ℕ → ℕ → ℕ → ℕ → Panel → Option Panel
unfolding set_selected_widget
add_widget sort_key fuel ref width height p =
    elim (find_widget_place sort_key fuel p width height) [
      | none ↦ none
      | some ((left, top), q) ↦ some (
          set_selected_widget (some ref) (record q {
            widgets =
                q.widgets
                ++ record {
                  ref = ref;
                  left = left;
                  top = top;
                  width = width;
                  height = height;
                  selected = false;
                }
                  ∷ [];
          }))
    ]

-- `removeWidget`
unfoldable pub remove_first : ℕ → List Widget → List Widget
remove_first ref [] = []
remove_first ref (w ∷ ws) = let rest = remove_first ref ws in if w.ref == ref then ws else w ∷ rest

unfoldable pub remove_widget : ℕ → Panel → Panel
unfolding remove_first
remove_widget ref p = record p { widgets = remove_first ref p.widgets }

-- `updateSizeLimits`: `maxX + 1`, the least width that the options form allows.
unfoldable pub min_width : ℕ → List Widget → ℕ
min_width m [] = m
min_width m (w ∷ ws) = min_width (if ltb m (w.left + w.width) then w.left + w.width else m) ws

-- `maxY + 1`
unfoldable pub min_height : ℕ → List Widget → ℕ
min_height m [] = m
min_height m (w ∷ ws) = min_height (if ltb m (w.top + w.height) then w.top + w.height else m) ws
