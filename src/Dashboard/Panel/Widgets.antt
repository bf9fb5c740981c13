-- ===== src/Dashboard/Panel/Widgets.antt =====
-- Adding, removing and selecting widgets, and the size limits of the options form.
use mathlib.Core.Path.{subst}
use qtoggleserver.Base.{
  ℕ, ◌+◌, ◌≤◌, ◌<◌, ◌≡◌, ◌≢◌, refl, sym, inl, inr, false, none, some, List, [], ◌∷◌, ◌++◌, arith,
  ltb, ◌==◌, if◌then◌else◌, All, All-map, Bool-cases,
}
use qtoggleserver.Dashboard.Panel.{
  Widget, Panel, deselect, select, set_selected_widget, add_widget, remove_first, remove_widget,
  min_width, min_height,
}
use qtoggleserver.Dashboard.Panel.Overlap.{Clear}
use qtoggleserver.Dashboard.Panel.Layout.{Fits, Separate, Layout, IsValid}
use qtoggleserver.Dashboard.Panel.Place.{Sorts, find_widget_place_total}

-- Two lists of widgets at the same places.
abbrev SamePlaces : List Widget → List Widget → Type 0
SamePlaces [] [] = Unit
SamePlaces [] (w ∷ ws) = ⊥
SamePlaces (v ∷ vs) [] = ⊥
SamePlaces (v ∷ vs) (w ∷ ws) =
    ((v.ref ≡ w.ref)
      × (v.left ≡ w.left)
      × (v.top ≡ w.top)
      × (v.width ≡ w.width)
      × (v.height ≡ w.height))
    × SamePlaces vs ws

SamePlaces-select : (ref : ℕ) (ws : List Widget) → SamePlaces ws (select ref ws)
unfolding select
SamePlaces-select ref [] = tt
SamePlaces-select ref (w ∷ ws) = (ground arith, SamePlaces-select ref ws)

SamePlaces-deselect : (ref : ℕ) (ws : List Widget) → SamePlaces ws (deselect ref ws)
unfolding deselect
SamePlaces-deselect ref [] = tt
SamePlaces-deselect ref (w ∷ ws) = (ground arith, SamePlaces-deselect ref ws)

SamePlaces-Separate :
    (v w : Widget) (vs ws : List Widget)
    → (v.ref ≡ w.ref)
      × (v.left ≡ w.left)
      × (v.top ≡ w.top)
      × (v.width ≡ w.width)
      × (v.height ≡ w.height)
    → SamePlaces vs ws
    → All (λ x. (x.ref ≢ v.ref) × Separate v x) vs
    → All (λ x. (x.ref ≢ w.ref) × Separate w x) ws
SamePlaces-Separate v w [] [] e s a = tt
SamePlaces-Separate v w [] (y ∷ ws) e s a = absurd s
SamePlaces-Separate v w (x ∷ vs) [] e s a = absurd s
SamePlaces-Separate v w (x ∷ vs) (y ∷ ws) e s a =
    ((ground arith, ground arith), SamePlaces-Separate v w vs ws e s.1 a.1)

SamePlaces-Layout :
    (width height : ℕ) (vs ws : List Widget)
    → SamePlaces vs ws
    → Layout width height vs
    → Layout width height ws
SamePlaces-Layout width height [] [] s l = tt
SamePlaces-Layout width height [] (w ∷ ws) s l = absurd s
SamePlaces-Layout width height (v ∷ vs) [] s l = absurd s
SamePlaces-Layout width height (v ∷ vs) (w ∷ ws) s l = (
  record {
    wide = omega (arith, l.0.wide);
    high = omega (arith, l.0.high);
    right = omega (arith, l.0.right);
    below = omega (arith, l.0.below);
  },
  SamePlaces-Separate v w vs ws s.0 s.1 l.1,
  SamePlaces-Layout width height vs ws s.1 l.2,
)

All-append :
    (P : Widget → Type 0) (vs : List Widget) (w : Widget) → All P vs → P w → All P (vs ++ w ∷ [])
All-append P [] w a p = (p, tt)
All-append P (v ∷ vs) w a p = (a.0, All-append P vs w a.1 p)

Layout-append :
    (width height : ℕ) (ws : List Widget) (w : Widget)
    → Fits width height w
    → All (λ v. v.ref ≢ w.ref) ws
    → All (Clear w.left w.top w.width w.height none) ws
    → Layout width height ws
    → Layout width height (ws ++ w ∷ [])
Layout-append width height [] w f n c l = (f, tt, tt)
Layout-append width height (v ∷ ws) w f n c l = (
  l.0,
  All-append (λ x. (x.ref ≢ v.ref) × Separate v x) ws w l.1 (ground arith, ground arith),
  Layout-append width height ws w f n.1 c.1 l.2,
)

selected-Layout :
    (width height ref : ℕ) (ws : List Widget)
    → Layout width height ws
    → Layout width height (select ref (deselect ref ws))
selected-Layout width height ref ws l =
    SamePlaces-Layout width height (deselect ref ws) (select ref (deselect ref ws))
      (SamePlaces-select ref (deselect ref ws))
      (SamePlaces-Layout width height ws (deselect ref ws) (SamePlaces-deselect ref ws) l)

-- A widget that is added to a valid panel (a new one, or a copy of another) gets a place of its
-- own: adding it always returns, and the panel stays valid.
pub add_widget-IsValid :
    (sort_key : List ℕ → List ℕ) (fuel ref width height : ℕ) (p : Panel)
    → Sorts sort_key
    → IsValid p
    → All (λ v. v.ref ≢ ref) p.widgets
    → 0 < width
    → 0 < height
    → height < fuel
    → (q : Panel) × (add_widget sort_key fuel ref width height p ≡ some q) × IsValid q
unfolding add_widget
add_widget-IsValid sort_key fuel ref width height p sorts v n a b f =
    let ((left, top), q, e, free, same, valid, wider, higher) =
      find_widget_place_total sort_key sorts fuel p width height v a b f in
    let w : Widget = record {
      ref = ref;
      left = left;
      top = top;
      width = width;
      height = height;
      selected = false;
    } in
    let added : Panel = record q { widgets = q.widgets ++ w ∷ [] } in
    (
      set_selected_widget (some ref) added,
      rw (e, add_widget) refl,
      selected-Layout q.width q.height ref added.widgets (
          Layout-append q.width q.height q.widgets w
            (record { wide = a; high = b; right = free.right; below = free.below })
            (subst (λ ws. All (λ x. x.ref ≢ ref) ws) (sym same) n) free.clear valid),
    )

selects :
    (ref : ℕ) (ws : List Widget)
    → All (λ w. w.selected ≡ (w.ref == ref)) (select ref (deselect ref ws))
unfolding select deselect
selects ref [] = tt
selects ref (w ∷ ws) = (ground arith, selects ref ws)

-- `setSelectedWidget` leaves the widget that it is given as the only one that is selected.
pub set_selected_widget-selects :
    (ref : ℕ) (p : Panel)
    → All (λ w. w.selected ≡ (w.ref == ref)) (set_selected_widget (some ref) p).widgets
unfolding set_selected_widget
set_selected_widget-selects ref p = selects ref p.widgets

All-remove :
    (P : Widget → Type 0) (ref : ℕ) (ws : List Widget) → All P ws → All P (remove_first ref ws)
unfolding remove_first
All-remove P ref [] a = tt
All-remove P ref (w ∷ ws) a = elim (Bool-cases (w.ref == ref)) [
  | inl e ↦ rw e a.1
  | inr e ↦ rw e (a.0, All-remove P ref ws a.1)
]

remove-Layout :
    (width height ref : ℕ) (ws : List Widget)
    → Layout width height ws
    → Layout width height (remove_first ref ws) × All (λ w. w.ref ≢ ref) (remove_first ref ws)
unfolding remove_first
remove-Layout width height ref [] l = (tt, tt)
remove-Layout width height ref (w ∷ ws) l = elim (Bool-cases (w.ref == ref)) [
  | inl e ↦ rw e (l.2, All-map ws (λ x s. ground (arith, s.0)) l.1)
  | inr e ↦
      let (rest, gone) = remove-Layout width height ref ws l.2 in
      rw e (
        (l.0, All-remove (λ x. (x.ref ≢ w.ref) × Separate w x) ref ws l.1, rest),
        (ground arith, gone),
      )
]

-- `removeWidget` leaves a valid panel, and the widget is gone from it.
pub remove_widget-IsValid :
    (ref : ℕ) (p : Panel)
    → IsValid p
    → IsValid (remove_widget ref p) × All (λ w. w.ref ≢ ref) (remove_widget ref p).widgets
unfolding remove_widget
remove_widget-IsValid ref p v = remove-Layout p.width p.height ref p.widgets v

min_width-le : (m : ℕ) (ws : List Widget) → m ≤ min_width m ws
unfolding min_width
min_width-le m [] = omega arith
min_width-le m (w ∷ ws) = ground (arith, min_width-le m ws, min_width-le (w.left + w.width) ws)

min_height-le : (m : ℕ) (ws : List Widget) → m ≤ min_height m ws
unfolding min_height
min_height-le m [] = omega arith
min_height-le m (w ∷ ws) = ground (arith, min_height-le m ws, min_height-le (w.top + w.height) ws)

limits-Layout :
    (m n width height width' height' : ℕ) (ws : List Widget)
    → Layout width height ws
    → min_width m ws ≤ width'
    → min_height n ws ≤ height'
    → Layout width' height' ws
unfolding min_width min_height
limits-Layout m n width height width' height' [] l h k = tt
limits-Layout m n width height width' height' (w ∷ ws) l h k =
    let m' = if ltb m (w.left + w.width) then w.left + w.width else m in
    let n' = if ltb n (w.top + w.height) then w.top + w.height else n in
    (
      record {
        wide = l.0.wide;
        high = l.0.high;
        right = ground (arith, min_width-le m' ws);
        below = ground (arith, min_height-le n' ws);
      },
      l.1,
      limits-Layout m' n' width height width' height' ws l.2 h k,
    )

-- Whatever width and height the options form lets through, not below the limits that
-- `updateSizeLimits` sets, the widgets still lie within the panel.
pub size_limits-IsValid :
    (p : Panel) (width height : ℕ)
    → IsValid p
    → min_width 0 p.widgets ≤ width
    → min_height 0 p.widgets ≤ height
    → IsValid (record p { width = width; height = height })
size_limits-IsValid p width height = limits-Layout 0 0 p.width p.height width height p.widgets
