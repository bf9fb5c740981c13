-- ===== src/Dashboard/Panel/Place.antt =====
-- `findWidgetPlace` finds a place, and a panel to which a widget is added there keeps its layout.
use mathlib.Core.Path.{subst}
use mathlib.Core.Option.{some-injective}
use qtoggleserver.Base.{
  ℕ, zero, suc, ◌+◌, ◌≤◌, ◌<◌, ◌≡◌, refl, sym, ◌⊎◌, inl, inr, true, none, some, List, [], ◌∷◌, map,
  arith, All, max, Bool-cases, Option-cases,
}
use qtoggleserver.Dashboard.Panel.{
  Widget, Panel, verify_widget_layout, find_in_row, find_in_rows, grow, last_or, bottom,
  find_widget_place,
}
use qtoggleserver.Dashboard.Panel.Overlap.{
  Clear, verify_widget_layout-Clear, Clear-verify_widget_layout,
}
use qtoggleserver.Dashboard.Panel.Layout.{Layout, IsValid, Layout-mono}

abbrev pub In : ℕ → List ℕ → Type 0
In a [] = ⊥
In a (x ∷ xs) = (a ≡ x) ⊎ In a xs

abbrev pub Ascending : List ℕ → Type 0
Ascending [] = Unit
Ascending (x ∷ xs) = All (λ y. x ≤ y) xs × Ascending xs

-- What is relied on of `ArrayUtils.sortKey`: it sorts, and loses nothing.
pub record Sorts (sort_key : List ℕ → List ℕ) : Type 0 where
  pub ascending : (xs : List ℕ) → Ascending (sort_key xs)
  pub keeps : (xs : List ℕ) (a : ℕ) → In a xs → In a (sort_key xs)
  pub only : (xs : List ℕ) (a : ℕ) → In a (sort_key xs) → In a xs

last_or-le : (d a : ℕ) (xs : List ℕ) → Ascending xs → In a xs → a ≤ last_or d xs
last_or-le d a [] s i = absurd i
last_or-le d a (x ∷ []) s i = ground arith
last_or-le d a (x ∷ y ∷ xs) s (inl e) = omega (arith, s.0.0, last_or-le x y (y ∷ xs) s.1 (inl refl))
last_or-le d a (x ∷ y ∷ xs) s (inr i) = last_or-le x a (y ∷ xs) s.1 i

last_or-In : (d : ℕ) (xs : List ℕ) → (last_or d xs ≡ d) ⊎ In (last_or d xs) xs
last_or-In d [] = inl refl
last_or-In d (x ∷ xs) = elim (last_or-In x xs) [ inl e ↦ inr (inl e) | inr i ↦ inr (inr i) ]

find_in_row-verified :
    (p : Panel) (width height y n x : ℕ) (place : ℕ × ℕ)
    → find_in_row p width height y n x ≡ some place
    → verify_widget_layout p place.0 place.1 width height none ≡ true
unfolding find_in_row
find_in_row-verified p width height y zero x place e = absurd (cc)
find_in_row-verified p width height y (suc n) x place e =
    elim (Bool-cases (verify_widget_layout p x y width height none)) [
      | inl v ↦
          subst (λ r. verify_widget_layout p r.0 r.1 width height none ≡ true)
            (some-injective _ _ (rw v at e)) v
      | inr v ↦ find_in_row-verified p width height y n (suc x) place (rw v at e)
    ]

find_in_rows-verified :
    (p : Panel) (width height n y : ℕ) (place : ℕ × ℕ)
    → find_in_rows p width height n y ≡ some place
    → verify_widget_layout p place.0 place.1 width height none ≡ true
unfolding find_in_rows
find_in_rows-verified p width height zero y place e = absurd (cc)
find_in_rows-verified p width height (suc n) y place e =
    elim (Option-cases (find_in_row p width height y p.width 0)) [
      | inl (r, f) ↦ find_in_row-verified p width height y p.width 0 place (ground arith)
      | inr f ↦ find_in_rows-verified p width height n (suc y) place (ground arith)
    ]

module _ (top width height : ℕ) (wide : 0 < width) (high : 0 < height) where
  grow_total :
      (fuel : ℕ) (p : Panel)
      → 0 < fuel
      → top + height < p.height + fuel
      → width ≤ p.width
      → All (λ w. (0 < w.width) × (0 < w.height)) p.widgets
      → All (Clear 0 top width height none) p.widgets
      → (q : Panel) × (grow fuel p top width height ≡ some q)
        × (q.width ≡ p.width)
        × (q.widgets ≡ p.widgets)
        × (p.height ≤ q.height)
        × (top + height ≤ q.height)
  unfolding grow
  grow_total zero p f h w s c = absurd (omega arith)
  grow_total (suc fuel) p f h w s c =
      elim (Bool-cases (verify_widget_layout p 0 top width height none)) [
        | inl v ↦ (
          p,
          rw v refl,
          refl,
          refl,
          omega arith,
          (verify_widget_layout-Clear p 0 top width height none v).1,
        )
        | inr v ↦
            let short : p.height < top + height =
              ground (
                arith,
                Clear-verify_widget_layout p 0 top width height wide high s (omega arith),
              ) in
            let (q, e, a, b, d, g) =
              grow_total fuel (record p { height = p.height + 1 }) (omega arith) (omega arith) w s
                c in
            (q, rw v e, a, b, omega arith, g)
      ]

Layout-positive :
    (w h : ℕ) (ws : List Widget) → Layout w h ws → All (λ v. (0 < v.width) × (0 < v.height)) ws
Layout-positive w h [] l = tt
Layout-positive w h (v ∷ ws) l = ((l.0.wide, l.0.high), Layout-positive w h ws l.2)

-- Below the lowest bottom all is free.
bottoms-Clear :
    (top width height : ℕ) (ws : List Widget)
    → ((a : ℕ) → In a (map bottom ws) → a ≤ top)
    → All (Clear 0 top width height none) ws
bottoms-Clear top width height [] h = tt
bottoms-Clear top width height (w ∷ ws) h = (
  inr (inr (inr (h (bottom w) (inl refl)))),
  bottoms-Clear top width height ws (λ a i. h a (inr i)),
)

bottoms-le : (w h : ℕ) (ws : List Widget) → Layout w h ws → (a : ℕ) → In a (map bottom ws) → a ≤ h
bottoms-le w h [] l a i = absurd i
bottoms-le w h (v ∷ ws) l a (inl e) = omega (arith, l.0.below)
bottoms-le w h (v ∷ ws) l a (inr i) = bottoms-le w h ws l.2 a i

-- Where a widget of the given size may be put in a panel.
pub record Free (q : Panel) (place : ℕ × ℕ) (width height : ℕ) : Type 0 where
  pub right : place.0 + width ≤ q.width
  pub below : place.1 + height ≤ q.height
  pub clear : All (Clear place.0 place.1 width height none) q.widgets

Free-verified :
    (p : Panel) (width height : ℕ) (place : ℕ × ℕ)
    → verify_widget_layout p place.0 place.1 width height none ≡ true
    → Free p place width height
Free-verified p width height place e =
    let (r, d, c) = verify_widget_layout-Clear p place.0 place.1 width height none e in
    record { right = r; below = d; clear = c }

IsValid-grown :
    (p q : Panel)
    → q.width ≡ p.width
    → q.widgets ≡ p.widgets
    → p.height ≤ q.height
    → IsValid p
    → IsValid q
IsValid-grown p q qw qs qh v =
    subst (λ ws. Layout q.width q.height ws) (sym qs)
      (Layout-mono p.width q.width p.height q.height p.widgets (omega arith) qh v)

module _ (sort_key : List ℕ → List ℕ) (sorts : Sorts sort_key) where
  last-bottom : (p : Panel) → IsValid p → last_or 0 (sort_key (map bottom p.widgets)) ≤ p.height
  last-bottom p v = elim (last_or-In 0 (sort_key (map bottom p.widgets))) [
    | inl e ↦ omega arith
    | inr i ↦ bottoms-le p.width p.height p.widgets v _ (sorts.only (map bottom p.widgets) _ i)
  ]

  -- For a panel with a valid layout `findWidgetPlace` always returns, after at most as many rounds
  -- of its last loop as the widget is high, and one: the place is free, and the panel has the same
  -- widgets, is not smaller, and is valid.
  pub find_widget_place_total :
      (fuel : ℕ) (p : Panel) (width height : ℕ)
      → IsValid p
      → 0 < width
      → 0 < height
      → height < fuel
      → (place : ℕ × ℕ) × (q : Panel) × (find_widget_place sort_key fuel p width height
          ≡ some (place, q))
        × Free q place width height
        × (q.widgets ≡ p.widgets)
        × IsValid q
        × (p.width ≤ q.width)
        × (p.height ≤ q.height)
  unfolding find_widget_place
  find_widget_place_total fuel p0 width height v0 a b f =
      let p : Panel = record p0 { width = max p0.width width } in
      let v : IsValid p =
        Layout-mono p0.width (max p0.width width) p0.height p0.height p0.widgets (omega arith)
          (omega arith) v0 in
      let top : ℕ = last_or 0 (sort_key (map bottom p0.widgets)) in
      elim (Option-cases (find_in_rows p width height p0.height 0)) [
        | inl (place, e) ↦ (
          place,
          p,
          rw (e, find_widget_place) refl,
          Free-verified p width height place
              (find_in_rows-verified p width height p0.height 0 place e),
          refl,
          v,
          omega arith,
          omega arith,
        )
        | inr e ↦
            let free = bottoms-Clear top width height p0.widgets (λ x i.
              last_or-le 0 x (sort_key (map bottom p0.widgets))
                (sorts.ascending (map bottom p0.widgets))
                (sorts.keeps (map bottom p0.widgets) x i)) in
            let (q, g, qw, qs, qh, fits) =
              grow_total top width height a b fuel p (omega arith)
                (omega (arith, last-bottom p0 v0)) (omega arith)
                (Layout-positive p0.width p0.height p0.widgets v0) free in
            (
              (0, top),
              q,
              rw (e, find_widget_place, g) refl,
              record {
                right = omega arith;
                below = fits;
                clear = subst (λ ws. All (Clear 0 top width height none) ws) (sym qs) free;
              },
              qs,
              IsValid-grown p q qw qs qh v,
              omega (arith, qw),
              omega (arith, qh),
            )
      ]
