-- ===== src/Dashboard/Panel/Tests.antt =====
-- Runs of a panel, and its theorems at concrete inputs.
use qtoggleserver.Base.{
  ℕ, ◌≤◌, ◌≡◌, ◌↔◌, refl, inl, inr, true, false, some, List, [], ◌∷◌, arith, leb, if◌then◌else◌,
  All, All-map, Bool-cases,
}
use qtoggleserver.Base.Int.{pos, negsuc}
use qtoggleserver.Dashboard.Panel.{
  Widget, Panel, rects_overlap, find_widget_place, verify_widget_layout, find_in_rows, find_in_row,
  grow, overlaps_any,
}
use qtoggleserver.Dashboard.Panel.Layout.{IsValid}
use qtoggleserver.Dashboard.Panel.Place.{Sorts, In, Ascending, Free, find_widget_place_total}
use qtoggleserver.Dashboard.Panel.Drag.{move, resize_right, drags, drags-IsValid}

insert : ℕ → List ℕ → List ℕ
insert a [] = a ∷ []
insert a (x ∷ xs) = let rest = insert a xs in if leb a x then a ∷ x ∷ xs else x ∷ rest

sort : List ℕ → List ℕ
unfolding insert
sort [] = []
sort (x ∷ xs) = insert x (sort xs)

All-insert : (P : ℕ → Type 0) (a : ℕ) (xs : List ℕ) → P a → All P xs → All P (insert a xs)
unfolding insert
All-insert P a [] p q = (p, tt)
All-insert P a (x ∷ xs) p q = elim (Bool-cases (leb a x)) [
  | inl e ↦ rw e (p, q)
  | inr e ↦ rw e (q.0, All-insert P a xs p q.1)
]

insert-Ascending : (a : ℕ) (xs : List ℕ) → Ascending xs → Ascending (insert a xs)
unfolding insert
insert-Ascending a [] s = (tt, tt)
insert-Ascending a (x ∷ xs) s = elim (Bool-cases (leb a x)) [
  | inl e ↦ rw e ((ground arith, All-map xs (λ y h. ground arith) s.0), s)
  | inr e ↦ rw e (All-insert (λ y. x ≤ y) a xs (ground arith) s.0, insert-Ascending a xs s.1)
]

insert-In : (a b : ℕ) (xs : List ℕ) → In b (insert a xs) ↔ In b (a ∷ xs)
unfolding insert
insert-In a b [] = (λ i. i, λ i. i)
insert-In a b (x ∷ xs) = elim (Bool-cases (leb a x)) [
  | inl e ↦ rw e (λ i. i, λ i. i)
  | inr e ↦ rw e (
    elim [
      | inl p ↦ inr (inl p)
      | inr i ↦ elim ((insert-In a b xs).0 i) [ inl p ↦ inl p | inr j ↦ inr (inr j) ]
    ],
    elim [
      | inl p ↦ inr ((insert-In a b xs).1 (inl p))
      | inr i ↦ elim i [ inl p ↦ inl p | inr j ↦ inr ((insert-In a b xs).1 (inr j)) ]
    ],
  )
]

sort-Ascending : (xs : List ℕ) → Ascending (sort xs)
unfolding sort
sort-Ascending [] = tt
sort-Ascending (x ∷ xs) = insert-Ascending x (sort xs) (sort-Ascending xs)

sort-In : (xs : List ℕ) (a : ℕ) → In a (sort xs) ↔ In a xs
unfolding sort
sort-In [] a = (λ i. i, λ i. i)
sort-In (x ∷ xs) a = (
  λ i. elim ((insert-In x a (sort xs)).0 i) [ inl e ↦ inl e | inr j ↦ inr ((sort-In xs a).0 j) ],
  elim [
    | inl e ↦ (insert-In x a (sort xs)).1 (inl e)
    | inr j ↦ (insert-In x a (sort xs)).1 (inr ((sort-In xs a).1 j))
  ],
)

sort-Sorts : Sorts sort
sort-Sorts = record {
  ascending = sort-Ascending;
  keeps = λ xs a i. (sort-In xs a).1 i;
  only = λ xs a i. (sort-In xs a).0 i;
}

abbrev lamp : Widget
lamp = record { ref = 1; left = 0; top = 0; width = 2; height = 1; selected = true }

abbrev gauge : Widget
gauge = record { ref = 2; left = 2; top = 0; width = 1; height = 3; selected = false }

abbrev kitchen : Panel
kitchen = record { width = 3; height = 3; widgets = lamp ∷ gauge ∷ [] }

kitchen-IsValid : IsValid kitchen
kitchen-IsValid = (omega arith, ((omega arith, inl (omega arith)), tt), (omega arith, tt, tt))

-- The panel is full for a widget of three cells by one: it grows.
grows : find_widget_place sort 2 kitchen 3 1 ≡ some ((0, 3), record kitchen { height = 4 })
unfolding find_widget_place find_in_rows find_in_row grow verify_widget_layout overlaps_any
    rects_overlap sort
grows = refl

find_widget_place_example :
    (place : ℕ × ℕ) × (q : Panel) × (find_widget_place sort 2 kitchen 3 1 ≡ some (place, q))
    × Free q place 3 1
    × (q.widgets ≡ kitchen.widgets)
    × IsValid q
    × (kitchen.width ≤ q.width)
    × (kitchen.height ≤ q.height)
find_widget_place_example =
    find_widget_place_total sort sort-Sorts 2 kitchen 3 1 kitchen-IsValid (omega arith)
      (omega arith) (omega arith)

drags_example :
    IsValid (drags ((1, move (pos 0) (pos 9)) ∷ (2, resize_right (negsuc 4)) ∷ []) kitchen)
drags_example =
    drags-IsValid ((1, move (pos 0) (pos 9)) ∷ (2, resize_right (negsuc 4)) ∷ []) kitchen
      kitchen-IsValid
