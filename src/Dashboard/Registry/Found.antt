-- ===== src/Dashboard/Registry/Found.antt =====
-- Registered classes of widgets are found.
use qtoggleserver.Base.{
  ◌≡◌, refl, sym, ◌∙◌, ap, Bool, true, false, Option, none, some, List, [], ◌∷◌, ◌++◌,
  if◌then◌else◌, String, All, All-map, All-map₂, inl, inr, Bool-cases,
}
use mathlib.Core.Bool.{false≢true}
use text.Mathlib.Text.{◌==◌ as str_eq}
use qtoggleserver.Cache.Lookup.{text_refl, text_sym}
use qtoggleserver.Dashboard.Registry.{Category, register, register_all, find_class, find}

-- The classes have type names of their own.
unfoldable pub Distinct : {W : Type 0} → (W → String) → List W → Type 0
Distinct type_name [] = Unit
Distinct type_name (w ∷ ws) =
    All (λ v. str_eq (type_name w) (type_name v) ≡ false) ws × Distinct type_name ws

module _ {W : Type 0} (category type_name : W → String) where
  -- What is found in a list and, if nothing is, further on.
  abbrev or_later : Option W → Option W → Option W
  or_later v later = elim v [ none ↦ later | some w ↦ some w ]

  abbrev if_named : W → String → Option W
  if_named w t = if str_eq (type_name w) t then some w else none

  find_class-push :
      (w : W) (t : String) (ws : List W)
      → find_class type_name t (ws ++ w ∷ []) ≡ or_later (find_class type_name t ws) (if_named w t)
  unfolding find_class
  find_class-push w t [] = refl
  find_class-push w t (v ∷ ws) = elim (Bool-cases (str_eq (type_name v) t)) [
    | inl e ↦ rw e refl
    | inr e ↦ rw e (find_class-push w t ws)
  ]

  named_alone :
      (w : W) (b : Bool) → or_later (if b then some w else none) none ≡ (if b then some w else none)
  named_alone w true = refl
  named_alone w false = refl

  later_none : (a later : Option W) → or_later a later ≡ none → later ≡ none
  later_none none later e = e
  later_none (some a) later e = absurd (cc)

  swap :
      (w : W) (a later : Option W) (b : Bool)
      → (b ≡ true → or_later a later ≡ none)
      → or_later (or_later a (if b then some w else none)) later
        ≡ or_later (or_later a later) (if b then some w else none)
  swap w (some a) later b f = refl
  swap w none none true f = refl
  swap w none none false f = refl
  swap w none (some l) false f = refl
  swap w none (some l) true f = absurd (let e = f refl in cc)

  assoc : (a b c : Option W) → or_later a (or_later b c) ≡ or_later (or_later a b) c
  assoc none b c = refl
  assoc (some a) b c = refl

  -- A class that is registered is found under its type name, if nothing was found there before, and
  -- nothing changes for the other names.
  find-register :
      (w : W) (t : String) (r : List (Category W))
      → (str_eq (type_name w) t ≡ true → find type_name t r ≡ none)
      → find type_name t (register category w r) ≡ or_later (find type_name t r) (if_named w t)
  unfolding find register
  find-register w t [] free = named_alone w (str_eq (type_name w) t)
  find-register w t (c ∷ cs) free =
      let here = find_class type_name t c.widget_classes in
      elim (Bool-cases (str_eq c.name (category w))) [
        | inl e ↦ rw e (
            ap (λ v. or_later v (find type_name t cs)) (find_class-push w t c.widget_classes)
            ∙ swap w here (find type_name t cs) (str_eq (type_name w) t) free)
        | inr e ↦ rw e (
            ap (λ v. or_later here v)
              (find-register w t cs (λ h. later_none here (find type_name t cs) (free h)))
            ∙ assoc here (find type_name t cs) (if_named w t))
      ]

  -- What is found stays found while classes of other type names are registered.
  find-register_all :
      (t : String) (w : W) (ws : List W) (r : List (Category W))
      → All (λ v. str_eq (type_name v) t ≡ false) ws
      → find type_name t r ≡ some w
      → find type_name t (register_all category ws r) ≡ some w
  unfolding register_all
  find-register_all t w [] r a e = e
  find-register_all t w (v ∷ ws) r a e =
      find-register_all t w ws (register category v r) a.1
        (find-register v t r (λ h. absurd (let n = a.0 in cc)) ∙ rw e refl)

  apart_sym : (a b : String) → str_eq a b ≡ false → str_eq b a ≡ false
  apart_sym a b e = elim (Bool-cases (str_eq b a)) [
    | inl h ↦ absurd (false≢true (sym e ∙ text_sym b a h))
    | inr h ↦ h
  ]

  each_found :
      (ws : List W) (r : List (Category W))
      → Distinct type_name ws
      → All (λ v. find type_name (type_name v) r ≡ none) ws
      → All (λ v. find type_name (type_name v) (register_all category ws r) ≡ some v) ws
  unfolding register_all Distinct
  each_found [] r d f = tt
  each_found (w ∷ ws) r d f = (
    find-register_all (type_name w) w ws (register category w r)
        (All-map ws (λ v h. apart_sym (type_name w) (type_name v) h) d.0)
        (find-register w (type_name w) r (λ h. f.0) ∙ rw (f.0) rw (text_refl (type_name w)) refl),
    each_found ws (register category w r) d.1
        (All-map₂ ws (λ v h n. find-register w (type_name v) r (λ g. n) ∙ rw n rw h refl) d.0 f.1),
  )

  nothing : (ws : List W) → All (λ v. find type_name (type_name v) [] ≡ none) ws
  unfolding find
  nothing [] = tt
  nothing (w ∷ ws) = (refl, nothing ws)

  -- When classes with different type names are registered, in whichever order and categories, each
  -- is found under its type name.
  pub registered_found :
      (ws : List W)
      → Distinct type_name ws
      → All (λ w. find type_name (type_name w) (register_all category ws []) ≡ some w) ws
  registered_found ws d = each_found ws [] d (nothing ws)
