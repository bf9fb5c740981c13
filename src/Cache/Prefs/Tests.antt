-- ===== src/Cache/Prefs/Tests.antt =====
-- The preferences' theorems at concrete inputs.
use qtoggleserver.Base.{ℕ, ◌≡◌, ◌≢◌, refl, Bool, true, false, some, [], ◌∷◌, inl}
use qtoggleserver.Cache.Prefs.{
  Value, Fields, leaf, object, end, field, found, type_error, get_prefs, set_prefs, get_field,
  set_prefs_rec, set_field, next_object,
}
use qtoggleserver.Cache.Prefs.Paths.{Tells, Apart, get-set_prefs, get-set_prefs_other}

abbrev is_object : Value ℕ → Bool
is_object (object fs) = true
is_object _ = false

is_object-Tells : Tells is_object
is_object-Tells = record { yes_object = λ fs. refl; no_leaf = λ a. refl; no_null = refl }

abbrev prefs : Fields ℕ
prefs = field "theme" (leaf 1) (field "ports" (object (field "sort" (leaf 2) end)) end)

-- An object takes the place of the number under `theme`.
makes :
    set_prefs is_object ("theme" ∷ "dark" ∷ []) (leaf 7) (object prefs)
    ≡ some (
        object (
          field "theme"
            (object (field "dark" (leaf 7) end))
            (field "ports" (object (field "sort" (leaf 2) end)) end)))
unfolding set_prefs set_prefs_rec set_field next_object get_field
makes = refl

get-set_prefs_example :
    (q : Value ℕ) × (set_prefs is_object ("theme" ∷ "dark" ∷ []) (leaf 7) (object prefs) ≡ some q)
    × (get_prefs ("theme" ∷ "dark" ∷ []) q ≡ found (leaf 7))
get-set_prefs_example = get-set_prefs is_object ("theme" ∷ "dark" ∷ []) (leaf 7) prefs

reads : get_prefs ("ports" ∷ "sort" ∷ []) (object prefs) ≡ found (leaf 2)
unfolding get_prefs get_field
reads = refl

reads_safely : get_prefs ("ports" ∷ "sort" ∷ []) (object prefs) ≢ type_error
reads_safely e = cc (reads, e)

parts : Apart ("theme" ∷ "dark" ∷ []) ("ports" ∷ "sort" ∷ [])
unfolding Apart
parts = inl refl

get-set_prefs_other_example :
    (r : Value ℕ) × (set_prefs is_object ("theme" ∷ "dark" ∷ []) (leaf 7) (object prefs) ≡ some r)
    × (get_prefs ("ports" ∷ "sort" ∷ []) r ≡ get_prefs ("ports" ∷ "sort" ∷ []) (object prefs))
get-set_prefs_other_example =
    get-set_prefs_other is_object is_object-Tells ("theme" ∷ "dark" ∷ []) ("ports" ∷ "sort" ∷ [])
      (leaf 7) prefs parts reads_safely
