-- ===== src/Cache/Prefs/Paths.antt =====
-- What is read after preferences are set.
use mathlib.Core.Path.{subst}
use qtoggleserver.Base.{
  ◌≡◌, ◌≢◌, refl, sym, ap, ◌∙◌, Bool, true, false, Option, none, some, List, [], ◌∷◌, if◌then◌else◌,
  String, arith, ◌⊎◌, inl, inr, Bool-cases, Option-cases,
}
use text.Mathlib.Text.{◌==◌ as str_eq}
use text.Mathlib.TextEquality.{eq_iff}
use qtoggleserver.Cache.Lookup.{text_refl, same_text}
use qtoggleserver.Cache.Prefs.{
  Value, Fields, Result, null, leaf, object, end, field, found, default, type_error, get_field,
  set_field, get_prefs, next_object, set_prefs_rec, set_prefs,
}

-- The two paths part at some key.
unfoldable pub Apart : List String → List String → Type 0
Apart [] q = ⊥
Apart (k ∷ p) [] = ⊥
Apart (k ∷ p) (l ∷ q) = (str_eq k l ≡ false) ⊎ ((str_eq k l ≡ true) × Apart p q)

module _ {A : Type 0} where
  get-set_field :
      (k j : String) (v : Value A) (fs : Fields A)
      → get_field j (set_field k v fs) ≡ (if str_eq k j then some v else get_field j fs)
  unfolding get_field set_field
  get-set_field k j v end = refl
  get-set_field k j v (field i w fs) =
      ground (arith, eq_iff k j, eq_iff i k, eq_iff i j, get-set_field k j v fs)

  abbrev read : List String → Option (Value A) → Result A
  read path none = default
  read path (some v) = get_prefs path v

  get_prefs-object :
      (k : String) (path : List String) (fs : Fields A)
      → get_prefs (k ∷ path) (object fs) ≡ read path (get_field k fs)
  unfolding get_prefs
  get_prefs-object k path fs = elim (Option-cases (get_field k fs)) [
    | inl (v, e) ↦ rw (e, get_prefs) refl
    | inr e ↦ rw (e, get_prefs) refl
  ]

  -- What is read under a key after another value is set under a key.
  get-prefs_set :
      (k l : String) (v : Value A) (path : List String) (fs : Fields A)
      → get_prefs (l ∷ path) (object (set_field k v fs))
        ≡ (if str_eq k l then get_prefs path v else get_prefs (l ∷ path) (object fs))
  get-prefs_set k l v path fs = elim (Bool-cases (str_eq k l)) [
    | inl h ↦
        get_prefs-object l path (set_field k v fs)
        ∙ ap (read path) (get-set_field k l v fs)
        ∙ rw h refl
    | inr h ↦
        get_prefs-object l path (set_field k v fs)
        ∙ ap (read path) (get-set_field k l v fs)
        ∙ rw h (sym (get_prefs-object l path fs))
  ]

  -- What the code relies on of `ObjectUtils.isObject`.
  pub record Tells (is_object : Value A → Bool) : Type 0 where
    pub yes_object : (fs : Fields A) → is_object (object fs) ≡ true
    pub no_leaf : (a : A) → is_object (leaf a) ≡ false
    pub no_null : is_object null ≡ false

  module _ (is_object : Value A → Bool) where
    get-set_rec :
        (k : String) (path : List String) (value : Value A) (fs : Fields A)
        → get_prefs (k ∷ path) (object (set_prefs_rec is_object k path value fs)) ≡ found value
    unfolding set_prefs_rec get_prefs
    get-set_rec k [] value fs = get-prefs_set k k value [] fs ∙ rw (text_refl k) refl
    get-set_rec k (l ∷ path) value fs =
        get-prefs_set k k _ (l ∷ path) fs
        ∙ rw (text_refl k) (get-set_rec l path value (next_object is_object k fs))

    -- In preferences that are an object a value can be set at any path, and is read there.
    pub get-set_prefs :
        (path : List String) (value : Value A) (fs : Fields A)
        → (q : Value A) × (set_prefs is_object path value (object fs) ≡ some q)
          × (get_prefs path q ≡ found value)
    unfolding set_prefs get_prefs
    get-set_prefs [] value fs = (value, refl, refl)
    get-set_prefs (k ∷ path) value fs = (_, refl, get-set_rec k path value fs)

  module _ (is_object : Value A → Bool) (tells : Tells is_object) where
    get-end : (p q : List String) → Apart p q → get_prefs {A = A} q (object end) ≡ default
    unfolding Apart get_prefs get_field
    get-end [] q a = absurd a
    get-end (k ∷ p) [] a = absurd a
    get-end (k ∷ p) (l ∷ q) a = refl

    get-null : (p q : List String) → Apart p q → get_prefs {A = A} q null ≡ type_error
    unfolding Apart get_prefs
    get-null [] q a = absurd a
    get-null (k ∷ p) [] a = absurd a
    get-null (k ∷ p) (l ∷ q) a = refl

    get-leaf : (b : A) (p q : List String) → Apart p q → get_prefs q (leaf b) ≡ default
    unfolding Apart get_prefs
    get-leaf b [] q a = absurd a
    get-leaf b (k ∷ p) [] a = absurd a
    get-leaf b (k ∷ p) (l ∷ q) a = refl

    -- An object that is put in the place of no object has none of the other properties.
    get-next :
        (k m : String) (p q : List String) (fs : Fields A)
        → Apart (m ∷ p) q
        → get_prefs (k ∷ q) (object fs) ≢ type_error
        → get_prefs q (object (next_object is_object k fs)) ≡ get_prefs (k ∷ q) (object fs)
    unfolding next_object
    get-next k m p q fs a safe = elim (Option-cases (get_field k fs)) [
      | inr e ↦ rw (get_prefs-object k q fs) rw (e, next_object) (get-end (m ∷ p) q a)
      | inl (null, e) ↦ absurd (safe (get_prefs-object k q fs ∙ rw e (get-null (m ∷ p) q a)))
      | inl (leaf b, e) ↦
          rw (get_prefs-object k q fs) rw (e, next_object) rw (tells.no_leaf b)
            (get-end (m ∷ p) q a ∙ sym (get-leaf b (m ∷ p) q a))
      | inl (object gs, e) ↦
          rw (get_prefs-object k q fs) rw (e, next_object) rw (tells.yes_object gs) refl
    ]

    get-set_rec_other :
        (k : String) (p q : List String) (value : Value A) (fs : Fields A)
        → Apart (k ∷ p) q
        → get_prefs q (object fs) ≢ type_error
        → get_prefs q (object (set_prefs_rec is_object k p value fs)) ≡ get_prefs q (object fs)
    unfolding Apart set_prefs_rec
    get-set_rec_other k p [] value fs a safe = absurd a
    get-set_rec_other k [] (l ∷ q) value fs (inl h) safe = get-prefs_set k l value q fs ∙ rw h refl
    get-set_rec_other k [] (l ∷ q) value fs (inr (h, a)) safe = absurd a
    get-set_rec_other k (m ∷ p) (l ∷ q) value fs (inl h) safe = get-prefs_set k l _ q fs ∙ rw h refl
    get-set_rec_other k (m ∷ p) (l ∷ q) value fs (inr (h, a)) safe =
        let n =
          subst
            (λ t. get_prefs q (object (next_object is_object t fs)) ≡ get_prefs (l ∷ q) (object fs))
            (sym (same_text k l h)) (get-next l m p q fs a safe) in
        get-prefs_set k l _ q fs
        ∙ rw h (
            get-set_rec_other m p q value (next_object is_object k fs) a (λ t. safe (sym n ∙ t))
            ∙ n)

    -- What is read at a path that parts from it is as before, unless reading there was an error.
    pub get-set_prefs_other :
        (path q : List String) (value : Value A) (fs : Fields A)
        → Apart path q
        → get_prefs q (object fs) ≢ type_error
        → (r : Value A) × (set_prefs is_object path value (object fs) ≡ some r)
          × (get_prefs q r ≡ get_prefs q (object fs))
    unfolding set_prefs
    get-set_prefs_other [] q value fs a safe = absurd (unfold Apart in a)
    get-set_prefs_other (k ∷ path) q value fs a safe =
        (_, refl, get-set_rec_other k path q value fs a safe)
