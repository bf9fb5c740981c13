-- ===== src/Cache/Lookup.antt =====
-- What the operations on slave devices do to the device of a given name.
use qtoggleserver.Base.{
  ◌≡◌, refl, sym, ◌∙◌, ap, true, false, none, some, List, [], ◌∷◌, arith, if◌then◌else◌, String,
  get_value, inl, inr, Bool-cases,
}
use mathlib.Core.Bool.{false≢true}
use text.Mathlib.Text.{◌==◌ as str_eq}
use text.Mathlib.TextEquality.{eq_iff}
use qtoggleserver.Cache.{set_device, delete_device}

pub same_text : (a b : String) → str_eq a b ≡ true → a ≡ b
same_text a b e = (eq_iff a b).0 e

pub text_refl : (a : String) → str_eq a a ≡ true
text_refl a = (eq_iff a a).1 refl

pub text_sym : (a b : String) → str_eq a b ≡ true → str_eq b a ≡ true
text_sym a b e = (eq_iff b a).1 (sym (same_text a b e))

pub apart_sym : (a b : String) → str_eq a b ≡ false → str_eq b a ≡ false
apart_sym a b h = elim (Bool-cases (str_eq b a)) [
  | inr g ↦ g
  | inl g ↦ absurd (false≢true (sym h ∙ text_sym b a g))
]

-- What is the same as one text is not the same as another.
text_apart : (l n k : String) → str_eq l n ≡ false → str_eq l k ≡ true → str_eq n k ≡ false
text_apart l n k h g = elim (Bool-cases (str_eq n k)) [
  | inr e ↦ e
  | inl e ↦ absurd (false≢true (sym h ∙ (eq_iff l n).1 (same_text l k g ∙ sym (same_text n k e))))
]

text_same : (l n k : String) → str_eq l n ≡ true → str_eq l k ≡ str_eq n k
text_same l n k h = ap (λ t. str_eq t k) (same_text l n h)

module _ {D : Type 0} where
  pub get-set_device :
      (k n : String) (d : D) (o : List (String × D))
      → get_value str_eq k (set_device n d o)
        ≡ (if str_eq n k then some d else get_value str_eq k o)
  unfolding set_device
  get-set_device k n d [] = refl
  get-set_device k n d ((l, e) ∷ o) = elim (Bool-cases (str_eq l n)) [
    | inl h ↦ rw h rw (text_same l n k h) (ground arith)
    | inr h ↦ rw h (elim (Bool-cases (str_eq l k)) [
      | inl g ↦ rw (g, text_apart l n k h g) refl
      | inr g ↦ rw g (get-set_device k n d o)
    ])
  ]

  pub get-delete_device :
      (k n : String) (o : List (String × D))
      → get_value str_eq k (delete_device n o) ≡ (if str_eq n k then none else get_value str_eq k o)
  unfolding delete_device
  get-delete_device k n [] = ground arith
  get-delete_device k n ((l, e) ∷ o) = elim (Bool-cases (str_eq l n)) [
    | inl h ↦ rw h rw (text_same l n k h) (ground (arith, get-delete_device k n o))
    | inr h ↦ rw h (elim (Bool-cases (str_eq l k)) [
      | inl g ↦ rw (g, text_apart l n k h g) refl
      | inr g ↦ rw g (get-delete_device k n o)
    ])
  ]
