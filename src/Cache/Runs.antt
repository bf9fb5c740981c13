-- ===== src/Cache/Runs.antt =====
-- What a sequence of events makes of the value of one key of an object, when it is known what each
-- event makes of it: slave devices by name, and ports by id.
use mathlib.Core.Path.{subst}
use qtoggleserver.Base.{
  ◌≡◌, refl, sym, ◌∙◌, ap, Bool, true, false, Option, none, some, List, [], ◌∷◌, ◌++◌, map,
  if◌then◌else◌, String, filter, All, get_value, inl, inr, Bool-cases,
}
use text.Mathlib.Text.{◌==◌ as str_eq}
use qtoggleserver.Cache.Lookup.{same_text}

module _ {D : Type 0} where
  -- No name stands twice.
  unfoldable pub Distinct : List (String × D) → Type 0
  Distinct [] = Unit
  Distinct ((k, d) ∷ o) = All (λ e. str_eq e.0 k ≡ false) o × Distinct o

  pub get-absent :
      (k : String) (o : List (String × D))
      → All (λ e. str_eq e.0 k ≡ false) o
      → get_value str_eq k o ≡ none
  get-absent k [] u = refl
  get-absent k ((l, d) ∷ o) u = rw u.0 (get-absent k o u.1)

  pub at_same :
      (n k : String) (v : Option D) (o : List (String × D))
      → str_eq n k ≡ true
      → get_value str_eq n o ≡ v
      → get_value str_eq k o ≡ v
  at_same n k v o h e = subst (λ t. get_value str_eq t o ≡ v) (same_text n k h) e

  -- Every value stands under its name.
  unfoldable pub Keyed : (D → String) → List (String × D) → Type 0
  Keyed name o = All (λ e. name e.1 ≡ e.0) o

module _ {D E : Type 0} (after : String → E → Option D → Option D) where
  unfoldable pub afters : String → List (E) → Option D → Option D
  afters k [] v = v
  afters k (e ∷ rest) v = afters k rest (after k e v)

  pub afters-append :
      (k : String) (es fs : List (E)) (v : Option D)
      → afters k (es ++ fs) v ≡ afters k fs (afters k es v)
  unfolding afters
  afters-append k [] fs v = refl
  afters-append k (e ∷ es) fs v = afters-append k es fs (after k e v)

  module _ (name : D → String) (k : String) (make : D → E) (change : D → Option D → Option D)
      (makes : (d : D) (v : Option D)
        → after k (make d) v ≡ (if str_eq (name d) k then change d v else v))
      (p : String → D → Bool) where
    changed : (d : D) (v : Option D) → str_eq (name d) k ≡ true → after k (make d) v ≡ change d v
    changed d v h = makes d v ∙ rw h refl

    unchanged : (d : D) (v : Option D) → str_eq (name d) k ≡ false → after k (make d) v ≡ v
    unchanged d v h = makes d v ∙ rw h refl

    pub afters-entries :
        (o : List (String × D)) (v : Option D)
        → Keyed name o
        → Distinct o
        → afters k (map (λ e. make e.1) (filter (λ e. p e.0 e.1) o)) v
          ≡ elim (get_value str_eq k o) [ none ↦ v | some d ↦ if p k d then change d v else v ]
    unfolding afters Keyed Distinct
    afters-entries [] v keyed distinct = refl
    afters-entries ((l, d) ∷ o) v keyed distinct = elim (Bool-cases (str_eq l k)) [
      | inl h ↦
          let gone =
            get-absent k o
              (subst (λ t. All (λ e. str_eq e.0 t ≡ false) o) (same_text l k h) distinct.0) in
          let same = ap (λ t. p t d) (same_text l k h) in
          rw h (elim (Bool-cases (p l d)) [
            | inl t ↦
                rw (t, sym same ∙ t) rw (afters-entries o (after k (make d) v) keyed.1 distinct.1)
                  rw gone (changed d v (ap (λ t. str_eq t k) keyed.0 ∙ h))
            | inr t ↦ rw (t, sym same ∙ t) rw (afters-entries o v keyed.1 distinct.1) rw gone refl
          ])
      | inr h ↦ rw h (elim (Bool-cases (p l d)) [
        | inl t ↦ rw t (
            afters-entries o (after k (make d) v) keyed.1 distinct.1
            ∙ ap
                (λ (w : Option D). elim (get_value str_eq k o) as (λ x. Option D) [
                  | none ↦ w
                  | some c ↦ if p k c then change c w else w
                ])
                (unchanged d v (ap (λ t. str_eq t k) keyed.0 ∙ h)))
        | inr t ↦ rw t (afters-entries o v keyed.1 distinct.1)
      ])
    ]
