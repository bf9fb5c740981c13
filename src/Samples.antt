-- ===== src/Samples.antt =====
-- Concrete functions for the parameters of the model, with which tests apply the theorems.
use mathlib.Core.Path.{subst}
use mathlib.Core.Option.{some-injective}
use qtoggleserver.Notifications.Expected.Match.{Finds}
use qtoggleserver.Notifications.Expected.Keys.{Keys, Distinct}
use qtoggleserver.Base.{
  ℕ, ◌≢◌, get_value, All, Bool-cases, inl, inr, if◌then◌else◌, ◌≡◌, refl, ap, arith, Bool, true,
  false, Option, none, some, List, [], ◌∷◌, String, filter, ◌==◌, ◌&&◌,
}
use text.Mathlib.Text.{◌==◌ as str_eq}
use qtoggleserver.Notifications.Expected.Settle.{Filters}
use qtoggleserver.Cache.Lookup.{same_text}
use qtoggleserver.Cache.Reconcile.{Compares, Gathers}
use qtoggleserver.Cache.Ports.{Port}

abbrev pub filter_object :
    {D : Type 0} → (String → D → Bool) → List (String × D) → List (String × D)
filter_object f o = filter (λ e. f e.0 e.1) o

pub filter_object-Filters : {D : Type 0} → Filters (filter_object {D = D})
filter_object-Filters = record { kept = λ f o. refl }

abbrev pub as_given : {D : Type 0} → List (String × D) → List (String × D)
as_given es = es

pub as_given-Gathers : {D : Type 0} (name : D → String) → Gathers name as_given
as_given-Gathers name = record { found = λ k es d. refl; once = λ es d. d; keys = λ es k. k }

abbrev pub same : Bool → Bool → Bool
same true b = b
same false true = false
same false false = true

pub same-Compares : Compares same
same-Compares = record { same_content = same-eq }
  where
    same-eq : (a b : Bool) → same a b ≡ true → a ≡ b
    same-eq true true e = refl
    same-eq true false e = absurd (cc)
    same-eq false true e = absurd (cc)
    same-eq false false e = refl

abbrev pub same_option : {A : Type 0} → (A → A → Bool) → Option A → Option A → Bool
same_option eq none none = true
same_option eq (some a) (some b) = eq a b
same_option eq none (some b) = false
same_option eq (some a) none = false

same_option-eq :
    {A : Type 0} (eq : A → A → Bool)
    → Compares eq
    → (a b : Option A) → same_option eq a b ≡ true
    → a ≡ b
same_option-eq eq c none none e = refl
same_option-eq eq c none (some b) e = absurd (cc)
same_option-eq eq c (some a) none e = absurd (cc)
same_option-eq eq c (some a) (some b) e = ap some (c.same_content a b e)

pub both : (a b : Bool) → (a && b) ≡ true → (a ≡ true) × (b ≡ true)
both true true h = (refl, refl)
both true false h = absurd (cc)
both false b h = absurd (cc)

-- Attributes are the same if they have the same keys and values in one order.
abbrev pub same_attrs : List (String × Bool) → List (String × Bool) → Bool
same_attrs [] [] = true
same_attrs [] (b ∷ bs) = false
same_attrs (a ∷ xs) [] = false
same_attrs ((k, v) ∷ xs) ((l, w) ∷ ys) = (str_eq k l && same v w) && same_attrs xs ys

pub same_attrs-Compares : Compares same_attrs
same_attrs-Compares = record { same_content = same_attrs-eq }
  where
    same_attrs-eq : (a b : List (String × Bool)) → same_attrs a b ≡ true → a ≡ b
    same_attrs-eq [] [] h = refl
    same_attrs-eq [] (b ∷ bs) h = absurd (cc)
    same_attrs-eq (a ∷ xs) [] h = absurd (cc)
    same_attrs-eq ((k, v) ∷ xs) ((l, w) ∷ ys) h =
        let (e, t) = both _ _ h in
        let (n, c) = both _ _ e in
        λ i. (same_text k l n i, same-Compares.same_content v w c i) ∷ same_attrs-eq xs ys t i

module _ {A : Type 0} (attrs_equal : A → A → Bool) (compares : Compares attrs_equal) where
  abbrev pub ports_equal : Port A Bool → Port A Bool → Bool
  ports_equal a b =
      (str_eq a.id b.id && same_option same a.value b.value)
      && (same_option ◌==◌ a.last_sync b.last_sync && attrs_equal a.attrs b.attrs)

  pub ports_equal-Compares : Compares ports_equal
  ports_equal-Compares = record {
    same_content = λ a b h.
        let (l, r) = both _ _ h in
        let (e, f) = both _ _ l in
        let (g, t) = both _ _ r in
        λ i. record {
          id = same_text a.id b.id e i;
          value = same_option-eq same same-Compares a.value b.value f i;
          last_sync =
              same_option-eq ◌==◌ (record { same_content = λ m n q. ground (arith, q) }) a.last_sync
                b.last_sync g i;
          attrs = compares.same_content a.attrs b.attrs t i;
        };
  }

-- The first key whose value passes the test.
module _ {A : Type 0} where
  abbrev pub find_first : (A → Bool) → List (ℕ × A) → Option ℕ
  find_first f [] = none
  find_first f ((k, a) ∷ rest) = let later = find_first f rest in if f a then some k else later

module _ {A : Type 0} where
  find_first-Keys :
      (P : ℕ → Type 0) (f : A → Bool) (o : List (ℕ × A)) (k : ℕ)
      → Keys P o
      → find_first f o ≡ some k
      → P k
  unfolding Keys
  find_first-Keys P f [] k u e = absurd (cc)
  find_first-Keys P f ((l, a) ∷ o) k u e = elim (Bool-cases (f a)) [
    | inl t ↦ subst P (some-injective l k (rw t at e)) u.0
    | inr t ↦ find_first-Keys P f o k u.1 (rw t at e)
  ]

  find_first-hit :
      (f : A → Bool) (o : List (ℕ × A)) (k : ℕ)
      → Distinct o
      → find_first f o ≡ some k
      → (a : A) × (get_value ◌==◌ k o ≡ some a) × (f a ≡ true)
  unfolding Distinct
  find_first-hit f [] k d e = absurd (cc)
  find_first-hit f ((l, a) ∷ o) k d e = elim (Bool-cases (f a)) [
    | inl t ↦ (a, ground (arith, some-injective l k (rw t at e)), t)
    | inr t ↦
        let (b, g, h) = find_first-hit f o k d.1 (rw t at e) in
        (b, ground (arith, g, find_first-Keys (λ j. j ≢ l) f o k d.0 (rw t at e)), h)
  ]

  find_first-miss :
      (f : A → Bool) (o : List (ℕ × A))
      → Distinct o
      → find_first f o ≡ none
      → All (λ e. f e.1 ≡ false) o
  unfolding Distinct
  find_first-miss f [] d e = tt
  find_first-miss f ((l, a) ∷ o) d e = elim (Bool-cases (f a)) [
    | inl t ↦ absurd (ground (arith, t, e))
    | inr t ↦ (t, find_first-miss f o d.1 (rw t at e))
  ]

pub find_first-Finds : {A : Type 0} → Finds (find_first {A = A})
find_first-Finds = record { hit = find_first-hit; miss = find_first-miss }
