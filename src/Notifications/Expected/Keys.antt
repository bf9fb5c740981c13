-- ===== src/Notifications/Expected/Keys.antt =====
-- The keys of a dictionary from numbers, under the operations on it.
use qtoggleserver.Base.{
  ℕ, refl, ◌≡◌, ◌≢◌, ◌≤◌, ◌<◌, Bool, none, some, List, [], ◌∷◌, ◌++◌, arith, ◌==◌, filter, All,
  get_value, delete_key, change_value, inl, inr, Bool-cases,
}

module _ {A : Type 0} where
  -- Every key satisfies the predicate.
  unfoldable pub Keys : (ℕ → Type 0) → List (ℕ × A) → Type 0
  Keys P o = All (λ e. P e.0) o

  -- No key stands twice.
  unfoldable pub Distinct : List (ℕ × A) → Type 0
  unfolding Keys
  Distinct [] = Unit
  Distinct ((k, a) ∷ o) = Keys (λ l. l ≢ k) o × Distinct o

  pub Keys-append : (P : ℕ → Type 0) (o q : List (ℕ × A)) → Keys P o → Keys P q → Keys P (o ++ q)
  unfolding Keys
  Keys-append P [] q u v = v
  Keys-append P (e ∷ o) q u v = (u.0, Keys-append P o q u.1 v)

  pub Keys-delete :
      (P : ℕ → Type 0) (k : ℕ) (o : List (ℕ × A)) → Keys P o → Keys P (delete_key ◌==◌ k o)
  unfolding Keys
  Keys-delete P k [] u = tt
  Keys-delete P k ((l, a) ∷ o) u = elim (Bool-cases (l == k)) [
    | inl e ↦ rw e u.1
    | inr e ↦ rw e (u.0, Keys-delete P k o u.1)
  ]

  pub Keys-change :
      (P : ℕ → Type 0) (k : ℕ) (f : A → A) (o : List (ℕ × A))
      → Keys P o
      → Keys P (change_value ◌==◌ k f o)
  unfolding Keys
  Keys-change P k f [] u = tt
  Keys-change P k f ((l, a) ∷ o) u = elim (Bool-cases (l == k)) [
    | inl e ↦ rw e u
    | inr e ↦ rw e (u.0, Keys-change P k f o u.1)
  ]

  pub Keys-filter :
      (P : ℕ → Type 0) (p : ℕ × A → Bool) (o : List (ℕ × A)) → Keys P o → Keys P (filter p o)
  unfolding Keys
  Keys-filter P p [] u = tt
  Keys-filter P p (x ∷ o) u = elim (Bool-cases (p x)) [
    | inl e ↦ rw e (u.0, Keys-filter P p o u.1)
    | inr e ↦ rw e (Keys-filter P p o u.1)
  ]

  pub Distinct-append :
      (k : ℕ) (a : A) (o : List (ℕ × A))
      → Keys (λ l. l < k) o
      → Distinct o
      → Distinct (o ++ (k, a) ∷ [])
  unfolding Keys Distinct
  Distinct-append k a [] u d = (tt, tt)
  Distinct-append k a ((l, b) ∷ o) u d = (
    Keys-append (λ j. j ≢ l) o ((k, a) ∷ []) d.0 (λ e. omega (arith, u.0, e), tt),
    Distinct-append k a o u.1 d.1,
  )

  pub Distinct-delete : (k : ℕ) (o : List (ℕ × A)) → Distinct o → Distinct (delete_key ◌==◌ k o)
  unfolding Distinct
  Distinct-delete k [] d = tt
  Distinct-delete k ((l, a) ∷ o) d = elim (Bool-cases (l == k)) [
    | inl e ↦ rw e d.1
    | inr e ↦ rw e (Keys-delete (λ j. j ≢ l) k o d.0, Distinct-delete k o d.1)
  ]

  pub Distinct-change :
      (k : ℕ) (f : A → A) (o : List (ℕ × A)) → Distinct o → Distinct (change_value ◌==◌ k f o)
  unfolding Distinct
  Distinct-change k f [] d = tt
  Distinct-change k f ((l, a) ∷ o) d = elim (Bool-cases (l == k)) [
    | inl e ↦ rw e d
    | inr e ↦ rw e (Keys-change (λ j. j ≢ l) k f o d.0, Distinct-change k f o d.1)
  ]

  pub Distinct-filter : (p : ℕ × A → Bool) (o : List (ℕ × A)) → Distinct o → Distinct (filter p o)
  unfolding Distinct
  Distinct-filter p [] d = tt
  Distinct-filter p ((l, a) ∷ o) d = elim (Bool-cases (p (l, a))) [
    | inl e ↦ rw e (Keys-filter (λ j. j ≢ l) p o d.0, Distinct-filter p o d.1)
    | inr e ↦ rw e (Distinct-filter p o d.1)
  ]

  pub get-above :
      (n k : ℕ) (o : List (ℕ × A)) → Keys (λ l. l ≤ n) o → n < k → get_value ◌==◌ k o ≡ none
  unfolding Keys
  get-above n k [] u h = refl
  get-above n k ((l, a) ∷ o) u h = ground (arith, u.0, get-above n k o u.1 h)

  pub get-append-same :
      (n k : ℕ) (a : A) (o : List (ℕ × A))
      → Keys (λ l. l ≤ n) o
      → n < k
      → get_value ◌==◌ k (o ++ (k, a) ∷ []) ≡ some a
  unfolding Keys
  get-append-same n k a [] u h = ground arith
  get-append-same n k a ((l, b) ∷ o) u h = ground (arith, u.0, get-append-same n k a o u.1 h)

  pub get-append-other :
      (j k : ℕ) (a : A) (o : List (ℕ × A))
      → j ≢ k
      → get_value ◌==◌ j (o ++ (k, a) ∷ []) ≡ get_value ◌==◌ j o
  get-append-other j k a [] h = ground (arith, h)
  get-append-other j k a ((l, b) ∷ o) h = ground (arith, get-append-other j k a o h)
