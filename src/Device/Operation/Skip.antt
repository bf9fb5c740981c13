-- ===== src/Device/Operation/Skip.antt =====
-- Which endpoints are marked as skipped.
use qtoggleserver.Base.{
  ◌≡◌, refl, sym, ◌∙◌, ap, Bool, true, false, ◌&&◌, List, [], ◌∷◌, All, if◌then◌else◌, String, inl,
  inr, Bool-cases, if_either,
}
use mathlib.Core.Bool.{false≢true}
use text.Mathlib.Text.{◌==◌ as str_eq}
use qtoggleserver.Cache.Lookup.{same_text, text_refl}
use qtoggleserver.Device.Provisioning.{Endpoint, get_name}
use qtoggleserver.Device.Operation.{Status, skipped, is_open, set_status, skip_rest}

-- Whether an endpoint with this name is among some.
unfoldable pub has : String → List Endpoint → Bool
has n [] = false
has n (e ∷ es) = if str_eq (get_name e) n then true else has n es

-- No two endpoints have one name.
unfoldable pub Named : List Endpoint → Type 0
Named [] = Unit
Named (e ∷ es) = All (λ x. str_eq (get_name e) (get_name x) ≡ false) es × Named es

module _ {E : Type 0} where
  pub set_status-other :
      (n m : String) (x : Status E) (f : String → Status E)
      → str_eq n m ≡ false
      → set_status n x f m ≡ f m
  unfolding set_status
  set_status-other n m x f h = rw h refl

  pub set_status-same : (n : String) (x : Status E) (f : String → Status E) → set_status n x f n ≡ x
  unfolding set_status
  set_status-same n x f = rw (text_refl n) refl

  module _ (is_checked : String → Bool) where
    abbrev marked : Endpoint → (String → Status E) → String → Status E
    marked e f =
        if is_open (f (get_name e)) && is_checked (get_name e)
        then set_status (get_name e) skipped f
        else f

    marked-other :
        (n : String) (e : Endpoint) (f : String → Status E)
        → str_eq (get_name e) n ≡ false
        → marked e f n ≡ f n
    marked-other n e f h =
        if_either (λ (g : String → Status E). g n ≡ f n)
          (is_open (f (get_name e)) && is_checked (get_name e)) _ _
          (set_status-other (get_name e) n skipped f h) refl

    marked-closed :
        (n : String) (e : Endpoint) (f : String → Status E)
        → is_open (f n) ≡ false
        → marked e f n ≡ f n
    marked-closed n e f h = elim (Bool-cases (str_eq (get_name e) n)) [
      | inr g ↦ marked-other n e f g
      | inl g ↦
          let p = ap is_open (ap f (same_text _ _ g)) ∙ h in
          ap
            (λ b. (if b && is_checked (get_name e) then set_status (get_name e) skipped f else f) n)
            p
    ]

    marked-skipped :
        (n : String) (e : Endpoint) (f : String → Status E)
        → is_open (f n) ≡ true
        → is_checked n ≡ true
        → str_eq (get_name e) n ≡ true
        → marked e f n ≡ skipped
    marked-skipped n e f o c g =
        let m = get_name e in
        let p = same_text m n g in
        ap (λ b. (if b && is_checked m then set_status m skipped f else f) n)
          (ap is_open (ap f p) ∙ o)
        ∙ ap (λ b. (if b then set_status m skipped f else f) n) (ap is_checked p ∙ c)
        ∙ ap (set_status m skipped f) (sym p)
        ∙ set_status-same m skipped f

    -- What is final is not marked.
    pub skip_rest-closed :
        (n : String) (es : List Endpoint) (f : String → Status E)
        → is_open (f n) ≡ false
        → skip_rest is_checked es f n ≡ f n
    unfolding skip_rest
    skip_rest-closed n [] f h = refl
    skip_rest-closed n (e ∷ es) f h =
        let same = marked-closed n e f h in
        skip_rest-closed n es (marked e f) (ap is_open same ∙ h) ∙ same

    skip_rest-kept :
        (n : String) (es : List Endpoint) (f : String → Status E)
        → f n ≡ skipped
        → skip_rest is_checked es f n ≡ skipped
    unfolding skip_rest
    skip_rest-kept n [] f h = h
    skip_rest-kept n (e ∷ es) f h =
        skip_rest-kept n es (marked e f) (elim (Bool-cases (str_eq (get_name e) n)) [
          | inr g ↦ marked-other n e f g ∙ h
          | inl g ↦
              if_either (λ (k : String → Status E). k n ≡ skipped)
                (is_open (f (get_name e)) && is_checked (get_name e)) _ _
                (ap (set_status (get_name e) skipped f) (sym (same_text _ _ g))
                  ∙ set_status-same (get_name e) skipped f)
                h
        ])

    -- What is open and among the endpoints is marked.
    pub skip_rest-skipped :
        (n : String) (es : List Endpoint) (f : String → Status E)
        → is_checked n ≡ true
        → is_open (f n) ≡ true
        → has n es ≡ true
        → skip_rest is_checked es f n ≡ skipped
    unfolding skip_rest has
    skip_rest-skipped n [] f c o h = absurd (false≢true h)
    skip_rest-skipped n (e ∷ es) f c o h = elim (Bool-cases (str_eq (get_name e) n)) [
      | inl g ↦ skip_rest-kept n es (marked e f) (marked-skipped n e f o c g)
      | inr g ↦
          skip_rest-skipped n es (marked e f) c (ap is_open (marked-other n e f g) ∙ o) (rw g at h)
    ]
