-- ===== src/Api/Errors/Pretty.antt =====
-- What an API error says, and why.
use qtoggleserver.Base.{
  ℕ, ◌≡◌, refl, ◌∙◌, Bool, true, false, ◌&&◌, ◌||◌, Option, none, some, List, ◌==◌, arith,
  if◌then◌else◌, String, get_value, inl, inr, Bool-cases,
}
use text.Mathlib.Text.{◌==◌ as str_eq}
use qtoggleserver.Auth.{access_level_admin, access_level_normal, access_level_viewonly}
use qtoggleserver.Api.Errors.{
  Value, string, is_true, known_pretty, required_level, level_pretty, forbidden_pretty, final_code,
  or_unexpected, from_http_response,
}

-- Why a call failed.
pub data Cause (A : Type 0) : Type 0 where
  said : Value A → Cause A
  timed_out lost unexpected : Cause A
  needs_level : ℕ → Cause A
  known_error : Value A → Cause A

-- What the code relies on of `gettext`: the translation of a text is not empty.
pub record Translates (gettext : String → String) : Type 0 where
  pub not_empty : (s : String) → str_eq s "" ≡ false → str_eq (gettext s) "" ≡ false

unfoldable pub is_level : ℕ → Bool
is_level level =
    (level == access_level_admin)
    || ((level == access_level_normal) || (level == access_level_viewonly))

unfoldable pub caption : {A : Type 0} → (String → String) → Cause A → Value A
caption gettext (said v) = v
caption gettext timed_out = string (gettext "Timeout waiting for a response from the server.")
caption gettext lost = string (gettext "Connection with the server was lost.")
caption gettext unexpected =
    string (gettext "Unexpected error while communicating with the server.")
caption gettext (needs_level level) =
    if level == access_level_admin
    then string (gettext "Administrator access level required.")
    else if level == access_level_normal
    then string (gettext "Normal access level or higher required.")
    else string (gettext "View-only access level or higher required.")
caption gettext (known_error v) = v

module _ {A : Type 0} (truthy : A → Bool) (gettext : String → String) where
  -- The cause, given what the server says of an internal error, the level that it requires, and the
  -- text of the known error, from the one that counts most to the one that counts least.
  unfoldable pub cause_of : Option (Value A) → ℕ → Option (Value A) → ℕ → String → Cause A
  cause_of message level known status msg =
      if (status == 500) && is_true truthy message
      then elim message [ none ↦ unexpected | some v ↦ said v ]
      else if status == 0
      then (if str_eq msg "timeout" then timed_out else lost)
      else if (status == 403) && is_level level
      then needs_level level
      else if is_true truthy known
      then elim known [ none ↦ unexpected | some v ↦ known_error v ]
      else unexpected

  -- What is left when nothing counts more than the known error.
  known-caption :
      (known : Option (Value A))
      → or_unexpected truthy gettext known
        ≡ caption gettext (
            if is_true truthy known
            then elim known [ none ↦ unexpected | some v ↦ known_error v ]
            else unexpected)
  unfolding or_unexpected caption
  known-caption none = ground arith
  known-caption (some v) = elim (Bool-cases (is_true truthy (some v))) [
    | inl e ↦ rw e refl
    | inr e ↦ rw e refl
  ]

  said-caption :
      (message : Option (Value A))
      → is_true truthy message ≡ true
      → or_unexpected truthy gettext message
        ≡ caption gettext (elim message [ none ↦ unexpected | some v ↦ said v ])
  unfolding or_unexpected caption
  said-caption none e = refl
  said-caption (some v) e = rw e refl

  is_true-gettext :
      (s : String)
      → Translates gettext
      → str_eq s "" ≡ false
      → or_unexpected truthy gettext (some (string (gettext s))) ≡ string (gettext s)
  unfolding or_unexpected is_true
  is_true-gettext s t e = rw (t.not_empty s e) refl

  level-caption :
      (level : ℕ) (known : Option (Value A))
      → Translates gettext
      → or_unexpected truthy gettext (level_pretty truthy gettext level known) ≡ (
          if is_level level
          then caption gettext (needs_level level)
          else or_unexpected truthy gettext known)
  unfolding level_pretty caption is_level
  level-caption level known t = elim (Bool-cases (level == access_level_admin)) [
    | inl a ↦ rw a (is_true-gettext _ t refl)
    | inr a ↦ rw a (elim (Bool-cases (level == access_level_normal)) [
      | inl b ↦ rw b (is_true-gettext _ t refl)
      | inr b ↦ rw b (elim (Bool-cases (level == access_level_viewonly)) [
        | inl c ↦ rw c (is_true-gettext _ t refl)
        | inr c ↦ rw c refl
      ])
    ])
  ]

  module _ (format_percent : String → String)
      (format_with : String → List (String × Value A) → String) where
    unfoldable pub cause : List (String × Value A) → ℕ → String → Cause A
    unfolding cause_of
    cause response status msg =
        cause_of (get_value str_eq "message" response)
          (required_level (get_value str_eq "required_level" response))
          (known_pretty truthy gettext format_percent format_with response status) status msg

    -- An API error says what its cause says. Of the causes, an internal error with a message of the
    -- server comes first, then a lost connection or a timeout, then a level of access that is
    -- required, then a known error; any other response is an unexpected error.
    pub from_http_response_lem :
        (response : List (String × Value A)) (status : ℕ) (msg : String)
        → Translates gettext
        → (from_http_response truthy gettext format_percent format_with response status msg).pretty
          ≡ caption gettext (cause response status msg)
    unfolding from_http_response final_code cause cause_of forbidden_pretty
    from_http_response_lem response status msg t =
        let message = get_value str_eq "message" response in
        let level = required_level (get_value str_eq "required_level" response) in
        let known = known_pretty truthy gettext format_percent format_with response status in
        elim (Bool-cases ((status == 500) && is_true truthy message)) [
          | inl a ↦ rw a (said-caption message (ground (arith, a)))
          | inr a ↦ rw a (elim (Bool-cases (status == 0)) [
            | inl b ↦ rw b (elim (Bool-cases (str_eq msg "timeout")) [
              | inl c ↦ rw c (unfold caption in is_true-gettext _ t refl)
              | inr c ↦ rw c (unfold caption in is_true-gettext _ t refl)
            ])
            | inr b ↦ rw b (elim (Bool-cases (status == 403)) [
              | inl c ↦ rw c (
                  level-caption level known t ∙ elim (Bool-cases (is_level level)) [
                    | inl d ↦ rw d refl
                    | inr d ↦ rw d (known-caption known)
                  ])
              | inr c ↦ rw c (known-caption known)
            ])
          ])
        ]
