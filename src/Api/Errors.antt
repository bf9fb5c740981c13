-- ===== src/Api/Errors.antt =====
-- `APIError` of qtoggleserver/frontend/js/api/base.js. A value of a response is a text or something
-- else, for which `truthy` tells whether it counts as true. `gettext` and the two forms of
-- `StringUtils.formatPercent`, without values and with the data of the response, are of the qui
-- package. That the parameters of an error are a copy is left out.
pub mod Pretty
use qtoggleserver.Base.{
  ℕ, Bool, true, false, not, ◌&&◌, ◌||◌, Option, none, some, List, [], ◌∷◌, ◌==◌, if◌then◌else◌,
  String, get_value, delete_key,
}
use text.Mathlib.Text.{◌==◌ as str_eq}
use qtoggleserver.Auth.{access_level_admin, access_level_normal, access_level_viewonly, level_of}
use qtoggleserver.Api.Constants.{KnownError, known_errors}

pub data Value (A : Type 0) : Type 0 where
  string : String → Value A
  other : A → Value A

pub record ApiError (A : Type 0) : Type 0 where
  pub code : Value A
  pub status : ℕ
  pub pretty : Value A
  pub params : List (String × Value A)

-- `ke.code === data['error']`
unfoldable pub is_code : {A : Type 0} → String → Option (Value A) → Bool
is_code code none = false
is_code code (some (string s)) = str_eq code s
is_code code (some (other a)) = false

-- `!ke.status || ke.status === status`
unfoldable pub is_status : Option ℕ → ℕ → Bool
is_status none status = true
is_status (some s) status = (s == 0) || (s == status)

-- `AuthAPI.ACCESS_LEVEL_MAPPING[data['required_level']]`, if it is a level above none.
unfoldable pub required_level : {A : Type 0} → Option (Value A) → ℕ
required_level none = 0
required_level (some (string s)) = level_of s
required_level (some (other a)) = 0

module _ {A : Type 0} (truthy : A → Bool) where
  -- Whether a value that may be missing counts as true.
  unfoldable pub is_true : Option (Value A) → Bool
  is_true none = false
  is_true (some (string s)) = not (str_eq s "")
  is_true (some (other a)) = truthy a

  -- `(ke.fields || []).every(f => data[f])`
  unfoldable pub has_fields : List String → List (String × Value A) → Bool
  unfolding is_true
  has_fields [] response = true
  has_fields (f ∷ fs) response = is_true (get_value str_eq f response) && has_fields fs response

  -- The first known error that the response fits.
  unfoldable pub find_known : List (String × Value A) → ℕ → List KnownError → Option KnownError
  unfolding has_fields is_code is_status
  find_known response status [] = none
  find_known response status (ke ∷ rest) =
      let later = find_known response status rest in
      if is_code ke.code (get_value str_eq "error" response)
        && (is_status ke.status status && has_fields ke.fields response)
      then some ke
      else later

  -- `data['error'] || msg`
  unfoldable pub first_code : Option (Value A) → String → Value A
  unfolding is_true
  first_code none msg = string msg
  first_code (some v) msg = if is_true (some v) then v else string msg

  module _ (gettext : String → String) where
    -- The `switch` for a response of status 403.
    unfoldable pub level_pretty : ℕ → Option (Value A) → Option (Value A)
    level_pretty level pretty =
        if level == access_level_admin
        then some (string (gettext "Administrator access level required."))
        else if level == access_level_normal
        then some (string (gettext "Normal access level or higher required."))
        else if level == access_level_viewonly
        then some (string (gettext "View-only access level or higher required."))
        else pretty

    unfoldable pub forbidden_pretty :
        List (String × Value A) → ℕ → Option (Value A) → Option (Value A)
    unfolding required_level level_pretty
    forbidden_pretty response status pretty =
        if status == 403
        then level_pretty (required_level (get_value str_eq "required_level" response)) pretty
        else pretty

    -- What the last tests make of code and text: an internal error of the server, or none at all.
    unfoldable pub final_code :
        List (String × Value A)
        → ℕ
        → String
        → Value A × Option (Value A)
        → Value A × Option (Value A)
    unfolding is_true
    final_code response status msg (code, pretty) =
        if (status == 500) && is_true (get_value str_eq "message" response)
        then (code, get_value str_eq "message" response)
        else if status == 0
        then (if str_eq msg "timeout"
            then (
              string "timeout",
              some (string (gettext "Timeout waiting for a response from the server.")),
            )
            else (
              string "disconnected",
              some (string (gettext "Connection with the server was lost.")),
            ))
        else (code, pretty)

    -- `if (!pretty) pretty = …`
    unfoldable pub or_unexpected : Option (Value A) → Value A
    unfolding is_true
    or_unexpected none = string (gettext "Unexpected error while communicating with the server.")
    or_unexpected (some v) =
        if is_true (some v)
        then v
        else string (gettext "Unexpected error while communicating with the server.")

  module _ (gettext : String → String) (format_percent : String → String)
      (format_with : String → List (String × Value A) → String) where
    -- The text of a known error, for a response that has an error.
    unfoldable pub known_pretty : List (String × Value A) → ℕ → Option (Value A)
    unfolding find_known is_true
    known_pretty response status =
        if is_true (get_value str_eq "error" response)
        then elim (find_known response status (known_errors gettext format_percent)) [
          | none ↦ none
          | some ke ↦ some (string (format_with ke.pretty response))
        ]
        else none

    -- `APIError.fromHTTPResponse`
    unfoldable pub from_http_response : List (String × Value A) → ℕ → String → ApiError A
    unfolding known_pretty forbidden_pretty final_code or_unexpected first_code
    from_http_response response status msg =
        let code = first_code (get_value str_eq "error" response) msg in
        let pretty = forbidden_pretty gettext response status (known_pretty response status) in
        let (last_code, last_pretty) = final_code gettext response status msg (code, pretty) in
        record {
          code = last_code;
          status = status;
          pretty = or_unexpected gettext last_pretty;
          params = delete_key str_eq "error" response;
        }
