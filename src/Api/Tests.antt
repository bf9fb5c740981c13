-- ===== src/Api/Tests.antt =====
-- Runs of the calls of the server, and their theorems at concrete inputs.
use qtoggleserver.Base.{ℕ, ◌≡◌, refl, Bool, true, none, some, List, [], ◌∷◌, map, String}
use qtoggleserver.Auth.{fresh}
use qtoggleserver.Api.Errors.{Value, string, from_http_response}
use qtoggleserver.Api.Errors.Pretty.{
  Translates, cause, caption, known_error, from_http_response_lem,
}
use qtoggleserver.Api.Calls.{Api, Call, api_calls, set_slave_name}
use qtoggleserver.Api.Calls.Forward.{forwards_once}

abbrev untranslated : String → String
untranslated s = s

untranslated-Translates : Translates untranslated
untranslated-Translates = record { not_empty = λ s e. e }

abbrev no_values : String → List (String × Value ℕ) → String
no_values s response = s

abbrev is_number_true : ℕ → Bool
is_number_true n = true

abbrev offline : List (String × Value ℕ)
offline = ("error", string "device-offline") ∷ []

-- The error that a device is offline has a text of its own.
is_known :
    cause is_number_true untranslated untranslated no_values offline 503 "error"
    ≡ known_error (string "Device is offline.")
unfolding cause from_http_response
is_known = refl

from_http_response_example :
    (from_http_response is_number_true untranslated untranslated no_values offline 503
      "error").pretty
    ≡ caption untranslated
        (cause is_number_true untranslated untranslated no_values offline 503 "error")
from_http_response_example =
    from_http_response_lem is_number_true untranslated untranslated no_values offline 503 "error"
      untranslated-Translates

abbrev get : String → Call ℕ
get path = record { method = "GET"; path = path; query = []; body = none; timeout = none }

abbrev start : Api
start = record { slave_name = none; api_url_prefix = "/api" }

forwards_once_example :
    map
      (λ r. r.path)
      ((api_calls
        (fresh none none)
        (get "/ports" ∷ get "/device" ∷ [])
        (set_slave_name "hub" (some "barn") start)).0)
    ≡ "/api/devices/barn/forward/ports" ∷ "/api/device" ∷ []
forwards_once_example =
    forwards_once (fresh none none) "hub" "barn" (get "/ports") (get "/device" ∷ []) start refl refl
