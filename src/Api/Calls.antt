-- ===== src/Api/Calls.antt =====
-- `apiCall` and `setSlaveName` of qtoggleserver/frontend/js/api/base.js. A query is a list of keys
-- with numbers, and `D` stands for the data of a request. The request itself, which
-- `AJAX.requestJSON` of the qui package makes, is what these functions return; the token that
-- `makeRequestJWT` makes of user name and password hash is left as these two, and the callbacks for
-- the display of activity are left out.
pub mod Forward
use qtoggleserver.Base.{
  ℕ, Bool, true, false, not, ◌&&◌, ◌||◌, Option, none, some, List, [], ◌∷◌, ◌++◌, ◌==◌,
  if◌then◌else◌, String, get_value,
}
use Prim.Native.String.{◌++◌ as glue}
use text.Mathlib.Text.{◌==◌ as str_eq}
use qtoggleserver.Auth.{Auth, is_given}
use qtoggleserver.Notifications.Listen.{default_server_timeout}
use qtoggleserver.Notifications.Expected.{Expected, Outcome, unexpect_event}
use qtoggleserver.Api.Errors.{Value, ApiError, from_http_response}

-- `slaveName` and `apiURLPrefix`
pub record Api : Type 0 where
  pub slave_name : Option String
  pub api_url_prefix : String

pub record Call (D : Type 0) : Type 0 where
  pub method : String
  pub path : String
  pub query : List (String × ℕ)
  pub body : Option D
  pub timeout : Option ℕ

pub record Request (D : Type 0) : Type 0 where
  pub method : String
  pub path : String
  pub query : List (String × ℕ)
  pub body : Option D
  pub credentials : Option (Option String × Option String)
  pub timeout : ℕ

-- `setSlaveName`, `main` being the name of the main device.
unfoldable pub set_slave_name : String → Option String → Api → Api
set_slave_name main name s = record s {
  slave_name = elim name [
    | none ↦ none
    | some n ↦ if str_eq n main || str_eq n "" then none else some n
  ];
}

-- The path on the server, for a slave device if one is set.
unfoldable pub target_path : Api → String → String
target_path s path = elim s.slave_name [
  | none ↦ glue s.api_url_prefix path
  | some n ↦ glue s.api_url_prefix (glue "/devices/" (glue n (glue "/forward" path)))
]

-- `method === 'POST' || method === 'PATCH' || method === 'PUT'`
unfoldable pub has_body : String → Bool
has_body method = str_eq method "POST" || (str_eq method "PATCH" || str_eq method "PUT")

-- A timeout that is given, and not 0.
unfoldable pub given_timeout : Option ℕ → Option ℕ
given_timeout none = none
given_timeout (some t) = if t == 0 then none else some t

-- `ObjectUtils.setDefault(query, 'timeout', timeout)`, when the call is forwarded.
unfoldable pub query_with_timeout : Option ℕ → Option String → List (String × ℕ) → List (String × ℕ)
query_with_timeout (some t) (some n) query = elim (get_value str_eq "timeout" query) [
  | none ↦ query ++ ("timeout", t) ∷ []
  | some u ↦ query
]
query_with_timeout none n query = query
query_with_timeout (some t) none query = query

-- `apiCall`, until the request is made.
unfoldable pub api_call : {D : Type 0} → Auth → Call D → Api → Request D × Api
unfolding target_path has_body given_timeout query_with_timeout
api_call auth c s = (
  record {
    method = c.method;
    path = target_path s c.path;
    query = query_with_timeout (given_timeout c.timeout) s.slave_name c.query;
    body = if has_body c.method then c.body else none;
    credentials =
        if is_given auth.username && is_given auth.password_hash
        then some (auth.username, auth.password_hash)
        else none;
    timeout = elim (given_timeout c.timeout) [ none ↦ default_server_timeout | some t ↦ t ];
  },
  record s { slave_name = none },
)

unfoldable pub api_calls : {D : Type 0} → Auth → List (Call D) → Api → List (Request D) × Api
unfolding api_call
api_calls auth [] s = ([], s)
api_calls auth (c ∷ cs) s =
    let (first, t) = api_call auth c s in let (rest, u) = api_calls auth cs t in (first ∷ rest, u)

module _ {A : Type 0} (truthy : A → Bool) (gettext : String → String)
    (format_percent : String → String)
    (format_with : String → List (String × Value A) → String) where
  -- `rejectWrapper`: the error with which a call is rejected, and what becomes of the event that the
  -- call made the client expect.
  unfoldable pub call_failed :
      {V : Type 0}
      → List (String × Value A)
      → ℕ
      → String
      → Option ℕ
      → Expected V
      → ApiError A × (List (ℕ × Outcome V) × Expected V)
  call_failed response status msg expected_handle s = (
    from_http_response truthy gettext format_percent format_with response status msg,
    elim expected_handle [
      | none ↦ ([], s)
      | some handle ↦ if handle == 0 then ([], s) else unexpect_event handle s
    ],
  )
