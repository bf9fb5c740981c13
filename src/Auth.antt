-- ===== src/Auth.antt =====
-- qtoggleserver/frontend/js/api/auth.js and qtoggleserver/frontend/js/auth.js: access levels and
-- credentials. The only listener for changes of the access level is `handleAccessLevelChange`; what
-- `asap` puts off is done at once. A condition variable is the level that it is fulfilled with, if
-- it is. `hash` is the hash function of the Crypto library, as a text.
pub mod Levels
pub mod Credentials
mod Tests
use qtoggleserver.Base.{
  ℕ, zero, suc, Bool, true, false, not, ◌&&◌, ◌||◌, Option, none, some, List, [], ◌∷◌, ltb, leb,
  ◌==◌, if◌then◌else◌, String,
}
use text.Mathlib.Text.{◌==◌ as str_eq}

abbrev pub access_level_admin : ℕ
access_level_admin = 30

abbrev pub access_level_normal : ℕ
access_level_normal = 20

abbrev pub access_level_viewonly : ℕ
access_level_viewonly = 10

abbrev pub access_level_none : ℕ
access_level_none = 0

-- `ACCESS_LEVEL_MAPPING[level] || ACCESS_LEVEL_NONE` for a name of a level; `unknown` and names that
-- are not in the mapping are no access.
unfoldable pub level_of : String → ℕ
level_of level =
    if str_eq level "admin"
    then access_level_admin
    else if str_eq level "normal"
    then access_level_normal
    else if str_eq level "viewonly"
    then access_level_viewonly
    else access_level_none

pub record Auth : Type 0 where
  pub username : Option String
  pub password_hash : Option String
  pub access_level : Option ℕ
  pub initial_access_level : Option ℕ
  pub final_access_level : Option ℕ
  pub username_cookie : Option String
  pub password_cookie : Option String

-- The variables before `init`, with what the cookies hold.
abbrev pub fresh : Option String → Option String → Auth
fresh username password = record {
  username = none;
  password_hash = none;
  access_level = none;
  initial_access_level = none;
  final_access_level = none;
  username_cookie = username;
  password_cookie = password;
}

-- `isFulfilled`
abbrev pub is_fulfilled : Option ℕ → Bool
is_fulfilled none = false
is_fulfilled (some level) = true

-- `level == null`
abbrev pub is_null : Option ℕ → Bool
is_null none = true
is_null (some level) = false

-- `level == null || level === ACCESS_LEVEL_NONE`
abbrev pub is_no_access : Option ℕ → Bool
is_no_access none = true
is_no_access (some level) = level == access_level_none

-- `newAccessLevel !== currentAccessLevel`
abbrev pub differs : ℕ → Option ℕ → Bool
differs level none = true
differs level (some current) = not (level == current)

unfoldable pub handle_access_level_change : Option ℕ → ℕ → Auth → Auth
handle_access_level_change old new a = record a {
  initial_access_level =
      if is_null old && not (is_fulfilled a.initial_access_level)
      then some new
      else a.initial_access_level;
  final_access_level =
      if is_no_access old && ltb access_level_none new && not (is_fulfilled a.final_access_level)
      then some new
      else a.final_access_level;
}

-- `getAccess`, the server answering with the name of a level.
unfoldable pub get_access : String → Auth → Auth
unfolding handle_access_level_change
get_access name a =
    let level = level_of name in
    let told =
      if differs level a.access_level
      then handle_access_level_change a.access_level level a
      else a in
    record told { access_level = some level }

-- `hasAccess`: a level of null counts as 0 in a comparison.
unfoldable pub has_access : ℕ → Auth → Bool
has_access level a = elim a.access_level [ none ↦ leb level 0 | some current ↦ leb level current ]

-- `login`, by what the server answers; `none` is an error.
unfoldable pub login : (String → String) → String → String → Option String → Auth → Auth
unfolding get_access
login hash username password answer a =
    let b = record a { username = some username; password_hash = some (hash password) } in
    elim answer [ none ↦ b | some name ↦ get_access name b ]

unfoldable pub store_credentials : Auth → Auth
store_credentials a = record a { username_cookie = a.username; password_cookie = a.password_hash }

unfoldable pub clear_credentials : Auth → Auth
clear_credentials a = record a { username_cookie = none; password_cookie = none }

-- `fetchInitialAccess`
unfoldable pub fetch_initial_access : Option String → Auth → Auth
unfolding get_access handle_access_level_change
fetch_initial_access answer a = elim answer [
  | none ↦ handle_access_level_change none access_level_none a
  | some name ↦ get_access name a
]

-- The cookie is there and not empty.
abbrev pub is_given : Option String → Bool
is_given none = false
is_given (some text) = not (str_eq text "")

unfoldable pub init : Option String → Auth → Auth
unfolding fetch_initial_access
init answer a =
    if is_given a.username_cookie && is_given a.password_cookie
    then fetch_initial_access answer
        (record a { username = a.username_cookie; password_hash = a.password_cookie })
    else record a { initial_access_level = some access_level_none }
