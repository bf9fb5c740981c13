-- ===== src/Auth/Credentials.antt =====
-- The credentials that the cookies keep from one visit to the next.
use qtoggleserver.Base.{
  ◌≡◌, ◌≢◌, refl, true, not, Option, none, some, String, arith, Bool-cases, inl, inr,
}
use text.Mathlib.Text.{◌==◌ as str_eq}
use text.Mathlib.TextEquality.{eq_iff}
use qtoggleserver.Auth.{
  Auth, fresh, get_access, login, init, store_credentials, clear_credentials, level_of,
}

not_empty : (s : String) → s ≢ "" → not (str_eq s "") ≡ true
not_empty s h = elim (Bool-cases (str_eq s "")) [
  | inl e ↦ absurd (h ((eq_iff s "").0 e))
  | inr e ↦ rw e refl
]

-- A user who logs in and whose credentials are stored has the same user name, password hash and
-- access level on the next visit, if the server then answers as it did.
pub next_visit :
    (hash : String → String) (username password answer : String) (a : Auth)
    → username ≢ ""
    → hash password ≢ ""
    → let b = store_credentials (login hash username password (some answer) a) in
      let c = init (some answer) (fresh b.username_cookie b.password_cookie) in
      (c.username ≡ some username)
      × (c.password_hash ≡ some (hash password))
      × (c.access_level ≡ b.access_level)
      × (c.initial_access_level ≡ some (level_of answer))
unfolding store_credentials login init get_access
next_visit hash username password answer a u h =
    ground (arith, not_empty username u, not_empty (hash password) h)

-- After `clearCredentials` the next visit begins with no access and asks the server nothing.
pub cleared_visit :
    (answer : Option String) (a : Auth)
    → let b = clear_credentials a in
      let c = init answer (fresh b.username_cookie b.password_cookie) in
      (c.username ≡ none) × (c.access_level ≡ none) × (c.initial_access_level ≡ some 0)
unfolding clear_credentials init
cleared_visit answer a = (refl, refl, refl)
