-- ===== src/Auth/Levels.antt =====
-- How the access level develops over the answers of the server.
use qtoggleserver.Base.{
  ℕ, ◌≡◌, inl, inr, true, Option, none, some, List, [], ◌∷◌, ltb, if◌then◌else◌, String, arith,
  Bool-cases,
}
use qtoggleserver.Auth.{Auth, level_of, is_no_access, handle_access_level_change, get_access}

-- The server answers with one name after the other.
unfoldable pub answers : List String → Auth → Auth
unfolding get_access
answers [] a = a
answers (name ∷ names) a = answers names (get_access name a)

-- The first level above none.
unfoldable pub first_granted : List String → Option ℕ
first_granted [] = none
first_granted (name ∷ names) =
    let rest = first_granted names in if ltb 0 (level_of name) then some (level_of name) else rest

answers-keep :
    (names : List String) (level : ℕ) (a : Auth)
    → a.final_access_level ≡ some level
    → (answers names a).final_access_level ≡ some level
unfolding answers handle_access_level_change
answers-keep [] level a e = e
answers-keep (name ∷ names) level a e =
    answers-keep names level (get_access name a) (ground (arith, e))

-- While there has been no access, the final level is that of the first answer that grants any,
-- and later answers do not change it.
pub answers_final :
    (names : List String) (a : Auth)
    → a.final_access_level ≡ none
    → is_no_access a.access_level ≡ true
    → (answers names a).final_access_level ≡ first_granted names
unfolding answers first_granted handle_access_level_change
answers_final [] a e n = e
answers_final (name ∷ names) a e n = elim (Bool-cases (ltb 0 (level_of name))) [
  | inl t ↦ rw t (answers-keep names (level_of name) (get_access name a) (ground (arith, e, n, t)))
  | inr t ↦
      rw t (answers_final names (get_access name a) (ground (arith, e, n, t)) (ground (arith, t)))
]
