-- ===== src/Auth/Tests.antt =====
-- Runs of the authentication, and its theorems at concrete inputs.
use qtoggleserver.Base.{◌≡◌, refl, true, none, some, [], ◌∷◌}
use qtoggleserver.Auth.{fresh, login, level_of, has_access}
use qtoggleserver.Auth.Levels.{answers, first_granted, answers_final}

admits : has_access 10 (login (λ s. s) "ann" "secret" (some "normal") (fresh none none)) ≡ true
unfolding has_access login level_of
admits = refl

answers_final_example :
    (answers ("none" ∷ "viewonly" ∷ "admin" ∷ []) (fresh none none)).final_access_level
    ≡ first_granted ("none" ∷ "viewonly" ∷ "admin" ∷ [])
answers_final_example =
    answers_final ("none" ∷ "viewonly" ∷ "admin" ∷ []) (fresh none none) refl refl

first_is_viewonly : first_granted ("none" ∷ "viewonly" ∷ "admin" ∷ []) ≡ some 10
unfolding first_granted level_of
first_is_viewonly = refl
