-- ===== src/Utils/Tests.antt =====
-- Runs of the utilities, and their theorems at concrete inputs.
use qtoggleserver.Base.{ℕ, ◌+◌, ◌/◌, ◌≡◌, refl, some, List, [], ◌∷◌, Bool, ltb, ◌==◌, arith}
use qtoggleserver.Utils.Netmask.{netmask_from_len, netmask_to_len, netmask_round_trip}
use qtoggleserver.Utils.Names.{name_to_id, is_plain, is_dash, Lowers}
use qtoggleserver.Utils.Samples.{decimate, moving_average}

class_b : netmask_from_len 20 ≡ 255 ∷ 255 ∷ 240 ∷ 0 ∷ []
unfolding netmask_from_len
class_b = refl

-- A netmask with a hole is not refused.
with_hole : netmask_to_len 32 (255 ∷ 0 ∷ 255 ∷ 0 ∷ []) ≡ some 24
unfolding netmask_to_len
with_hole = refl

netmask_round_trip_example : netmask_to_len 32 (netmask_from_len 20) ≡ some 20
netmask_round_trip_example = netmask_round_trip 20 (omega arith)

abbrev small_letters : List ℕ → List ℕ
small_letters cs = cs

small_letters-Lowers : Lowers small_letters
small_letters-Lowers = record { leaves = λ cs h. refl }

-- "a  b" becomes "a-b".
makes_id : name_to_id small_letters (97 ∷ 32 ∷ 32 ∷ 98 ∷ []) ≡ 97 ∷ 45 ∷ 98 ∷ []
unfolding name_to_id is_plain is_dash
makes_id = refl

-- Points as pairs of x and y.
abbrev hill : List (ℕ × ℕ)
hill = (0, 5) ∷ (1, 9) ∷ (2, 3) ∷ (3, 4) ∷ (4, 8) ∷ (5, 1) ∷ []

abbrev lower : ℕ × ℕ → ℕ × ℕ → Bool
lower a b = ltb a.1 b.1

abbrev before : ℕ × ℕ → ℕ × ℕ → Bool
before a b = ltb a.0 b.0

abbrev same : ℕ × ℕ → ℕ × ℕ → Bool
same a b = a.0 == b.0

decimates : decimate lower before same 4 hill ≡ (1, 9) ∷ (2, 3) ∷ (4, 8) ∷ (5, 1) ∷ []
unfolding decimate
decimates = refl

-- The averages of three points, rounded down.
averages :
    moving_average 0 ◌+◌ ◌/◌ (λ (d : ℕ × ℕ). d.0) (λ d. d.1) 3 hill
    ≡ (0, 7) ∷ (1, 5) ∷ (2, 5) ∷ (3, 5) ∷ (4, 4) ∷ (5, 4) ∷ []
unfolding moving_average
averages = refl
