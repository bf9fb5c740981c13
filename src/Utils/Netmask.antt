-- ===== src/Utils/Netmask.antt =====
-- `netmaskFromLen` and `netmaskToLen` of qtoggleserver/frontend/js/utils.js. A 32-bit integer is
-- its bit pattern, a number below 2 ^ 32. A netmask is the list of its four parts; the text with
-- dots between them is left out. Lengths are at most 32.
use qtoggleserver.Base.{
  ℕ, zero, suc, ◌+◌, ◌-◌, ◌*◌, ◌/◌, ◌%◌, ◌^◌, ◌≤◌, ◌<◌, ◌≡◌, refl, Bool, true, false, ◌&&◌, Option,
  none, some, List, [], ◌∷◌, arith, ltb, ◌==◌, if◌then◌else◌,
}

-- `x << n`, where the shift is taken modulo 32.
unfoldable pub shift_left : ℕ → ℕ → ℕ
shift_left x n = (x * 2 ^ (n % 32)) % 2 ^ 32

-- `x >> 1`, which keeps the sign.
unfoldable pub halve : ℕ → ℕ
halve x = x / 2 + (if ltb x (2 ^ 31) then 0 else 2 ^ 31)

-- The loop of `netmaskFromLen`.
unfoldable pub ones : ℕ → ℕ → ℕ
unfolding shift_left
ones zero x = x
ones (suc len) x = ones len (shift_left x 1 + 1)

unfoldable pub netmask_from_len : ℕ → List ℕ
unfolding ones shift_left
netmask_from_len len =
    let x = shift_left (ones len 0) (32 - len) in
    (x / 2 ^ 24) % 256 ∷ (x / 2 ^ 16) % 256 ∷ (x / 2 ^ 8) % 256 ∷ x % 256 ∷ []

-- The loop of `netmaskToLen`.
unfoldable pub trailing_zeros : ℕ → ℕ → ℕ → Option ℕ
unfolding halve
trailing_zeros zero x len = none
trailing_zeros (suc fuel) x len =
    let later = trailing_zeros fuel (halve x) (suc len) in if x % 2 == 0 then later else some len

unfoldable pub netmask_to_len : ℕ → List ℕ → Option ℕ
unfolding trailing_zeros shift_left
netmask_to_len fuel (a ∷ b ∷ c ∷ d ∷ []) =
    let x = (shift_left a 24 + shift_left b 16 + shift_left c 8 + d) % 2 ^ 32 in
    if x == 0
    then some 0
    else elim (trailing_zeros fuel x 0) [ none ↦ none | some len ↦ some (32 - len) ]
netmask_to_len fuel _ = none

abbrev is_len : ℕ → Option ℕ → Bool
is_len n none = false
is_len n (some m) = m == n

-- The round trip for one length, and for all below a bound.
comes_back : ℕ → Bool
unfolding netmask_to_len netmask_from_len
comes_back n = is_len n (netmask_to_len 32 (netmask_from_len n))

all_below : (ℕ → Bool) → ℕ → Bool
all_below p zero = true
all_below p (suc n) = p n && all_below p n

all_below-lt : (p : ℕ → Bool) (n k : ℕ) → all_below p n ≡ true → k < n → p k ≡ true
unfolding all_below
all_below-lt p zero k h lt = absurd (omega (arith, lt))
all_below-lt p (suc n) k h lt = ground (arith, h, lt, all_below-lt p n k)

all_come_back : all_below comes_back 33 ≡ true
unfolding all_below comes_back
all_come_back = refl

is_len-eq : (n : ℕ) (o : Option ℕ) → is_len n o ≡ true → o ≡ some n
is_len-eq n none h = absurd (cc)
is_len-eq n (some m) h = ground arith

-- The four parts of the netmask of a length are read back as that length, for all lengths up to 32, in at most 32
-- rounds of the loop.
pub netmask_round_trip : (len : ℕ) → len ≤ 32 → netmask_to_len 32 (netmask_from_len len) ≡ some len
unfolding comes_back
netmask_round_trip len h =
    is_len-eq len _ (all_below-lt comes_back 33 len all_come_back (omega arith))
