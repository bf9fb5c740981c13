-- ===== src/Utils/Names.antt =====
-- `nameToId` of qtoggleserver/frontend/js/utils.js on the code units of a name. `lower` is
-- `toLowerCase`.
use mathlib.Core.Path.{ap₂}
use mathlib.Core.Bool.{false≢true}
use qtoggleserver.Base.{
  ℕ, ◌≡◌, refl, sym, ap, ◌∙◌, Bool, true, false, ◌&&◌, ◌||◌, List, [], ◌∷◌, arith, leb, ◌==◌,
  if◌then◌else◌, All, Bool-cases, inl, inr,
}

-- `[a-z0-9]`
unfoldable pub is_plain : ℕ → Bool
is_plain c = (leb b'a' c && leb c b'z') || (leb b'0' c && leb c b'9')

unfoldable pub is_dash : ℕ → Bool
is_dash c = c == b'-'

unfoldable pub replace_others : List ℕ → List ℕ
unfolding is_plain
replace_others [] = []
replace_others (c ∷ cs) = (if is_plain c then c else b'-') ∷ replace_others cs

-- Each run of dashes becomes one; `after` tells that a dash stands before.
unfoldable pub squeeze : Bool → List ℕ → List ℕ
squeeze after [] = []
squeeze after (c ∷ cs) =
    let dashes = squeeze true cs in
    let others = squeeze false cs in
    if is_dash c then (if after then dashes else b'-' ∷ dashes) else c ∷ others

unfoldable pub name_to_id : (List ℕ → List ℕ) → List ℕ → List ℕ
unfolding replace_others squeeze
name_to_id lower name = squeeze false (replace_others (lower name))

-- A plain character or a dash.
abbrev pub IsIdChar : ℕ → Type 0
IsIdChar c = (is_plain c || is_dash c) ≡ true

-- What the code relies on of `toLowerCase`: it leaves small letters, digits and dashes alone.
pub record Lowers (lower : List ℕ → List ℕ) : Type 0 where
  pub leaves : (cs : List ℕ) → All IsIdChar cs → lower cs ≡ cs

-- No two dashes stand side by side; `after` tells that a dash stands before.
unfoldable pub Single : Bool → List ℕ → Type 0
Single after [] = Unit
Single after (c ∷ cs) = ((is_dash c && after) ≡ false) × Single (is_dash c) cs

replace_others-IsIdChar : (cs : List ℕ) → All IsIdChar (replace_others cs)
unfolding replace_others is_plain is_dash
replace_others-IsIdChar [] = tt
replace_others-IsIdChar (c ∷ cs) = (ground arith, replace_others-IsIdChar cs)

dash_lem : is_dash b'-' ≡ true
unfolding is_dash
dash_lem = refl

dash-IsIdChar : IsIdChar b'-'
unfolding is_plain is_dash
dash-IsIdChar = refl

is_dash-eq : (c : ℕ) → is_dash c ≡ true → b'-' ≡ c
unfolding is_dash
is_dash-eq c e = ground arith

squeeze-IsIdChar : (b : Bool) (cs : List ℕ) → All IsIdChar cs → All IsIdChar (squeeze b cs)
unfolding squeeze
squeeze-IsIdChar b [] h = tt
squeeze-IsIdChar true (c ∷ cs) h = elim (Bool-cases (is_dash c)) [
  | inl e ↦ rw (e, squeeze) (squeeze-IsIdChar true cs h.1)
  | inr e ↦ rw (e, squeeze) (h.0, squeeze-IsIdChar false cs h.1)
]
squeeze-IsIdChar false (c ∷ cs) h = elim (Bool-cases (is_dash c)) [
  | inl e ↦ rw (e, squeeze) (dash-IsIdChar, squeeze-IsIdChar true cs h.1)
  | inr e ↦ rw (e, squeeze) (h.0, squeeze-IsIdChar false cs h.1)
]

squeeze-Single : (b : Bool) (cs : List ℕ) → Single b (squeeze b cs)
unfolding squeeze Single
squeeze-Single b [] = tt
squeeze-Single true (c ∷ cs) = elim (Bool-cases (is_dash c)) [
  | inl e ↦ rw (e, squeeze) (squeeze-Single true cs)
  | inr e ↦ rw (e, squeeze) (rw e (refl, squeeze-Single false cs))
]
squeeze-Single false (c ∷ cs) = elim (Bool-cases (is_dash c)) [
  | inl e ↦ rw (e, squeeze) (rw dash_lem (refl, squeeze-Single true cs))
  | inr e ↦ rw (e, squeeze) (rw e (refl, squeeze-Single false cs))
]

replace_others_same : (cs : List ℕ) → All IsIdChar cs → replace_others cs ≡ cs
unfolding replace_others is_dash
replace_others_same [] h = refl
replace_others_same (c ∷ cs) h = ground (arith, h.0, replace_others_same cs h.1)

squeeze_same : (b : Bool) (cs : List ℕ) → Single b cs → squeeze b cs ≡ cs
unfolding squeeze Single
squeeze_same b [] s = refl
squeeze_same true (c ∷ cs) s = elim (Bool-cases (is_dash c)) [
  | inl e ↦ absurd (false≢true (sym s.0 ∙ rw e refl))
  | inr e ↦ rw e (ap (λ ds. c ∷ ds) (squeeze_same false cs (rw e at (s.1))))
]
squeeze_same false (c ∷ cs) s = elim (Bool-cases (is_dash c)) [
  | inl e ↦ rw e (
      ap₂ (λ (d : ℕ) (ds : List ℕ). d ∷ ds) (is_dash-eq c e) (squeeze_same true cs (rw e at (s.1))))
  | inr e ↦ rw e (ap (λ ds. c ∷ ds) (squeeze_same false cs (rw e at (s.1))))
]

-- An id consists of small letters, digits and dashes, no two dashes side by side, and is its own
-- id.
pub name_to_id_lem :
    (lower : List ℕ → List ℕ) (name : List ℕ)
    → Lowers lower
    → let id = name_to_id lower name in
      All IsIdChar id × Single false id × (name_to_id lower id ≡ id)
unfolding name_to_id
name_to_id_lem lower name lowers =
    let chars =
      squeeze-IsIdChar false (replace_others (lower name)) (replace_others-IsIdChar (lower name)) in
    let single = squeeze-Single false (replace_others (lower name)) in
    (
      chars,
      single,
      rw (lowers.leaves _ chars) rw (replace_others_same _ chars) (squeeze_same false _ single),
    )
