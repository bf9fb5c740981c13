-- ===== src/Base/Pick.antt =====
-- Taking an element out of a list at a position: one of several things in flight ends.
use qtoggleserver.Base.Lists.{length, filter}
use Prim.Native.Nat.{ℕ, zero, suc}
use mathlib.Core.Bool.{Bool}
use mathlib.Core.Option.{Option, none, some}
use mathlib.Core.List.{List, [], ◌∷◌}

abbrev pub push_back {ℓ} : {A : Type ℓ} → A → Option (A × List A) → Option (A × List A)
push_back x none = none
push_back x (some (y, ys)) = some (y, x ∷ ys)

abbrev pub pick {ℓ} : {A : Type ℓ} → ℕ → List A → Option (A × List A)
pick i [] = none
pick zero (x ∷ xs) = some (x, xs)
pick (suc i) (x ∷ xs) = push_back x (pick i xs)

module _ {ℓ} {A : Type ℓ} where
  abbrev pub count : (A → Bool) → List A → ℕ
  count p xs = length (filter p xs)
