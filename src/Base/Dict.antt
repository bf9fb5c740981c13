-- ===== src/Base/Dict.antt =====
-- Objects as dictionaries: lists of keys with values, each key once, in the order of
-- `Object.keys`.
use qtoggleserver.Base.Test.{if◌then◌else◌}
use mathlib.Core.Bool.{Bool}
use mathlib.Core.Option.{Option, none, some}
use mathlib.Core.List.{List, [], ◌∷◌}

module _ {ℓ} {K A : Type ℓ} where
  -- `object[key]`
  abbrev pub get_value : (K → K → Bool) → K → List (K × A) → Option A
  get_value same k [] = none
  get_value same k ((l, a) ∷ rest) =
      let later = get_value same k rest in if same l k then some a else later

  -- `delete object[key]`
  abbrev pub delete_key : (K → K → Bool) → K → List (K × A) → List (K × A)
  delete_key same k [] = []
  delete_key same k ((l, a) ∷ rest) =
      let later = delete_key same k rest in if same l k then rest else (l, a) ∷ later

  -- A change of the value that a key has.
  abbrev pub change_value : (K → K → Bool) → K → (A → A) → List (K × A) → List (K × A)
  change_value same k f [] = []
  change_value same k f ((l, a) ∷ rest) =
      let later = change_value same k f rest in if same l k then (l, f a) ∷ rest else (l, a) ∷ later
