-- ===== src/Dashboard/Registry.antt =====
-- The registry of widget classes in qtoggleserver/frontend/js/dashboard/widgets/widgets.js, by
-- categories. `W` stands for classes, and `category` and `type_name` are their static properties.
pub mod Found
mod Tests
use qtoggleserver.Base.{Option, none, some, List, [], ◌∷◌, ◌++◌, if◌then◌else◌, String}
use text.Mathlib.Text.{◌==◌ as str_eq}

pub record Category (W : Type 0) : Type 0 where
  pub name : String
  pub widget_classes : List W

module _ {W : Type 0} where
  -- `register`: the first category of that name gets the class, or a new one at the end.
  unfoldable pub register : (W → String) → W → List (Category W) → List (Category W)
  register category w [] = record { name = category w; widget_classes = w ∷ [] } ∷ []
  register category w (c ∷ cs) =
      let later = register category w cs in
      if str_eq c.name (category w)
      then record c { widget_classes = c.widget_classes ++ w ∷ [] } ∷ cs
      else c ∷ later

  unfoldable pub register_all : (W → String) → List W → List (Category W) → List (Category W)
  unfolding register
  register_all category [] r = r
  register_all category (w ∷ ws) r = register_all category ws (register category w r)

  -- `categoryInfo.widgetClasses.find`
  unfoldable pub find_class : (W → String) → String → List W → Option W
  find_class type_name t [] = none
  find_class type_name t (w ∷ ws) =
      let later = find_class type_name t ws in if str_eq (type_name w) t then some w else later

  -- `find`
  unfoldable pub find : (W → String) → String → List (Category W) → Option W
  unfolding find_class
  find type_name t [] = none
  find type_name t (c ∷ cs) =
      let later = find type_name t cs in
      elim (find_class type_name t c.widget_classes) [ none ↦ later | some w ↦ some w ]
