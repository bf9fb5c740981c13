-- ===== src/Dashboard/Registry/Tests.antt =====
-- A run of the registry of widget classes.
use qtoggleserver.Base.{◌≡◌, refl, some, List, [], ◌∷◌, String, All}
use qtoggleserver.Dashboard.Registry.{register_all, find}
use qtoggleserver.Dashboard.Registry.Found.{Distinct, registered_found}

record WidgetClass : Type 0 where
  category : String
  type_name : String

abbrev class : String → String → WidgetClass
class category type_name = record { category = category; type_name = type_name }

abbrev classes : List WidgetClass
classes = class "Basic" "Button" ∷ class "Charts" "LineChart" ∷ class "Basic" "Slider" ∷ []

classes-Distinct : Distinct (λ (c : WidgetClass). c.type_name) classes
unfolding Distinct
classes-Distinct = ((refl, (refl, tt)), ((refl, tt), (tt, tt)))

-- The slider stands in the first category, after the button.
finds :
    find
      (λ (c : WidgetClass). c.type_name)
      "Slider"
      (register_all (λ (c : WidgetClass). c.category) classes [])
    ≡ some (class "Basic" "Slider")
unfolding find register_all
finds = refl

registered_found_example :
    All
      (λ w.
        find
          (λ (c : WidgetClass). c.type_name)
          w.type_name
          (register_all (λ (c : WidgetClass). c.category) classes [])
        ≡ some w)
      classes
registered_found_example =
    registered_found (λ (c : WidgetClass). c.category) (λ (c : WidgetClass). c.type_name) classes
      classes-Distinct
