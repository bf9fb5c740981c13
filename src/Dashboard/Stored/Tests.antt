-- ===== src/Dashboard/Stored/Tests.antt =====
-- Storing and loading a small dashboard, and the theorems at it.

use qtoggleserver.Base.{
  ℕ, ◌≡◌, refl, true, false, Option, none, some, zero, suc, ltb, if◌then◌else◌, [], ◌∷◌, map,
  String,
}
use qtoggleserver.Dashboard.Stored.{
  Class, Widget, Panel, Children, panel, group, nil, cons, widgets_to_json, widgets_from_json,
  children_to_json, children_from_json, get_panels_rec,
}
use qtoggleserver.Dashboard.Stored.Widgets.{IsStorable, widgets_round_trip}
use qtoggleserver.Dashboard.Stored.Trees.{loaded, children_loaded, stored_tree_round_trip}

-- A falsy value is skipped, and one that is too large is refused.
abbrev from_json : ℕ → ℕ → Option ℕ
from_json zero config = some config
from_json (suc n) config = if ltb n 100 then some (suc n) else none

abbrev slider : Class ℕ
slider = record {
  type_name = "Slider";
  h_resizable = true;
  v_resizable = false;
  width = 3;
  height = 1;
  config = 0;
  config_to_json = λ c. c;
  config_from_json = from_json;
}

abbrev find_slider : String → Option (Class ℕ)
find_slider name = some slider

abbrev dimmer : Widget ℕ
dimmer = record {
  class = slider;
  id = some "0a1b";
  label = "Dimmer";
  left = 1;
  top = 2;
  width = 4;
  height = 1;
  config = 7;
}

dimmer-IsStorable : IsStorable find_slider dimmer
dimmer-IsStorable = record {
  has_an_id = ("0a1b", refl);
  registered = refl;
  own_width = λ e. cc e;
  own_height = λ e. refl;
  restorable = refl;
}

widgets_round_trip_example :
    widgets_from_json find_slider (0, 0) "x" (widgets_to_json (dimmer ∷ [])) ≡ dimmer ∷ []
widgets_round_trip_example =
    widgets_round_trip find_slider (0, 0) "x" (dimmer ∷ []) (dimmer-IsStorable, tt)

abbrev hall : Panel ℕ
hall = record {
  name = "Hall";
  width = 5;
  height = 5;
  widgets = some (dimmer ∷ []);
  widgets_json = some [];
}

abbrev tree : Children ℕ
tree = cons (group "Ground floor" (cons (panel hall) nil)) nil

stored_tree_example :
    let loaded_tree = children_from_json (children_to_json tree) in
    (loaded_tree ≡ children_loaded tree)
    × (get_panels_rec loaded_tree ≡ map loaded (get_panels_rec tree))
    × (children_to_json loaded_tree ≡ children_to_json tree)
stored_tree_example = stored_tree_round_trip tree
