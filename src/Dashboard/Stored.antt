-- ===== src/Dashboard/Stored.antt =====
-- How the dashboard is stored: `toJSON` and `fromJSON` of groups, panels and widgets, in
-- qtoggleserver/frontend/js/dashboard/group.js, panel-group-composite.js and panel.js, and in
-- dashboard/widgets/widget.js, with the tree operations of a group. A property that is missing or
-- null in a JSON object is `none`. `C` stands for the configurations of widgets and the JSON
-- objects of these; each class of widgets has its own functions from one to the other.
pub mod Widgets
pub mod Trees
mod Tests
use qtoggleserver.Base.{
  ℕ, Bool, true, false, not, ◌||◌, Option, none, some, List, [], ◌∷◌, ◌++◌, map, if◌then◌else◌,
  String,
}
use text.Mathlib.Text.{◌==◌ as str_eq}

-- A class of widgets: its static properties, the size and the configuration that its constructor
-- sets, and its `configToJSON` and `configFromJSON`, which changes a configuration by its JSON or
-- throws (`none`).
pub record Class (C : Type 0) : Type 0 where
  pub type_name : String
  pub h_resizable : Bool
  pub v_resizable : Bool
  pub width : ℕ
  pub height : ℕ
  pub config : C
  pub config_to_json : C → C
  pub config_from_json : C → C → Option C

pub record Widget (C : Type 0) : Type 0 where
  pub class : Class C
  pub id : Option String
  pub label : String
  pub left : ℕ
  pub top : ℕ
  pub width : ℕ
  pub height : ℕ
  pub config : C

pub record WidgetJson (C : Type 0) : Type 0 where
  pub type : String
  pub id : Option String
  pub label : Option String
  pub left : Option ℕ
  pub top : Option ℕ
  pub width : Option ℕ
  pub height : Option ℕ
  pub config : Option C

-- `if (value != null) this._x = value`
abbrev pub or_else {ℓ} : {A : Type ℓ} → Option A → A → A
or_else none d = d
or_else (some a) d = a

-- `widgets` is null until the panel is shown.
pub record Panel (C : Type 0) : Type 0 where
  pub name : String
  pub width : ℕ
  pub height : ℕ
  pub widgets : Option (List (Widget C))
  pub widgets_json : Option (List (WidgetJson C))

mutual
  pub data Child (C : Type 0) : Type 0 where
    panel : Panel C → Child C
    group : String → Children C → Child C

  pub data Children (C : Type 0) : Type 0 where
    nil : Children C
    cons : Child C → Children C → Children C

mutual
  pub data ChildJson (C : Type 0) : Type 0 where
    panel_json :
        (name : Option String) (width height : Option ℕ) (widgets : Option (List (WidgetJson C)))
        → ChildJson C
    group_json : (name : Option String) (children : OptionalChildren C) → ChildJson C

  pub data OptionalChildren (C : Type 0) : Type 0 where
    missing : OptionalChildren C
    given : ChildrenJson C → OptionalChildren C

  pub data ChildrenJson (C : Type 0) : Type 0 where
    nil_json : ChildrenJson C
    cons_json : ChildJson C → ChildrenJson C → ChildrenJson C

abbrev pub default_panel_width : ℕ
default_panel_width = 5

abbrev pub default_panel_height : ℕ
default_panel_height = 5

module _ {C : Type 0} where
  -- The constructor of a class of widgets.
  abbrev pub new_widget : Class C → Widget C
  new_widget cls = record {
    class = cls;
    id = none;
    label = "";
    left = 0;
    top = 0;
    width = cls.width;
    height = cls.height;
    config = cls.config;
  }

  -- `toJSON` of a widget, with the type that `toJSON` of its panel adds.
  unfoldable pub widget_to_json : Widget C → WidgetJson C
  widget_to_json w = record {
    type = w.class.type_name;
    id = w.id;
    label = some w.label;
    left = some w.left;
    top = some w.top;
    width = if w.class.h_resizable then some w.width else none;
    height = if w.class.v_resizable then some w.height else none;
    config = some (w.class.config_to_json w.config);
  }

  -- `fromJSON` of a widget, or an exception of its class.
  unfoldable pub widget_from_json : WidgetJson C → Widget C → Option (Widget C)
  widget_from_json j w =
      let restored : Option C = elim j.config [
        | none ↦ some w.config
        | some c ↦ w.class.config_from_json c w.config
      ] in
      elim restored [
        | none ↦ none
        | some c ↦ some (record w {
          id = elim j.id [ none ↦ w.id | some id ↦ some id ];
          label = or_else j.label w.label;
          left = or_else j.left w.left;
          top = or_else j.top w.top;
          width = if w.class.h_resizable then or_else j.width w.width else w.width;
          height = if w.class.v_resizable then or_else j.height w.height else w.height;
          config = c;
        })
      ]

  -- `makeWidget` of a class with attributes, on a panel where `place` is what `findWidgetPlace`
  -- returns and `id` what `_makeWidgetId` returns: null (`none`) when `fromJSON` throws.
  unfoldable pub make_widget : ℕ × ℕ → String → Class C → WidgetJson C → Option (Widget C)
  unfolding widget_from_json
  make_widget place id cls attributes =
      let placed = record attributes {
        left = some (or_else attributes.left place.0);
        top = some (or_else attributes.top place.1);
      } in
      elim (widget_from_json placed (new_widget cls)) [
        | none ↦ none
        | some w ↦ some (record w { id = some (or_else w.id id) })
      ]

  unfoldable pub widgets_to_json : List (Widget C) → List (WidgetJson C)
  unfolding widget_to_json
  widgets_to_json [] = []
  widgets_to_json (w ∷ ws) = widget_to_json w ∷ widgets_to_json ws

  -- `_widgetsFromJSON`, which leaves out a widget that cannot be made; `find` is that of the
  -- registered classes.
  unfoldable pub widgets_from_json :
      (String → Option (Class C)) → ℕ × ℕ → String → List (WidgetJson C) → List (Widget C)
  unfolding make_widget
  widgets_from_json find place id [] = []
  widgets_from_json find place id (j ∷ js) =
      let rest = widgets_from_json find place id js in
      elim (find j.type) [
        | none ↦ rest
        | some cls ↦ elim (make_widget place id cls j) [ none ↦ rest | some w ↦ w ∷ rest ]
      ]

  abbrev pub new_panel : Panel C
  new_panel = record {
    name = "";
    width = default_panel_width;
    height = default_panel_height;
    widgets = none;
    widgets_json = none;
  }

  -- The `widgets` of `toJSON` of a panel.
  unfoldable pub panel_widgets_json : Panel C → Option (List (WidgetJson C))
  unfolding widgets_to_json
  panel_widgets_json p = elim p.widgets [
    | none ↦ p.widgets_json
    | some ws ↦ some (widgets_to_json ws)
  ]

  -- `save` of a panel, up to the request to save all.
  unfoldable pub save_panel : Panel C → Panel C
  unfolding panel_widgets_json
  save_panel p = record p { widgets_json = panel_widgets_json p }

  -- `_initWidgets`, when the panel is shown.
  unfoldable pub init_widgets : (String → Option (Class C)) → ℕ × ℕ → String → Panel C → Panel C
  unfolding widgets_from_json
  init_widgets find place id p =
      let js = or_else p.widgets_json [] in
      record p { widgets_json = some js; widgets = some (widgets_from_json find place id js) }

-- `toJSON` of panels and groups.
unfoldable mutual
  pub child_to_json : {C : Type 0} → Child C → ChildJson C
  child_to_json (panel p) =
      panel_json (some p.name) (some p.width) (some p.height) (panel_widgets_json p)
  child_to_json (group name cs) = group_json (some name) (given (children_to_json cs))

  pub children_to_json : {C : Type 0} → Children C → ChildrenJson C
  children_to_json nil = nil_json
  children_to_json (cons c cs) = cons_json (child_to_json c) (children_to_json cs)

-- `fromJSON` of the new panels and groups that `fromJSON` of a group makes.
unfoldable mutual
  pub child_from_json : {C : Type 0} → ChildJson C → Child C
  child_from_json (panel_json name width height widgets) = panel (record {
    name = or_else name "";
    width = or_else width default_panel_width;
    height = or_else height default_panel_height;
    widgets = none;
    widgets_json = widgets;
  })
  child_from_json (group_json name missing) = group (or_else name "") nil
  child_from_json (group_json name (given js)) = group (or_else name "") (children_from_json js)

  pub children_from_json : {C : Type 0} → ChildrenJson C → Children C
  children_from_json nil_json = nil
  children_from_json (cons_json j js) = cons (child_from_json j) (children_from_json js)

-- `getPanelsRec`
unfoldable mutual
  pub child_panels : {C : Type 0} → Child C → List (Panel C)
  child_panels (panel p) = p ∷ []
  child_panels (group name cs) = get_panels_rec cs

  pub get_panels_rec : {C : Type 0} → Children C → List (Panel C)
  get_panels_rec nil = []
  get_panels_rec (cons c cs) = child_panels c ++ get_panels_rec cs

module _ {C : Type 0} where
  -- Whether a panel has stored a widget with this id.
  unfoldable pub has_id : String → List (WidgetJson C) → Bool
  has_id id [] = false
  has_id id (j ∷ js) = elim j.id [ none ↦ false | some i ↦ str_eq i id ] || has_id id js

  unfoldable pub id_exists : String → List (Panel C) → Bool
  unfolding has_id
  id_exists id [] = false
  id_exists id (p ∷ ps) =
      elim p.widgets_json [ none ↦ false | some js ↦ has_id id js ] || id_exists id ps

  -- `_makeWidgetId`, with the ids that `generate` makes one after the other.
  unfoldable pub make_widget_id : List String → List (Panel C) → Option String
  unfolding id_exists
  make_widget_id [] panels = none
  make_widget_id (id ∷ ids) panels =
      let later = make_widget_id ids panels in if id_exists id panels then later else some id
