-- ===== src/Dashboard/Stored/Trees.antt =====
-- Groups and panels are stored and loaded.
use qtoggleserver.Base.{◌≡◌, refl, sym, ap, ◌∙◌, none, some, ◌++◌, map}
use mathlib.Core.Path.{ap₂}
use mathlib.Core.List.{map-append}
use qtoggleserver.Dashboard.Stored.{
  Panel, Child, Children, panel, group, nil, cons, group_json, given, cons_json, panel_widgets_json,
  child_to_json, children_to_json, child_from_json, children_from_json, child_panels,
  get_panels_rec,
}

-- A panel that is loaded and has not been shown.
unfoldable pub loaded : {C : Type 0} → Panel C → Panel C
loaded p = record p { widgets = none; widgets_json = panel_widgets_json p }

unfoldable mutual
  pub child_loaded : {C : Type 0} → Child C → Child C
  child_loaded (panel p) = panel (loaded p)
  child_loaded (group name cs) = group name (children_loaded cs)

  pub children_loaded : {C : Type 0} → Children C → Children C
  children_loaded nil = nil
  children_loaded (cons c cs) = cons (child_loaded c) (children_loaded cs)

mutual
  unfolding child_to_json child_from_json child_loaded loaded

  child_from-to_json :
      {C : Type 0} (c : Child C) → child_from_json (child_to_json c) ≡ child_loaded c
  child_from-to_json (panel p) = refl
  child_from-to_json (group name cs) = ap (group name) (children_from-to_json cs)

  children_from-to_json :
      {C : Type 0} (cs : Children C) → children_from_json (children_to_json cs) ≡ children_loaded cs
  children_from-to_json nil = refl
  children_from-to_json (cons c cs) = ap₂ cons (child_from-to_json c) (children_from-to_json cs)

mutual
  unfolding child_to_json child_loaded loaded panel_widgets_json

  child_to_json-loaded :
      {C : Type 0} (c : Child C) → child_to_json (child_loaded c) ≡ child_to_json c
  child_to_json-loaded (panel p) = refl
  child_to_json-loaded (group name cs) =
      ap (λ js. group_json (some name) (given js)) (children_to_json-loaded cs)

  children_to_json-loaded :
      {C : Type 0} (cs : Children C) → children_to_json (children_loaded cs) ≡ children_to_json cs
  children_to_json-loaded nil = refl
  children_to_json-loaded (cons c cs) =
      ap₂ cons_json (child_to_json-loaded c) (children_to_json-loaded cs)

mutual
  unfolding child_loaded child_panels

  child_panels-loaded :
      {C : Type 0} (c : Child C) → child_panels (child_loaded c) ≡ map loaded (child_panels c)
  child_panels-loaded (panel p) = refl
  child_panels-loaded (group name cs) = get_panels_rec-loaded cs

  get_panels_rec-loaded :
      {C : Type 0} (cs : Children C)
      → get_panels_rec (children_loaded cs) ≡ map loaded (get_panels_rec cs)
  get_panels_rec-loaded nil = refl
  get_panels_rec-loaded (cons c cs) =
      ap₂ (λ xs ys. xs ++ ys) (child_panels-loaded c) (get_panels_rec-loaded cs)
      ∙ sym (map-append loaded (child_panels c) (get_panels_rec cs))

-- A tree of groups and panels that is stored and loaded has the same groups and the same panels
-- in the same places, with the widgets of each panel in their stored form; and it is stored again
-- just as it was.
pub stored_tree_round_trip :
    {C : Type 0} (cs : Children C)
    → let loaded_tree = children_from_json (children_to_json cs) in
      (loaded_tree ≡ children_loaded cs)
      × (get_panels_rec loaded_tree ≡ map loaded (get_panels_rec cs))
      × (children_to_json loaded_tree ≡ children_to_json cs)
stored_tree_round_trip cs =
    rw (children_from-to_json cs) (refl, get_panels_rec-loaded cs, children_to_json-loaded cs)
