-- ===== src/Dashboard/Stored/Widgets.antt =====
-- Widgets are stored and made again.

use mathlib.Core.Bool.{false≢true}
use qtoggleserver.Base.{
  ℕ, ◌≡◌, refl, sym, ap, ◌∙◌, ◌⊎◌, inl, inr, Bool, true, false, Option, none, some, List, [], ◌∷◌,
  if◌then◌else◌, String, arith, All, Bool-cases,
}
use qtoggleserver.Dashboard.Stored.{
  Class, Widget, Panel, or_else, widget_to_json, make_widget, widgets_to_json, widgets_from_json,
  widget_from_json, panel_widgets_json, save_panel, init_widgets, id_exists, make_widget_id,
}

-- Some element satisfies the predicate.
abbrev pub Any {ℓ} : {A : Type ℓ} → (A → Type 0) → List A → Type 0
Any P [] = ⊥
Any P (x ∷ xs) = P x ⊎ Any P xs

-- A size that can be changed is stored, and one that cannot is that of the class.
kept :
    (resizable : Bool) (size default : ℕ)
    → (resizable ≡ false → size ≡ default)
    → (if resizable then or_else (if resizable then some size else none) default else default)
      ≡ size
kept true size default h = refl
kept false size default h = sym (h refl)

later : {Q : Type 0} {b : Bool} → (b ≡ false) ⊎ Q → b ≡ true → Q
later (inl e) h = absurd (false≢true (sym e ∙ h))
later (inr q) h = q

module _ {C : Type 0} where
  -- The widget has an id, its class is the one that is found by the name of its type, it has the
  -- class's width or height where it cannot be resized, and its class restores its configuration,
  -- from the JSON that it makes of it, in a new widget.
  pub record IsStorable (find : String → Option (Class C)) (w : Widget C) : Type 0 where
    pub has_an_id : (id : String) × (w.id ≡ some id)
    pub registered : find w.class.type_name ≡ some w.class
    pub own_width : w.class.h_resizable ≡ false → w.width ≡ w.class.width
    pub own_height : w.class.v_resizable ≡ false → w.height ≡ w.class.height
    pub restorable :
        w.class.config_from_json (w.class.config_to_json w.config) w.class.config ≡ some w.config

  module _ (find : String → Option (Class C)) (place : ℕ × ℕ) (id : String) where
    make-widget_to_json :
        (w : Widget C)
        → IsStorable find w
        → make_widget place id w.class (widget_to_json w) ≡ some w
    unfolding make_widget widget_to_json
    make-widget_to_json w s =
        rw (make_widget, widget_from_json, widget_to_json, s.restorable)
          (ap some (
            ground (
              arith,
              s.has_an_id.1,
              kept w.class.h_resizable w.width w.class.width s.own_width,
              kept w.class.v_resizable w.height w.class.height s.own_height,
            )))

    -- The widgets of a panel are made again from their JSON, each as it was and in their order,
    -- when each has an id, a class that is registered and that restores its configuration, and the
    -- size of that class where it cannot be resized.
    pub widgets_round_trip :
        (ws : List (Widget C))
        → All (IsStorable find) ws
        → widgets_from_json find place id (widgets_to_json ws) ≡ ws
    unfolding widgets_from_json widgets_to_json
    widgets_round_trip [] s = refl
    widgets_round_trip (w ∷ ws) s =
        rw (s.0.registered, make-widget_to_json w s.0)
          (ap (λ (vs : List (Widget C)). w ∷ vs) (widgets_round_trip ws s.1))

    -- A panel that is saved and shown again has the same widgets, when they can be restored.
    pub show-save_panel :
        (p : Panel C) (ws : List (Widget C))
        → p.widgets ≡ some ws
        → All (IsStorable find) ws
        → (init_widgets find place id (record (save_panel p) { widgets = none })).widgets ≡ some ws
    unfolding init_widgets save_panel panel_widgets_json
    show-save_panel p ws e s = rw e (ap some (widgets_round_trip ws s))

  -- `_makeWidgetId` ends as soon as an id is made that no panel has stored, and returns such an id.
  pub make_widget_id_total :
      (ids : List String) (panels : List (Panel C))
      → Any (λ id. id_exists id panels ≡ false) ids
      → (id : String) × (make_widget_id ids panels ≡ some id) × (id_exists id panels ≡ false)
  unfolding make_widget_id
  make_widget_id_total [] panels a = absurd a
  make_widget_id_total (i ∷ ids) panels a = elim (Bool-cases (id_exists i panels)) [
    | inr h ↦ (i, rw h refl, h)
    | inl h ↦ rw h (make_widget_id_total ids panels (later a h))
  ]
