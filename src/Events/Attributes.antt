-- ===== src/Events/Attributes.antt =====
-- The events of qtoggleserver/frontend/js/events.js and the attributes that their messages are about.
-- The attributes of ports and devices are lists of keys and values `W`: `is_true` tells whether a
-- value counts as true, `deep_equals` is `ObjectUtils.deepEquals`, `text_of` the text of a display
-- name and `wrap_label` its mark-up. `filter_object` is `ObjectUtils.filter` of the qui package. A
-- message is a text to be translated, with what is put into it.
use qtoggleserver.Base.{
  ℕ, Bool, true, false, not, ◌&&◌, ◌||◌, Option, none, some, List, [], ◌∷◌, length, ltb,
  if◌then◌else◌, String, get_value,
}
use text.Mathlib.Text.{◌==◌ as str_eq}
use qtoggleserver.Cache.{slave_device_update, slave_device_add, slave_device_remove}
use qtoggleserver.Cache.Ports.{Port, value_change, port_update, port_add, port_remove}
use qtoggleserver.Cache.State.{
  CacheEvent, slave_device_event, port_event, device_update, full_update, other_event,
}

-- A slave device: its name, its other attributes, and those of the device itself.
pub record Device (W : Type 0) : Type 0 where
  pub name : String
  pub props : List (String × W)
  pub attrs : List (String × W)

-- A server event with what its `params` hold, and whether it was expected.
pub record ServerEvent (M W V : Type 0) : Type 0 where
  pub expected : Bool
  pub content : CacheEvent M (Device W) (List (String × W)) V

pub data Subject : Type 0 where
  labelled : String → Subject
  counted : ℕ → Subject

pub record Message : Type 0 where
  pub text : String
  pub subject : Subject
  pub type : String

abbrev pub info : String → Subject → Option Message
info text subject = some (record { text = text; subject = subject; type = "info" })

abbrev pub warning : String → Subject → Option Message
warning text subject = some (record { text = text; subject = subject; type = "warning" })

abbrev pub ignore_change_device_attrs : List String
ignore_change_device_attrs = "uptime" ∷ "date" ∷ "battery_level" ∷ []

abbrev pub ignore_change_slave_attrs : List String
ignore_change_slave_attrs = "last_sync" ∷ "attrs" ∷ []

abbrev pub ignore_change_port_attrs : List String
ignore_change_port_attrs = "last_sync" ∷ "value" ∷ []

abbrev pub includes : String → List String → Bool
includes k [] = false
includes k (l ∷ ls) = str_eq l k || includes k ls

module _ {M W V : Type 0} where
  -- Expected updates, which are left out.
  unfoldable pub is_expected_update : ServerEvent M W V → Bool
  is_expected_update e = e.expected && is_update e.content
    where
      is_update : CacheEvent M (Device W) (List (String × W)) V → Bool
      is_update (slave_device_event (slave_device_update d)) = true
      is_update (slave_device_event (slave_device_add d)) = false
      is_update (slave_device_event (slave_device_remove k)) = false
      is_update (port_event (value_change k v)) = false
      is_update (port_event (port_update p)) = true
      is_update (port_event (port_add p)) = false
      is_update (port_event (port_remove k)) = false
      is_update (device_update m) = true
      is_update full_update = false
      is_update other_event = false

  -- The ports with which `port-update`, `port-add` and `port-remove` events come, and their ids.
  unfoldable pub updated_port : ServerEvent M W V → Option (Port (List (String × W)) V)
  updated_port e = elim e.content [
    | port_event p ↦ elim p [ port_update q ↦ some q | _ ↦ none ]
    | _ ↦ none
  ]

  unfoldable pub added_id : ServerEvent M W V → Option String
  added_id e = elim e.content [
    | port_event p ↦ elim p [ port_add q ↦ some q.id | _ ↦ none ]
    | _ ↦ none
  ]

  unfoldable pub removed_id : ServerEvent M W V → Option String
  removed_id e = elim e.content [
    | port_event p ↦ elim p [ port_remove k ↦ some k | _ ↦ none ]
    | _ ↦ none
  ]

  -- `event.params.id` of an event about a port.
  unfoldable pub params_id : ServerEvent M W V → Option String
  params_id e = elim e.content [
    | port_event p ↦ elim p [
      | value_change k v ↦ some k
      | port_update q ↦ some q.id
      | port_add q ↦ some q.id
      | port_remove k ↦ some k
    ]
    | _ ↦ none
  ]

  unfoldable pub same_id : ServerEvent M W V → ServerEvent M W V → Bool
  unfolding params_id
  same_id e f = elim (params_id e) [
    | none ↦ false
    | some k ↦ elim (params_id f) [ none ↦ false | some l ↦ str_eq k l ]
  ]

-- Two devices of the cache are one object if they have one name.
unfoldable pub same_device : {W : Type 0} → Option (Device W) → Option (Device W) → Bool
same_device none none = true
same_device none (some d) = false
same_device (some c) none = false
same_device (some c) (some d) = str_eq c.name d.name

-- Whether an attribute is there and counts as true.
unfoldable pub flag : {W : Type 0} → (W → Bool) → String → List (String × W) → Bool
flag is_true k o = elim (get_value str_eq k o) [ none ↦ false | some w ↦ is_true w ]

-- `display_name || name`
unfoldable pub label :
    {W : Type 0}
    → (W → Bool)
    → (W → String)
    → (String → String)
    → List (String × W)
    → String
    → String
label is_true text_of wrap_label o name = elim (get_value str_eq "display_name" o) [
  | none ↦ wrap_label name
  | some w ↦ wrap_label (if is_true w then text_of w else name)
]

module _ {W : Type 0} (deep_equals : W → W → Bool)
    (filter_object : (String → W → Bool) → List (String × W) → List (String × W)) where
  -- Whether an attribute that is not ignored has another value than before.
  unfoldable pub has_changed : List String → List (String × W) → List (String × W) → Bool
  has_changed ignored new old = ltb 0 (
      length (
        filter_object
          (λ k w.
            not (elim (get_value str_eq k new) [ none ↦ false | some v ↦ deep_equals v w ])
            && not (includes k ignored))
          old))

module _ {W : Type 0} (is_true : W → Bool) (deep_equals : W → W → Bool) (text_of : W → String)
    (wrap_label : String → String)
    (filter_object : (String → W → Bool) → List (String × W) → List (String × W)) where
  -- A `slave-device-update` event, for the device that the cache has.
  unfoldable pub device_update_message : Device W → Device W → Option Message
  unfolding flag label has_changed
  device_update_message old d =
      if has_changed deep_equals filter_object ignore_change_slave_attrs d.props old.props
        || has_changed deep_equals filter_object ignore_change_device_attrs d.attrs old.attrs
      then (let subject = labelled (label is_true text_of wrap_label d.attrs d.name) in
          if not (flag is_true "enabled" old.props) && flag is_true "enabled" d.props
          then info "Device %(device)s has been enabled." subject
          else if flag is_true "enabled" old.props && not (flag is_true "enabled" d.props)
          then info "Device %(device)s has been disabled." subject
          else if not (flag is_true "online" old.props) && flag is_true "online" d.props
          then info "Device %(device)s is now online." subject
          else if flag is_true "online" old.props && not (flag is_true "online" d.props)
          then warning "Device %(device)s is offline." subject
          else none)
      else none
