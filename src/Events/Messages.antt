-- ===== src/Events/Messages.antt =====
-- `showMessageFromEvents` of qtoggleserver/frontend/js/events.js. The functions `filter_object`,
-- `find_value` and `distinct` are those of `ObjectUtils` and `ArrayUtils` of the qui package.
pub mod Grouped
use qtoggleserver.Base.{
  ℕ, Bool, true, false, not, ◌&&◌, ◌||◌, Option, none, some, List, [], ◌∷◌, length, ◌==◌,
  if◌then◌else◌, String, filter, get_value,
}
use Prim.Native.String.{◌++◌ as glue}
use text.Mathlib.Text.{◌==◌ as str_eq, starts_with}
use qtoggleserver.Cache.{slave_device_update, slave_device_add, slave_device_remove}
use qtoggleserver.Cache.Ports.{Port, value_change, port_update, port_add, port_remove}
use qtoggleserver.Cache.State.{
  State, slave_device_event, port_event, device_update, full_update, other_event,
}
use qtoggleserver.Events.Attributes.{
  Device, ServerEvent, Message, labelled, counted, info, is_expected_update, updated_port, added_id,
  removed_id, same_id, same_device, flag, label, has_changed, device_update_message,
  ignore_change_port_attrs,
}

-- What the messages use of JavaScript, of the qui package and of the configuration.
pub record Env (M W V : Type 0) : Type 0 where
  pub is_true : W → Bool
  pub deep_equals : W → W → Bool
  pub text_of : W → String
  pub wrap_label : String → String
  pub filter_object : (String → W → Bool) → List (String × W) → List (String × W)
  pub slaves_enabled : Bool
  pub find_value : (String → Bool) → List (String × Device W) → Option (Device W)
  pub distinct :
      (ServerEvent M W V → ServerEvent M W V → Bool)
      → List (ServerEvent M W V)
      → List (ServerEvent M W V)

module _ {M W V : Type 0} (env : Env M W V) where
  -- `Cache.findPortSlaveDevice`
  unfoldable pub find_port_slave_device :
      String → Option (List (String × Device W)) → Option (Device W)
  find_port_slave_device id devices = elim devices [
    | none ↦ none
    | some o ↦
        if env.slaves_enabled then env.find_value (λ n. starts_with id (glue n ".")) o else none
  ]

  -- A port that comes online or goes offline, and belongs to the given device.
  unfoldable pub goes :
      Bool
      → Option (Device W)
      → Option (List (String × Device W))
      → List (String × Port (List (String × W)) V)
      → ServerEvent M W V
      → Bool
  unfolding updated_port find_port_slave_device same_device flag
  goes online device devices ports e = elim (updated_port e) [
    | none ↦ false
    | some q ↦ elim (get_value str_eq q.id ports) [
      | none ↦ false
      | some p ↦
          same_device (find_port_slave_device p.id devices) device
          && (if online
              then not (flag env.is_true "online" p.attrs) && flag env.is_true "online" q.attrs
              else flag env.is_true "online" p.attrs && not (flag env.is_true "online" q.attrs))
    ]
  ]

  -- A port that is added or removed, by its id, and belongs to the given device.
  unfoldable pub belongs :
      Option (Device W) → Option (List (String × Device W)) → Option String → Bool
  unfolding find_port_slave_device same_device
  belongs device devices id = elim id [
    | none ↦ false
    | some k ↦ same_device (find_port_slave_device k devices) device
  ]

  -- `ArrayUtils.distinct(messagesEvents.filter(…), …).length`
  unfoldable pub group_size : (ServerEvent M W V → Bool) → List (ServerEvent M W V) → ℕ
  unfolding same_id
  group_size f events = length (env.distinct same_id (filter f events))

  -- The text for one port or for several.
  unfoldable pub grouped : ℕ → String → String → String → Message
  grouped n one many name =
      if n == 1
      then record { text = one; subject = labelled name; type = "info" }
      else record { text = many; subject = counted n; type = "info" }

  -- A `port-update` event, for the port that the cache has.
  unfoldable pub port_update_message :
      List (ServerEvent M W V)
      → Option (List (String × Device W))
      → List (String × Port (List (String × W)) V)
      → Port (List (String × W)) V
      → Port (List (String × W)) V
      → Option Message
  unfolding goes group_size grouped find_port_slave_device flag label has_changed
  port_update_message events devices ports p q =
      let device = find_port_slave_device p.id devices in
      let name = label env.is_true env.text_of env.wrap_label q.attrs q.id in
      if not
        (has_changed env.deep_equals env.filter_object ignore_change_port_attrs q.attrs p.attrs)
      then none
      else if elim device [
        | none ↦ false
        | some d ↦
            not (flag env.is_true "listen_enabled" d.props)
            && not (flag env.is_true "poll_enabled" d.props)
      ]
      then none
      else if not (flag env.is_true "enabled" p.attrs) && flag env.is_true "enabled" q.attrs
      then info "Port %(port)s has been enabled." (labelled name)
      else if flag env.is_true "enabled" p.attrs && not (flag env.is_true "enabled" q.attrs)
      then info "Port %(port)s has been disabled." (labelled name)
      else if not (flag env.is_true "online" p.attrs) && flag env.is_true "online" q.attrs
      then some (
          grouped (group_size (goes true device devices ports) events)
            "Port %(port)s is now online." "%(count)d ports are now online." name)
      else if flag env.is_true "online" p.attrs && not (flag env.is_true "online" q.attrs)
      then some
          (record (grouped (group_size (goes false device devices ports) events)
            "Port %(port)s is offline." "%(count)d ports are offline." name) { type = "warning" })
      else none

  -- One event: an exception, when ports or devices are not loaded; no message; or a message.
  unfoldable pub event_message :
      List (ServerEvent M W V)
      → State M (Device W) (List (String × W)) V
      → ServerEvent M W V
      → Option (Option Message)
  unfolding device_update_message port_update_message belongs group_size grouped added_id removed_id
  event_message events s e = elim e.content [
    | slave_device_event d ↦ elim d [
      | slave_device_update new ↦ elim s.slave_devices [
        | none ↦ none
        | some o ↦ some (elim (get_value str_eq new.name o) [
          | none ↦ none
          | some old ↦
              device_update_message env.is_true env.deep_equals env.text_of env.wrap_label
                env.filter_object old new
        ])
      ]
      | slave_device_add new ↦ some (
          info "Device %(device)s has been added."
            (labelled (label env.is_true env.text_of env.wrap_label new.attrs new.name)))
      | slave_device_remove k ↦ elim s.slave_devices [
        | none ↦ none
        | some o ↦ some (elim (get_value str_eq k o) [
          | none ↦ none
          | some old ↦
              info "Device %(device)s has been removed."
                (labelled (label env.is_true env.text_of env.wrap_label old.attrs old.name))
        ])
      ]
    ]
    | port_event d ↦ elim d [
      | value_change k v ↦ some none
      | port_update q ↦ elim s.all_ports [
        | none ↦ none
        | some ports ↦ some (elim (get_value str_eq q.id ports) [
          | none ↦ none
          | some p ↦ port_update_message events s.slave_devices ports p q
        ])
      ]
      | port_add q ↦
          let device = find_port_slave_device q.id s.slave_devices in
          some (
            some (
              grouped (group_size (λ f. belongs device s.slave_devices (added_id f)) events)
                "Port %(port)s has been added." "%(count)d ports have been added."
                (label env.is_true env.text_of env.wrap_label q.attrs q.id)))
      | port_remove k ↦ elim s.all_ports [
        | none ↦ none
        | some ports ↦ some (elim (get_value str_eq k ports) [
          | none ↦ none
          | some p ↦
              let device = find_port_slave_device p.id s.slave_devices in
              some (
                grouped (group_size (λ f. belongs device s.slave_devices (removed_id f)) events)
                  "Port %(port)s has been removed." "%(count)d ports have been removed."
                  (label env.is_true env.text_of env.wrap_label p.attrs p.id))
        ])
      ]
    ]
    | device_update m ↦ some none
    | full_update ↦ some none
    | other_event ↦ some none
  ]

  -- The loop over the events `rest`, with the message so far: the last message is shown.
  unfoldable pub message_loop :
      List (ServerEvent M W V)
      → State M (Device W) (List (String × W)) V
      → List (ServerEvent M W V)
      → Option Message
      → Option (Option Message)
  unfolding event_message
  message_loop events s [] message = some message
  message_loop events s (e ∷ rest) message = elim (event_message events s e) [
    | none ↦ none
    | some none ↦ message_loop events s rest message
    | some (some m) ↦ message_loop events s rest (some m)
  ]

  -- `showMessageFromEvents`: an exception, or the message that is shown.
  unfoldable pub show_message_from_events :
      List (ServerEvent M W V) → State M (Device W) (List (String × W)) V → Option (Option Message)
  unfolding message_loop is_expected_update
  show_message_from_events events s =
      let messages_events = filter (λ e. not (is_expected_update e)) events in
      message_loop messages_events s messages_events none
