-- ===== src/Api/Ports/Tests.antt =====
-- The setting of a port's value at a concrete input.
use qtoggleserver.Base.{◌≡◌, refl, Bool, true, false, none, some, [], ◌∷◌, String}
use text.Mathlib.Text.{◌==◌ as str_eq}
use qtoggleserver.Samples.{filter_object, filter_object-Filters, find_first, find_first-Finds}
use qtoggleserver.Notifications.Expected.{Event, Expected, handle_server_event}
use qtoggleserver.Notifications.Expected.Handles.{IsNumbered}
use qtoggleserver.Notifications.Expected.Keys.{Keys, Distinct}
use qtoggleserver.Notifications.Expected.Match.{Has}
use qtoggleserver.Cache.Ports.{Port}
use qtoggleserver.Api.Calls.{Api}
use qtoggleserver.Api.Ports.{full_id, sent_value, is_known, patch_port_value}
use qtoggleserver.Api.Ports.Expects.{expects_value}

abbrev same_text : String → String
same_text t = t

abbrev is_number : String → Bool
is_number t = str_eq t "number"

abbrev round_up : String → String
round_up v = "3"

abbrev slave : Api
slave = record { slave_name = some "hall"; api_url_prefix = "/api" }

abbrev dimmer : Port String String
dimmer = record { id = "hall.dimmer"; value = some "2"; last_sync = none; attrs = "number" }

abbrev nothing : Expected String
nothing = record { specs = []; last_handle = 0 }

nothing-IsNumbered : IsNumbered nothing
unfolding IsNumbered Keys Distinct
nothing-IsNumbered = (tt, tt)

abbrev change : Event String
change = record {
  type = "value-change";
  params = ("id", "hall.dimmer") ∷ ("value", "3") ∷ [];
  session_id = none;
  expected = false;
  fake = false;
}

expects_value_example :
    let (call, r) =
      patch_port_value same_text slave 50 str_eq is_number round_up
        (some dimmer)
        "dimmer"
        "2.99"
        none
        (some 900)
        nothing in
    (handle_server_event str_eq filter_object find_first {C = String} change ("list" ∷ []) r).0
    ≡ ("list", record change { expected = true }) ∷ []
unfolding full_id sent_value is_known Has
expects_value_example =
    expects_value str_eq filter_object filter_object-Filters find_first find_first-Finds same_text
      slave 50 is_number round_up (some dimmer) "dimmer" "2.99" none (some 900) change ("list" ∷ [])
      nothing nothing-IsNumbered refl refl ("hall.dimmer", refl, refl) ("3", refl, refl)
