-- ===== src/Device/Restore/Tests.antt =====
-- Runs of the restore form, and its theorems at concrete inputs.
use qtoggleserver.Base.{
  ◌≡◌, refl, Bool, true, false, none, some, List, [], ◌∷◌, String, if◌then◌else◌, map,
}
use text.Mathlib.Text.{◌==◌ as str_eq}
use qtoggleserver.Samples.{filter_object}
use qtoggleserver.Auth.{fresh}
use qtoggleserver.Api.Calls.{Api}
use qtoggleserver.Device.Provisioning.{
  prepare_restore_data, get_backup_endpoints, slaves_backup_endpoint, EndpointData, fields, items,
  Endpoint, get_name, device_backup_endpoint, ports_backup_endpoint, webhooks_backup_endpoint,
}
use qtoggleserver.Device.Operation.{blank, applied, failed, skipped, Turn, answers, fails, is_open}
use qtoggleserver.Device.Operation.Skip.{Named}
use qtoggleserver.Device.Restore.{
  ErrorParams, catch_throws, Form, apply_data, selected, file_selected, file_read,
}
use qtoggleserver.Device.Restore.Fate.{fate}
use qtoggleserver.Device.Restore.Every.{restore_fates}

abbrev no_slave : Api
no_slave = record { slave_name = none; api_url_prefix = "/api" }

abbrev system : Endpoint
system = record ports_backup_endpoint { path = "/system/configuration"; display_name = "System" }

system-name : get_name system ≡ "system_configuration"
unfolding get_name
system-name = refl

-- The endpoints of a device with backups that has slave devices, before they are sorted.
endpoints_lem :
    (get_backup_endpoints {D = String} (λ es. es) "hub" ("backup" ∷ "master" ∷ []) no_slave).1.1 (
      record {
        path = "/system/configuration";
        display_name = "System";
        order = 20;
        restore_method = none;
      }
      ∷ [])
    ≡ device_backup_endpoint ∷ ports_backup_endpoint ∷ slaves_backup_endpoint ∷ system ∷ []
unfolding get_backup_endpoints
endpoints_lem = refl

abbrev content : List (String × EndpointData String)
content =
    ("device", fields (("name", "barn") ∷ ("wifi_key", "secret") ∷ []))
    ∷ ("ports", items ("lamp" ∷ []))
    ∷ ("webhooks", fields [])
    ∷ []

abbrev form : Form String String
form = record {
  device_name = "hall";
  new_device_name = none;
  backup_endpoints =
      device_backup_endpoint ∷ ports_backup_endpoint ∷ webhooks_backup_endpoint ∷ system ∷ [];
  running = false;
  content = some content;
  supplied_names = "device" ∷ "ports" ∷ "webhooks" ∷ [];
  has_error = false;
  can_restore = true;
  status = λ n. blank;
}

-- The file has data for three of the four endpoints.
file_lem :
    (file_read (some content) (file_selected form)).supplied_names
    ≡ "device" ∷ "ports" ∷ "webhooks" ∷ []
unfolding file_read file_selected
file_lem = refl

abbrev same_text : String → String
same_text t = t

-- Only the error "no such port" names a port.
abbrev errors : ErrorParams String String
errors = record {
  names_device = λ x. false;
  names_port = λ x. str_eq x "no such port";
  is_null_value = λ a. str_eq a "null";
}

abbrev all_checked : String → Bool
all_checked n = true

-- The request for ports fails.
abbrev turn : Endpoint → Turn String String
turn e = record {
  is_closed = false;
  main_name = "hub";
  answer = if str_eq e.path "/ports" then fails "no such port" else answers (items []);
}

-- The form is closed while the device is restored.
abbrev closed_turn : Endpoint → Turn String String
closed_turn e = record (turn e) { is_closed = str_eq e.path "/ports" }

form-Named : Named (selected all_checked form)
unfolding Named selected
form-Named = ((refl, (refl, tt)), ((refl, tt), (tt, tt)))

restore_fates_example :
    let (acts, (g, u)) =
      apply_data filter_object same_text errors
        (fresh none none)
        turn
        all_checked
        true
        content
        (form, no_slave) in
    map (λ e. g.status (get_name e)) (selected all_checked form)
    ≡ applied ∷ failed "no such port" ∷ skipped ∷ []
unfolding fate selected prepare_restore_data catch_throws
restore_fates_example =
    restore_fates filter_object same_text errors (fresh none none) turn content (λ e. refl)
      all_checked form no_slave true (λ n. unfold is_open in refl) form-Named
