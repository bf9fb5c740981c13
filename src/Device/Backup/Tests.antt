-- ===== src/Device/Backup/Tests.antt =====
-- The backup form's theorem at a concrete input.
use qtoggleserver.Base.{
  ◌≡◌, refl, Bool, true, false, none, some, [], ◌∷◌, String, map, if◌then◌else◌,
}
use text.Mathlib.Text.{◌==◌ as str_eq}
use qtoggleserver.Samples.{filter_object, filter_object-Filters}
use qtoggleserver.Auth.{fresh}
use qtoggleserver.Api.Calls.{Api}
use qtoggleserver.Device.Provisioning.{
  EndpointData, fields, items, Endpoint, device_backup_endpoint, ports_backup_endpoint,
}
use qtoggleserver.Device.Operation.{blank, Turn, answers}
use qtoggleserver.Device.Operation.Skip.{Named}
use qtoggleserver.Device.Backup.{Form, selected, apply_data}
use qtoggleserver.Device.Backup.Again.{less_excluded, downloaded, restored, backup_restore}

abbrev form : Form String
form = record {
  device_name = "hall";
  backup_endpoints = device_backup_endpoint ∷ ports_backup_endpoint ∷ [];
  running = false;
  status = λ n. blank;
}

abbrev data_of : Endpoint → EndpointData String
data_of e =
    if str_eq e.path "/ports"
    then items ("lamp" ∷ [])
    else fields (("name", "hall") ∷ ("wifi_key", "secret") ∷ [])

abbrev turn : Endpoint → Turn String String
turn e = record { is_closed = false; main_name = "hub"; answer = answers (data_of e) }

abbrev all_checked : String → Bool
all_checked n = true

abbrev no_slave : Api
no_slave = record { slave_name = none; api_url_prefix = "/api" }

form-Named : Named (selected all_checked form)
unfolding Named selected
form-Named = ((refl, tt), (tt, tt))

-- The key of the wireless network is left out.
backup_restore_example :
    let file =
      downloaded
        ((apply_data filter_object (fresh none none) turn all_checked (form, no_slave)).0) in
    map (λ e. restored filter_object e file) (selected all_checked form)
    ≡ some (fields (("name", "hall") ∷ [])) ∷ some (items ("lamp" ∷ [])) ∷ []
unfolding selected less_excluded
backup_restore_example =
    backup_restore filter_object filter_object-Filters data_of (fresh none none) turn (λ e. refl)
      (λ e. refl) all_checked form no_slave form-Named
