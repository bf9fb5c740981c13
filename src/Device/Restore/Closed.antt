-- ===== src/Device/Restore/Closed.antt =====
-- What follows when the form is closed while a backup is restored.
use qtoggleserver.Base.{◌≡◌, Bool, true, List, [], ◌++◌, String}
use qtoggleserver.Auth.{Auth}
use qtoggleserver.Api.Calls.{Api}
use qtoggleserver.Device.Provisioning.{EndpointData, Endpoint}
use qtoggleserver.Device.Operation.{Turn}
use qtoggleserver.Device.Restore.{ErrorParams, Form, Act, get_device_name, restore_all}

module _ {A E : Type 0}
    (filter_object : (String → A → Bool) → List (String × A) → List (String × A))
    (text_of : A → String) (errors : ErrorParams A E) (auth : Auth) (turn : Endpoint → Turn A E)
    (content : List (String × EndpointData A)) where
  -- A chain that does nothing.
  record Idle (f : Form A E) (r : List (Act A) × (Bool × (Form A E × Api))) : Type 0 where
    silent : r.0 ≡ []
    fulfilled : r.1.0 ≡ true
    named : get_device_name r.1.1.0 ≡ get_device_name f

  -- What a chain does whose first part did `r`.
  abbrev goes_on_with :
      List Endpoint
      → List (Act A) × (Bool × (Form A E × Api))
      → List (Act A) × (Bool × (Form A E × Api))
  goes_on_with xs r =
      let q = restore_all filter_object text_of errors auth turn xs content r.1.1 in
      (r.0 ++ q.0, q.1)
