-- ===== src/Device/Tests.antt =====
-- Runs of the operations on a device, and their theorems at concrete inputs.
use qtoggleserver.Base.{◌≡◌, refl, true, false, none, some, [], ◌∷◌}
use qtoggleserver.Device.Wait.{
  Wait, wait_online, wait_offline, fulfill_online, cancel_all, calls, slot, waited, calls-slot,
  created, IsSingle,
}
use qtoggleserver.Device.Firmware.{FwInfo, Form, flashing, idle, updatable, poll}
use qtoggleserver.Device.Firmware.Poll.{settled, Leaves, poll_lem}

abbrev at_ease : Wait
at_ease = record { when_device_online = none; when_device_offline = none }

-- The second call fails its assertion.
calls_twice :
    calls (wait_offline 1 ∷ wait_online 2 ∷ []) at_ease
    ≡ (created 1 ∷ [], record { when_device_online = none; when_device_offline = some 1 })
unfolding calls
calls_twice = refl

calls-slot_example :
    slot
      (calls (wait_online 1 ∷ fulfill_online ∷ wait_offline 2 ∷ cancel_all ∷ []) at_ease).0
      (waited at_ease)
    ≡ some (
        waited
          (calls (wait_online 1 ∷ fulfill_online ∷ wait_offline 2 ∷ cancel_all ∷ []) at_ease).1)
unfolding IsSingle
calls-slot_example =
    calls-slot (wait_online 1 ∷ fulfill_online ∷ wait_offline 2 ∷ cancel_all ∷ []) at_ease refl

abbrev form : Form
form = record {
  is_slave = false;
  update_running = false;
  update_finished = false;
  close_enabled = true;
  modal = false;
  status = updatable;
  current_version = some "1.0";
  latest_version = some "1.1";
}

abbrev busy : FwInfo
busy = record { version = "1.0"; latest_version = some "1.1"; status = flashing }

abbrev updated : FwInfo
updated = record { version = "1.1"; latest_version = some "1.1"; status = idle }

poll_example :
    Leaves true true false
      (settled (some busy ∷ none ∷ some updated ∷ []))
      (poll (some busy ∷ none ∷ some updated ∷ []) (record form { update_running = true }))
poll_example =
    poll_lem (some busy ∷ none ∷ some updated ∷ []) (record form { update_running = true })
