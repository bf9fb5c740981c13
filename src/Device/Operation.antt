-- ===== src/Device/Operation.antt =====
-- What the forms of qtoggleserver/frontend/js/common/backup-form.js and restore-form.js share: the
-- check fields of endpoints and the requests for a device. A form sets an error that is thrown for
-- a field on that field, as forms of the qui package do. `E` stands for errors.
pub mod Skip
use qtoggleserver.Base.{
  Bool, true, false, not, ◌&&◌, ◌||◌, Option, none, some, List, [], ◌∷◌, if◌then◌else◌, String,
}
use text.Mathlib.Text.{◌==◌ as str_eq}
use qtoggleserver.Device.Provisioning.{Endpoint, EndpointData, get_name}

-- The state of a check field.
pub data Status (E : Type 0) : Type 0 where
  blank in_progress applied skipped : Status E
  failed : E → Status E

-- What becomes of a request.
pub data Answer (A E : Type 0) : Type 0 where
  answers : EndpointData A → Answer A E
  fails : E → Answer A E

-- What an endpoint meets when its turn comes: whether the form was closed since the turn before, the
-- name of the main device and the answer of the device.
pub record Turn (A E : Type 0) : Type 0 where
  pub is_closed : Bool
  pub main_name : String
  pub answer : Answer A E

module _ {E : Type 0} where
  -- `!field.isApplied() && !field.hasError()`
  unfoldable pub is_open : Status E → Bool
  is_open blank = true
  is_open in_progress = true
  is_open applied = false
  is_open skipped = true
  is_open (failed e) = false

  unfoldable pub set_status : String → Status E → (String → Status E) → String → Status E
  set_status name x f n = if str_eq name n then x else f n

  -- The endpoints that are left are marked as skipped.
  unfoldable pub skip_rest :
      (String → Bool) → List Endpoint → (String → Status E) → String → Status E
  unfolding is_open set_status
  skip_rest is_checked [] f = f
  skip_rest is_checked (e ∷ es) f = skip_rest is_checked es (
      if is_open (f (get_name e)) && is_checked (get_name e)
      then set_status (get_name e) skipped f
      else f)
