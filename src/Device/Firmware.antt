-- ===== src/Device/Firmware.antt =====
-- `UpdateFirmwareForm` of qtoggleserver/frontend/js/common/update-firmware-form.js: `validate`,
-- `applyData`, `fetchAndUpdate` and `poll`. The answers of the device come one after the other, as
-- they do when each poll ends before the next one begins.
pub mod Poll
use qtoggleserver.Base.{
  ℕ, zero, suc, ◌+◌, ◌≡◌, refl, sym, ◌∙◌, Bool, true, false, not, ◌&&◌, ◌||◌, Option, none, some,
  List, [], ◌∷◌, arith, if◌then◌else◌, String, Bool-cases,
}
use text.Mathlib.Text.{◌==◌ as str_eq}

-- What `GET /firmware` tells as status.
pub data DeviceStatus : Type 0 where
  idle checking downloading validating extracting flashing restarting error : DeviceStatus

-- What the form shows as status.
pub data Status : Type 0 where
  uptodate updatable not_available : Status
  device : DeviceStatus → Status

-- The answer of the device; texts that are missing are `none`.
pub record FwInfo : Type 0 where
  pub version : String
  pub latest_version : Option String
  pub status : DeviceStatus

pub record Form : Type 0 where
  pub is_slave : Bool
  pub update_running : Bool
  pub update_finished : Bool
  pub close_enabled : Bool
  pub modal : Bool
  pub status : Status
  pub current_version : Option String
  pub latest_version : Option String

-- `fwInfo.version === fwInfo.latest_version`
abbrev pub same_version : String → Option String → Bool
same_version v none = false
same_version v (some w) = str_eq v w

-- The text is there and not empty.
abbrev pub is_given : Option String → Bool
is_given none = false
is_given (some t) = not (str_eq t "")

unfoldable pub shown_status : FwInfo → Status
shown_status i = elim i.status [
  | idle ↦
      if same_version i.version i.latest_version
      then uptodate
      else if is_given i.latest_version
      then updatable
      else not_available
  | s ↦ device s
]

-- Whether the device is still busy.
abbrev pub is_running : DeviceStatus → Bool
is_running idle = false
is_running error = false
is_running _ = true

abbrev pub is_idle : DeviceStatus → Bool
is_idle idle = true
is_idle _ = false

-- `fetchAndUpdate`, with its result.
unfoldable pub fetch_and_update : FwInfo → Form → Bool × Form
unfolding shown_status
fetch_and_update i f = (
  is_running i.status,
  record f {
    update_running = is_running i.status && f.update_running;
    update_finished = f.update_finished || (is_idle i.status && f.update_running);
    current_version = some i.version;
    latest_version = i.latest_version;
    status = shown_status i;
  },
)

-- One round of `poll`; `none` is an error. The result tells whether another round follows.
unfoldable pub poll_once : Option FwInfo → Form → Bool × Form
unfolding fetch_and_update
poll_once answer f =
    let (running, g) = elim answer as (λ a. Bool × Form) [
      | none ↦ (true, record f { status = device restarting })
      | some i ↦ fetch_and_update i f
    ] in
    (running, if running then g else if g.is_slave then g else record g { close_enabled = true })

-- `poll`, with the answers to come: whether it goes on after them, and the form.
unfoldable pub poll : List (Option FwInfo) → Form → Bool × Form
poll [] f = (true, f)
poll (answer ∷ rest) f =
    let later = poll rest (poll_once answer f).1 in
    if (poll_once answer f).0 then later else poll_once answer f

-- What the user gives.
pub record Data : Type 0 where
  pub advanced : Bool
  pub url : Option String
  pub version : Option String

abbrev pub can_update : Status → Bool
can_update updatable = true
can_update (device error) = true
can_update _ = false

-- `validate`: whether it throws nothing.
unfoldable pub validate : Data → Form → Bool
validate d f =
    if d.advanced
    then (is_given d.url || is_given d.version) && not (is_given d.url && is_given d.version)
    else can_update f.status && is_given f.latest_version

-- The version and the URL that `applyData` passes to `patchFirmware`.
unfoldable pub request : Data → Form → Option String × Option String
request d f =
    if d.advanced
    then (if is_given d.url then (none, d.url) else (d.version, none))
    else (f.latest_version, none)

-- `applyData` up to `poll`, by whether `patchFirmware` succeeds.
unfoldable pub apply_data : Bool → Form → Form
apply_data patched f =
    if patched
    then (if f.is_slave
        then record f { update_running = true }
        else record f { update_running = true; modal = true; close_enabled = false })
    else f
