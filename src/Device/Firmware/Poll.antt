-- ===== src/Device/Firmware/Poll.antt =====
-- How an update of the firmware goes on and ends.
use mathlib.Core.Path.{subst, ap₂}
use qtoggleserver.Base.{
  ◌≡◌, refl, ◌⊎◌, inl, inr, Bool, true, false, not, ◌&&◌, ◌||◌, Option, none, some, List, [], ◌∷◌,
  arith, if◌then◌else◌, String, Bool-cases,
}
use qtoggleserver.Device.Firmware.{
  DeviceStatus, FwInfo, Form, Data, is_running, is_idle, is_given, device, restarting, poll_once,
  poll, validate, request, apply_data,
}

-- The first answer by which the device is not busy.
unfoldable pub settled : List (Option FwInfo) → Option DeviceStatus
settled [] = none
settled (none ∷ rest) = settled rest
settled (some i ∷ rest) =
    let later = settled rest in if is_running i.status then later else some i.status

-- What polling leaves of a form that can be closed if `closable` after an end and whose update is
-- `running` and `finished`, by the answer that it ends with, if there is one.
unfoldable pub Leaves : Bool → Bool → Bool → Option DeviceStatus → Bool × Form → Type 0
Leaves closable running finished none (going_on, g) =
    (going_on ≡ true) × (g.update_running ≡ running)
Leaves closable running finished (some s) (going_on, g) =
    (going_on ≡ false)
    × (g.close_enabled ≡ closable)
    × (g.update_running ≡ false)
    × (g.update_finished ≡ finished || (is_idle s && running))

failed : (f : Form) → poll_once none f ≡ (true, record f { status = device restarting })
unfolding poll_once
failed f = refl

module _ (i : FwInfo) (f : Form) where
  busy :
      is_running i.status ≡ true
      → ((poll_once (some i) f).0 ≡ true)
        × ((poll_once (some i) f).1.update_running ≡ f.update_running)
        × ((poll_once (some i) f).1.update_finished ≡ f.update_finished)
        × ((poll_once (some i) f).1.is_slave ≡ f.is_slave)
        × ((poll_once (some i) f).1.close_enabled ≡ f.close_enabled)
  unfolding poll_once
  busy e = ground arith

  at_rest :
      is_running i.status ≡ false
      → Leaves
          (not f.is_slave || f.close_enabled)
          f.update_running
          f.update_finished
          (some i.status)
          (false, (poll_once (some i) f).1)
        × ((poll_once (some i) f).0 ≡ false)
  unfolding poll_once Leaves
  at_rest e = ground arith

-- Polling goes on through errors and as long as the device is busy, for the main device and for
-- slave devices. It ends with the first answer that the device is idle or has failed: then the form
-- can be closed if it could be before or is that of the main device, the update runs no longer, and
-- it is finished if it was before, or if it ran and the device is idle.
pub poll_lem :
    (answers : List (Option FwInfo)) (f : Form)
    → Leaves
        (not f.is_slave || f.close_enabled)
        f.update_running
        f.update_finished
        (settled answers)
        (poll answers f)
unfolding settled poll
poll_lem [] f = unfold Leaves in (refl, refl)
poll_lem (none ∷ rest) f = rw (failed f) (poll_lem rest (record f { status = device restarting }))
poll_lem (some i ∷ rest) f = elim (Bool-cases (is_running i.status)) [
  | inl e ↦
      let g = (poll_once (some i) f).1 in
      let (r, u, v, s, c) = busy i f e in
      rw (e, r)
        (subst (λ b. Leaves b f.update_running f.update_finished (settled rest) (poll rest g))
          (ap₂ (λ x y. not x || y) s c)
          (subst
            (λ b.
              Leaves (not g.is_slave || g.close_enabled) b f.update_finished (settled rest)
                (poll rest g))
            u
            (subst
              (λ b.
                Leaves (not g.is_slave || g.close_enabled) g.update_running b (settled rest)
                  (poll rest g))
              v (poll_lem rest g))))
  | inr e ↦ let (l, r) = at_rest i f e in rw (e, r) l
]

-- The form of the main device cannot be closed while an update runs.
unfoldable pub IsGuarded : Form → Type 0
IsGuarded f = (not f.is_slave && f.update_running && f.close_enabled) ≡ false

poll_once-IsGuarded :
    (answer : Option FwInfo) (f : Form) → IsGuarded f → IsGuarded (poll_once answer f).1
unfolding poll_once IsGuarded
poll_once-IsGuarded none f g = g
poll_once-IsGuarded (some i) f g = ground arith

poll-IsGuarded :
    (answers : List (Option FwInfo)) (f : Form) → IsGuarded f → IsGuarded (poll answers f).1
unfolding poll
poll-IsGuarded [] f g = g
poll-IsGuarded (a ∷ answers) f g = elim (Bool-cases (poll_once a f).0) [
  | inl e ↦ rw e (poll-IsGuarded answers (poll_once a f).1 (poll_once-IsGuarded a f g))
  | inr e ↦ rw e (poll_once-IsGuarded a f g)
]

-- A guarded form stays guarded when an update is applied and then polled, whatever the device
-- answers and whether or not it accepts the update.
pub update-IsGuarded :
    (patched : Bool) (answers : List (Option FwInfo)) (f : Form)
    → IsGuarded f
    → IsGuarded (poll answers (apply_data patched f)).1
unfolding apply_data IsGuarded
update-IsGuarded patched answers f g =
    poll-IsGuarded answers (apply_data patched f) (ground (arith, g))

-- One of version and URL is given, and the other is not.
unfoldable pub IsOne : Option String × Option String → Type 0
IsOne (version, url) =
    ((is_given version ≡ true) × (url ≡ none)) ⊎ ((version ≡ none) × (is_given url ≡ true))

-- Data that pass validation lead to a request with a version or a URL, and never with both.
pub validate-request : (d : Data) (f : Form) → validate d f ≡ true → IsOne (request d f)
unfolding validate request IsOne
validate-request d f h = ground arith
