-- ===== src/Cache.antt =====
-- The slave devices of qtoggleserver/frontend/js/cache.js: `updateFromEvent`, what
-- `loadSlaveDevices` does with the answer of the server, and the look-up. `D` stands for devices, a
-- device by its content: `ObjectUtils.copy` of a device is the device. `name` is its attribute of
-- that name, `deep_equals` is `ObjectUtils.deepEquals`, `filter_devices` is `ObjectUtils.filter`
-- and `from_entries` is `ObjectUtils.fromEntries` of the qui package. What is kept in the
-- browser's storage is left out.
pub mod Lookup
pub mod Runs
pub mod After
pub mod Reconcile
pub mod Prefs
pub mod Ports
pub mod State
mod Tests
use qtoggleserver.Base.{
  Bool, true, false, not, ◌&&◌, Option, none, some, List, [], ◌∷◌, ◌++◌, map, if◌then◌else◌, String,
  filter, get_value,
}
use text.Mathlib.Text.{◌==◌ as str_eq}

-- `slaveDevices`, which is null until devices are loaded, and whether `whenCacheReady` is
-- fulfilled.
pub record Cache (D : Type 0) : Type 0 where
  pub cache_ready : Bool
  pub slave_devices : Option (List (String × D))

pub data DeviceEvent (D : Type 0) : Type 0 where
  slave_device_update slave_device_add : D → DeviceEvent D
  slave_device_remove : String → DeviceEvent D

module _ {D : Type 0} where
  -- `key in object`
  unfoldable pub is_in : String → List (String × D) → Bool
  is_in k o = elim (get_value str_eq k o) [ none ↦ false | some d ↦ true ]

  -- `slaveDevices[name] = device`
  unfoldable pub set_device : String → D → List (String × D) → List (String × D)
  set_device k d [] = (k, d) ∷ []
  set_device k d ((l, e) ∷ rest) =
      let later = set_device k d rest in if str_eq l k then (l, d) ∷ rest else (l, e) ∷ later

  -- `delete slaveDevices[name]`
  unfoldable pub delete_device : String → List (String × D) → List (String × D)
  delete_device k o = filter (λ e. not (str_eq e.0 k)) o

  -- `getSlaveDevice`, once devices are loaded.
  unfoldable pub get_slave_device : String → Cache D → Option D
  get_slave_device k c = elim c.slave_devices [ none ↦ none | some o ↦ get_value str_eq k o ]

  module _ (name : D → String) where
    -- The three cases of `updateFromEvent` for slave devices.
    unfoldable pub update_devices : DeviceEvent D → List (String × D) → List (String × D)
    unfolding is_in set_device delete_device
    update_devices (slave_device_update d) o =
        if is_in (name d) o then set_device (name d) d o else o
    update_devices (slave_device_add d) o = set_device (name d) d o
    update_devices (slave_device_remove k) o = if is_in k o then delete_device k o else o

    unfoldable pub update_from_event : DeviceEvent D → Cache D → Cache D
    unfolding update_devices
    update_from_event e c =
        if c.cache_ready
        then elim c.slave_devices [
          | none ↦ c
          | some o ↦ record c { slave_devices = some (update_devices e o) }
        ]
        else c

    unfoldable pub update_from_events : List (DeviceEvent D) → Cache D → Cache D
    unfolding update_from_event
    update_from_events [] c = c
    update_from_events (e ∷ rest) c = update_from_events rest (update_from_event e c)

    unfoldable pub entries : List D → List (String × D)
    entries devices = map (λ d. (name d, d)) devices

    module _ (deep_equals : D → D → Bool)
        (filter_devices : (String → D → Bool) → List (String × D) → List (String × D)) where
      unfoldable pub is_updated : List (String × D) → String → D → Bool
      is_updated old k d = elim (get_value str_eq k old) [
        | none ↦ false
        | some o ↦ not (deep_equals o d)
      ]

      -- The fake events that `loadSlaveDevices` makes of the differences.
      unfoldable pub device_events : List (String × D) → List (String × D) → List (DeviceEvent D)
      unfolding is_in is_updated
      device_events old new =
          map (λ e. slave_device_remove (name e.1)) (filter_devices (λ k d. not (is_in k new)) old)
          ++ (map (λ e. slave_device_add e.1) (filter_devices (λ k d. not (is_in k old)) new)
              ++ map (λ e. slave_device_update e.1) (filter_devices (is_updated old) new))

      -- What `loadSlaveDevices` does with the devices that the server lists.
      unfoldable pub slave_devices_loaded :
          (List (String × D) → List (String × D))
          → List D
          → Cache D
          → List (DeviceEvent D) × Cache D
      unfolding device_events entries
      slave_devices_loaded from_entries devices c =
          let new = from_entries (entries devices) in
          elim c.slave_devices [
            | none ↦ ([], record c { slave_devices = some new })
            | some old ↦ (device_events old new, c)
          ]
