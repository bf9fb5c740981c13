-- ===== src/Cache/State.antt =====
-- The whole cache of qtoggleserver/frontend/js/cache.js in one state: `updateFromEvent` with all its
-- cases, `loadDevice`, `reload` and what `init` does with the outcome of a request for events. `M`
-- stands for the attributes of the main device, `D` for slave devices. The browser's storage is
-- left out.
pub mod Reload
mod Tests
use qtoggleserver.Base.{
  ℕ, Bool, true, false, ◌&&◌, Option, none, some, List, [], ◌∷◌, ◌++◌, leb, if◌then◌else◌, String,
}
use qtoggleserver.Auth.{access_level_admin, access_level_viewonly}
use qtoggleserver.Cache.{DeviceEvent, update_devices}
use qtoggleserver.Cache.Ports.{Port, PortEvent, update_ports}

pub record State (M D A V : Type 0) : Type 0 where
  pub cache_ready : Bool
  pub main_device : Option M
  pub slave_devices : Option (List (String × D))
  pub all_ports : Option (List (String × Port A V))
  pub reload_needed : Bool

pub data CacheEvent (M D A V : Type 0) : Type 0 where
  slave_device_event : DeviceEvent D → CacheEvent M D A V
  port_event : PortEvent A V → CacheEvent M D A V
  device_update : M → CacheEvent M D A V
  full_update : CacheEvent M D A V
  other_event : CacheEvent M D A V

-- What the cache asks of the other parts: listening is stopped, if it is on, and started again, or
-- data are loaded.
pub data Loader : Type 0 where
  load_device load_ports load_slave_devices load_prefs load_provisioning_configs : Loader

pub data Effect : Type 0 where
  restart_listening : Effect
  call_loader : Loader → Effect

abbrev pub apply_event {ℓ} : {S : Type ℓ} → (S → S) → Option S → Option S
apply_event f none = none
apply_event f (some s) = some (f s)

-- `load`: the loaders that it starts.
unfoldable pub load : ℕ → Bool → List Loader
load access_level slaves_enabled =
    (if leb access_level_admin access_level then load_device ∷ [] else [])
    ++ ((if leb access_level_viewonly access_level then load_ports ∷ [] else [])
        ++ ((if leb access_level_admin access_level && slaves_enabled
              then load_slave_devices ∷ []
              else [])
            ++ ((if leb access_level_viewonly access_level then load_prefs ∷ [] else [])
                ++ (if leb access_level_admin access_level
                    then load_provisioning_configs ∷ []
                    else []))))

abbrev loaders : List Loader → List Effect
loaders [] = []
loaders (l ∷ ls) = call_loader l ∷ loaders ls

module _ {M D A V : Type 0} where
  -- `reload`
  unfoldable pub reload : Bool → State M D A V → List Effect × State M D A V
  reload now s = (if now then restart_listening ∷ [] else [], record s { reload_needed = true })

  -- The function that `init` has called after each request for events.
  unfoldable pub on_listen : Bool → ℕ → Bool → State M D A V → List Effect × State M D A V
  unfolding load
  on_listen failed access_level slaves_enabled s =
      if failed
      then ([], s)
      else if s.reload_needed
      then (loaders (load access_level slaves_enabled), record s { reload_needed = false })
      else ([], s)

  -- What `loadDevice` does with the attributes that the server sends: it keeps them, or makes a
  -- fake event of them.
  unfoldable pub device_loaded : M → State M D A V → List (CacheEvent M D A V) × State M D A V
  device_loaded attrs s = elim s.main_device [
    | none ↦ ([], record s { main_device = some attrs })
    | some m ↦ (device_update attrs ∷ [], s)
  ]

  module _ (name : D → String) (now : ℕ) where
    -- `updateFromEvent`
    unfoldable pub update_from_event :
        CacheEvent M D A V → State M D A V → List Effect × State M D A V
    unfolding update_devices update_ports reload
    update_from_event e s =
        if s.cache_ready
        then elim e [
          | slave_device_event d ↦ (
            [],
            record s { slave_devices = apply_event (λ o. update_devices name d o) s.slave_devices },
          )
          | port_event p ↦
              ([], record s { all_ports = apply_event (λ o. update_ports now p o) s.all_ports })
          | device_update m ↦ ([], record s { main_device = some m })
          | full_update ↦ reload true s
          | other_event ↦ ([], s)
        ]
        else ([], s)

    unfoldable pub update_from_events :
        List (CacheEvent M D A V) → State M D A V → List Effect × State M D A V
    unfolding update_from_event
    update_from_events [] s = ([], s)
    update_from_events (e ∷ rest) s =
        let (first, t) = update_from_event e s in
        let (later, u) = update_from_events rest t in (first ++ later, u)
