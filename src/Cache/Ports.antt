-- ===== src/Cache/Ports.antt =====
-- The ports of qtoggleserver/frontend/js/cache.js: the cases of `updateFromEvent` for them, what
-- `loadPorts` does with the answer of the server, and the look-up. A port has an id, a value, the
-- time of its last synchronization and other attributes `A`; a value that is null or missing is
-- `none`. `deep_equals` is `ObjectUtils.deepEquals`, `same_value` compares two values, which are
-- numbers or Booleans, `filter_ports` is `ObjectUtils.filter` and `from_entries` is
-- `ObjectUtils.fromEntries` of the qui package. `now` is the clock in seconds, rounded.
pub mod After
pub mod Reconcile
mod Tests
use qtoggleserver.Base.{
  ℕ, Bool, true, false, not, Option, none, some, List, [], ◌∷◌, ◌++◌, map, if◌then◌else◌, String,
  get_value,
}
use text.Mathlib.Text.{◌==◌ as str_eq}
use qtoggleserver.Cache.{is_in, set_device, delete_device}

pub record Port (A V : Type 0) : Type 0 where
  pub id : String
  pub value : Option V
  pub last_sync : Option ℕ
  pub attrs : A

-- `allPorts`, which is null until ports are loaded, and whether `whenCacheReady` is fulfilled.
pub record PortCache (A V : Type 0) : Type 0 where
  pub cache_ready : Bool
  pub all_ports : Option (List (String × Port A V))

pub data PortEvent (A V : Type 0) : Type 0 where
  value_change : String → Option V → PortEvent A V
  port_update port_add : Port A V → PortEvent A V
  port_remove : String → PortEvent A V

-- `oldPort.value !== port.value`
unfoldable pub value_differs : {V : Type 0} → (V → V → Bool) → Option V → Option V → Bool
value_differs same none none = false
value_differs same (some a) (some b) = not (same a b)
value_differs same none (some b) = true
value_differs same (some a) none = true

module _ {A V : Type 0} where
  -- What a value-change event does to a port that is known.
  unfoldable pub with_value : ℕ → Option V → Port A V → Port A V
  with_value now value p = record p {
    value = value;
    last_sync = elim value [ none ↦ p.last_sync | some v ↦ some now ];
  }

  -- The four cases of `updateFromEvent` for ports.
  unfoldable pub update_ports :
      ℕ → PortEvent A V → List (String × Port A V) → List (String × Port A V)
  unfolding with_value is_in set_device delete_device
  update_ports now (value_change k value) o = elim (get_value str_eq k o) [
    | none ↦ o
    | some p ↦ set_device k (with_value now value p) o
  ]
  update_ports now (port_update p) o = set_device p.id p o
  update_ports now (port_add p) o = set_device p.id p o
  update_ports now (port_remove k) o = if is_in k o then delete_device k o else o

  unfoldable pub update_from_port_event : ℕ → PortEvent A V → PortCache A V → PortCache A V
  unfolding update_ports
  update_from_port_event now e c =
      if c.cache_ready
      then elim c.all_ports [
        | none ↦ c
        | some o ↦ record c { all_ports = some (update_ports now e o) }
      ]
      else c

  unfoldable pub update_from_port_events : ℕ → List (PortEvent A V) → PortCache A V → PortCache A V
  unfolding update_from_port_event
  update_from_port_events now [] c = c
  update_from_port_events now (e ∷ rest) c =
      update_from_port_events now rest (update_from_port_event now e c)

  -- `getPort`, once ports are loaded.
  unfoldable pub get_port : String → PortCache A V → Option (Port A V)
  get_port k c = elim c.all_ports [ none ↦ none | some o ↦ get_value str_eq k o ]

  unfoldable pub port_entries : List (Port A V) → List (String × Port A V)
  port_entries ports = map (λ p. (p.id, p)) ports

  -- `delete p.value`, on a copy.
  abbrev pub without_value : Port A V → Port A V
  without_value p = record p { value = none }

  module _ (same_value : V → V → Bool) where
    -- The tests of `updatedPorts` and of `valueChangedPorts`.
    unfoldable pub is_updated_port :
        (Port A V → Port A V → Bool) → List (String × Port A V) → String → Port A V → Bool
    is_updated_port deep_equals old k p = elim (get_value str_eq k old) [
      | none ↦ false
      | some o ↦ not (deep_equals (without_value o) (without_value p))
    ]

    unfoldable pub is_value_changed : List (String × Port A V) → String → Port A V → Bool
    is_value_changed old k p = elim (get_value str_eq k old) [
      | none ↦ false
      | some o ↦ value_differs same_value o.value p.value
    ]

    module _ (deep_equals : Port A V → Port A V → Bool)
        (filter_ports : (String → Port A V → Bool)
          → List (String × Port A V)
          → List (String × Port A V)) where
      -- The fake events that `loadPorts` makes of the differences.
      unfoldable pub port_events :
          List (String × Port A V) → List (String × Port A V) → List (PortEvent A V)
      unfolding is_in is_updated_port is_value_changed
      port_events old new =
          map (λ e. port_remove (e.1.id)) (filter_ports (λ k p. not (is_in k new)) old)
          ++ (map (λ e. port_add e.1) (filter_ports (λ k p. not (is_in k old)) new)
              ++ (map (λ e. port_update e.1) (filter_ports (is_updated_port deep_equals old) new)
                  ++ map (λ e. value_change e.1.id e.1.value)
                      (filter_ports (is_value_changed old) new)))

      -- What `loadPorts` does with the ports that the server lists.
      unfoldable pub ports_loaded :
          (List (String × Port A V) → List (String × Port A V))
          → List (Port A V)
          → PortCache A V
          → List (PortEvent A V) × PortCache A V
      unfolding port_events port_entries
      ports_loaded from_entries ports c =
          let new = from_entries (port_entries ports) in
          elim c.all_ports [
            | none ↦ ([], record c { all_ports = some new })
            | some old ↦ (port_events old new, c)
          ]
