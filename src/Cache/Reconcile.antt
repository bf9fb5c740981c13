-- ===== src/Cache/Reconcile.antt =====
-- The fake events that `loadSlaveDevices` makes bring the cache to what the server lists.

use qtoggleserver.Base.{
  ◌≡◌, refl, ◌∙◌, ap, Bool, true, false, not, Option, none, some, List, [], ◌∷◌, if◌then◌else◌,
  String, get_value, inl, inr, Bool-cases,
}
use text.Mathlib.Text.{◌==◌ as str_eq}
use qtoggleserver.Notifications.Expected.Settle.{Filters}
use qtoggleserver.Cache.{
  Cache, DeviceEvent, slave_device_update, slave_device_add, slave_device_remove, is_in,
  update_devices, update_from_event, update_from_events, entries, is_updated, device_events,
  slave_devices_loaded, get_slave_device,
}
use qtoggleserver.Cache.Runs.{Distinct, Keyed, afters, afters-append, afters-entries}
use qtoggleserver.Cache.After.{is_some, is_in-some, after, get-update_devices}

module _ {D : Type 0} where
  abbrev pub removed : Option D → Bool → Option D → Option D
  removed o in_new v = elim o [ none ↦ v | some d ↦ if not in_new then none else v ]

  abbrev pub added : Option D → Bool → Option D → Option D
  added n in_old v = elim n [ none ↦ v | some d ↦ if not in_old then some d else v ]

  abbrev replaced : Option D → (D → Bool) → Option D → Option D
  replaced n u v = elim n [
    | none ↦ v
    | some d ↦ if u d then elim v [ none ↦ none | some o ↦ some d ] else v
  ]

  -- What the code relies on of `ObjectUtils.deepEquals`: devices that are equal have the same
  -- content.
  pub record Compares (deep_equals : D → D → Bool) : Type 0 where
    pub same_content : (a b : D) → deep_equals a b ≡ true → a ≡ b

  module _ (name : D → String) where
    ready : List (String × D) → Cache D
    ready o = record { cache_ready = true; slave_devices = some o }

    get-update_from_events :
        (k : String) (es : List (DeviceEvent D)) (o : List (String × D))
        → get_slave_device k (update_from_events name es (ready o))
          ≡ afters (after name) k es (get_value str_eq k o)
    unfolding get_slave_device update_from_events update_from_event ready afters
    get-update_from_events k [] o = refl
    get-update_from_events k (e ∷ es) o =
        get-update_from_events k es (update_devices name e o)
        ∙ ap (λ v. afters (after name) k es v) (get-update_devices name k e o)

    -- What the code relies on of `ObjectUtils.fromEntries`: entries are found under their keys, each
    -- once.
    pub record Gathers (from_entries : List (String × D) → List (String × D)) : Type 0 where
      pub found :
          (k : String) (es : List (String × D))
          → Distinct es
          → get_value str_eq k (from_entries es) ≡ get_value str_eq k es
      pub once : (es : List (String × D)) → Distinct es → Distinct (from_entries es)
      pub keys : (es : List (String × D)) → Keyed name es → Keyed name (from_entries es)

    module _ (deep_equals : D → D → Bool)
        (filter_devices : (String → D → Bool) → List (String × D) → List (String × D))
        (filters : Filters filter_devices) (compares : Compares deep_equals) where
      updated :
          (k : String) (old : List (String × D)) (v d : D)
          → get_value str_eq k old ≡ some v
          → is_updated name deep_equals filter_devices old k d ≡ not (deep_equals v d)
      unfolding is_updated
      updated k old v d e = rw (e, is_updated) refl

      not_updated :
          (k : String) (old : List (String × D)) (d : D)
          → get_value str_eq k old ≡ none
          → is_updated name deep_equals filter_devices old k d ≡ false
      unfolding is_updated
      not_updated k old d e = rw (e, is_updated) refl

      same : (v d : D) → (if not (deep_equals v d) then some d else some v) ≡ some d
      same v d = elim (Bool-cases (deep_equals v d)) [
        | inl e ↦ rw e (ap some (compares.same_content v d e))
        | inr e ↦ rw e refl
      ]

      -- A device before and a device on the server, and what the three kinds of events make of it.
      table :
          (o n : Option D) (in_old in_new : Bool) (u : D → Bool)
          → in_old ≡ is_some o
          → in_new ≡ is_some n
          → ((v d : D) → o ≡ some v → u d ≡ not (deep_equals v d))
          → ((d : D) → o ≡ none → u d ≡ false)
          → replaced n u (added n in_old (removed o in_new o)) ≡ n
      table none none in_old in_new u a b c e = refl
      table none (some d) in_old in_new u a b c e = rw (a, e d refl) refl
      table (some v) none in_old in_new u a b c e = rw b refl
      table (some v) (some d) in_old in_new u a b c e = rw (a, b, c v d refl) (same v d)

      settles :
          (k : String) (old new : List (String × D))
          → Keyed name old
          → Distinct old
          → Keyed name new
          → Distinct new
          → afters
              (after name)
              k
              (device_events name deep_equals filter_devices old new)
              (get_value str_eq k old)
            ≡ get_value str_eq k new
      unfolding device_events after
      settles k old new ko od kn dn =
          rw
            (
              filters.kept (λ k d. not (is_in k new)) old,
              filters.kept (λ k d. not (is_in k old)) new,
              filters.kept (is_updated name deep_equals filter_devices old) new,
            )
            rw (afters-append (after name) k) rw (afters-append (after name) k) rw
            (afters-entries (after name) name k (λ d. slave_device_remove (name d)) (λ d v. none)
              (λ d v. refl) (λ k d. not (is_in k new)) old (get_value str_eq k old) ko od)
            rw
            (afters-entries (after name) name k slave_device_add (λ d v. some d) (λ d v. refl)
              (λ k d. not (is_in k old)) new _ kn dn)
            rw
            (afters-entries (after name) name k slave_device_update
              (λ d v. elim v [ none ↦ none | some o ↦ some d ]) (λ d v. refl)
              (is_updated name deep_equals filter_devices old) new _ kn dn)
            (table (get_value str_eq k old) (get_value str_eq k new) (is_in k old) (is_in k new)
              (is_updated name deep_equals filter_devices old k) (is_in-some k old)
              (is_in-some k new) (λ v d e. updated k old v d e) (λ d e. not_updated k old d e))

      Keyed-entries : (devices : List D) → Keyed name (entries name devices)
      unfolding Keyed entries
      Keyed-entries [] = tt
      Keyed-entries (d ∷ devices) = (refl, Keyed-entries devices)

      -- When the server lists its devices again, no two of one name, the cache that processes the
      -- fake events of `loadSlaveDevices` has under every name what the server lists there, and
      -- nothing under the other names, whatever it had before.
      pub reconciles :
          (from_entries : List (String × D) → List (String × D))
          → Gathers from_entries
          → (old : List (String × D)) (devices : List D) → Keyed name old
          → Distinct old
          → Distinct (entries name devices)
          → (k : String)
          → let (events, c) =
              slave_devices_loaded name deep_equals filter_devices from_entries devices
                (record { cache_ready = true; slave_devices = some old }) in
            get_slave_device k (update_from_events name events c)
            ≡ get_value str_eq k (entries name devices)
      unfolding slave_devices_loaded ready
      reconciles from_entries gathers old devices ko od dn k =
          get-update_from_events k _ old
          ∙ settles k old (from_entries (entries name devices)) ko od
              (gathers.keys (entries name devices) (Keyed-entries devices))
              (gathers.once (entries name devices) dn)
          ∙ gathers.found k (entries name devices) dn
