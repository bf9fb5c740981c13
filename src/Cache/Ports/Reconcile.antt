-- ===== src/Cache/Ports/Reconcile.antt =====
-- The fake events that `loadPorts` makes bring the cached ports to what the server lists.
use qtoggleserver.Base.{
  ℕ, arith, ◌≡◌, refl, ◌∙◌, ap, Bool, true, false, not, Option, none, some, List, [], ◌∷◌,
  if◌then◌else◌, String, get_value, inl, inr, Bool-cases,
}
use text.Mathlib.Text.{◌==◌ as str_eq}
use qtoggleserver.Notifications.Expected.Settle.{Filters}
use qtoggleserver.Cache.{is_in}
use qtoggleserver.Cache.Runs.{Distinct, Keyed, afters, afters-append, afters-entries}
use qtoggleserver.Cache.After.{is_some, is_in-some}
use qtoggleserver.Cache.Reconcile.{Gathers, Compares, removed, added}
use qtoggleserver.Cache.Ports.After.{after, get-update_from_port_events}
use qtoggleserver.Cache.Ports.{
  Port, value_change, port_update, port_add, port_remove, with_value, update_from_port_events,
  get_port, port_entries, without_value, value_differs, is_updated_port, is_value_changed,
  port_events, ports_loaded,
}

-- The port of the server, with the time of the event as that of its last synchronization if the
-- cache had another value of it and it has one now.
unfoldable pub synced :
    {A V : Type 0} → (V → V → Bool) → ℕ → Option (Port A V) → Port A V → Port A V
synced same now none p = p
synced same now (some o) p =
    if value_differs same o.value p.value then with_value now p.value p else p

equal_values :
    {V : Type 0} (same : V → V → Bool)
    → Compares same
    → (a b : Option V) → value_differs same a b ≡ false
    → a ≡ b
unfolding value_differs
equal_values same same_values none none e = refl
equal_values same same_values none (some b) e = absurd (cc)
equal_values same same_values (some a) none e = absurd (cc)
equal_values same same_values (some a) (some b) e = elim (Bool-cases (same a b)) [
  | inl h ↦ ap some (same_values.same_content a b h)
  | inr h ↦ absurd (ground (arith, e, h))
]

module _ {A V : Type 0} where
  abbrev pub id_of : Port A V → String
  id_of p = p.id

  abbrev replaced : Option (Port A V) → (Port A V → Bool) → Option (Port A V) → Option (Port A V)
  replaced n u v = elim n [ none ↦ v | some p ↦ if u p then some p else v ]

  abbrev set_off : ℕ → Option (Port A V) → (Port A V → Bool) → Option (Port A V) → Option (Port A V)
  set_off now n w v = elim n [
    | none ↦ v
    | some p ↦ if w p then elim v [ none ↦ none | some q ↦ some (with_value now p.value q) ] else v
  ]

  -- Ports that are equal but for their values get the same from an event about a value.
  with_value_alike :
      (now : ℕ) (x : Option V) (o p : Port A V)
      → without_value o ≡ without_value p
      → with_value now x o ≡ with_value now x p
  unfolding with_value
  with_value_alike now x o p e = ap (λ q. with_value now x q) e

  module _ (same : V → V → Bool) (same_values : Compares same) where
    module _ (deep_equals : Port A V → Port A V → Bool) (compares : Compares deep_equals) where
      -- A port that both have with the same attributes: only its value can be new.
      same_attrs :
          (now : ℕ) (o p : Port A V)
          → without_value o ≡ without_value p
          → (if value_differs same o.value p.value then some (with_value now p.value o) else some o)
            ≡ some (synced same now (some o) p)
      unfolding synced
      same_attrs now o p e = elim (Bool-cases (value_differs same o.value p.value)) [
        | inl d ↦ rw d (ap some (with_value_alike now p.value o p e))
        | inr d ↦ rw d (
            ap some (
              ap (λ x. record o { value = x }) (equal_values same same_values o.value p.value d)
              ∙ ap (λ (q : Port A V). record q { value = p.value }) e))
      ]

      -- A port before and a port on the server, and what the four kinds of events make of it.
      table :
          (now : ℕ) (o n : Option (Port A V)) (in_old in_new : Bool) (u w : Port A V → Bool)
          → in_old ≡ is_some o
          → in_new ≡ is_some n
          → ((p q : Port A V)
              → o ≡ some q
              → u p ≡ not (deep_equals (without_value q) (without_value p)))
          → ((p q : Port A V) → o ≡ some q → w p ≡ value_differs same q.value p.value)
          → ((p : Port A V) → o ≡ none → (u p ≡ false) × (w p ≡ false))
          → set_off now n w (replaced n u (added n in_old (removed o in_new o)))
            ≡ elim n [ none ↦ none | some p ↦ some (synced same now o p) ]
      unfolding synced
      table now none none in_old in_new u w a b c d e = refl
      table now none (some p) in_old in_new u w a b c d e = rw (a, (e p refl).0, (e p refl).1) refl
      table now (some q) none in_old in_new u w a b c d e = rw b refl
      table now (some q) (some p) in_old in_new u w a b c d e =
          rw (a, b, c p q refl, d p q refl)
            (elim (Bool-cases (deep_equals (without_value q) (without_value p))) [
              | inl h ↦
                  rw h (
                    same_attrs now q p
                      (compares.same_content (without_value q) (without_value p) h))
              | inr h ↦ rw h (ground arith)
            ])

      updated_port :
          (k : String) (old : List (String × Port A V)) (p q : Port A V)
          → get_value str_eq k old ≡ some q
          → is_updated_port same deep_equals old k p
            ≡ not (deep_equals (without_value q) (without_value p))
      unfolding is_updated_port
      updated_port k old p q e = rw (e, is_updated_port) refl

      changed_port :
          (k : String) (old : List (String × Port A V)) (p q : Port A V)
          → get_value str_eq k old ≡ some q
          → is_value_changed same old k p ≡ value_differs same q.value p.value
      unfolding is_value_changed
      changed_port k old p q e = rw (e, is_value_changed) refl

      new_port :
          (k : String) (old : List (String × Port A V)) (p : Port A V)
          → get_value str_eq k old ≡ none
          → (is_updated_port same deep_equals old k p ≡ false)
            × (is_value_changed same old k p ≡ false)
      unfolding is_updated_port is_value_changed
      new_port k old p e = (rw (e, is_updated_port) refl, rw (e, is_value_changed) refl)

      module _
          (filter_ports : (String → Port A V → Bool)
            → List (String × Port A V)
            → List (String × Port A V))
          (filters : Filters filter_ports) where
        settles :
            (now : ℕ) (k : String) (old new : List (String × Port A V))
            → Keyed id_of old
            → Distinct old
            → Keyed id_of new
            → Distinct new
            → afters
                (after now)
                k
                (port_events same deep_equals filter_ports old new)
                (get_value str_eq k old)
              ≡ elim (get_value str_eq k new) [
                | none ↦ none
                | some p ↦ some (synced same now (get_value str_eq k old) p)
              ]
        unfolding port_events after
        settles now k old new ko od kn dn =
            rw
              (
                filters.kept (λ k p. not (is_in k new)) old,
                filters.kept (λ k p. not (is_in k old)) new,
                filters.kept (is_updated_port same deep_equals old) new,
                filters.kept (is_value_changed same old) new,
              )
              rw (afters-append (after now) k) rw (afters-append (after now) k) rw
              (afters-append (after now) k) rw
              (afters-entries (after now) id_of k (λ p. port_remove p.id) (λ p v. none)
                (λ p v. refl) (λ k p. not (is_in k new)) old (get_value str_eq k old) ko od)
              rw
              (afters-entries (after now) id_of k port_add (λ p v. some p) (λ p v. refl)
                (λ k p. not (is_in k old)) new _ kn dn)
              rw
              (afters-entries (after now) id_of k port_update (λ p v. some p) (λ p v. refl)
                (is_updated_port same deep_equals old) new _ kn dn)
              rw
              (afters-entries (after now) id_of k (λ p. value_change p.id p.value)
                (λ p v. elim v [ none ↦ none | some q ↦ some (with_value now p.value q) ])
                (λ p v. refl) (is_value_changed same old) new _ kn dn)
              (table now (get_value str_eq k old) (get_value str_eq k new) (is_in k old)
                (is_in k new) (is_updated_port same deep_equals old k) (is_value_changed same old k)
                (is_in-some k old) (is_in-some k new) (updated_port k old) (changed_port k old)
                (new_port k old))

        Keyed-port_entries : (ports : List (Port A V)) → Keyed id_of (port_entries ports)
        unfolding Keyed port_entries
        Keyed-port_entries [] = tt
        Keyed-port_entries (p ∷ ports) = (refl, Keyed-port_entries ports)

        -- When the server lists its ports again, no two of one id, the cache that processes the fake
        -- events of `loadPorts` has under every id the port that the server lists there, and none
        -- under other ids, whatever it had before. Only the time of the last synchronization
        -- differs from the server's: it is the time of the event for a port whose value the
        -- cache had otherwise, if it has a value now.
        pub ports_reconcile :
            (from_entries : List (String × Port A V) → List (String × Port A V))
            → Gathers id_of from_entries
            → (now : ℕ) (old : List (String × Port A V)) (ports : List (Port A V)) → Keyed id_of old
            → Distinct old
            → Distinct (port_entries ports)
            → (k : String)
            → let (events, c) =
                ports_loaded same deep_equals filter_ports from_entries ports
                  (record { cache_ready = true; all_ports = some old }) in
              get_port k (update_from_port_events now events c)
              ≡ elim (get_value str_eq k (port_entries ports)) [
                | none ↦ none
                | some p ↦ some (synced same now (get_value str_eq k old) p)
              ]
        unfolding ports_loaded
        ports_reconcile from_entries gathers now old ports ko od dn k =
            get-update_from_port_events now k _ old
            ∙ settles now k old (from_entries (port_entries ports)) ko od
                (gathers.keys (port_entries ports) (Keyed-port_entries ports))
                (gathers.once (port_entries ports) dn)
            ∙ rw (gathers.found k (port_entries ports) dn) refl
