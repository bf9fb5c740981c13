-- ===== src/Cache/Ports/After.antt =====
-- What a sequence of events about ports makes of the port of a given id.
use qtoggleserver.Base.{
  ℕ, ◌≡◌, refl, ◌∙◌, ap, true, Option, none, some, List, [], ◌∷◌, if◌then◌else◌, String, get_value,
  inl, inr, Bool-cases, Option-cases,
}
use text.Mathlib.Text.{◌==◌ as str_eq}
use qtoggleserver.Cache.Lookup.{get-set_device, get-delete_device}
use qtoggleserver.Cache.Runs.{at_same, afters}
use qtoggleserver.Cache.After.{is_some, is_in-some}
use qtoggleserver.Cache.Ports.{
  Port, PortCache, PortEvent, value_change, port_update, port_add, port_remove, with_value,
  update_ports, update_from_port_event, update_from_port_events, get_port,
}

module _ {A V : Type 0} where
  -- What an event makes of the port whose id is `k`.
  unfoldable pub after : ℕ → String → PortEvent A V → Option (Port A V) → Option (Port A V)
  after now k (value_change n x) v =
      if str_eq n k then elim v [ none ↦ none | some p ↦ some (with_value now x p) ] else v
  after now k (port_update p) v = if str_eq p.id k then some p else v
  after now k (port_add p) v = if str_eq p.id k then some p else v
  after now k (port_remove n) v = if str_eq n k then none else v

  get-update_ports :
      (now : ℕ) (k : String) (e : PortEvent A V) (o : List (String × Port A V))
      → get_value str_eq k (update_ports now e o) ≡ after now k e (get_value str_eq k o)
  unfolding update_ports after
  get-update_ports now k (value_change n x) o = elim (Option-cases (get_value str_eq n o)) [
    | inl (p, e) ↦ elim (Bool-cases (str_eq n k)) [
      | inl h ↦
          rw (e, update_ports)
            (get-set_device k n (with_value now x p) o ∙ rw (h, at_same n k (some p) o h e) refl)
      | inr h ↦ rw (e, update_ports) (get-set_device k n (with_value now x p) o ∙ rw h refl)
    ]
    | inr e ↦ elim (Bool-cases (str_eq n k)) [
      | inl h ↦ rw (e, update_ports) rw h rw (at_same n k none o h e) refl
      | inr h ↦ rw (e, update_ports) rw h refl
    ]
  ]
  get-update_ports now k (port_update p) o = get-set_device k p.id p o
  get-update_ports now k (port_add p) o = get-set_device k p.id p o
  get-update_ports now k (port_remove n) o = elim (Option-cases (get_value str_eq n o)) [
    | inl (p, e) ↦ rw (is_in-some n o ∙ ap is_some e, update_ports) (get-delete_device k n o)
    | inr e ↦ elim (Bool-cases (str_eq n k)) [
      | inl h ↦ rw (is_in-some n o ∙ ap is_some e, update_ports) rw h (at_same n k none o h e)
      | inr h ↦ rw (is_in-some n o ∙ ap is_some e, update_ports) rw h refl
    ]
  ]

  abbrev pub ready : List (String × Port A V) → PortCache A V
  ready o = record { cache_ready = true; all_ports = some o }

  pub get-update_from_port_events :
      (now : ℕ) (k : String) (es : List (PortEvent A V)) (o : List (String × Port A V))
      → get_port k (update_from_port_events now es (ready o))
        ≡ afters (after now) k es (get_value str_eq k o)
  unfolding get_port update_from_port_events update_from_port_event afters
  get-update_from_port_events now k [] o = refl
  get-update_from_port_events now k (e ∷ es) o =
      get-update_from_port_events now k es (update_ports now e o)
      ∙ ap (λ v. afters (after now) k es v) (get-update_ports now k e o)
