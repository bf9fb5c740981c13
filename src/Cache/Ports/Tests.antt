-- ===== src/Cache/Ports/Tests.antt =====
-- A run of the loading of ports, and its theorem at a concrete input.
use qtoggleserver.Base.{◌≡◌, refl, Bool, true, false, Option, none, some, List, [], ◌∷◌, String}
use text.Mathlib.Text.{◌==◌ as str_eq}
use qtoggleserver.Cache.Lookup.{same_text}
use qtoggleserver.Cache.Runs.{Distinct, Keyed}
use qtoggleserver.Cache.Reconcile.{Compares}
use qtoggleserver.Cache.Ports.{
  Port, port_remove, port_add, port_update, value_change, port_entries, port_events, ports_loaded,
  update_from_port_events, get_port, value_differs, with_value,
}
use qtoggleserver.Samples.{
  same, same-Compares, filter_object, filter_object-Filters, as_given, as_given-Gathers,
  ports_equal, ports_equal-Compares,
}
use qtoggleserver.Cache.Ports.Reconcile.{id_of, synced, ports_reconcile}

abbrev Input : Type 0
Input = Port String Bool

text-Compares : Compares str_eq
text-Compares = record { same_content = same_text }

abbrev deep_equals : Input → Input → Bool
deep_equals = ports_equal str_eq text-Compares

abbrev input : String → Option Bool → String → Input
input id value name = record { id = id; value = value; last_sync = some 100; attrs = name }

abbrev before : List (String × Input)
before =
    ("door", input "door" (some true) "Door")
    ∷ ("lamp", input "lamp" (some false) "Lamp")
    ∷ ("bell", input "bell" none "Bell")
    ∷ []

abbrev listed : List Input
listed =
    input "lamp" (some true) "Lamp"
    ∷ input "bell" none "Chime"
    ∷ input "tap" (some false) "Tap"
    ∷ []

-- The door is gone, there is a tap, the bell has another name, and the lamp is on.
makes :
    port_events same deep_equals filter_object before (port_entries listed)
    ≡ port_remove "door"
      ∷ port_add (input "tap" (some false) "Tap")
      ∷ port_update (input "bell" none "Chime")
      ∷ value_change "lamp" (some true)
      ∷ []
unfolding port_events port_entries value_differs
makes = refl

before-Keyed : Keyed id_of before
unfolding Keyed
before-Keyed = (refl, (refl, (refl, tt)))

before-Distinct : Distinct before
unfolding Distinct
before-Distinct = ((refl, (refl, tt)), ((refl, tt), (tt, tt)))

listed-Distinct : Distinct (port_entries listed)
unfolding Distinct port_entries
listed-Distinct = ((refl, (refl, tt)), ((refl, tt), (tt, tt)))

ports_reconcile_example :
    let (events, c) =
      ports_loaded same deep_equals filter_object as_given listed
        (record { cache_ready = true; all_ports = some before }) in
    get_port "lamp" (update_from_port_events 120 events c)
    ≡ some (record { id = "lamp"; value = some true; last_sync = some 120; attrs = "Lamp" })
unfolding synced port_entries with_value value_differs
ports_reconcile_example =
    ports_reconcile same same-Compares deep_equals (ports_equal-Compares str_eq text-Compares)
      filter_object filter_object-Filters as_given (as_given-Gathers id_of) 120 before listed
      before-Keyed before-Distinct listed-Distinct "lamp"
