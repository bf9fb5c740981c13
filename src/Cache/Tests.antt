-- ===== src/Cache/Tests.antt =====
-- Runs of the cache's operations, and its theorem at a concrete input.

use qtoggleserver.Base.{◌≡◌, refl, Bool, true, some, List, [], ◌∷◌, String, get_value, ◌&&◌}
use text.Mathlib.Text.{◌==◌ as str_eq}
use qtoggleserver.Cache.Lookup.{same_text}
use qtoggleserver.Cache.{
  entries, slave_devices_loaded, update_from_events, get_slave_device, device_events,
  slave_device_add, slave_device_remove, slave_device_update,
}
use qtoggleserver.Samples.{filter_object, filter_object-Filters, as_given, as_given-Gathers, both}
use qtoggleserver.Cache.Runs.{Distinct, Keyed}
use qtoggleserver.Cache.Reconcile.{Compares, reconciles}

record Device : Type 0 where
  name : String
  display_name : String

abbrev deep_equals : Device → Device → Bool
deep_equals a b = str_eq a.name b.name && str_eq a.display_name b.display_name

deep_equals-Compares : Compares deep_equals
deep_equals-Compares = record {
  same_content = λ a b h.
      let (e, f) = both (str_eq a.name b.name) (str_eq a.display_name b.display_name) h in
      λ i. record {
        name = same_text a.name b.name e i;
        display_name = same_text a.display_name b.display_name f i;
      };
}

abbrev device : String → String → Device
device name display_name = record { name = name; display_name = display_name }

abbrev before : List (String × Device)
before = ("hall", device "hall" "Hall") ∷ ("attic", device "attic" "Attic") ∷ []

abbrev listed : List Device
listed = device "attic" "Loft" ∷ device "barn" "Barn" ∷ []

-- The hall is gone, there is a barn, and the attic has another display name.
makes :
    device_events
      (λ (d : Device). d.name)
      deep_equals
      filter_object
      before
      (entries (λ (d : Device). d.name) listed)
    ≡ slave_device_remove "hall"
      ∷ slave_device_add (device "barn" "Barn")
      ∷ slave_device_update (device "attic" "Loft")
      ∷ []
unfolding device_events entries
makes = refl

before-Keyed : Keyed (λ (d : Device). d.name) before
unfolding Keyed
before-Keyed = (refl, (refl, tt))

before-Distinct : Distinct before
unfolding Distinct
before-Distinct = ((refl, tt), (tt, tt))

listed-Distinct : Distinct (entries (λ (d : Device). d.name) listed)
unfolding Distinct entries
listed-Distinct = ((refl, tt), (tt, tt))

reconciles_example :
    let (events, c) =
      slave_devices_loaded
        (λ (d : Device). d.name)
        deep_equals
        filter_object
        as_given
        listed
        (record { cache_ready = true; slave_devices = some before }) in
    get_slave_device "attic" (update_from_events (λ (d : Device). d.name) events c)
    ≡ get_value str_eq "attic" (entries (λ (d : Device). d.name) listed)
reconciles_example =
    reconciles (λ (d : Device). d.name) deep_equals filter_object filter_object-Filters
      deep_equals-Compares as_given (as_given-Gathers (λ (d : Device). d.name)) before listed
      before-Keyed before-Distinct listed-Distinct "attic"
