-- ===== src/Events/Bulk/Tests.antt =====
-- Runs of the events, and their theorems at concrete inputs.
use qtoggleserver.Base.{
  ◌≡◌, refl, ap, Bool, true, false, Option, none, some, List, [], ◌∷◌, ◌++◌, map, String, ◌||◌, All,
}
use qtoggleserver.Samples.{
  same, same-Compares, filter_object, filter_object-Filters, as_given, as_given-Gathers, same_attrs,
  same_attrs-Compares, ports_equal, ports_equal-Compares,
}
use qtoggleserver.Cache.Ports.{
  Port, PortEvent, value_change, get_port, port_entries, ports_loaded, with_value, value_differs,
}
use qtoggleserver.Cache.Ports.Reconcile.{id_of, synced}
use qtoggleserver.Cache.Runs.{Distinct, Keyed}
use qtoggleserver.Cache.State.{full_update, port_event, update_from_event}
use qtoggleserver.Events.Attributes.{ServerEvent}
use qtoggleserver.Events.Messages.{Env, find_port_slave_device, show_message_from_events}
use qtoggleserver.Events.Messages.Grouped.{
  added, many, added_together, Different, DifferentIds, Distincts,
}
use qtoggleserver.Events.Bulk.{CacheState, Events, Action, receive, timer_ends, cache_loaded, run}
use qtoggleserver.Events.Bulk.Order.{told, received, told_in_order}
use qtoggleserver.Events.Bulk.Soon.{processed_soon}
use qtoggleserver.Events.Bulk.Loaded.{fake, of_cache, ports_arrive}

abbrev Event : Type 0
Event = ServerEvent Bool Bool Bool

abbrev Input : Type 0
Input = Port (List (String × Bool)) Bool

abbrev holds : (Event → Bool) → List Event → Bool
holds f [] = false
holds f (e ∷ es) = f e || holds f es

-- Of events that are the same, the last one.
abbrev distinct : (Event → Event → Bool) → List Event → List Event
distinct is_same [] = []
distinct is_same (e ∷ es) =
    let rest = distinct is_same es in elim (holds (is_same e) es) [ true ↦ rest | false ↦ e ∷ rest ]

abbrev env : Env Bool Bool Bool
env = record {
  is_true = λ b. b;
  deep_equals = same;
  text_of = λ b. "Name";
  wrap_label = λ t. t;
  filter_object = filter_object;
  slaves_enabled = false;
  find_value = λ f o. none;
  distinct = distinct;
}

abbrev port : String → Option Bool → Input
port id value = record { id = id; value = value; last_sync = some 100; attrs = [] }

abbrev before : List (String × Input)
before = ("door", port "door" (some true)) ∷ ("lamp", port "lamp" (some false)) ∷ []

abbrev cache_with : Bool → Option (List (String × Input)) → CacheState Bool Bool Bool
cache_with ready ports = record {
  cache_ready = ready;
  main_device = some true;
  slave_devices = none;
  all_ports = ports;
  reload_needed = false;
}

abbrev state : Bool → List Event → Events Bool Bool Bool
state ready waiting = record {
  events_bulk = waiting;
  is_scheduled = false;
  cache = cache_with ready (some before);
}

abbrev opened : Event
opened = record { expected = false; content = port_event (value_change "door" (some false)) }

abbrev lit : Event
lit = record { expected = true; content = port_event (value_change "lamp" (some true)) }

abbrev everything : Event
everything = record { expected = false; content = full_update }

abbrev is_first : Bool → Bool
is_first b = b

-- The first event comes before the cache is ready; the call that it would schedule is not made.
abbrev late : List (Action Bool Bool Bool)
late =
    receive opened
    ∷ timer_ends
    ∷ cache_loaded (cache_with true (some before))
    ∷ receive lit
    ∷ timer_ends
    ∷ receive everything
    ∷ []

late-told :
    let (calls, t) = run env 120 (true ∷ false ∷ []) late (state false []) in
    (told is_first calls ≡ opened ∷ lit ∷ []) × (t.events_bulk ≡ everything ∷ [])
unfolding run told show_message_from_events update_from_event
late-told = (refl, refl)

told_in_order_example :
    let (calls, t) = run env 120 (true ∷ false ∷ []) late (state false []) in
    told is_first calls ++ t.events_bulk ≡ [] ++ received late
told_in_order_example =
    told_in_order env 120 (true ∷ false ∷ []) is_first true refl late (state false [])

-- Slave devices are enabled, and there are none.
abbrev with_slaves : Env Bool Bool Bool
with_slaves = record env { slaves_enabled = true }

abbrev loaded : List Event → Events Bool Bool Bool
loaded waiting = record {
  events_bulk = waiting;
  is_scheduled = false;
  cache = record (cache_with true (some before)) { slave_devices = some [] };
}

processed_soon_example :
    let (calls, t) =
      run with_slaves 120
        (true ∷ false ∷ [])
        (map receive (lit ∷ []) ++ receive everything ∷ timer_ends ∷ [])
        (loaded (opened ∷ [])) in
    (told is_first calls ≡ (opened ∷ []) ++ ((lit ∷ []) ++ everything ∷ [])) × (t.events_bulk ≡ [])
processed_soon_example =
    processed_soon with_slaves 120 (true ∷ false ∷ []) before [] everything is_first true refl
      (lit ∷ []) (loaded (opened ∷ [])) refl refl refl

abbrev listed : List Input
listed = port "lamp" (some true) ∷ port "tap" none ∷ []

abbrev makes : List (Bool × PortEvent (List (String × Bool)) Bool)
makes =
    map (λ p. (false, p))
      ((ports_loaded same (ports_equal same_attrs same_attrs-Compares) filter_object as_given listed
        (record { cache_ready = true; all_ports = some before })).0)

before-Keyed : Keyed id_of before
unfolding Keyed
before-Keyed = (refl, (refl, tt))

before-Distinct : Distinct before
unfolding Distinct
before-Distinct = ((refl, tt), (tt, tt))

listed-Distinct : Distinct (port_entries listed)
unfolding Distinct port_entries
listed-Distinct = ((refl, tt), (tt, tt))

ports_arrive_example :
    get_port "lamp" (
      of_cache (
        (run env 120
          (true ∷ false ∷ [])
          (map receive (map fake makes) ++ timer_ends ∷ [])
          (state true [])).1.cache))
    ≡ some (record { id = "lamp"; value = some true; last_sync = some 120; attrs = [] })
unfolding synced port_entries with_value value_differs ports_loaded
ports_arrive_example =
    ports_arrive env 120 (true ∷ false ∷ []) before same same-Compares
      (ports_equal same_attrs same_attrs-Compares)
      (ports_equal-Compares same_attrs same_attrs-Compares) filter_object filter_object-Filters
      as_given (as_given-Gathers id_of) listed makes (state true []) refl refl refl before-Keyed
      before-Distinct listed-Distinct refl "lamp"

holds-Different :
    (is_same : Event → Event → Bool) (x : Event) (ys : List Event)
    → All (λ y. (is_same x y ≡ false) × (is_same y x ≡ false)) ys
    → holds (is_same x) ys ≡ false
holds-Different is_same x [] h = refl
holds-Different is_same x (y ∷ ys) h = rw (h.0.0, holds-Different is_same x ys h.1) refl

distinct-Different :
    (is_same : Event → Event → Bool) (xs : List Event)
    → Different is_same xs
    → distinct is_same xs ≡ xs
unfolding Different
distinct-Different is_same [] h = refl
distinct-Different is_same (x ∷ xs) h =
    rw (distinct, holds-Different is_same x xs h.0)
      (ap (λ es. x ∷ es) (distinct-Different is_same xs h.1))

distinct-Distincts : Distincts distinct
distinct-Distincts = record { leaves = distinct-Different }

added_together_example :
    show_message_from_events env
      (map added ((false, port "tap" none) ∷ (true, port "bell" none) ∷ []))
      (cache_with true (some before))
    ≡ some (some (many 2))
unfolding DifferentIds find_port_slave_device
added_together_example =
    added_together env (cache_with true (some before)) none (false, port "tap" none)
      (true, port "bell" none) [] distinct-Distincts (refl, (refl, tt)) ((refl, tt), (tt, tt))
