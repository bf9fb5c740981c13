-- ===== src/Events/Bulk/Loaded.antt =====
-- The ports that the server lists reach the cache through fake events.
use qtoggleserver.Base.{
  ℕ, ◌≡◌, refl, sym, ◌∙◌, ap, Bool, true, false, Option, none, some, List, [], ◌∷◌, ◌++◌, map,
  if◌then◌else◌, String, get_value, filter, not, All, Bool-cases, inl, inr,
}
use mathlib.Core.Path.{ap₂}
use mathlib.Core.Bool.{false≢true}
use mathlib.Core.List.{append_assoc, append-nil}
use text.Mathlib.Text.{◌==◌ as str_eq}
use qtoggleserver.Notifications.Expected.Settle.{Filters}
use qtoggleserver.Cache.Reconcile.{Gathers, Compares}
use qtoggleserver.Cache.Runs.{Distinct, Keyed}
use qtoggleserver.Cache.State.{port_event, update_from_event}
use qtoggleserver.Cache.Ports.{
  Port, PortCache, PortEvent, update_from_port_event, update_from_port_events, get_port,
  port_entries, ports_loaded,
}
use qtoggleserver.Cache.Ports.Reconcile.{id_of, synced, ports_reconcile}
use qtoggleserver.Events.Attributes.{Device, ServerEvent, is_expected_update}
use qtoggleserver.Events.Messages.{Env, event_message, show_message_from_events}
use qtoggleserver.Events.Bulk.{
  CacheState, Events, Call, receive, timer_ends, on_event, process_events, process_events_bulk,
  step, run,
}
use qtoggleserver.Events.Bulk.Soon.{Returns, message_loop-Returns, port_message-Returns}

-- A fake event about a port, expected or not.
abbrev pub fake : {M W V : Type 0} → Bool × PortEvent (List (String × W)) V → ServerEvent M W V
fake (x, p) = record { expected = x; content = port_event p }

abbrev pub of_cache : {M W V : Type 0} → CacheState M W V → PortCache (List (String × W)) V
of_cache c = record { cache_ready = c.cache_ready; all_ports = c.all_ports }

abbrev port_cache :
    {W V : Type 0}
    → Bool
    → Option (List (String × Port (List (String × W)) V))
    → PortCache (List (String × W)) V
port_cache b o = record { cache_ready = b; all_ports = o }

module _ {M W V : Type 0} (now : ℕ) where
  by_fields :
      (p : PortEvent (List (String × W)) V) (m : Option M)
      (devices : Option (List (String × Device W))) (r b : Bool)
      (ports : Option (List (String × Port (List (String × W)) V)))
      → let c : CacheState M W V = record {
        cache_ready = b;
        main_device = m;
        slave_devices = devices;
        all_ports = ports;
        reload_needed = r;
      } in
        of_cache ((update_from_event (λ (d : Device W). d.name) now (port_event p) c).1)
        ≡ update_from_port_event now p (of_cache c)
  unfolding update_from_event update_from_port_event
  by_fields p m devices r true none = refl
  by_fields p m devices r true (some o) = refl
  by_fields p m devices r false ports = refl

  of_cache-update :
      (p : PortEvent (List (String × W)) V) (c : CacheState M W V)
      → of_cache ((update_from_event (λ (d : Device W). d.name) now (port_event p) c).1)
        ≡ update_from_port_event now p (of_cache c)
  of_cache-update p c =
      by_fields p c.main_device c.slave_devices c.reload_needed c.cache_ready c.all_ports

module _ {M W V S : Type 0} (env : Env M W V) (now : ℕ) (sections : List S) where
  of_cache-process :
      (xs : List (Bool × PortEvent (List (String × W)) V)) (c : CacheState M W V)
      → of_cache ((process_events env now sections (map fake xs) c).1)
        ≡ update_from_port_events now (map (λ x. x.1) xs) (of_cache c)
  unfolding process_events update_from_port_events
  of_cache-process [] c = refl
  of_cache-process (x ∷ xs) c =
      of_cache-process xs ((update_from_event (λ (d : Device W). d.name) now (port_event x.1) c).1)
      ∙ ap (update_from_port_events now (map (λ x. x.1) xs)) (of_cache-update now x.1 c)

  fakes_shown :
      (xs : List (Bool × PortEvent (List (String × W)) V))
      → (ys : List (Bool × PortEvent (List (String × W)) V)) × (filter
            (λ e. not (is_expected_update e))
            (map (fake {M = M}) xs)
          ≡ map fake ys)
  fakes_shown [] = ([], refl)
  fakes_shown (x ∷ xs) =
      let (ys, h) = fakes_shown xs in
      elim (Bool-cases (is_expected_update (fake {M = M} x))) [
        | inl e ↦ (ys, rw e h)
        | inr e ↦ (x ∷ ys, rw e (ap (λ es. fake x ∷ es) h))
      ]

  all_fake :
      (c : CacheState M W V) (ports : List (String × Port (List (String × W)) V))
      → c.all_ports ≡ some ports
      → (events : List (ServerEvent M W V)) (ys : List (Bool × PortEvent (List (String × W)) V))
      → All (λ e. Returns (event_message env events c e)) (map fake ys)
  all_fake c ports p events [] = tt
  all_fake c ports p events (y ∷ ys) =
      (port_message-Returns env c ports p events y.0 y.1, all_fake c ports p events ys)

  -- With ports loaded, events about ports show a message or none.
  fakes-Returns :
      (c : CacheState M W V) (ports : List (String × Port (List (String × W)) V))
      → c.all_ports ≡ some ports
      → (xs : List (Bool × PortEvent (List (String × W)) V))
      → Returns (show_message_from_events env (map fake xs) c)
  unfolding show_message_from_events
  fakes-Returns c ports p xs =
      let (ys, h) = fakes_shown xs in
      rw h (
        message_loop-Returns env c (map fake ys) (map fake ys) none
          (all_fake c ports p (map fake ys) ys))

  of_cache-bulk :
      (s : Events M W V)
      → Returns (show_message_from_events env s.events_bulk s.cache)
      → of_cache ((process_events_bulk env now sections s).1.cache)
        ≡ of_cache ((process_events env now sections s.events_bulk s.cache).1)
  unfolding process_events_bulk
  of_cache-bulk s r = let (m, h) = r in rw (h, process_events_bulk) refl

  fires :
      (b : Bool) (x y : List (Call M W V S) × Events M W V)
      → (b ≡ false → of_cache (x.1.cache) ≡ of_cache (y.1.cache))
      → of_cache ((if b then x else y).1.cache) ≡ of_cache (x.1.cache)
  fires true x y h = refl
  fires false x y h = sym (h refl)

  same_cache :
      (b : Bool) (o : Option (List (String × Port (List (String × W)) V)))
      {ports : List (String × Port (List (String × W)) V)}
      → b ≡ true
      → o ≡ some ports
      → port_cache b o ≡ port_cache true (some ports)
  same_cache b o h g = ap₂ port_cache h g

  of_cache-timer :
      (s : Events M W V)
      → Returns (show_message_from_events env s.events_bulk s.cache)
      → (s.is_scheduled ≡ false → s.events_bulk ≡ [])
      → of_cache ((step env now sections timer_ends s).1.cache)
        ≡ of_cache ((process_events env now sections s.events_bulk s.cache).1)
  unfolding step
  of_cache-timer s r e =
      let bulk = of_cache-bulk s r in
      fires s.is_scheduled (process_events_bulk env now sections s) ([], s)
        (λ h.
          bulk
          ∙ ap (λ es. of_cache ((process_events env now sections es s.cache).1)) (e h)
          ∙ unfold process_events in refl)
      ∙ bulk

  -- After the events and the call, the cache is as if the events were processed one by one.
  of_cache-run :
      (es : List (ServerEvent M W V)) (s : Events M W V)
      → s.cache.cache_ready ≡ true
      → Returns (show_message_from_events env (s.events_bulk ++ es) s.cache)
      → (s.is_scheduled ≡ false → s.events_bulk ≡ [])
      → of_cache ((run env now sections (map receive es ++ timer_ends ∷ []) s).1.cache)
        ≡ of_cache ((process_events env now sections (s.events_bulk ++ es) s.cache).1)
  unfolding run
  of_cache-run [] s b r e =
      of_cache-timer s (rw (sym (append-nil s.events_bulk)) r) e
      ∙ ap (λ es. of_cache ((process_events env now sections es s.cache).1))
          (sym (append-nil s.events_bulk))
  of_cache-run (x ∷ es) s b r e =
      of_cache-run es (on_event x s) (unfold on_event in b)
        (unfold on_event in rw (append_assoc s.events_bulk (x ∷ []) es) r)
        (λ h. absurd (false≢true (sym (unfold on_event in h) ∙ b)))
      ∙ ap
          (λ (l : List (ServerEvent M W V)).
            of_cache ((process_events env now sections l s.cache).1))
          (append_assoc s.events_bulk (x ∷ []) es)

  module _ (ports : List (String × Port (List (String × W)) V)) where
    module _ (same : V → V → Bool) (same_values : Compares same)
        (deep_equals : Port (List (String × W)) V → Port (List (String × W)) V → Bool)
        (compares : Compares deep_equals)
        (filter_ports : (String → Port (List (String × W)) V → Bool)
          → List (String × Port (List (String × W)) V)
          → List (String × Port (List (String × W)) V))
        (filters : Filters filter_ports)
        (from_entries : List (String × Port (List (String × W)) V)
          → List (String × Port (List (String × W)) V))
        (gathers : Gathers (λ (p : Port (List (String × W)) V). p.id) from_entries) where
      -- When the server lists its ports again while the cache is ready, with ports loaded whose ids
      -- are different, as those of the list are, and no events wait, and the fake events that
      -- `loadPorts` makes come as server events, expected or not, then the call that they schedule
      -- brings the cache to what the server lists, up to the time of the last synchronization: under
      -- every id stands the port that the server lists, with the current time as that of its last
      -- synchronization where the cache had another value of it and it has one now, and an id that
      -- is not listed has no port.
      pub ports_arrive :
          (listed : List (Port (List (String × W)) V))
          (xs : List (Bool × PortEvent (List (String × W)) V)) (s : Events M W V)
          → s.cache.cache_ready ≡ true
          → s.cache.all_ports ≡ some ports
          → s.events_bulk ≡ []
          → Keyed id_of ports
          → Distinct ports
          → Distinct (port_entries listed)
          → map (λ x. x.1) xs
            ≡ (ports_loaded same deep_equals filter_ports from_entries listed
                (record { cache_ready = true; all_ports = some ports })).0
          → (k : String)
          → get_port k (
              of_cache
                ((run env now sections (map receive (map fake xs) ++ timer_ends ∷ []) s).1.cache))
            ≡ elim (get_value str_eq k (port_entries listed)) [
              | none ↦ none
              | some p ↦ some (synced same now (get_value str_eq k ports) p)
            ]
      unfolding ports_loaded
      ports_arrive listed xs s r p b kp dp dl e k =
          ap (get_port k) (
            of_cache-run (map fake xs) s r (rw b (fakes-Returns s.cache ports p xs)) (λ h. b)
            ∙ ap (λ es. of_cache ((process_events env now sections (es ++ map fake xs) s.cache).1))
                b
            ∙ of_cache-process xs s.cache
            ∙ ap (λ es. update_from_port_events now es (of_cache s.cache)) e
            ∙ ap
                (λ c.
                  update_from_port_events now
                    ((ports_loaded same deep_equals filter_ports from_entries listed
                      (record { cache_ready = true; all_ports = some ports })).0)
                    c)
                (same_cache s.cache.cache_ready s.cache.all_ports r p))
          ∙ ports_reconcile same same_values deep_equals compares filter_ports filters from_entries
              gathers now ports listed kp dp dl k
