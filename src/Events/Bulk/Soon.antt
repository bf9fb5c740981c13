-- ===== src/Events/Bulk/Soon.antt =====
-- Events are processed as soon as the call that they schedule is made.
use qtoggleserver.Base.{
  ℕ, ◌≡◌, refl, sym, ◌∙◌, ap, Bool, true, not, if◌then◌else◌, Option, none, some, List, [], ◌∷◌,
  ◌++◌, map, String, filter, Option-cases, inl, inr, All,
}
use mathlib.Core.List.{append-nil}
use qtoggleserver.Cache.{slave_device_update, slave_device_add, slave_device_remove}
use qtoggleserver.Cache.Ports.{Port, PortEvent, value_change, port_update, port_add, port_remove}
use qtoggleserver.Cache.State.{
  CacheEvent, slave_device_event, port_event, device_update, full_update, other_event,
}
use qtoggleserver.Events.Attributes.{Device, ServerEvent, Message, is_expected_update}
use qtoggleserver.Events.Messages.{Env, event_message, message_loop, show_message_from_events}
use qtoggleserver.Events.Bulk.{
  CacheState, Events, Call, Action, receive, timer_ends, on_event, process_events_bulk, step, run,
}
use qtoggleserver.Events.Bulk.Order.{told, received, told_in_order}

abbrev pub Returns : Option (Option Message) → Type 0
Returns r = (m : Option Message) × (r ≡ some m)

module _ {M W V : Type 0} where
  module _ (env : Env M W V) (c : CacheState M W V) where
    -- The loop ends when no message of its events is an exception.
    pub message_loop-Returns :
        (events rest : List (ServerEvent M W V)) (m : Option Message)
        → All (λ e. Returns (event_message env events c e)) rest
        → Returns (message_loop env events c rest m)
    unfolding message_loop
    message_loop-Returns events [] m a = (m, refl)
    message_loop-Returns events (e ∷ rest) m a =
        let (n, h) = a.0 in
        rw (h, message_loop)
          (elim (Option-cases n) [
            | inr g ↦ rw g (message_loop-Returns events rest m a.1)
            | inl (v, g) ↦ rw g (message_loop-Returns events rest (some v) a.1)
          ])

    -- With ports loaded, no event about a port ends the round by an exception.
    pub port_message-Returns :
        (ports : List (String × Port (List (String × W)) V))
        → c.all_ports ≡ some ports
        → (events : List (ServerEvent M W V)) (x : Bool) (k : PortEvent (List (String × W)) V)
        → Returns (event_message env events c (record { expected = x; content = port_event k }))
    unfolding event_message
    port_message-Returns ports p events x (value_change k v) = (_, refl)
    port_message-Returns ports p events x (port_update q) = rw p (_, refl)
    port_message-Returns ports p events x (port_add q) = (_, refl)
    port_message-Returns ports p events x (port_remove k) = rw p (_, refl)

  module _ (env : Env M W V) (c : CacheState M W V)
      (ports : List (String × Port (List (String × W)) V)) (devices : List (String × Device W))
      (p : c.all_ports ≡ some ports) (d : c.slave_devices ≡ some devices) where
    -- With ports and slave devices loaded, no event ends the round by an exception.
    event_message-Returns :
        (events : List (ServerEvent M W V)) (x : Bool)
        (k : CacheEvent M (Device W) (List (String × W)) V)
        → Returns (event_message env events c (record { expected = x; content = k }))
    unfolding event_message
    event_message-Returns events x (slave_device_event (slave_device_update new)) = rw d (_, refl)
    event_message-Returns events x (slave_device_event (slave_device_add new)) = (_, refl)
    event_message-Returns events x (slave_device_event (slave_device_remove k)) = rw d (_, refl)
    event_message-Returns events x (port_event k) = port_message-Returns env c ports p events x k
    event_message-Returns events x (device_update m) = (_, refl)
    event_message-Returns events x full_update = (_, refl)
    event_message-Returns events x other_event = (_, refl)

    all-Returns :
        (events rest : List (ServerEvent M W V))
        → All (λ e. Returns (event_message env events c e)) rest
    all-Returns events [] = tt
    all-Returns events (e ∷ rest) =
        (event_message-Returns events e.expected e.content, all-Returns events rest)

    pub show_message_from_events-Returns :
        (events : List (ServerEvent M W V)) → Returns (show_message_from_events env events c)
    unfolding show_message_from_events
    show_message_from_events-Returns events =
        let shown = filter (λ e. not (is_expected_update e)) events in
        message_loop-Returns env c shown shown none (all-Returns shown shown)

  received-map :
      (es : List (ServerEvent M W V)) (rest : List (Action M W V))
      → received (map receive es ++ rest) ≡ es ++ received rest
  unfolding received
  received-map [] rest = refl
  received-map (e ∷ es) rest = ap (λ xs. e ∷ xs) (received-map es rest)

module _ {M W V S : Type 0} (env : Env M W V) (now : ℕ) (sections : List S) where
  empties :
      (s : Events M W V)
      → Returns (show_message_from_events env s.events_bulk s.cache)
      → (process_events_bulk env now sections s).1.events_bulk ≡ []
  unfolding process_events_bulk
  empties s r = let (m, h) = r in rw (h, process_events_bulk) refl

  fires :
      (b : Bool) (x y : List (Call M W V S) × Events M W V)
      → b ≡ true
      → (if b then x else y).1.events_bulk ≡ x.1.events_bulk
  fires b x y h = rw h refl

  module _ (ports : List (String × Port (List (String × W)) V)) (devices : List (String × Device W))
      (e : ServerEvent M W V) where
    nothing_waits :
        (es : List (ServerEvent M W V)) (s : Events M W V)
        → s.cache.cache_ready ≡ true
        → s.cache.all_ports ≡ some ports
        → s.cache.slave_devices ≡ some devices
        → (run env now sections (map receive es ++ receive e ∷ timer_ends ∷ []) s).1.events_bulk
          ≡ []
    unfolding run step on_event
    nothing_waits [] s r p d =
        let t = on_event e s in
        fires s.cache.cache_ready _ _ r
        ∙ empties t (show_message_from_events-Returns env s.cache ports devices p d t.events_bulk)
    nothing_waits (f ∷ es) s r p d = nothing_waits es (on_event f s) r p d

    -- Once the cache is ready, with ports and slave devices loaded, all events that have come are
    -- processed by the one call that the last of them schedules: a section is told of all of them,
    -- also of those that came before the cache was ready, in their order, and none is left.
    pub processed_soon :
        (is : S → Bool) (one : S)
        → filter is sections ≡ one ∷ []
        → (es : List (ServerEvent M W V)) (s : Events M W V) → s.cache.cache_ready ≡ true
        → s.cache.all_ports ≡ some ports
        → s.cache.slave_devices ≡ some devices
        → let (calls, t) = run env now sections (map receive es ++ receive e ∷ timer_ends ∷ []) s in
          (told is calls ≡ s.events_bulk ++ (es ++ e ∷ [])) × (t.events_bulk ≡ [])
    unfolding received
    processed_soon is one only es s r p d =
        let actions = map receive es ++ receive e ∷ timer_ends ∷ [] in
        let (calls, t) = run env now sections actions s in
        let nothing = nothing_waits es s r p d in
        (
          sym (append-nil (told is calls))
              ∙ ap (λ xs. told is calls ++ xs) (sym nothing)
              ∙ told_in_order env now sections is one only actions s
              ∙ ap (λ xs. s.events_bulk ++ xs) (received-map es (receive e ∷ timer_ends ∷ [])),
          nothing,
        )
