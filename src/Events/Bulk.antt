-- ===== src/Events/Bulk.antt =====
-- How events are gathered and processed in qtoggleserver/frontend/js/events.js: the event listener
-- of `init` and `processEventsBulk`. `S` stands for the sections of the application, which are told
-- of each event. `asap` makes one call of `processEventsBulk`, which a later event replaces; an
-- exception of the first round ends that call. `now` is the clock, for the cache.
pub mod Order
pub mod Soon
pub mod Loaded
mod Tests
use qtoggleserver.Base.{
  ℕ, Bool, true, false, Option, none, some, List, [], ◌∷◌, ◌++◌, map, if◌then◌else◌, String,
}
use qtoggleserver.Cache.State.{State, Effect, update_from_event}
use qtoggleserver.Events.Attributes.{Device, ServerEvent, Message}
use qtoggleserver.Events.Messages.{Env, show_message_from_events}

-- The cache, with the attributes of ports and slave devices as lists.
abbrev pub CacheState : (M W V : Type 0) → Type 0
CacheState M W V = State M (Device W) (List (String × W)) V

-- `eventsBulk`, whether `eventsBulkTimeoutHandle` stands for a call to come, and the cache.
pub record Events (M W V : Type 0) : Type 0 where
  pub events_bulk : List (ServerEvent M W V)
  pub is_scheduled : Bool
  pub cache : CacheState M W V

-- What processing calls: the message, parts of the cache, and sections with an event.
pub data Call (M W V S : Type 0) : Type 0 where
  show_toast : Message → Call M W V S
  ask : Effect → Call M W V S
  on_server_event : S → ServerEvent M W V → Call M W V S

pub data Action (M W V : Type 0) : Type 0 where
  receive : ServerEvent M W V → Action M W V
  timer_ends : Action M W V
  cache_loaded : CacheState M W V → Action M W V

-- The listener.
unfoldable pub on_event : {M W V : Type 0} → ServerEvent M W V → Events M W V → Events M W V
on_event e s = record s {
  events_bulk = s.events_bulk ++ e ∷ [];
  is_scheduled = s.cache.cache_ready;
}

abbrev pub toast : {M W V S : Type 0} → Option Message → List (Call M W V S)
toast none = []
toast (some m) = show_toast m ∷ []

module _ {M W V S : Type 0} (env : Env M W V) (now : ℕ) (sections : List S) where
  -- The second round of `processEventsBulk`.
  unfoldable pub process_events :
      List (ServerEvent M W V) → CacheState M W V → List (Call M W V S) × CacheState M W V
  process_events [] c = ([], c)
  process_events (e ∷ rest) c =
      let (effects, d) = update_from_event (λ (x : Device W). x.name) now e.content c in
      let (calls, f) = process_events rest d in
      (map ask effects ++ (map (λ s. on_server_event s e) sections ++ calls), f)

  unfoldable pub process_events_bulk : Events M W V → List (Call M W V S) × Events M W V
  unfolding process_events
  process_events_bulk s = elim (show_message_from_events env s.events_bulk s.cache) [
    | none ↦ ([], record s { is_scheduled = false })
    | some m ↦
        let (calls, c) = process_events s.events_bulk s.cache in
        (toast m ++ calls, record { events_bulk = []; is_scheduled = false; cache = c })
  ]

  -- One thing that happens: an event, the call that was scheduled, or a change of the cache by its
  -- loading.
  unfoldable pub step : Action M W V → Events M W V → List (Call M W V S) × Events M W V
  unfolding process_events_bulk on_event
  step (receive e) s = ([], on_event e s)
  step timer_ends s = if s.is_scheduled then process_events_bulk s else ([], s)
  step (cache_loaded c) s = ([], record s { cache = c })

  unfoldable pub run : List (Action M W V) → Events M W V → List (Call M W V S) × Events M W V
  unfolding step
  run [] s = ([], s)
  run (a ∷ rest) s = let (first, t) = step a s in let (later, u) = run rest t in (first ++ later, u)
