-- ===== src/Notifications/Listen.antt =====
-- The listening mechanism of qtoggleserver/frontend/js/api/notifications.js: `wait`, with the
-- handlers of its request's two outcomes, `startListening`, `stopListening` and the flags. A
-- request in flight remembers the `listeningTime` at which it was sent (`requestListeningTime`); a
-- call of `wait` that `asap` or `setTimeout` will make is a timer, in milliseconds.
pub mod Chains
pub mod Reconnect
use qtoggleserver.Base.{
  ℕ, zero, suc, ◌+◌, ◌*◌, Bool, true, false, ◌||◌, ◌&&◌, Option, none, some, List, [], ◌∷◌, ◌++◌,
  map, leb, ◌==◌, if◌then◌else◌, pick,
}

pub record Request : Type 0 where
  pub listening_time : Option ℕ
  pub timeout : ℕ
  pub server_timeout : ℕ

-- The variables of the module. `E` stands for errors, `C` for the functions that are told of the
-- outcome of each request.
pub record Listen (E C : Type 0) : Type 0 where
  pub listening_time : Option ℕ
  pub listen_error_count : ℕ
  pub ignore_listen_errors : Bool
  pub sync_listen_error : Option E
  pub sync_listen_callbacks : List C
  pub requests : List Request
  pub timers : List ℕ

-- What a handler calls: a function with nothing or with an error and the seconds until the next
-- request, and `handleServerEvent`.
pub data Effect (E C D : Type 0) : Type 0 where
  call : C → Option (E × ℕ) → Effect E C D
  handle_server_event : D → Effect E C D

abbrev pub listen_keepalive : ℕ
listen_keepalive = 60

abbrev pub fast_reconnect_listen_errors : ℕ
fast_reconnect_listen_errors = 2

abbrev pub server_retry_interval : ℕ
server_retry_interval = 3

abbrev pub default_server_timeout : ℕ
default_server_timeout = 10

-- `===` on values of `listeningTime`.
abbrev pub same_time : Option ℕ → Option ℕ → Bool
same_time none none = true
same_time none (some b) = false
same_time (some a) none = false
same_time (some a) (some b) = a == b

abbrev pub is_set {ℓ} : {A : Type ℓ} → Option A → Bool
is_set none = false
is_set (some a) = true

-- `Boolean(listeningTime)`
abbrev pub is_time : Option ℕ → Bool
is_time none = false
is_time (some zero) = false
is_time (some (suc n)) = true

-- The seconds until the next request, `listenErrorCount` being `count`.
unfoldable pub reconnect_seconds : ℕ → ℕ
reconnect_seconds count =
    if leb count fast_reconnect_listen_errors then 1 else server_retry_interval

pub data Action (E D : Type 0) : Type 0 where
  start_listening : ℕ → Action E D
  stop_listening : Action E D
  set_ignore_listen_errors : Bool → Action E D
  timer_ends : ℕ → Action E D
  request_succeeds : ℕ → List D → Action E D
  request_fails : ℕ → E → Action E D

module _ {E C : Type 0} where
  unfoldable pub wait : Bool → Listen E C → Listen E C
  wait first_quick s =
      let timeout = if is_set s.sync_listen_error || first_quick then 1 else listen_keepalive in
      record s {
        requests =
            record {
              listening_time = s.listening_time;
              timeout = timeout;
              server_timeout = timeout + default_server_timeout;
            }
            ∷ s.requests;
      }

  -- `startListening`, which throws an error when listening is on already.
  unfoldable pub start : ℕ → Listen E C → Option (Listen E C)
  unfolding wait
  start now s =
      if is_time s.listening_time
      then none
      else some (wait true (record s { listening_time = some now }))

  unfoldable pub stop : Listen E C → Listen E C
  stop s = record s { listening_time = none }

  unfoldable pub is_listening : Listen E C → Bool
  is_listening s = is_time s.listening_time

  unfoldable pub is_connected : Listen E C → Bool
  unfolding is_listening
  is_connected s = is_listening s && (if is_set s.sync_listen_error then false else true)

module _ {E C D : Type 0} where
  -- The handler of `then`.
  unfoldable pub on_result : Request → List D → Listen E C → List (Effect E C D) × Listen E C
  on_result r result s =
      if same_time s.listening_time r.listening_time
      then (
        map (λ c. call c none) s.sync_listen_callbacks ++ map handle_server_event result,
        record s { timers = 0 ∷ s.timers; sync_listen_error = none; listen_error_count = 0 },
      )
      else ([], s)

  -- The handler of `catch`.
  unfoldable pub on_error : Request → E → Listen E C → List (Effect E C D) × Listen E C
  unfolding reconnect_seconds
  on_error r error s =
      if same_time s.listening_time r.listening_time
      then (if s.ignore_listen_errors
          then ([], record s { timers = server_retry_interval * 1000 ∷ s.timers })
          else (let seconds = reconnect_seconds (suc s.listen_error_count) in
              (
                map (λ c. call c (some (error, seconds))) s.sync_listen_callbacks,
                record s {
                  sync_listen_error = some error;
                  listen_error_count = suc s.listen_error_count;
                  timers = seconds * 1000 ∷ s.timers;
                },
              )))
      else ([], s)

  -- One thing that happens. A timer or a request that is not there does nothing.
  unfoldable pub step : Action E D → Listen E C → List (Effect E C D) × Listen E C
  unfolding start stop wait on_result on_error
  step (start_listening now) s = elim (start now s) [ none ↦ ([], s) | some q ↦ ([], q) ]
  step stop_listening s = ([], stop s)
  step (set_ignore_listen_errors ignore) s = ([], record s { ignore_listen_errors = ignore })
  step (timer_ends i) s = elim (pick i s.timers) [
    | none ↦ ([], s)
    | some (d, rest) ↦ ([], wait false (record s { timers = rest }))
  ]
  step (request_succeeds i result) s = elim (pick i s.requests) [
    | none ↦ ([], s)
    | some (r, rest) ↦ on_result r result (record s { requests = rest })
  ]
  step (request_fails i error) s = elim (pick i s.requests) [
    | none ↦ ([], s)
    | some (r, rest) ↦ on_error r error (record s { requests = rest })
  ]

  unfoldable pub run : List (Action E D) → Listen E C → Listen E C
  unfolding step
  run [] s = s
  run (a ∷ rest) s = run rest (step a s).1
