-- ===== src/Notifications/Tests.antt =====
-- Runs of the notifications' operations, and their theorems at concrete inputs.

use qtoggleserver.Samples.{find_first, find_first-Finds}
use qtoggleserver.Base.{
  ℕ, suc, ◌+◌, ◌≡◌, ◌≤◌, ◌⊎◌, refl, Bool, true, false, none, some, List, [], ◌∷◌, map, arith, ◌==◌,
  filter, All, get_value, delete_key,
}
use qtoggleserver.Notifications.Listen.{
  Request, Listen, timer_ends, request_succeeds, request_fails, stop_listening, start_listening,
}
use qtoggleserver.Notifications.Listen as Poll
use qtoggleserver.Notifications.Listen.Chains.{chains, Ongoing, run-chains, restart_doubles}
use qtoggleserver.Notifications.Expected.{
  lookup_expected_event_handle, expect, Event, EventSpec, Expected, handle_server_event, event,
  expect, wait_for, receive, clean_up, run,
}
use qtoggleserver.Notifications.Expected.Deadline.{AllDue, Expires, settles_in_time}
use qtoggleserver.Notifications.Expected.Settle.{Filters, settled, waits}
use qtoggleserver.Notifications.Expected.Account.{begun, run-balances}
use qtoggleserver.Notifications.Expected.Match.{Agrees, handle_server_event_lem}
use qtoggleserver.Notifications.Expected.Keys.{Keys, Distinct}
use qtoggleserver.Notifications.Expected.Handles.{IsNumbered}

-- A request that was sent at time 5 is in flight.
abbrev sent : Request
sent = record { listening_time = some 5; timeout = 1; server_timeout = 11 }

abbrev waiting : Listen ℕ ℕ
waiting = record {
  listening_time = some 5;
  listen_error_count = 0;
  ignore_listen_errors = false;
  sync_listen_error = none;
  sync_listen_callbacks = 1 ∷ [];
  requests = sent ∷ [];
  timers = [];
}

run-chains_example :
    chains
      (Poll.run {D = ℕ} (request_fails 0 7 ∷ timer_ends 0 ∷ request_succeeds 0 [] ∷ []) waiting)
    ≡ chains waiting
unfolding Ongoing
run-chains_example =
    run-chains (request_fails 0 7 ∷ timer_ends 0 ∷ request_succeeds 0 [] ∷ []) waiting
      (tt, (tt, (tt, tt)))

-- A timer is pending when listening stops and starts again.
abbrev between : Listen ℕ ℕ
between = record waiting { requests = []; timers = 1000 ∷ [] }

restart_doubles_example :
    chains (Poll.run {D = ℕ} (stop_listening ∷ start_listening 9 ∷ []) between) ≡ suc 1
restart_doubles_example = restart_doubles ℕ 9 between (omega arith) refl

module _ {K A : Type 0} where
  abbrev filter_object : (K → A → Bool) → List (K × A) → List (K × A)
  filter_object f o = filter (λ e. f e.0 e.1) o

filter_object-Filters : {K A : Type 0} → Filters (filter_object {K = K} {A = A})
filter_object-Filters = record { kept = λ f o. refl }

abbrev one_spec : EventSpec ℕ
one_spec = record {
  type = some "value-change";
  params = some (("id", 3) ∷ []);
  added = 10;
  timeout = 1000;
  handlers = 4 ∷ [];
}

abbrev expected : Expected ℕ
expected = record { specs = (1, one_spec) ∷ []; last_handle = 1 }

abbrev change : Event ℕ
change = record {
  type = "value-change";
  params = ("value", 1) ∷ ("id", 3) ∷ [];
  session_id = none;
  expected = false;
  fake = false;
}

settles_in_time_example :
    let (out, q) =
      run ◌==◌ filter_object find_first filter_object
        (expect (some "port-add") none (some 500) 900 ∷ clean_up 99000 ∷ [])
        expected in
    (waits 4 q ≡ 0) × (waits 4 expected ≤ settled 4 out)
unfolding AllDue Expires
settles_in_time_example =
    settles_in_time ◌==◌ filter_object find_first filter_object filter_object-Filters 99000 4
      (expect (some "port-add") none (some 500) 900 ∷ []) expected (omega arith, tt)
      (omega arith, tt)

-- That event is the expected one, and settles the promise.
meets : handle_server_event ◌==◌ filter_object find_first {C = ℕ} change (8 ∷ []) expected ≡ (
  (8, record change { expected = true }) ∷ [],
  ((4, event (record change { expected = true })) ∷ [], record { specs = []; last_handle = 1 }),
)
unfolding handle_server_event
meets = refl

expected-IsNumbered : IsNumbered expected
unfolding IsNumbered Keys Distinct
expected-IsNumbered = ((omega arith, tt), (tt, tt))

run-balances_example :
    let (out, q) =
      run ◌==◌ filter_object find_first filter_object
        (wait_for "value-change" (("id", 3) ∷ []) 4 ∷ receive change ∷ clean_up 5000 ∷ [])
        expected in
    settled 4 out + waits 4 q ≡ waits 4 expected + 1
unfolding begun lookup_expected_event_handle
run-balances_example =
    run-balances ◌==◌ filter_object find_first filter_object 4 find_first-Finds
      filter_object-Filters
      (wait_for "value-change" (("id", 3) ∷ []) 4 ∷ receive change ∷ clean_up 5000 ∷ []) expected
      expected-IsNumbered

handle_server_event_example :
    let (calls, (out, q)) =
      handle_server_event ◌==◌ filter_object find_first {C = ℕ} change (8 ∷ []) expected in
    ((handle : ℕ) × (spec : EventSpec ℕ) × (get_value ◌==◌ handle expected.specs ≡ some spec)
      × Agrees ◌==◌ change.type change.params spec
      × (out ≡ map (λ p. (p, event (record change { expected = true }))) spec.handlers)
      × (q.specs ≡ delete_key ◌==◌ handle expected.specs)
      × (calls ≡ map (λ l. (l, record change { expected = true })) (8 ∷ [])))
    ⊎ (All (λ x. ¬ Agrees ◌==◌ change.type change.params x.1) expected.specs
        × (out ≡ [])
        × (q ≡ expected)
        × (calls ≡ map (λ l. (l, change)) (8 ∷ [])))
unfolding IsNumbered
handle_server_event_example =
    handle_server_event_lem ◌==◌ filter_object filter_object-Filters find_first find_first-Finds
      change (8 ∷ []) expected expected-IsNumbered.1
