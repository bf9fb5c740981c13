-- ===== src/Notifications/Listen/Reconnect.antt =====
-- What failing requests lead to.
use qtoggleserver.Base.{
  ℕ, suc, ◌+◌, ◌*◌, ◌<◌, ◌≡◌, refl, ap, false, some, List, [], ◌∷◌, arith, length, leb,
  if◌then◌else◌,
}
use qtoggleserver.Notifications.Listen.{
  Request, Listen, Action, wait, on_error, step, run, reconnect_seconds, is_connected, timer_ends,
  request_fails,
}
use qtoggleserver.Notifications.Listen.Chains.{same_time_refl}

module _ {E C : Type 0} where
  -- Listening, with one request in flight and no timer.
  pub record IsWaiting (s : Listen E C) : Type 0 where
    pub since : ℕ
    pub request : Request
    pub positive : 0 < since
    pub listening : s.listening_time ≡ some since
    pub sent : request.listening_time ≡ some since
    pub in_flight : s.requests ≡ request ∷ []
    pub no_timer : s.timers ≡ []

module _ {E D : Type 0} where
  -- Requests fail one after the other, and each time the next one is sent when its timer ends.
  unfoldable pub retries : List E → List (Action E D)
  retries [] = []
  retries (e ∷ errors) = request_fails 0 e ∷ timer_ends 0 ∷ retries errors

module _ {E C : Type 0} (D : Type 0) where
  fails :
      (s : Listen E C) (e : E) (w : IsWaiting s)
      → s.ignore_listen_errors ≡ false
      → (step {D = D} (request_fails 0 e) s).1 ≡ record s {
        requests = [];
        sync_listen_error = some e;
        listen_error_count = suc s.listen_error_count;
        timers = reconnect_seconds (suc s.listen_error_count) * 1000 ∷ [];
      }
  unfolding step on_error
  fails s e w h =
      rw (w.in_flight, step) rw (w.listening, w.sent, h, w.no_timer, on_error) rw
        (same_time_refl (some w.since)) refl

  after_failure : E → Listen E C → Listen E C
  unfolding step wait
  after_failure e s = (step {D = D} (timer_ends 0) (step {D = D} (request_fails 0 e) s).1).1

  after_failure_lem :
      (s : Listen E C) (e : E)
      → IsWaiting s
      → s.ignore_listen_errors ≡ false
      → after_failure e s
        ≡ wait false (record s {
          requests = [];
          sync_listen_error = some e;
          listen_error_count = suc s.listen_error_count;
          timers = [];
        })
  unfolding after_failure step
  after_failure_lem s e w h =
      ap (λ (q : Listen E C). (step {D = D} (timer_ends 0) q).1) (fails s e w h)

  retry :
      (s : Listen E C) (e : E)
      → IsWaiting s
      → s.ignore_listen_errors ≡ false
      → IsWaiting (after_failure e s)
        × ((after_failure e s).listen_error_count ≡ suc s.listen_error_count)
        × ((after_failure e s).ignore_listen_errors ≡ false)
  unfolding wait
  retry s e w h = rw (after_failure_lem s e w h) (
    record {
      since = w.since;
      request = _;
      positive = w.positive;
      listening = w.listening;
      sent = w.listening;
      in_flight = refl;
      no_timer = refl;
    },
    refl,
    h,
  )

  retries-waits :
      (errors : List E) (s : Listen E C)
      → IsWaiting s
      → s.ignore_listen_errors ≡ false
      → IsWaiting (run {D = D} (retries errors) s)
        × ((run {D = D} (retries errors) s).listen_error_count
            ≡ s.listen_error_count + length errors)
        × ((run {D = D} (retries errors) s).ignore_listen_errors ≡ false)
  unfolding run retries after_failure
  retries-waits [] s w h = (w, omega arith, h)
  retries-waits (e ∷ errors) s w h =
      let (v, c, g) = retry s e w h in
      let (u, d, f) = retries-waits errors (after_failure e s) v g in (u, omega (arith, c, d), f)

  pub reconnects :
      (errors : List E) (e : E) (s : Listen E C)
      → IsWaiting s
      → s.ignore_listen_errors ≡ false
      → s.listen_error_count ≡ 0
      → let q = (step {D = D} (request_fails 0 e) (run {D = D} (retries errors) s)).1 in
        (q.timers ≡ (if leb (suc (length errors)) 2 then 1000 else 3000) ∷ [])
        × (q.requests ≡ [])
        × (is_connected q ≡ false)
  unfolding is_connected reconnect_seconds
  reconnects errors e s w h z =
      let (u, c, g) = retries-waits errors s w h in
      rw (fails (run {D = D} (retries errors) s) e u g) (ground (arith, c, z), refl, ground arith)
