-- ===== src/Notifications/Listen/Chains.antt =====
-- The chain of `wait` calls: each request, when it ends, schedules the next one.
use qtoggleserver.Base.{
  ℕ, zero, suc, ◌+◌, ◌<◌, ◌≡◌, refl, Bool, true, false, Option, none, some, List, [], ◌∷◌, arith,
  length, pick, count, inl, inr, Option-cases, All, if◌then◌else◌, ◌∙◌,
}
use qtoggleserver.Notifications.Listen.{
  Request, Listen, Action, same_time, wait, on_result, on_error, start, stop, step, run,
  start_listening, stop_listening, set_ignore_listen_errors, timer_ends, request_succeeds,
  request_fails,
}

-- The requests whose outcome is not ignored.
unfoldable pub current : Option ℕ → Request → Bool
current now r = same_time now r.listening_time

module _ {E C : Type 0} where
  -- The number of chains of `wait` calls that go on.
  unfoldable pub chains : Listen E C → ℕ
  unfolding current
  chains s = count (current s.listening_time) s.requests + length s.timers

module _ {A : Type 0} where
  pick-length :
      (i : ℕ) (xs : List A) (y : A) (ys : List A)
      → pick i xs ≡ some (y, ys)
      → length xs ≡ suc (length ys)
  pick-length i [] y ys e = absurd (cc)
  pick-length zero (x ∷ xs) y ys e = ground (arith)
  pick-length (suc i) (x ∷ xs) y ys e = elim (Option-cases (pick i xs)) [
    | inr n ↦ ground (arith, n)
    | inl ((z, zs), n) ↦ ground (arith, n, pick-length i xs z zs n)
  ]

  pick-count :
      (p : A → Bool) (i : ℕ) (xs : List A) (y : A) (ys : List A)
      → pick i xs ≡ some (y, ys)
      → count p xs ≡ (if p y then 1 else 0) + count p ys
  pick-count p i [] y ys e = absurd (cc)
  pick-count p zero (x ∷ xs) y ys e = ground (arith)
  pick-count p (suc i) (x ∷ xs) y ys e = elim (Option-cases (pick i xs)) [
    | inr n ↦ ground (arith, n)
    | inl ((z, zs), n) ↦ ground (arith, n, pick-count p i xs z zs n)
  ]

pub same_time_refl : (t : Option ℕ) → same_time t t ≡ true
same_time_refl none = refl
same_time_refl (some t) = ground arith

module _ {E D : Type 0} where
  -- Everything but starting and stopping.
  unfoldable pub Ongoing : Action E D → Type 0
  Ongoing (start_listening now) = ⊥
  Ongoing stop_listening = ⊥
  Ongoing (set_ignore_listen_errors ignore) = Unit
  Ongoing (timer_ends i) = Unit
  Ongoing (request_succeeds i result) = Unit
  Ongoing (request_fails i error) = Unit

module _ {E C : Type 0} where
  wait-chains : (b : Bool) (s : Listen E C) → chains (wait b s) ≡ suc (chains s)
  unfolding chains wait current
  wait-chains b s = ground (arith, same_time_refl s.listening_time)

module _ {E C : Type 0} where
  on_error-chains :
      (D : Type 0) (r : Request) (error : E) (s : Listen E C)
      → chains ((on_error {E = E} {C = C} {D = D} r error s).1)
        ≡ (if current s.listening_time r then 1 else 0) + chains s
  unfolding chains on_error current
  on_error-chains D r error s = ground arith

module _ {E C D : Type 0} where
  on_result-chains :
      (r : Request) (result : List D) (s : Listen E C)
      → chains (on_result r result s).1 ≡ (if current s.listening_time r then 1 else 0) + chains s
  unfolding chains on_result current
  on_result-chains r result s = ground arith

  step-chains : (a : Action E D) (s : Listen E C) → Ongoing a → chains (step a s).1 ≡ chains s
  unfolding step Ongoing chains
  step-chains (start_listening now) s o = absurd o
  step-chains stop_listening s o = absurd o
  step-chains (set_ignore_listen_errors b) s o = refl
  step-chains (timer_ends i) s o = elim (Option-cases (pick i s.timers)) [
    | inr e ↦ rw (e, step) refl
    | inl ((d, rest), e) ↦
        rw (e, step)
          (omega (
            arith,
            wait-chains false (record s { timers = rest }),
            pick-length i s.timers d rest e,
          ))
  ]
  step-chains (request_succeeds i result) s o = elim (Option-cases (pick i s.requests)) [
    | inr e ↦ rw (e, step) refl
    | inl ((r, rest), e) ↦
        rw (e, step)
          (omega (
            arith,
            on_result-chains r result (record s { requests = rest }),
            pick-count (current s.listening_time) i s.requests r rest e,
          ))
  ]
  step-chains (request_fails i error) s o = elim (Option-cases (pick i s.requests)) [
    | inr e ↦ rw (e, step) refl
    | inl ((r, rest), e) ↦
        rw (e, step)
          (omega (
            arith,
            on_error-chains D r error (record s { requests = rest }),
            pick-count (current s.listening_time) i s.requests r rest e,
          ))
  ]

  -- As long as listening is neither started nor stopped, the number of chains stays as it is,
  -- however requests succeed or fail, in whichever order, and whatever timers end: polling is
  -- neither lost nor doubled.
  pub run-chains :
      (actions : List (Action E D)) (s : Listen E C)
      → All Ongoing actions
      → chains (run actions s) ≡ chains s
  unfolding run
  run-chains [] s o = refl
  run-chains (a ∷ actions) s o = run-chains actions (step a s).1 o.1 ∙ step-chains a s o.0

module _ {E C : Type 0} where
  -- Stopping does not end what a timer holds: once listening starts again, at a time that no
  -- request in flight was sent at, there is one chain and one more for each timer that was
  -- pending.
  pub restart_doubles :
      (D : Type 0) (now : ℕ) (s : Listen E C)
      → 0 < now
      → count (current (some now)) s.requests ≡ 0
      → chains (run {D = D} (stop_listening ∷ start_listening now ∷ []) s) ≡ suc (length s.timers)
  unfolding run step start stop chains wait current
  restart_doubles D now s positive fresh = ground (arith)
