-- ===== src/Device/Wait.antt =====
-- `WaitDeviceMixin` of qtoggleserver/frontend/js/common/wait-device-mixin.js. A condition variable
-- is a number; what a method does to one is an effect, and a failed assertion is `none`. The
-- progress that `cancelWaiting` clears on a page is left out.
use qtoggleserver.Base.{
  ℕ, ◌≡◌, refl, ◌∙◌, ◌==◌, ◌&&◌, Bool, true, false, ◌||◌, Option, none, some, List, [], ◌∷◌, ◌++◌,
  arith, if◌then◌else◌,
}

pub record Wait : Type 0 where
  pub when_device_online : Option ℕ
  pub when_device_offline : Option ℕ

pub data Effect : Type 0 where
  created fulfilled cancelled : ℕ → Effect

abbrev pub is_set : Option ℕ → Bool
is_set none = false
is_set (some c) = true

-- Each method takes the number that a new condition variable gets.
unfoldable pub wait_device_online : ℕ → Wait → Option (List Effect × Wait)
wait_device_online c w =
    if is_set w.when_device_online || is_set w.when_device_offline
    then none
    else some (created c ∷ [], record w { when_device_online = some c })

unfoldable pub wait_device_offline : ℕ → Wait → Option (List Effect × Wait)
wait_device_offline c w =
    if is_set w.when_device_online || is_set w.when_device_offline
    then none
    else some (created c ∷ [], record w { when_device_offline = some c })

unfoldable pub fulfill_device_online : Wait → Option (List Effect × Wait)
fulfill_device_online w = elim w.when_device_online [
  | none ↦ none
  | some c ↦ some (fulfilled c ∷ [], record w { when_device_online = none })
]

unfoldable pub fulfill_device_offline : Wait → Option (List Effect × Wait)
fulfill_device_offline w = elim w.when_device_offline [
  | none ↦ none
  | some c ↦ some (fulfilled c ∷ [], record w { when_device_offline = none })
]

abbrev pub cancel : Option ℕ → List Effect
cancel none = []
cancel (some c) = cancelled c ∷ []

unfoldable pub cancel_waiting : Wait → List Effect × Wait
cancel_waiting w = (
  cancel w.when_device_online ++ cancel w.when_device_offline,
  record { when_device_online = none; when_device_offline = none },
)

pub data Method : Type 0 where
  wait_online wait_offline : ℕ → Method
  fulfill_online fulfill_offline cancel_all : Method

abbrev pub or_unchanged : Wait → Option (List Effect × Wait) → List Effect × Wait
or_unchanged w none = ([], w)
or_unchanged w (some r) = r

unfoldable pub call : Method → Wait → List Effect × Wait
unfolding wait_device_online wait_device_offline fulfill_device_online fulfill_device_offline
    cancel_waiting
call (wait_online c) w = or_unchanged w (wait_device_online c w)
call (wait_offline c) w = or_unchanged w (wait_device_offline c w)
call fulfill_online w = or_unchanged w (fulfill_device_online w)
call fulfill_offline w = or_unchanged w (fulfill_device_offline w)
call cancel_all w = cancel_waiting w

unfoldable pub calls : List Method → Wait → List Effect × Wait
unfolding call
calls [] w = ([], w)
calls (m ∷ rest) w =
    let (first, v) = call m w in let (later, u) = calls rest v in (first ++ later, u)

-- The condition variable that is waited for.
unfoldable pub waited : Wait → Option ℕ
waited w = elim w.when_device_online [ none ↦ w.when_device_offline | some c ↦ some c ]

-- One slot, which a condition variable takes when it is created and leaves when it is fulfilled or
-- cancelled: what is in the slot after the effects, if they are such a sequence.
unfoldable pub slot : List Effect → Option ℕ → Option (Option ℕ)
slot [] s = some s
slot (created c ∷ rest) none = slot rest (some c)
slot (created c ∷ rest) (some d) = none
slot (fulfilled c ∷ rest) none = none
slot (fulfilled c ∷ rest) (some d) = let later = slot rest none in if c == d then later else none
slot (cancelled c ∷ rest) none = none
slot (cancelled c ∷ rest) (some d) = let later = slot rest none in if c == d then later else none

-- The device is not waited for in both ways.
unfoldable pub IsSingle : Wait → Type 0
IsSingle w = (is_set w.when_device_online && is_set w.when_device_offline) ≡ false

abbrev and_then : Option (Option ℕ) → (Option ℕ → Option (Option ℕ)) → Option (Option ℕ)
and_then none f = none
and_then (some s) f = f s

slot-append :
    (es fs : List Effect) (s : Option ℕ) → slot (es ++ fs) s ≡ and_then (slot es s) (slot fs)
unfolding slot
slot-append [] fs s = refl
slot-append (created c ∷ es) fs none = slot-append es fs (some c)
slot-append (created c ∷ es) fs (some d) = refl
slot-append (fulfilled c ∷ es) fs none = refl
slot-append (fulfilled c ∷ es) fs (some d) = ground (arith, slot-append es fs none)
slot-append (cancelled c ∷ es) fs none = refl
slot-append (cancelled c ∷ es) fs (some d) = ground (arith, slot-append es fs none)

call-IsSingle : (m : Method) (w : Wait) → IsSingle w → IsSingle (call m w).1
unfolding call IsSingle
call-IsSingle (wait_online c) w v = ground arith
call-IsSingle (wait_offline c) w v = ground arith
call-IsSingle fulfill_online w v = ground arith
call-IsSingle fulfill_offline w v = ground arith
call-IsSingle cancel_all w v = refl

call-slot :
    (m : Method) (w : Wait) → IsSingle w → slot (call m w).0 (waited w) ≡ some (waited (call m w).1)
unfolding call slot waited IsSingle
call-slot (wait_online c) w v = ground arith
call-slot (wait_offline c) w v = ground arith
call-slot fulfill_online w v = ground arith
call-slot fulfill_offline w v = ground arith
call-slot cancel_all w v = ground arith

-- Whatever methods are called, the condition variables go through one slot: one is created only
-- when none is waited for, and one is fulfilled or cancelled only while it is the one waited for.
pub calls-slot :
    (ms : List Method) (w : Wait)
    → IsSingle w
    → slot (calls ms w).0 (waited w) ≡ some (waited (calls ms w).1)
unfolding calls slot
calls-slot [] w v = refl
calls-slot (m ∷ ms) w v =
    let rest = calls ms (call m w).1 in
    slot-append (call m w).0 rest.0 (waited w)
    ∙ rw (call-slot m w v) (calls-slot ms (call m w).1 (call-IsSingle m w v))
