-- ===== src/Api/Ports/Expects.antt =====
-- The event about the value of a port that the client has set.
use qtoggleserver.Base.{
  ℕ, ◌≡◌, sym, ◌∙◌, ap, Bool, true, false, Option, some, List, [], ◌∷◌, ◌++◌, map, All, String, inl,
  inr, when_false,
}
use qtoggleserver.Notifications.Expected.{
  Event, EventSpec, Expected, expect_event, handle_server_event,
}
use qtoggleserver.Notifications.Expected.Settle.{Filters}
use qtoggleserver.Notifications.Expected.Match.{Agrees, Has, Finds, handle_server_event_lem}
use qtoggleserver.Notifications.Expected.Handles.{IsNumbered, expect_event_lem}
use qtoggleserver.Cache.Ports.{Port}
use qtoggleserver.Api.Calls.{Api}
use qtoggleserver.Api.Ports.{PortCall, full_id, sent_value, is_known, patch_port_value}

All-last : {X : Type 0} (P : X → Type 0) (xs : List X) (x : X) → All P (xs ++ x ∷ []) → P x
All-last P [] x h = h.0
All-last P (y ∷ xs) x h = All-last P xs x h.1

module _ {V : Type 0} (same : V → V → Bool)
    (filter_params : (String → V → Bool) → List (String × V) → List (String × V))
    (filters : Filters filter_params)
    (find_key : (EventSpec V → Bool) → List (ℕ × EventSpec V) → Option ℕ)
    (finds : Finds find_key) where
  -- An event that agrees with what was just expected is seen as expected.
  met :
      {C : Type 0} (type : String) (params : List (String × V)) (timeout : Option ℕ) (now : ℕ)
      (e : Event V) (listeners : List C) (q : Expected V)
      → IsNumbered q
      → type ≡ e.type
      → All (Has same e.params) params
      → (handle_server_event same filter_params find_key e listeners
          ((expect_event (some type) (some params) timeout now q).1)).0
        ≡ map (λ l. (l, record e { expected = true })) listeners
  unfolding Agrees IsNumbered expect_event
  met type params timeout now e listeners q numbered t ps =
      let r = (expect_event (some type) (some params) timeout now q).1 in
      elim (handle_server_event_lem same filter_params filters find_key finds e listeners r
        (expect_event_lem (some type) (some params) timeout now q numbered).3.1) [
          | inl (handle, spec, g, a, out, left, calls) ↦ calls
          | inr (misses, out, left, calls) ↦
              absurd (All-last (λ x. ¬ Agrees same e.type e.params x.1) q.specs _ misses (t, ps))
        ]

  -- When the value of a port is set to one that the cache does not have for it, and an event comes
  -- that tells of a change of that port, by its id on the main device, to the value that was sent,
  -- then the listeners see the event marked as expected, whatever else is expected.
  pub expects_value :
      {A C : Type 0} (string_value : String → V) (s : Api) (now : ℕ) (is_number : A → Bool)
      (rounded : V → V) (port : Option (Port A V)) (id : String) (v : V)
      (confirm timeout : Option ℕ) (e : Event V) (listeners : List C) (q : Expected V)
      → IsNumbered q
      → is_known same port (sent_value is_number rounded port v) ≡ false
      → e.type ≡ "value-change"
      → Has same e.params ("id", string_value (full_id s id))
      → Has same e.params ("value", sent_value is_number rounded port v)
      → let (call, r) =
          patch_port_value string_value s now same is_number rounded port id v confirm timeout q in
        (handle_server_event same filter_params find_key e listeners r).0
        ≡ map (λ l. (l, record e { expected = true })) listeners
  unfolding patch_port_value
  expects_value string_value s now is_number rounded port id v confirm timeout e listeners q
        numbered unknown t i w =
      let value = sent_value is_number rounded port v in
      ap
        (λ (x : PortCall V × Expected V).
          (handle_server_event same filter_params find_key e listeners x.1).0)
        (when_false (is_known same port value) _ _ unknown)
      ∙ met "value-change" (("id", string_value (full_id s id)) ∷ ("value", value) ∷ []) timeout now
          e listeners q numbered (sym t) (i, (w, tt))
