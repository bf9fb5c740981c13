-- ===== src/Device/Restore/Fate.antt =====
-- What becomes of each endpoint when a backup is restored.
use qtoggleserver.Base.{
  ◌≡◌, refl, ◌∙◌, ap, Bool, true, false, not, Option, none, some, List, [], ◌∷◌, map, if◌then◌else◌,
  String, ◌⊎◌, inl, inr, get_value, Bool-cases, Option-cases,
}
use text.Mathlib.Text.{◌==◌ as str_eq}
use qtoggleserver.Auth.{Auth}
use qtoggleserver.Api.Calls.{Api, Request}
use qtoggleserver.Device.Provisioning.{
  EndpointData, fields, items, leaf, Endpoint, get_name, prepare_restore_data,
}
use qtoggleserver.Device.Operation.{
  Status, applied, failed, skipped, in_progress, Turn, Answer, answers, fails, is_open, set_status,
}
use qtoggleserver.Device.Operation.Skip.{set_status-other, set_status-same}
use qtoggleserver.Device.Restore.{
  ErrorParams, catch_throws, Form, Act, chain, cancel_restore, restore_all, renamed, settled,
  perform_restore_on_endpoint,
}

-- The status that a field keeps, or gets as one that is skipped.
pub record Ends {E : Type 0} (x h : Status E) : Type 0 where
  pub ends : ((is_open x ≡ false) × (x ≡ h)) ⊎ ((is_open x ≡ true) × (h ≡ skipped))

module _ {A : Type 0} where
  -- An exception follows the answer when the name is looked for in something that is no object.
  unfoldable pub crashes : Bool → Option (EndpointData A) → Bool
  crashes false sent = false
  crashes true none = true
  crashes true (some (fields o)) = false
  crashes true (some (items xs)) = false
  crashes true (some (leaf a)) = true

  chain-snd :
      {T : Type 0} (one : Request (EndpointData A) × (Bool × T)) (rest : List (Act A) × (Bool × T))
      → (chain one rest).1 ≡ (if one.1.0 then rest.1 else (false, one.1.1))
  unfolding chain
  chain-snd (request, (true, t)) rest = refl
  chain-snd (request, (false, t)) rest = refl

module _ {A E : Type 0} where
  -- Whether the chain goes on after an endpoint, and how its field stands then.
  unfoldable pub goes_on : Endpoint → Option (EndpointData A) → Answer A E → Bool
  unfolding crashes
  goes_on e sent (fails x) = false
  goes_on e sent (answers d) = not (crashes e.is_device sent)

  unfoldable pub verdict :
      ErrorParams A E → Endpoint → Option (EndpointData A) → Answer A E → Status E
  unfolding crashes catch_throws
  verdict errors e sent (fails x) = if catch_throws errors x sent then in_progress else failed x
  verdict errors e sent (answers d) = if crashes e.is_device sent then in_progress else applied

  -- What becomes of an endpoint and of those after it, for its answer and what would become of
  -- those after it.
  unfoldable pub fate_after :
      ErrorParams A E
      → Endpoint
      → Option (EndpointData A)
      → Answer A E
      → List Endpoint
      → List (Status E)
      → List (Status E)
  unfolding crashes catch_throws
  fate_after errors e sent (fails x) es later =
      (if catch_throws errors x sent then skipped else failed x) ∷ map (λ r. skipped) es
  fate_after errors e sent (answers d) es later =
      if crashes e.is_device sent then skipped ∷ map (λ r. skipped) es else applied ∷ later

  pub fate_cases :
      (errors : ErrorParams A E) (e : Endpoint) (sent : Option (EndpointData A)) (a : Answer A E)
      (es : List Endpoint) (later : List (Status E))
      → ((goes_on e sent a ≡ true)
          × ((verdict errors e sent a ≡ applied)
              × (fate_after errors e sent a es later ≡ applied ∷ later)))
        ⊎ ((goes_on e sent a ≡ false)
            × ((h : Status E) × (Ends (verdict errors e sent a) h
                  × (fate_after errors e sent a es later ≡ h ∷ map (λ r. skipped) es))))
  unfolding goes_on verdict fate_after is_open
  fate_cases errors e sent (fails x) es later = elim (Bool-cases (catch_throws errors x sent)) [
    | inl c ↦ rw c (inr (refl, (skipped, (record { ends = inr (refl, refl) }, refl))))
    | inr c ↦ rw c (inr (refl, (failed x, (record { ends = inl (refl, refl) }, refl))))
  ]
  fate_cases errors e sent (answers d) es later = elim (Bool-cases (crashes e.is_device sent)) [
    | inl c ↦ rw c (inr (refl, (skipped, (record { ends = inr (refl, refl) }, refl))))
    | inr c ↦ rw c (inl (refl, (refl, refl)))
  ]

  -- What two forms share before and after an endpoint.
  pub record Follows (e : Endpoint) (f g : Form A E) : Type 0 where
    pub runs : g.running ≡ f.running
    pub endpoints : g.backup_endpoints ≡ f.backup_endpoints
    pub others : (n : String) → str_eq (get_name e) n ≡ false → g.status n ≡ f.status n

  fails_lem :
      (b : Bool) (e : Endpoint) (x : E) (f : Form A E)
      → f.status (get_name e) ≡ in_progress
      → let (done, g) : Bool × Form A E =
          if b
          then (false, f)
          else (false, record f { status = set_status (get_name e) (failed x) f.status }) in
        (done ≡ false)
        × (Follows e f g × (g.status (get_name e) ≡ (if b then in_progress else failed x)))
  fails_lem true e x f h =
      (refl, (record { runs = refl; endpoints = refl; others = λ n o. refl }, h))
  fails_lem false e x f h = (
    refl,
    (
      record {
        runs = refl;
        endpoints = refl;
        others = λ n o. set_status-other (get_name e) n (failed x) f.status o;
      },
      set_status-same (get_name e) (failed x) f.status,
    ),
  )

  -- A form that is another one with a name for the device.
  record Renames (f g : Form A E) : Type 0 where
    runs : g.running ≡ f.running
    endpoints : g.backup_endpoints ≡ f.backup_endpoints
    statuses : g.status ≡ f.status

  module _ (text_of : A → String) where
    renamed_cases :
        (b : Bool) (sent : Option (EndpointData A)) (f : Form A E)
        → ((renamed text_of b sent f ≡ none) × (crashes b sent ≡ true))
          ⊎ ((g : Form A E) × ((renamed text_of b sent f ≡ some g)
                × ((crashes b sent ≡ false) × Renames f g)))
    unfolding renamed crashes
    renamed_cases false sent f =
        inr (f, (refl, (refl, record { runs = refl; endpoints = refl; statuses = refl })))
    renamed_cases true none f = inl (refl, refl)
    renamed_cases true (some (fields o)) f = elim (Option-cases (get_value str_eq "name" o)) [
      | inr h ↦ inr (
        f,
        (rw (h, renamed) refl, (refl, record { runs = refl; endpoints = refl; statuses = refl })),
      )
      | inl (v, h) ↦ inr (
        record f { new_device_name = some (text_of v) },
        (rw (h, renamed) refl, (refl, record { runs = refl; endpoints = refl; statuses = refl })),
      )
    ]
    renamed_cases true (some (items xs)) f =
        inr (f, (refl, (refl, record { runs = refl; endpoints = refl; statuses = refl })))
    renamed_cases true (some (leaf a)) f = inl (refl, refl)

    settled_lem :
        (errors : ErrorParams A E) (e : Endpoint) (sent : Option (EndpointData A)) (a : Answer A E)
        (f : Form A E)
        → f.status (get_name e) ≡ in_progress
        → let (done, g) = settled text_of errors e sent a f in
          (done ≡ goes_on e sent a)
          × (Follows e f g × (g.status (get_name e) ≡ verdict errors e sent a))
    unfolding settled goes_on verdict
    settled_lem errors e sent (fails x) f h = fails_lem (catch_throws errors x sent) e x f h
    settled_lem errors e sent (answers d) f h = elim (renamed_cases e.is_device sent f) [
      | inl (r, c) ↦
          rw (r, settled) rw c
            (refl, (record { runs = refl; endpoints = refl; others = λ n o. refl }, h))
      | inr (g, (r, (c, same))) ↦
          rw (r, settled) rw c
            (
              refl,
              (
                record {
                  runs = same.runs;
                  endpoints = same.endpoints;
                  others = λ n o.
                      set_status-other (get_name e) n applied g.status o
                      ∙ ap (λ (k : String → Status E). k n) same.statuses;
                },
                set_status-same (get_name e) applied g.status,
              ),
            )
    ]

  module _ (filter_object : (String → A → Bool) → List (String × A) → List (String × A))
      (text_of : A → String) (errors : ErrorParams A E) (auth : Auth) (turn : Endpoint → Turn A E)
      (content : List (String × EndpointData A)) where
    pub performed :
        (e : Endpoint) (f : Form A E) (s : Api)
        → let (done, (g, u)) =
            (perform_restore_on_endpoint filter_object text_of errors auth turn e content
              (f, s)).1 in
          let sent = prepare_restore_data filter_object e content in
          (done ≡ goes_on e sent (turn e).answer)
          × (Follows e f g × (g.status (get_name e) ≡ verdict errors e sent (turn e).answer))
    unfolding perform_restore_on_endpoint
    performed e f s =
        let sent = prepare_restore_data filter_object e content in
        let f1 : Form A E = record f { status = set_status (get_name e) in_progress f.status } in
        let (done, (same, status)) =
          settled_lem text_of errors e sent (turn e).answer f1
            (set_status-same (get_name e) in_progress f.status) in
        (
          done,
          (
            record {
              runs = same.runs;
              endpoints = same.endpoints;
              others =
                  λ n o. same.others n o ∙ set_status-other (get_name e) n in_progress f.status o;
            },
            status,
          ),
        )

    -- What becomes of the endpoints, one after the other.
    unfoldable pub fate : List Endpoint → List (Status E)
    unfolding fate_after
    fate [] = []
    fate (e ∷ es) =
        fate_after errors e (prepare_restore_data filter_object e content) (turn e).answer es
          (fate es)

    pub step :
        (e : Endpoint) (es : List Endpoint) (f : Form A E) (s : Api)
        → (turn e).is_closed ≡ false
        → f.running ≡ true
        → let (done, t) =
            (perform_restore_on_endpoint filter_object text_of errors auth turn e content
              (f, s)).1 in
          (restore_all filter_object text_of errors auth turn (e ∷ es) content (f, s)).1 ≡ (
            if done
            then (restore_all filter_object text_of errors auth turn es content t).1
            else (false, t))
    unfolding restore_all
    step e es f s c r =
        let perform = λ (g : Form A E).
          perform_restore_on_endpoint filter_object text_of errors auth turn e content (g, s) in
        let rest = λ (g : Form A E).
          restore_all filter_object text_of errors auth turn es content (perform g).1.1 in
        let idle =
          λ (g : Form A E). restore_all filter_object text_of errors auth turn es content (g, s) in
        let closed = λ (b : Bool). if b then cancel_restore f else f in
        ap
          (λ b.
            (if (closed b).running
              then chain (perform (closed b)) (rest (closed b))
              else idle (closed b)).1)
          c
        ∙ ap (λ b. (if b then chain (perform f) (rest f) else idle f).1) r
        ∙ chain-snd (perform f) (rest f)
