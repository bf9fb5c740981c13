-- ===== src/Events/Bulk/Order.antt =====
-- Sections are told of every event, once and in order.
use mathlib.Core.List.{append_assoc, append-nil}
use qtoggleserver.Base.{
  ℕ, ◌≡◌, refl, sym, ◌∙◌, ap, arith, Bool, Option, none, some, List, [], ◌∷◌, ◌++◌, map,
  if◌then◌else◌, filter, inl, inr, Option-cases, if_either,
}
use qtoggleserver.Cache.State.{Effect, update_from_event}
use qtoggleserver.Events.Attributes.{Device, ServerEvent}
use qtoggleserver.Events.Messages.{Env, show_message_from_events}
use qtoggleserver.Events.Bulk.{
  CacheState, Events, Call, show_toast, ask, on_server_event, Action, receive, timer_ends,
  cache_loaded, on_event, toast, process_events, process_events_bulk, step, run,
}

-- The events that come by the actions.
unfoldable pub received : {M W V : Type 0} → List (Action M W V) → List (ServerEvent M W V)
received [] = []
received (receive e ∷ rest) = e ∷ received rest
received (timer_ends ∷ rest) = received rest
received (cache_loaded c ∷ rest) = received rest

module _ {M W V S : Type 0} where
  -- The events that the sections of some kind are told of.
  unfoldable pub told : (S → Bool) → List (Call M W V S) → List (ServerEvent M W V)
  told is [] = []
  told is (show_toast m ∷ rest) = told is rest
  told is (ask x ∷ rest) = told is rest
  told is (on_server_event s e ∷ rest) =
      let later = told is rest in if is s then e ∷ later else later

  told-append :
      (is : S → Bool) (xs ys : List (Call M W V S)) → told is (xs ++ ys) ≡ told is xs ++ told is ys
  unfolding told
  told-append is [] ys = refl
  told-append is (show_toast m ∷ xs) ys = told-append is xs ys
  told-append is (ask x ∷ xs) ys = told-append is xs ys
  told-append is (on_server_event s e ∷ xs) ys = ground (arith, told-append is xs ys)

  told-toast :
      (is : S → Bool) (m : Option _) → told is (toast {M = M} {W = W} {V = V} {S = S} m) ≡ []
  unfolding told
  told-toast is none = refl
  told-toast is (some m) = refl

  told-ask : (is : S → Bool) (xs : List Effect) → told is (map ask xs) ≡ []
  unfolding told
  told-ask is [] = refl
  told-ask is (x ∷ xs) = told-ask is xs

  told-sections :
      (is : S → Bool) (e : ServerEvent M W V) (sections : List S)
      → told is (map (λ s. on_server_event s e) sections) ≡ map (λ s. e) (filter is sections)
  unfolding told
  told-sections is e [] = refl
  told-sections is e (s ∷ sections) = ground (arith, told-sections is e sections)

  module _ (env : Env M W V) (now : ℕ) (sections : List S) (is : S → Bool) (one : S)
      (only : filter is sections ≡ one ∷ []) where
    told-process_events :
        (es : List (ServerEvent M W V)) (c : CacheState M W V)
        → told is ((process_events env now sections es c).0) ≡ es
    unfolding process_events told
    told-process_events [] c = refl
    told-process_events (e ∷ rest) c =
        let next = update_from_event (λ (x : Device W). x.name) now e.content c in
        let calls = (process_events env now sections rest next.1).0 in
        let to_sections = map (λ s. on_server_event s e) sections in
        told-append is (map ask next.0) (to_sections ++ calls)
        ∙ ap (λ xs. xs ++ told is (to_sections ++ calls)) (told-ask is next.0)
        ∙ told-append is to_sections calls
        ∙ ap (λ xs. xs ++ told is calls)
            (told-sections is e sections ∙ ap (λ (l : List S). map (λ s. e) l) only)
        ∙ ap (λ xs. e ∷ xs) (told-process_events rest next.1)

    told-bulk :
        (s : Events M W V)
        → let (calls, t) = process_events_bulk env now sections s in
          told is calls ++ t.events_bulk ≡ s.events_bulk
    unfolding process_events_bulk told
    told-bulk s = elim (Option-cases (show_message_from_events env s.events_bulk s.cache)) [
      | inr e ↦ rw (e, process_events_bulk) refl
      | inl (m, e) ↦
          rw (e, process_events_bulk)
            (ap (λ xs. xs ++ [])
                (told-append is (toast m)
                    ((process_events env now sections s.events_bulk s.cache).0)
                  ∙ ap
                      (λ xs.
                        xs ++ told is ((process_events env now sections s.events_bulk s.cache).0))
                      (told-toast is m)
                  ∙ told-process_events s.events_bulk s.cache)
              ∙ append-nil s.events_bulk)
    ]

    told-step :
        (a : Action M W V) (s : Events M W V)
        → let (calls, t) = step env now sections a s in
          told is calls ++ t.events_bulk ≡ s.events_bulk ++ received (a ∷ [])
    unfolding step told on_event received
    told-step (receive e) s = refl
    told-step timer_ends s =
        if_either
          (λ (r : List (Call M W V S) × Events M W V).
            told is r.0 ++ r.1.events_bulk ≡ s.events_bulk ++ [])
          s.is_scheduled _ _ (told-bulk s ∙ sym (append-nil s.events_bulk))
          (sym (append-nil s.events_bulk))
    told-step (cache_loaded c) s = sym (append-nil s.events_bulk)

    received-cons :
        (a : Action M W V) (rest : List (Action M W V))
        → received (a ∷ rest) ≡ received (a ∷ []) ++ received rest
    unfolding received
    received-cons (receive e) rest = refl
    received-cons timer_ends rest = refl
    received-cons (cache_loaded c) rest = refl

    -- Whatever happens, in whichever order: a section is told of the events that were waiting and
    -- of those that come, of each one once and in their order, and what it has not been told of is
    -- still waiting. The section is one that stands once among the sections.
    pub told_in_order :
        (actions : List (Action M W V)) (s : Events M W V)
        → let (calls, t) = run env now sections actions s in
          told is calls ++ t.events_bulk ≡ s.events_bulk ++ received actions
    unfolding run told received
    told_in_order [] s = sym (append-nil s.events_bulk)
    told_in_order (a ∷ rest) s =
        let (first, t) = step env now sections a s in
        let (later, u) = run env now sections rest t in
        ap (λ xs. xs ++ u.events_bulk) (told-append is first later)
        ∙ append_assoc (told is first) (told is later) u.events_bulk
        ∙ ap (λ xs. told is first ++ xs) (told_in_order rest t)
        ∙ sym (append_assoc (told is first) t.events_bulk (received rest))
        ∙ ap (λ xs. xs ++ received rest) (told-step a s)
        ∙ append_assoc s.events_bulk (received (a ∷ [])) (received rest)
        ∙ ap (λ xs. s.events_bulk ++ xs) (sym (received-cons a rest))
