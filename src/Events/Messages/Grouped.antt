-- ===== src/Events/Messages/Grouped.antt =====
-- One message for several ports that are added together.
use qtoggleserver.Base.{
  ℕ, ◌≡◌, refl, ◌∙◌, ap, Bool, true, false, not, Option, none, some, List, [], ◌∷◌, map, length,
  ◌==◌, String, filter, All, when_true, suc, arith,
}
use text.Mathlib.Text.{◌==◌ as str_eq}
use qtoggleserver.Cache.Lookup.{apart_sym, text_refl}
use qtoggleserver.Cache.Ports.{Port, port_add}
use qtoggleserver.Cache.State.{State, port_event}
use qtoggleserver.Events.Attributes.{
  Device, ServerEvent, Message, counted, is_expected_update, added_id, same_id, same_device, label,
}
use qtoggleserver.Events.Messages.{
  Env, find_port_slave_device, belongs, group_size, grouped, event_message, message_loop,
  show_message_from_events,
}

-- The message about so many ports.
unfoldable pub many : ℕ → Message
many n = record { text = "%(count)d ports have been added."; subject = counted n; type = "info" }

module _ {W V : Type 0} where
  -- The ids of the ports are different.
  unfoldable pub DifferentIds : List (Bool × Port (List (String × W)) V) → Type 0
  DifferentIds [] = Unit
  DifferentIds (q ∷ qs) = All (λ r. str_eq q.1.id r.1.id ≡ false) qs × DifferentIds qs

same_device_refl : {W : Type 0} (d : Option (Device W)) → same_device d d ≡ true
unfolding same_device
same_device_refl none = refl
same_device_refl (some d) = text_refl d.name

module _ {M W V : Type 0} where
  -- A port that is added, expected or not.
  abbrev pub added : Bool × Port (List (String × W)) V → ServerEvent M W V
  added (x, q) = record { expected = x; content = port_event (port_add q) }

  shown :
      (qs : List (Bool × Port (List (String × W)) V))
      → filter (λ e. not (is_expected_update e)) (map added qs) ≡ map added qs
  unfolding is_expected_update
  shown [] = refl
  shown ((true, q) ∷ qs) = ap (λ es. added (true, q) ∷ es) (shown qs)
  shown ((false, q) ∷ qs) = ap (λ es. added (false, q) ∷ es) (shown qs)

  -- No two elements of a list are the same.
  unfoldable pub Different :
      (ServerEvent M W V → ServerEvent M W V → Bool) → List (ServerEvent M W V) → Type 0
  Different is_same [] = Unit
  Different is_same (x ∷ xs) =
      All (λ y. (is_same x y ≡ false) × (is_same y x ≡ false)) xs × Different is_same xs

  -- What the code relies on of `ArrayUtils.distinct`: it leaves alone what has no duplicates.
  pub record Distincts
      (distinct : (ServerEvent M W V → ServerEvent M W V → Bool)
        → List (ServerEvent M W V)
        → List (ServerEvent M W V))
      : Type 0 where
    pub leaves :
        (is_same : ServerEvent M W V → ServerEvent M W V → Bool) (xs : List (ServerEvent M W V))
        → Different is_same xs
        → distinct is_same xs ≡ xs

module _ (M : Type 0) {W V : Type 0} where
  length-added :
      (qs : List (Bool × Port (List (String × W)) V)) → length (map (added {M = M}) qs) ≡ length qs
  length-added [] = refl
  length-added (q ∷ qs) = ap suc (length-added qs)

  others-Different :
      (q : Bool × Port (List (String × W)) V) (qs : List (Bool × Port (List (String × W)) V))
      → All (λ r. str_eq q.1.id r.1.id ≡ false) qs
      → All
          (λ y. (same_id (added {M = M} q) y ≡ false) × (same_id y (added q) ≡ false))
          (map added qs)
  unfolding same_id
  others-Different q [] h = tt
  others-Different q (r ∷ qs) h = ((h.0, apart_sym q.1.id r.1.id h.0), others-Different q qs h.1)

  added-Different :
      (qs : List (Bool × Port (List (String × W)) V))
      → DifferentIds qs
      → Different same_id (map (added {M = M}) qs)
  unfolding DifferentIds Different
  added-Different [] h = tt
  added-Different (q ∷ qs) h = (others-Different q qs h.0, added-Different qs h.1)

module _ {M W V : Type 0} where
  module _ (env : Env M W V) (s : State M (Device W) (List (String × W)) V)
      (device : Option (Device W)) where
    -- A port of the device.
    abbrev IsMine : Bool × Port (List (String × W)) V → Type 0
    IsMine q = find_port_slave_device env q.1.id s.slave_devices ≡ device

    all_belong :
        (qs : List (Bool × Port (List (String × W)) V))
        → All IsMine qs
        → filter
            (λ (f : ServerEvent M W V). belongs env device s.slave_devices (added_id f))
            (map (added {M = M}) qs)
          ≡ map added qs
    unfolding belongs added_id
    all_belong [] mine = refl
    all_belong ((x, q) ∷ qs) mine =
        when_true _ _ _ (ap (λ d. same_device d device) mine.0 ∙ same_device_refl device)
        ∙ ap (λ es. added (x, q) ∷ es) (all_belong qs mine.1)

    several :
        (n : ℕ) (one name : String)
        → (n == 1) ≡ false
        → grouped env n one "%(count)d ports have been added." name ≡ many n
    unfolding grouped many
    several n one name h = rw h refl

    module _ (all : List (Bool × Port (List (String × W)) V)) (mine : All IsMine all)
        (h : (length (env.distinct same_id (map added all)) == 1) ≡ false) where
      added_message :
          (q : Port (List (String × W)) V)
          → IsMine (true, q)
          → let d = find_port_slave_device env q.id s.slave_devices in
            grouped env
              (group_size env (λ f. belongs env d s.slave_devices (added_id f)) (map added all))
              "Port %(port)s has been added."
              "%(count)d ports have been added."
              (label env.is_true env.text_of env.wrap_label q.attrs q.id)
            ≡ many (length (env.distinct same_id (map added all)))
      unfolding group_size
      added_message q own =
          let name = label env.is_true env.text_of env.wrap_label q.attrs q.id in
          let message = λ (es : List (ServerEvent M W V)).
            grouped env (length (env.distinct same_id es)) "Port %(port)s has been added."
              "%(count)d ports have been added." name in
          ap
            (λ (d : Option (Device W)).
              message (filter (λ f. belongs env d s.slave_devices (added_id f)) (map added all)))
            own
          ∙ ap message (all_belong all mine)
          ∙ several _ "Port %(port)s has been added." name h

      loop :
          (qs : List (Bool × Port (List (String × W)) V))
          → All IsMine qs
          → let m = some (many (length (env.distinct same_id (map added all)))) in
            message_loop env (map added all) s (map added qs) m ≡ some m
      unfolding message_loop event_message
      loop [] own = refl
      loop ((x, q) ∷ qs) own =
          ap (λ m. message_loop env (map added all) s (map added qs) (some m))
            (added_message q own.0)
          ∙ loop qs own.1

    -- Events that tell of two or more added ports alone, expected or not, all of them ports of one
    -- device and with different ids, show one message with the number of the ports.
    pub added_together :
        (q r : Bool × Port (List (String × W)) V) (qs : List (Bool × Port (List (String × W)) V))
        → Distincts env.distinct
        → All (λ p. find_port_slave_device env p.1.id s.slave_devices ≡ device) (q ∷ r ∷ qs)
        → DifferentIds (q ∷ r ∷ qs)
        → show_message_from_events env (map added (q ∷ r ∷ qs)) s
          ≡ some (some (many (length (q ∷ r ∷ qs))))
    unfolding show_message_from_events message_loop event_message
    added_together (x, q) r qs distincts mine different =
        let all = (x, q) ∷ r ∷ qs in
        let size : length (env.distinct same_id (map added all)) ≡ length all =
          ap length (distincts.leaves same_id (map added all) (added-Different M all different))
          ∙ length-added M all in
        let h : (length (env.distinct same_id (map added all)) == 1) ≡ false =
          ap (λ n. n == 1) size ∙ ground arith in
        ap (λ es. message_loop env es s es none) (shown all)
        ∙ ap (λ m. message_loop env (map added all) s (map added (r ∷ qs)) (some m))
            (added_message all mine h q mine.0)
        ∙ loop all mine h (r ∷ qs) mine.1
        ∙ ap (λ n. some (some (many n))) size
