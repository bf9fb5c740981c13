-- ===== src/Events/Status/Burst.antt =====
-- What the icon tells after requests that overlap.
use qtoggleserver.Base.{
  ℕ, zero, suc, ◌≤◌, ◌≡◌, refl, ◌∙◌, ap, arith, Bool, Option, none, some, List, [], ◌∷◌,
}
use qtoggleserver.Events.Status.{
  Sync, Icon, status_ok, status_error, update_status_icon, on_begin, on_end,
}

pub data Action (E : Type 0) : Type 0 where
  begins : Action E
  ends : Option E → Action E

module _ {E : Type 0} where
  unfoldable pub run : List (Action E) → Sync E → Sync E
  unfolding on_begin on_end
  run [] s = s
  run (begins ∷ rest) s = run rest (on_begin s)
  run (ends e ∷ rest) s = run rest (on_end e s)

  -- With so many requests under way, some are under way until the last one ends.
  unfoldable pub Burst : ℕ → List (Action E) → Type 0
  Burst n [] = n ≡ 0
  Burst zero (a ∷ rest) = 1 ≤ 0
  Burst (suc n) (begins ∷ rest) = Burst (suc (suc n)) rest
  Burst (suc n) (ends e ∷ rest) = Burst n rest

  -- The error of the last request that failed, or the one before.
  unfoldable pub last_error : Option E → List (Action E) → Option E
  last_error e [] = e
  last_error e (begins ∷ rest) = last_error e rest
  last_error e (ends none ∷ rest) = last_error e rest
  last_error e (ends (some f) ∷ rest) = last_error (some f) rest

  unfoldable pub outcome : Option E → Icon × Option E
  outcome none = (status_ok, none)
  outcome (some e) = (status_error, some e)

  at_rest :
      (n : ℕ) (e l : Option E) (p : Bool)
      → n ≡ 0
      → l ≡ none
      → update_status_icon
          (record { sync_count = n; sync_error = e; sync_listen_error = l; shows_progress = p })
        ≡ outcome e
  unfolding update_status_icon outcome
  at_rest n none none p c h = ground (arith, c)
  at_rest n (some e) none p c h = refl
  at_rest n e (some f) p c h = absurd (cc)

  burst :
      (n : ℕ) (rest : List (Action E)) (s : Sync E)
      → Burst n rest
      → s.sync_count ≡ n
      → s.sync_listen_error ≡ none
      → update_status_icon (run rest s) ≡ outcome (last_error s.sync_error rest)
  unfolding run Burst last_error
  burst n [] s b c l =
      at_rest s.sync_count s.sync_error s.sync_listen_error s.shows_progress (c ∙ b) l
  burst zero (a ∷ rest) s b c l = absurd (omega (arith, b))
  burst (suc n) (begins ∷ rest) s b c l =
      burst (suc (suc n)) rest (on_begin s) b (unfold on_begin in omega (arith, c))
        (unfold on_begin in l)
      ∙ ap (λ e. outcome (last_error e rest)) (unfold on_begin in ground (arith, c))
  burst (suc n) (ends none ∷ rest) s b c l =
      burst n rest (on_end none s) b (unfold on_end in omega (arith, c)) (unfold on_end in l)
  burst (suc n) (ends (some f) ∷ rest) s b c l =
      burst n rest (on_end (some f) s) b (unfold on_end in omega (arith, c)) (unfold on_end in l)

  -- When a request begins while none is under way, and others begin and end until none is left, the
  -- icon tells the error of the last one of them that failed, and nothing when none failed, whatever
  -- it told before. The client is not disconnected.
  pub overlapping_status :
      (rest : List (Action E)) (s : Sync E)
      → s.sync_count ≡ 0
      → s.sync_listen_error ≡ none
      → Burst 1 rest
      → update_status_icon (run (begins ∷ rest) s) ≡ outcome (last_error none rest)
  unfolding run
  overlapping_status rest s c l b =
      burst 1 rest (on_begin s) b (unfold on_begin in omega (arith, c)) (unfold on_begin in l)
      ∙ ap (λ e. outcome (last_error e rest)) (unfold on_begin in ground (arith, c))
