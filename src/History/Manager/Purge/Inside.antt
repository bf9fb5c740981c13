-- ===== src/History/Manager/Purge/Inside.antt =====
-- `purge` of a range inside one interval.
use qtoggleserver.Base.{
  ℕ, suc, ◌+◌, ◌-◌, ◌*◌, Option, [], ◌++◌, All, refl, ap, ◌∙◌, lt→ltb, length-append, ◌≤◌, ◌<◌, ◌≡◌,
  none, some, List, ◌∷◌, arith, ltb, if◌then◌else◌, map, length, le→ltb,
}
use qtoggleserver.History.Interval.{Interval, get_slice, get_slice_samples}
use qtoggleserver.History.Manager.Chain.{Chain}
use qtoggleserver.History.Manager.Purge.{
  Run, Bound, passed, out_of_fuel, done, type_error, finite, slice_after, purge_loop, purge_from,
  purge,
}
use qtoggleserver.History.Manager.Purge.Prefix.{tail_from, get_slice-tail, loop_after}

module _ {V : Type 0} where
  -- The part of an interval before `t`.
  abbrev pub head_to : ℕ → Interval V → Interval V
  head_to t i = record { from = i.from; to = t; samples = get_slice_samples i i.from t }

  slice_head :
      (i : Interval V) (t : ℕ)
      → i.from < i.to
      → t < i.to
      → get_slice i i.from t ≡ (if ltb i.from t then some (head_to t i) else none)
  unfolding get_slice
  slice_head i t h k = ground arith

  slice_none : (i : Interval V) (from to : ℕ) → i.to ≤ from → get_slice i from to ≡ none
  unfolding get_slice
  slice_none i from to h = ground arith

  loop_inside :
      (fuel from to : ℕ) (i : Interval V) (is : List (Interval V))
      → Chain 0 (i ∷ is)
      → i.from ≤ from
      → from < to
      → to < i.to
      → purge_loop (suc (suc (suc fuel))) from (finite to) (map some (i ∷ is)) ≡ (
          if ltb i.from from then done (some (tail_from to i) ∷ none ∷ map some is) else type_error)
  unfolding purge_loop slice_after
  loop_inside fuel from to i is c h k l = ground (
    arith,
    get_slice-tail i to c.1,
    slice_head i from c.1.nonempty,
    slice_none (head_to from i) to from,
    loop_after fuel from to i.to is c.2,
  )

  from_inside :
      (n fuel from to : ℕ) (i : Interval V) (is : List (Interval V))
      → n ≡ suc (suc (suc fuel))
      → Chain 0 (i ∷ is)
      → i.from ≤ from
      → from < to
      → to < i.to
      → purge_from n from (finite to) (i ∷ is) ≡ (
          if ltb i.from from then done (some (tail_from to i) ∷ none ∷ map some is) else type_error)
  unfolding purge_from
  from_inside n fuel from to i is e c h k l =
      rw (e, le→ltb i.to from (omega arith)) (loop_inside fuel from to i is c h k l)

  passed-passed :
      (x : Option (Interval V)) (xs : List (Option (Interval V)))
      (r : Run (List (Option (Interval V))))
      → passed (x ∷ []) (passed xs r) ≡ passed (x ∷ xs) r
  passed-passed x xs (done ys) = refl
  passed-passed x xs type_error = refl
  passed-passed x xs out_of_fuel = refl

  passed_none : (r : Run (List (Option (Interval V)))) → r ≡ passed [] r
  passed_none (done ys) = refl
  passed_none type_error = refl
  passed_none out_of_fuel = refl

  -- The first loop passes the intervals that end before the range.
  purge_from-append :
      (n from : ℕ) (to : Bound) (ps is : List (Interval V))
      → All (λ p. p.to < from) ps
      → purge_from n from to (ps ++ is) ≡ passed (map some ps) (purge_from n from to is)
  unfolding purge_from
  purge_from-append n from to [] is h = passed_none (purge_from n from to is)
  purge_from-append n from to (p ∷ ps) is h = rw (lt→ltb p.to from h.0) (
      ap (passed (some p ∷ [])) (purge_from-append n from to ps is h.1)
      ∙ passed-passed (some p) (map some ps) (purge_from n from to is))

  rest-Chain :
      (lo : ℕ) (ps : List (Interval V)) (i : Interval V) (is : List (Interval V))
      → Chain lo (ps ++ i ∷ is)
      → Chain 0 (i ∷ is)
  rest-Chain lo [] i is c = (omega arith, c.1, c.2)
  rest-Chain lo (p ∷ ps) i is c = rest-Chain p.to ps i is c.2

  -- Where an interval of an ordered cache reaches beyond both ends of the purged range, and those
  -- before it end before the range, the array that `purge` leaves cannot be used: the time before
  -- the range is lost from that interval with its samples and a `null` stands in its place, or, if the
  -- interval begins where the range does, `purge` itself throws.
  pub purge_inside :
      (from to : ℕ) (ps : List (Interval V)) (i : Interval V) (is : List (Interval V))
      → Chain 0 (ps ++ i ∷ is)
      → All (λ p. p.to < from) ps
      → i.from ≤ from
      → from < to
      → to < i.to
      → purge (some from) (some to) (ps ++ i ∷ is)
        ≡ passed (map some ps) (
            if ltb i.from from
            then done (some (tail_from to i) ∷ none ∷ map some is)
            else type_error)
  unfolding purge
  purge_inside from to ps i is c h k l m =
      let n = 2 * length (ps ++ i ∷ is) + 2 in
      purge_from-append n from (finite to) ps (i ∷ is) h
      ∙ ap (passed (map some ps)) (
          from_inside n (n - 3) from to i is (omega (arith, length-append ps (i ∷ is)))
            (rest-Chain 0 ps i is c) k l m)
