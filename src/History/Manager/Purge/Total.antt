-- ===== src/History/Manager/Purge/Total.antt =====
-- `purge` ends: its fuel is enough.
use qtoggleserver.Base.{
  ℕ, zero, suc, ◌+◌, ◌*◌, ◌≤◌, ◌<◌, ◌≡◌, ◌≢◌, refl, Option, none, some, List, [], ◌∷◌, arith, ltb,
  if◌then◌else◌, map, length,
}
use qtoggleserver.History.Interval.{Interval, get_slice}
use qtoggleserver.History.Manager.Purge.{
  Bound, Run, done, type_error, out_of_fuel, passed, default_from, default_to, slice_after,
  purge_loop, purge_from, purge,
}

passed_total :
    {A : Type 0} (xs : List A) (r : Run (List A)) → r ≢ out_of_fuel → passed xs r ≢ out_of_fuel
passed_total xs (done ys) h = λ e. cc
passed_total xs type_error h = λ e. cc
passed_total xs out_of_fuel h = λ e. h refl

module _ {V : Type 0} where
  -- An interval that reaches beyond `from` can be split once.
  weight : ℕ → Option (Interval V) → ℕ
  weight from none = 1
  weight from (some i) = if ltb from i.to then 2 else 1

  load : ℕ → List (Option (Interval V)) → ℕ
  load from [] = 0
  load from (i ∷ is) = weight from i + load from is

  weight-slice : (i : Interval V) (from to : ℕ) → weight to (get_slice i from to) ≡ 1
  unfolding weight get_slice
  weight-slice i from to = ground arith

  loop_total :
      (fuel from : ℕ) (to : Bound) (is : List (Option (Interval V)))
      → load from is < fuel
      → purge_loop fuel from to is ≢ out_of_fuel
  unfolding purge_loop load weight
  loop_total zero from to is h = absurd (omega arith)
  loop_total (suc fuel) from to [] h = λ e. cc
  loop_total (suc fuel) from to (none ∷ is) h = λ e. cc
  loop_total (suc fuel) from to (some i ∷ is) h = ground (
    arith,
    loop_total fuel from to is,
    loop_total fuel from to (get_slice i i.from from ∷ is),
    weight-slice i i.from from,
    passed_total (get_slice i i.from from ∷ []) (purge_loop fuel from to is),
    passed_total (slice_after i to ∷ []) (purge_loop fuel from to is),
    passed_total (slice_after i to ∷ []) (purge_loop fuel from to (get_slice i i.from from ∷ is)),
  )

  load-map : (from : ℕ) (is : List (Interval V)) → load from (map some is) ≤ 2 * length is
  unfolding load weight
  load-map from [] = omega arith
  load-map from (i ∷ is) = ground (arith, load-map from is)

  from_total :
      (fuel from : ℕ) (to : Bound) (is : List (Interval V))
      → 2 * length is < fuel
      → purge_from fuel from to is ≢ out_of_fuel
  unfolding purge_from
  from_total fuel from to [] h = loop_total fuel from to [] (unfold load in omega arith)
  from_total fuel from to (i ∷ is) h = ground (
    arith,
    from_total fuel from to is,
    passed_total (some i ∷ []) (purge_from fuel from to is),
    loop_total fuel from to (map some (i ∷ is)),
    load-map from (i ∷ is),
  )

  -- `purge` ends, whatever the array and the range.
  pub purge_total : (from to : Option ℕ) (is : List (Interval V)) → purge from to is ≢ out_of_fuel
  unfolding purge
  purge_total from to is =
      from_total (2 * length is + 2) (default_from from) (default_to to) is (omega arith)
