-- ===== src/History/Manager/Purge.antt =====
-- `HistoryDownloadManager.purge`.
pub mod Prefix
pub mod Total
pub mod Inside
use qtoggleserver.Base.{
  ℕ, zero, suc, ◌+◌, ◌*◌, Bool, true, ◌&&◌, Option, none, some, List, [], ◌∷◌, ◌++◌, ltb, leb,
  if◌then◌else◌, map, length,
}
use qtoggleserver.History.Interval.{Interval, get_slice}

-- A timestamp, or `Infinity`.
pub data Bound : Type 0 where
  finite : ℕ → Bound
  infinity : Bound

-- A read of a field of `null` throws a `TypeError`.
pub data Run (A : Type 0) : Type 0 where
  done : A → Run A
  type_error : Run A
  out_of_fuel : Run A

abbrev pub before : ℕ → Bound → Bool
before t (finite to) = ltb t to
before t infinity = true

abbrev pub not_after : ℕ → Bound → Bool
not_after t (finite to) = leb t to
not_after t infinity = true

-- The elements that are passed are put before those that the loop still has to see.
abbrev pub passed : {A : Type 0} → List A → Run (List A) → Run (List A)
passed xs (done ys) = done (xs ++ ys)
passed xs type_error = type_error
passed xs out_of_fuel = out_of_fuel

default_from : Option ℕ → ℕ
default_from none = 0
default_from (some from) = from

default_to : Option ℕ → Bound
default_to none = infinity
default_to (some to) = finite to

module _ {V : Type 0} where
  -- `interval.getSlice(to, interval.to)`, which the source reaches only with a finite `to`.
  slice_after : Interval V → Bound → Option (Interval V)
  slice_after i (finite to) = get_slice i to i.to
  slice_after i infinity = none

  -- The second loop: what stands at `pos` and behind it. An array element may be `null`, since
  -- `getSlice` can return it. In the third case the right part is put before the left one, and the
  -- loop goes on with the left one.
  unfoldable pub purge_loop :
      ℕ → ℕ → Bound → List (Option (Interval V)) → Run (List (Option (Interval V)))
  unfolding slice_after
  purge_loop zero from to is = out_of_fuel
  purge_loop (suc fuel) from to [] = done []
  purge_loop (suc fuel) from to (none ∷ is) = type_error
  purge_loop (suc fuel) from to (some i ∷ is) =
      let whole = purge_loop fuel from to is in
      let left = passed (get_slice i i.from from ∷ []) (purge_loop fuel from to is) in
      let both =
        passed (slice_after i to ∷ []) (purge_loop fuel from to (get_slice i i.from from ∷ is)) in
      let right = passed (slice_after i to ∷ []) (purge_loop fuel from to is) in
      if before i.from to
      then (if ltb from i.to && not_after i.to to
          then (if leb from i.from && before i.from to then whole else left)
          else if leb i.from from && ltb from i.to
          then both
          else right)
      else done (some i ∷ is)

  -- The first loop.
  unfoldable pub purge_from : ℕ → ℕ → Bound → List (Interval V) → Run (List (Option (Interval V)))
  unfolding purge_loop
  purge_from fuel from to [] = purge_loop fuel from to []
  purge_from fuel from to (i ∷ is) =
      let rest = passed (some i ∷ []) (purge_from fuel from to is) in
      if ltb i.to from then rest else purge_loop fuel from to (map some (i ∷ is))

  -- Each round of the loop passes an element of the array, drops one, or splits one in two, of
  -- which neither is split again.
  unfoldable pub purge : Option ℕ → Option ℕ → List (Interval V) → Run (List (Option (Interval V)))
  unfolding purge_from default_from default_to
  purge from to is = purge_from (2 * length is + 2) (default_from from) (default_to to) is
