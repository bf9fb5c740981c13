-- ===== src/History/Tests.antt =====
-- Runs of the history cache, and its theorems at concrete inputs.
use mathlib.Core.Path.{subst}
use mathlib.Core.Option.{some-injective}
use qtoggleserver.Base.{
  length, Bool-cases, ℕ, ◌≤◌, ◌≡◌, ◌≢◌, true, false, ◌||◌, ◌&&◌, none, some, List, [], ◌∷◌, arith,
  All, inl, inr, if◌then◌else◌, ltb, leb,
}
use qtoggleserver.History.Interval.{Sample, Interval}
use qtoggleserver.History.Interval.Valid.{IsValid, Within}
use qtoggleserver.History.Manager.{last_to, add_interval, find_gaps}
use qtoggleserver.History.Manager.Chain.{Beside, Chain, covered, holds, add_interval-Chain}
use qtoggleserver.History.Manager.Gaps.{in_gaps, find_gaps_misses}
use qtoggleserver.History.Manager.Gaps.Beside.{find_gaps-Beside}
use qtoggleserver.History.Manager.Gaps.Reach.{find_gaps-covers}
use qtoggleserver.History.Manager.Purge.{done, out_of_fuel, purge}
use qtoggleserver.History.Manager.Purge.Prefix.{purge-cut}
use qtoggleserver.History.Manager.Purge.Inside.{purge_inside}
use qtoggleserver.History.Manager.Purge.Total.{purge_total}
use qtoggleserver.History.Manager.Download.{Server, download, Outcome}
use qtoggleserver.History.Manager.Download.Ends.{Serves, download_total}

abbrev at : ℕ → ℕ → Sample ℕ
at timestamp value = record { value = value; timestamp = timestamp }

abbrev morning : Interval ℕ
morning = record { from = 10; to = 20; samples = at 12 1 ∷ at 15 2 ∷ [] }

abbrev noon : Interval ℕ
noon = record { from = 20; to = 30; samples = at 20 3 ∷ [] }

abbrev evening : Interval ℕ
evening = record { from = 40; to = 50; samples = at 44 4 ∷ [] }

abbrev empty : Interval ℕ
empty = record { from = 60; to = 70; samples = [] }

abbrev day : List (Interval ℕ)
day = morning ∷ evening ∷ []

morning-IsValid : IsValid morning
morning-IsValid = record { nonempty = omega arith; ordered = omega arith }

noon-IsValid : IsValid noon
noon-IsValid = record { nonempty = omega arith; ordered = omega arith }

evening-IsValid : IsValid evening
evening-IsValid = record { nonempty = omega arith; ordered = omega arith }

day-Chain : (lo : ℕ) → lo ≤ 10 → Chain lo day
day-Chain lo h = (h, morning-IsValid, (omega arith, evening-IsValid, tt))

add_interval-Chain_example :
    Chain 0 (add_interval noon day)
    × ((t : ℕ) → covered t (add_interval noon day) ≡ (holds t noon || covered t day))
add_interval-Chain_example =
    add_interval-Chain noon day noon-IsValid (day-Chain 0 (omega arith))
      (inl (omega arith, omega arith), (inr (omega arith), tt))

find_gaps-covers_example : (covered 30 day || in_gaps 30 (find_gaps 5 60 day)) ≡ true
find_gaps-covers_example =
    find_gaps-covers 5 60 30 day (day-Chain 0 (omega arith)) (omega arith) (omega arith)
      (omega arith)

find_gaps_misses_example : (in_gaps 55 (find_gaps 5 60 day) ≡ false) × (covered 55 day ≡ false)
unfolding last_to
find_gaps_misses_example =
    find_gaps_misses 5 60 55 morning (evening ∷ []) (day-Chain 0 (omega arith)) (omega arith)
      (omega arith) (omega arith)

find_gaps-Beside_example : All (λ g. All (Beside g.from g.to) day) (find_gaps 5 60 day)
find_gaps-Beside_example = find_gaps-Beside 5 60 day (day-Chain 0 (omega arith)) (omega arith)

purge-cut_example :
    purge none (some 14) day
    ≡ done (some (record { from = 14; to = 20; samples = at 15 2 ∷ [] }) ∷ some evening ∷ [])
purge-cut_example = purge-cut 14 day (day-Chain 1 (omega arith))

purge_inside_example :
    purge (some 45) (some 46) day
    ≡ done (some morning ∷ some (record { from = 46; to = 50; samples = [] }) ∷ none ∷ [])
purge_inside_example =
    purge_inside 45 46 (morning ∷ []) evening [] (day-Chain 0 (omega arith)) (omega arith, tt)
      (omega arith) (omega arith) (omega arith)

purge_total_example : purge none none day ≢ out_of_fuel
purge_total_example = purge_total none none day

-- A server that has one sample, at 25.
abbrev one_sample : Server ℕ
one_sample n from to = if leb from 25 && ltb 25 to then some (at 25 6 ∷ []) else some []

one_sample-ordered :
    (n from to : ℕ) (ss : List (Sample ℕ)) → one_sample n from to ≡ some ss → Within from to ss
one_sample-ordered n from to ss e = elim (Bool-cases (leb from 25 && ltb 25 to)) [
  | inl h ↦ subst (Within from to) (some-injective _ _ (rw h at e)) (ground arith, ground arith, tt)
  | inr h ↦ subst (Within from to) (some-injective _ _ (rw h at e)) tt
]

one_sample-short :
    (n from to : ℕ) (ss : List (Sample ℕ)) → one_sample n from to ≡ some ss → length ss ≤ 1
one_sample-short n from to ss e = elim (Bool-cases (leb from 25 && ltb 25 to)) [
  | inl h ↦ subst (λ l. length l ≤ 1) (some-injective _ _ (rw h at e)) (omega arith)
  | inr h ↦ subst (λ l. length l ≤ 1) (some-injective _ _ (rw h at e)) (omega arith)
]

one_sample-Serves : Serves one_sample
one_sample-Serves = record {
  ordered = one_sample-ordered;
  advances = λ n from to ss e full. absurd (omega (arith, one_sample-short n from to ss e));
}

download_total_example : (download one_sample 0 100 0 20 40).0 ≢ Outcome.out_of_fuel
download_total_example = download_total one_sample 0 one_sample-Serves 100 0 20 40 (omega arith)
