-- ===== src/History/Manager/Download/Ends.antt =====
-- `_download` ends, and makes no more requests than it is allowed.
use qtoggleserver.Base.{
  ℕ, zero, suc, ◌-◌, ◌≤◌, ◌<◌, ◌≡◌, ◌≢◌, refl, ◌&&◌, some, List, [], ◌∷◌, ltb, leb, length, arith,
  inl, inr, Bool-cases, Option-cases, leb→le,
}
use qtoggleserver.History.Interval.{Sample}
use qtoggleserver.History.Interval.Valid.{Within}
use qtoggleserver.History.Manager.Download.{
  Server, Outcome, ok, too_many_requests, api_error, out_of_fuel, history_max_limit, last_timestamp,
  prepended, download,
}

module _ {V : Type 0} where
  -- What is relied on of the server: the samples of a port have different timestamps, so those of
  -- a full page that starts at `from` do not all stand at `from`; they are in order, in the range.
  pub record Serves (server : Server V) : Type 0 where
    pub ordered :
        (n from to : ℕ) (ss : List (Sample V)) → server n from to ≡ some ss → Within from to ss
    pub advances :
        (n from to : ℕ) (ss : List (Sample V))
        → server n from to ≡ some ss
        → history_max_limit ≤ length ss
        → from < last_timestamp from ss

  last-lt :
      (lo hi : ℕ) (s : Sample V) (ss : List (Sample V))
      → Within lo hi (s ∷ ss)
      → last_timestamp s.timestamp ss < hi
  last-lt lo hi s [] w = w.1
  last-lt lo hi s (t ∷ ss) w = last-lt s.timestamp hi t ss w.2

  page-advances :
      (from to : ℕ) (ss : List (Sample V))
      → Within from to ss
      → from < last_timestamp from ss
      → to - last_timestamp from ss < to - from
  page-advances from to [] w h = absurd (omega arith)
  page-advances from to (s ∷ ss) w h = omega (arith, last-lt from to s ss w)

  prepended_total :
      (ss : List (Sample V)) (r : Outcome (List (Sample V)))
      → r ≢ out_of_fuel
      → prepended ss r ≢ out_of_fuel
  prepended_total ss (ok more) h = λ e. cc
  prepended_total ss too_many_requests h = λ e. cc
  prepended_total ss api_error h = λ e. cc
  prepended_total ss out_of_fuel h = λ e. h refl

  module _ (server : Server V) (max_requests : ℕ) where
    -- `_download` of a range settles, after no more rounds than the range has milliseconds.
    pub download_total :
        Serves server
        → (fuel count from to : ℕ) → to - from < fuel
        → (download server max_requests fuel count from to).0 ≢ out_of_fuel
    unfolding download
    download_total serves zero count from to h = absurd (omega arith)
    download_total serves (suc fuel) count from to h =
        elim (Bool-cases (ltb 0 max_requests && leb max_requests count)) [
          | inl e ↦ rw e (λ p. cc)
          | inr e ↦ elim (Option-cases (server count from to)) [
            | inr failed ↦ rw (e, failed, download) (λ p. cc)
            | inl (ss, got) ↦ elim (Bool-cases (leb history_max_limit (length ss))) [
              | inr short ↦ rw (e, got, short, download) (λ p. cc)
              | inl full ↦
                  rw (e, got, full, download)
                    (prepended_total ss
                      (download server max_requests fuel (suc count) (last_timestamp from ss) to).0
                      (download_total serves fuel (suc count) (last_timestamp from ss) to (
                        omega (
                          arith,
                          page-advances from to ss (serves.ordered count from to ss got) (
                              serves.advances count from to ss got
                                (leb→le history_max_limit (length ss) full)),
                        ))))
            ]
          ]
        ]

    -- With a limit on the requests, `_download` does not go beyond it, however it settles.
    pub download_bounded :
        (fuel count from to : ℕ)
        → 0 < max_requests
        → count ≤ max_requests
        → (download server max_requests fuel count from to).1 ≤ max_requests
    unfolding download
    download_bounded zero count from to h k = k
    download_bounded (suc fuel) count from to h k = elim (Option-cases (server count from to)) [
      | inr failed ↦ rw (failed, download) (ground arith)
      | inl (ss, got) ↦
          rw (got, download)
            (ground (arith, download_bounded fuel (suc count) (last_timestamp from ss) to))
    ]
