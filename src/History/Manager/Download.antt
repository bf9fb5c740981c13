-- ===== src/History/Manager/Download.antt =====
-- `fetch`, `_downloadAndCache` and `_download` of `HistoryDownloadManager`. The server, which
-- answers `GET /ports/{id}/history` (api/ports.js, `getPortHistory`), is a parameter: what it
-- returns to the n-th request of a fetch for a range, or `none` for an API error. The chain of
-- promises runs one request after the other.
pub mod Ends
use qtoggleserver.Base.{
  ℕ, zero, suc, ◌+◌, Bool, true, false, ◌&&◌, Option, none, some, List, [], ◌∷◌, ◌++◌, ltb, leb,
  if◌then◌else◌, length,
}
use qtoggleserver.History.Interval.{Sample, Interval}
use qtoggleserver.History.Manager.{Gap, add_interval, find_gaps, get_cached_samples}

abbrev pub history_max_limit : ℕ
history_max_limit = 10000

-- How a promise settles.
pub data Outcome (A : Type 0) : Type 0 where
  ok : A → Outcome A
  too_many_requests : Outcome A
  api_error : Outcome A
  out_of_fuel : Outcome A

abbrev pub Server : Type 0 → Type 0
Server V = ℕ → ℕ → ℕ → Option (List (Sample V))

module _ {V : Type 0} where
  -- The timestamp of the last sample; the source asks only where there is one.
  abbrev pub last_timestamp : ℕ → List (Sample V) → ℕ
  last_timestamp t [] = t
  last_timestamp t (s ∷ ss) = last_timestamp s.timestamp ss

  abbrev pub prepended : List (Sample V) → Outcome (List (Sample V)) → Outcome (List (Sample V))
  prepended samples (ok more) = ok (samples ++ more)
  prepended samples too_many_requests = too_many_requests
  prepended samples api_error = api_error
  prepended samples out_of_fuel = out_of_fuel

  module _ (server : Server V) (max_requests : ℕ) where
    -- `_download`, with the request count before and after it.
    unfoldable pub download : ℕ → ℕ → ℕ → ℕ → Outcome (List (Sample V)) × ℕ
    download zero count from to = (out_of_fuel, count)
    download (suc fuel) count from to =
        if ltb 0 max_requests && leb max_requests count
        then (too_many_requests, count)
        else elim (server count from to) [
          | none ↦ (api_error, suc count)
          | some samples ↦ elim (leb history_max_limit (length samples)) [
            | true ↦
                let next = download fuel (suc count) (last_timestamp from samples) to in
                (prepended samples next.0, next.1)
            | false ↦ (ok samples, suc count)
          ]
        ]

    -- The gaps of a `fetch`, one `_downloadAndCache` after the other: the first that fails ends
    -- the chain, and what was added before it stays.
    unfoldable pub download_gaps :
        ℕ → List Gap → ℕ → List (Interval V) → Outcome (Unit {0}) × List (Interval V)
    download_gaps fuel [] count is = (ok tt, is)
    download_gaps fuel (gap ∷ gaps) count is =
        let got = download fuel count gap.from gap.to in
        elim got.0 [
          | ok samples ↦
              download_gaps fuel gaps got.1
                (add_interval (record { from = gap.from; to = gap.to; samples = samples }) is)
          | too_many_requests ↦ (too_many_requests, is)
          | api_error ↦ (api_error, is)
          | out_of_fuel ↦ (out_of_fuel, is)
        ]

    unfoldable pub fetch :
        ℕ → ℕ → ℕ → List (Interval V) → Outcome (List (Sample V)) × List (Interval V)
    fetch fuel from to is =
        let settled = download_gaps fuel (find_gaps from to is) 0 is in
        elim settled.0 [
          | ok _ ↦ (ok (get_cached_samples from to settled.1), settled.1)
          | too_many_requests ↦ (too_many_requests, settled.1)
          | api_error ↦ (api_error, settled.1)
          | out_of_fuel ↦ (out_of_fuel, settled.1)
        ]
