-- ===== src/History/Interval/Valid.antt =====
-- What a well-formed interval is: its samples are in order and lie within it.
use qtoggleserver.Base.{ℕ, ◌≤◌, ◌<◌, List, [], ◌∷◌, arith}
use qtoggleserver.History.Interval.{Sample, Interval}

module _ {V : Type 0} where
  -- The samples are in order, none before `lo`, all before `hi`.
  abbrev pub Within : ℕ → ℕ → List (Sample V) → Type 0
  Within lo hi [] = Unit
  Within lo hi (s ∷ ss) = (lo ≤ s.timestamp) × (s.timestamp < hi) × Within s.timestamp hi ss

  pub record IsValid (i : Interval V) : Type 0 where
    pub nonempty : i.from < i.to
    pub ordered : Within i.from i.to i.samples

  pub Within-mono :
      (lo lo' hi hi' : ℕ) (ss : List (Sample V))
      → lo' ≤ lo
      → hi ≤ hi'
      → Within lo hi ss
      → Within lo' hi' ss
  Within-mono lo lo' hi hi' [] p q w = tt
  Within-mono lo lo' hi hi' (s ∷ ss) p q w =
      (omega arith, omega arith, Within-mono s.timestamp s.timestamp hi hi' ss (omega arith) q w.2)
