-- ===== src/History/Manager/Samples.antt =====
-- `HistoryDownloadManager.addSample`.
use qtoggleserver.Base.{
  ℕ, ◌+◌, ◌-◌, ◌≤◌, ◌<◌, ◌≢◌, inl, inr, Bool, true, false, ◌&&◌, List, [], ◌∷◌, arith, ltb, leb,
  if◌then◌else◌, All, Bool-cases, ltb→le, lt→ltb,
}
use qtoggleserver.History.Interval.{Sample, Interval, add_sample}
use qtoggleserver.History.Interval.Valid.{IsValid}
use qtoggleserver.History.Interval.Add.{add_sample-IsValid, add_sample_bounds}
use qtoggleserver.History.Manager.Chain.{Chain, Chain-mono}

module _ {V : Type 0} where
  -- `new Interval(timestamp, timestamp + 1, [sample])`
  alone : Sample V → Interval V
  alone x = record { from = x.timestamp; to = x.timestamp + 1; samples = x ∷ [] }

  -- Whether the last of the samples is nearer to `timestamp` than the sampling interval.
  too_soon : ℕ → ℕ → List (Sample V) → Bool
  too_soon sampling timestamp [] = false
  too_soon sampling timestamp (s ∷ []) = ltb (timestamp - s.timestamp) sampling
  too_soon sampling timestamp (s ∷ t ∷ ss) = too_soon sampling timestamp (t ∷ ss)

  -- The sample is after the last interval.
  add_after : Sample V → ℕ → Bool → Interval V → List (Interval V)
  unfolding alone too_soon
  add_after x sampling bridge last =
      if bridge
      then (if ltb 0 sampling && too_soon sampling x.timestamp last.samples
          then last ∷ []
          else add_sample last x ∷ [])
      else last ∷ alone x ∷ []

  -- The sample is in the interval at `pos` or right before it.
  add_here : Sample V → Bool → Interval V → List (Interval V) → List (Interval V)
  unfolding alone
  add_here x bridge i is =
      if leb i.from x.timestamp
      then add_sample i x ∷ is
      else if bridge
      then add_sample i x ∷ is
      else alone x ∷ i ∷ is

  -- The loop over `pos`.
  add_from : Sample V → ℕ → Bool → Interval V → List (Interval V) → List (Interval V)
  unfolding add_after add_here
  add_from x sampling bridge i [] =
      if ltb i.to x.timestamp then add_after x sampling bridge i else add_here x bridge i []
  add_from x sampling bridge i (j ∷ is) =
      let rest = add_from x sampling bridge j is in
      if ltb i.to x.timestamp then i ∷ rest else add_here x bridge i (j ∷ is)

  -- `sampling` is `(this._port.history_interval || 0) * 1000`.
  unfoldable pub add_port_sample : Sample V → ℕ → Bool → List (Interval V) → List (Interval V)
  unfolding add_from alone
  add_port_sample x sampling bridge [] = alone x ∷ []
  add_port_sample x sampling bridge (i ∷ is) =
      if ltb x.timestamp i.from
      then (if bridge then record i { samples = x ∷ i.samples } ∷ is else alone x ∷ i ∷ is)
      else add_from x sampling bridge i is

  alone-IsValid : (x : Sample V) → IsValid (alone x)
  unfolding alone
  alone-IsValid x = record { nonempty = omega arith; ordered = (omega arith, omega arith, tt) }

  add_here-Chain :
      (x : Sample V) (lo : ℕ) (i : Interval V) (is : List (Interval V))
      → lo ≤ x.timestamp
      → x.timestamp < i.to
      → Chain lo (i ∷ is)
      → Chain lo (add_here x false i is)
  unfolding add_here alone
  add_here-Chain x lo i is h k c = elim (Bool-cases (leb i.from x.timestamp)) [
    | inl e ↦
        let from : i.from ≤ x.timestamp = ground arith in
        let (low, high) = add_sample_bounds i x from k in
        rw e (
          omega arith,
          add_sample-IsValid i x c.1 (λ _. (from, k)),
          Chain-mono i.to (add_sample i x).to is high c.2,
        )
    | inr e ↦ rw e (h, alone-IsValid x, (ground arith, c.1, c.2))
  ]

  add_from-Chain :
      (x : Sample V) (sampling lo : ℕ) (i : Interval V) (is : List (Interval V))
      → lo ≤ x.timestamp
      → All (λ j. j.to ≢ x.timestamp) (i ∷ is)
      → Chain lo (i ∷ is)
      → Chain lo (add_from x sampling false i is)
  unfolding add_from add_after
  add_from-Chain x sampling lo i [] h n c = elim (Bool-cases (ltb i.to x.timestamp)) [
    | inl e ↦ rw e (c.0, c.1, (ground arith, alone-IsValid x, tt))
    | inr e ↦ rw e (add_here-Chain x lo i [] h (omega (arith, ltb→le i.to x.timestamp e, n.0)) c)
  ]
  add_from-Chain x sampling lo i (j ∷ is) h n c = elim (Bool-cases (ltb i.to x.timestamp)) [
    | inl e ↦ rw e (c.0, c.1, add_from-Chain x sampling i.to j is (ground arith) n.1 c.2)
    | inr e ↦
        rw e (add_here-Chain x lo i (j ∷ is) h (omega (arith, ltb→le i.to x.timestamp e, n.0)) c)
  ]

  -- Without bridging, a sample at a time at which no interval ends is added to an ordered array so
  -- that the array stays ordered, each interval valid.
  pub add_port_sample-Chain :
      (x : Sample V) (sampling : ℕ) (is : List (Interval V))
      → Chain 0 is
      → All (λ i. i.to ≢ x.timestamp) is
      → Chain 0 (add_port_sample x sampling false is)
  unfolding add_port_sample
  add_port_sample-Chain x sampling [] c n = (omega arith, alone-IsValid x, tt)
  add_port_sample-Chain x sampling (i ∷ is) c n = elim (Bool-cases (ltb x.timestamp i.from)) [
    | inl e ↦ rw e (omega arith, alone-IsValid x, (ground arith, c.1, c.2))
    | inr e ↦ rw e (add_from-Chain x sampling 0 i is (omega arith) n c)
  ]

  -- With bridging, a sample before the first interval is put among that interval's samples and the
  -- interval keeps its start, so that the array is no longer ordered: the sample is outside.
  pub add_port_sample_outside :
      (x : Sample V) (sampling : ℕ) (i : Interval V) (is : List (Interval V))
      → x.timestamp < i.from
      → ¬ Chain 0 (add_port_sample x sampling true (i ∷ is))
  unfolding add_port_sample
  add_port_sample_outside x sampling i is h c =
      let c' = rw (lt→ltb x.timestamp i.from h) at c in absurd (omega (arith, c'.1.ordered))
