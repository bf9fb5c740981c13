-- ===== src/History/Interval/Add.antt =====
-- `Interval.addSample` keeps an interval valid.
use qtoggleserver.Base.{
  ℕ, ◌+◌, ◌≤◌, ◌<◌, ◌≡◌, refl, true, false, List, [], ◌∷◌, arith, ltb, inl, inr, Bool-cases, ltb→lt,
  ltb→le,
}
use qtoggleserver.History.Interval.{
  Sample, Interval, insert_sample, after_all, add_sample_to, add_sample,
}
use qtoggleserver.History.Interval.Valid.{Within, IsValid}

module _ {V : Type 0} where
  insert_sample-Within :
      (x : Sample V) (lo hi : ℕ) (ss : List (Sample V))
      → lo ≤ x.timestamp
      → x.timestamp < hi
      → Within lo hi ss
      → Within lo hi (insert_sample x ss)
  unfolding insert_sample
  insert_sample-Within x lo hi [] p q w = (omega arith, omega arith, tt)
  insert_sample-Within x lo hi (s ∷ ss) p q w = elim (Bool-cases (ltb s.timestamp x.timestamp)) [
    | inl e ↦ rw e (w.0, w.1, insert_sample-Within x s.timestamp hi ss (ground arith) q w.2)
    | inr e ↦ rw e (p, q, (ground arith, w.1, w.2))
  ]

  -- A bound on the last sample: all lie before a sample that comes after all.
  after_all-Within :
      (x : Sample V) (lo hi hi' : ℕ) (ss : List (Sample V))
      → after_all x ss ≡ true
      → x.timestamp ≤ hi'
      → Within lo hi ss
      → Within lo hi' ss
  unfolding after_all
  after_all-Within x lo hi hi' [] e p w = tt
  after_all-Within x lo hi hi' (s ∷ ss) e p w =
      ground (arith, after_all-Within x s.timestamp hi hi' ss)

  not_after_all-lt :
      (x : Sample V) (lo hi : ℕ) (ss : List (Sample V))
      → after_all x ss ≡ false
      → Within lo hi ss
      → x.timestamp < hi
  unfolding after_all
  not_after_all-lt x lo hi [] e w = ground arith
  not_after_all-lt x lo hi (s ∷ ss) e w = ground (arith, not_after_all-lt x s.timestamp hi ss)

  add_sample_to-IsValid :
      (i : Interval V) (x : Sample V) (ss : List (Sample V))
      → i.from < i.to
      → Within i.from i.to ss
      → (ss ≡ [] → (i.from ≤ x.timestamp) × (x.timestamp < i.to))
      → IsValid (add_sample_to i x ss)
  unfolding add_sample_to
  add_sample_to-IsValid i x [] n w h = record {
    nonempty = n;
    ordered = ((h refl).0, (h refl).1, tt);
  }
  add_sample_to-IsValid i x (s ∷ ss) n w h = elim (Bool-cases (ltb x.timestamp s.timestamp)) [
    | inl e ↦ rw e (record {
      nonempty = omega (arith, ltb→lt x.timestamp s.timestamp e);
      ordered = (
        omega arith,
        omega (arith, ltb→lt x.timestamp s.timestamp e),
        (omega (arith, ltb→lt x.timestamp s.timestamp e), w.1, w.2),
      );
    })
    | inr e ↦
        let first = ltb→le x.timestamp s.timestamp e in
        elim (Bool-cases (after_all x (s ∷ ss))) [
          | inl a ↦
              rw (e, a)
                (record {
                  nonempty = omega arith;
                  ordered =
                      insert_sample-Within x i.from (x.timestamp + 1) (s ∷ ss) (omega arith)
                        (omega arith)
                        (after_all-Within x i.from i.to (x.timestamp + 1) (s ∷ ss) a (omega arith)
                          w);
                })
          | inr a ↦
              rw (e, a)
                (record {
                  nonempty = n;
                  ordered =
                      insert_sample-Within x i.from i.to (s ∷ ss) (omega arith)
                        (not_after_all-lt x i.from i.to (s ∷ ss) a w) w;
                })
        ]
  ]

  add_sample_to-bounds :
      (i : Interval V) (x : Sample V) (ss : List (Sample V))
      → i.from ≤ x.timestamp
      → x.timestamp < i.to
      → (i.from ≤ (add_sample_to i x ss).from) × ((add_sample_to i x ss).to ≤ i.to)
  unfolding add_sample_to
  add_sample_to-bounds i x [] h k = (omega arith, omega arith)
  add_sample_to-bounds i x (s ∷ ss) h k = ground arith

  -- A sample inside an interval does not widen it.
  pub add_sample_bounds :
      (i : Interval V) (x : Sample V)
      → i.from ≤ x.timestamp
      → x.timestamp < i.to
      → (i.from ≤ (add_sample i x).from) × ((add_sample i x).to ≤ i.to)
  unfolding add_sample
  add_sample_bounds i x = add_sample_to-bounds i x i.samples

  -- Adding a sample to a valid interval that has samples gives a valid interval, wherever the
  -- sample lies; for an interval without samples the sample has to lie within it.
  pub add_sample-IsValid :
      (i : Interval V) (x : Sample V)
      → IsValid i
      → (i.samples ≡ [] → (i.from ≤ x.timestamp) × (x.timestamp < i.to))
      → IsValid (add_sample i x)
  unfolding add_sample
  add_sample-IsValid i x v h = add_sample_to-IsValid i x i.samples v.nonempty v.ordered h
