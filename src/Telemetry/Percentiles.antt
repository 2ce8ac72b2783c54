-- ===== src/Telemetry/Percentiles.antt =====
-- src/telemetry/telemetry-collector.ts: the percentiles of the durations.
use radix_kv.Prelude.{
  ==_iff, All, All-imp, Bool-cases, List, [], ap, arith, if◌then◌else◌, inl, inr, leb, leb-false→lt,
  leb→le, length, min, refl, subst, suc, sym, zero, ℕ, ◌*◌, ◌+◌, ◌-◌, ◌/◌, ◌<◌, ◌==◌, ◌∙◌, ◌∷◌, ◌≡◌,
  ◌≤◌,
}

-- The durations in nanoseconds, before they are shown in milliseconds with four digits.
pub record LatencyPercentiles : Type 0 where
  pub p50 : ℕ
  pub p90 : ℕ
  pub p95 : ℕ
  pub p99 : ℕ
  -- The average is `sum / count`.
  pub sum : ℕ
  pub count : ℕ
  pub minimum : ℕ
  pub maximum : ℕ

-- `samplesMs.sort((a, b) => a - b)`
unfoldable pub insert_sample : ℕ → List ℕ → List ℕ
insert_sample a [] = a ∷ []
insert_sample a (b ∷ bs) = let rest = insert_sample a bs in if leb a b then a ∷ b ∷ bs else b ∷ rest

unfoldable pub sort_samples : List ℕ → List ℕ
sort_samples [] = []
sort_samples (a ∷ others) = insert_sample a (sort_samples others)

-- The sample at an index within the list.
unfoldable pub sample_at : List ℕ → ℕ → ℕ
sample_at [] i = 0
sample_at (a ∷ others) zero = a
sample_at (a ∷ others) (suc i) = sample_at others i

unfoldable pub sum_samples : List ℕ → ℕ
sum_samples [] = 0
sum_samples (a ∷ others) = a + sum_samples others

-- `samplesMs[Math.min(len - 1, Math.floor(len * percent / 100))]`. For the median the source leaves the
-- minimum out, which is the second number then.
unfoldable pub percentile : ℕ → List ℕ → ℕ
percentile percent sorted =
    sample_at sorted (min (length sorted - 1) (length sorted * percent / 100))

unfoldable pub percentiles_of : List ℕ → LatencyPercentiles
percentiles_of sorted = record {
  p50 = sample_at sorted (length sorted * 50 / 100);
  p90 = percentile 90 sorted;
  p95 = percentile 95 sorted;
  p99 = percentile 99 sorted;
  sum = sum_samples sorted;
  count = length sorted;
  minimum = sample_at sorted 0;
  maximum = sample_at sorted (length sorted - 1);
}

unfoldable pub compute_percentiles : List ℕ → LatencyPercentiles
compute_percentiles [] = record {
  p50 = 0;
  p90 = 0;
  p95 = 0;
  p99 = 0;
  sum = 0;
  count = 0;
  minimum = 0;
  maximum = 0;
}
compute_percentiles (s ∷ ss) = percentiles_of (sort_samples (s ∷ ss))

-- No sample is larger than the one behind it.
abbrev pub IsSorted : List ℕ → Type 0
IsSorted [] = Unit
IsSorted (a ∷ bs) = All (λ b. a ≤ b) bs × IsSorted bs

insert_sample-All :
    (P : ℕ → Type 0) (a : ℕ) (bs : List ℕ) → P a → All P bs → All P (insert_sample a bs)
unfolding insert_sample
insert_sample-All P a [] p h = (p, h)
insert_sample-All P a (b ∷ bs) p h = elim (Bool-cases (leb a b)) [
  | inl le ↦ rw (le, insert_sample) (p, h)
  | inr gt ↦ rw (gt, insert_sample) (h.0, insert_sample-All P a bs p h.1)
]

insert_sample-IsSorted : (a : ℕ) (bs : List ℕ) → IsSorted bs → IsSorted (insert_sample a bs)
unfolding insert_sample
insert_sample-IsSorted a [] h = (tt, tt)
insert_sample-IsSorted a (b ∷ bs) h = elim (Bool-cases (leb a b)) [
  | inl le ↦
      rw (le, insert_sample)
        (
          (
            leb→le a b le,
            All-imp (λ c. b ≤ c) (λ c. a ≤ c) bs (λ c k. omega (arith, k, leb→le a b le)) h.0,
          ),
          h,
        )
  | inr gt ↦
      rw (gt, insert_sample)
        (
          insert_sample-All (λ c. b ≤ c) a bs (omega (arith, leb-false→lt a b gt)) h.0,
          insert_sample-IsSorted a bs h.1,
        )
]

sort_samples-IsSorted : (bs : List ℕ) → IsSorted (sort_samples bs)
unfolding sort_samples
sort_samples-IsSorted [] = tt
sort_samples-IsSorted (b ∷ bs) = insert_sample-IsSorted b _ (sort_samples-IsSorted bs)

length-insert_sample : (a : ℕ) (bs : List ℕ) → length (insert_sample a bs) ≡ suc (length bs)
unfolding insert_sample
length-insert_sample a [] = refl
length-insert_sample a (b ∷ bs) = ground (arith, length-insert_sample a bs)

length-sort_samples : (bs : List ℕ) → length (sort_samples bs) ≡ length bs
unfolding sort_samples
length-sort_samples [] = refl
length-sort_samples (b ∷ bs) =
    length-insert_sample b (sort_samples bs) ∙ ap suc (length-sort_samples bs)

sample_at-All :
    (P : ℕ → Type 0) (bs : List ℕ) (i : ℕ) → All P bs → i < length bs → P (sample_at bs i)
unfolding sample_at
sample_at-All P [] i h lt = absurd (omega arith)
sample_at-All P (b ∷ bs) zero h lt = h.0
sample_at-All P (b ∷ bs) (suc i) h lt = sample_at-All P bs i h.1 (omega arith)

-- A later sample is no smaller.
sample_at-le :
    (bs : List ℕ) (i j : ℕ) → IsSorted bs → i ≤ j → j < length bs → sample_at bs i ≤ sample_at bs j
unfolding sample_at
sample_at-le [] i j h le lt = absurd (omega arith)
sample_at-le (b ∷ bs) zero zero h le lt = omega arith
sample_at-le (b ∷ bs) zero (suc j) h le lt = sample_at-All (λ c. b ≤ c) bs j h.0 (omega arith)
sample_at-le (b ∷ bs) (suc i) zero h le lt = absurd (omega arith)
sample_at-le (b ∷ bs) (suc i) (suc j) h le lt = sample_at-le bs i j h.1 (omega arith) (omega arith)

-- How often a sample stands in a list.
unfoldable pub count_sample : ℕ → List ℕ → ℕ
count_sample a [] = 0
count_sample a (b ∷ bs) = (if b == a then 1 else 0) + count_sample a bs

count_sample-insert_sample :
    (a b : ℕ) (bs : List ℕ) → count_sample a (insert_sample b bs) ≡ count_sample a (b ∷ bs)
unfolding count_sample insert_sample
count_sample-insert_sample a b [] = refl
count_sample-insert_sample a b (c ∷ bs) = ground (arith, count_sample-insert_sample a b bs)

count_sample-sort_samples :
    (a : ℕ) (bs : List ℕ) → count_sample a (sort_samples bs) ≡ count_sample a bs
unfolding sort_samples count_sample
count_sample-sort_samples a [] = refl
count_sample-sort_samples a (b ∷ bs) =
    count_sample-insert_sample a b (sort_samples bs)
    ∙ unfold count_sample in omega (arith, count_sample-sort_samples a bs)

sample_at_of_count :
    (a : ℕ) (bs : List ℕ) → 0 < count_sample a bs → (i : ℕ) × (i < length bs) × (sample_at bs i ≡ a)
unfolding count_sample sample_at
sample_at_of_count a [] h = absurd (omega arith)
sample_at_of_count a (b ∷ bs) h = elim (Bool-cases (b == a)) [
  | inl same ↦ (0, omega arith, (==_iff b a).0 same)
  | inr other ↦
      let (i, lt, is) = sample_at_of_count a bs (ground (arith, h, other)) in
      (suc i, omega (arith, lt), is)
]

-- The percentiles in their order, between the extremes.
pub record Ordered (l : LatencyPercentiles) : Type 0 where
  pub low : l.minimum ≤ l.p50
  pub middle : l.p50 ≤ l.p90
  pub upper : l.p90 ≤ l.p95
  pub top : l.p95 ≤ l.p99
  pub high : l.p99 ≤ l.maximum

percentiles_of-Ordered : (bs : List ℕ) → IsSorted bs → 0 < length bs → Ordered (percentiles_of bs)
unfolding percentiles_of percentile
percentiles_of-Ordered bs h k = record {
  low = sample_at-le bs _ _ h (omega arith) (omega arith);
  middle = sample_at-le bs _ _ h (omega arith) (omega arith);
  upper = sample_at-le bs _ _ h (omega arith) (omega arith);
  top = sample_at-le bs _ _ h (omega arith) (omega arith);
  high = sample_at-le bs _ _ h (omega arith) (omega arith);
}

-- The percentiles are in their order and between the extremes, whatever the samples; and every sample is
-- between the extremes.
pub compute_percentiles-Ordered :
    (samples : List ℕ)
    → Ordered (compute_percentiles samples)
      × ((a : ℕ)
          → 0 < count_sample a samples
          → ((compute_percentiles samples).minimum ≤ a)
            × (a ≤ (compute_percentiles samples).maximum))
unfolding compute_percentiles percentiles_of count_sample
compute_percentiles-Ordered [] = (
  record {
    low = omega arith;
    middle = omega arith;
    upper = omega arith;
    top = omega arith;
    high = omega arith;
  },
  λ a h. absurd (omega arith),
)
compute_percentiles-Ordered (b ∷ bs) =
    let sorted = sort_samples (b ∷ bs) in
    (
      percentiles_of-Ordered sorted (sort_samples-IsSorted (b ∷ bs))
          (omega (arith, length-sort_samples (b ∷ bs))),
      λ a h.
          let (i, lt, at_i) =
            sample_at_of_count a sorted
              (subst (λ n. 0 < n) (sym (count_sample-sort_samples a (b ∷ bs))) h) in
          let ordered = sort_samples-IsSorted (b ∷ bs) in
          (
            subst (λ x. sample_at sorted 0 ≤ x) at_i
                (sample_at-le sorted 0 i ordered (omega arith) lt),
            subst (λ x. x ≤ sample_at sorted (length sorted - 1)) at_i
                (sample_at-le sorted i (length sorted - 1) ordered (omega (arith, lt))
                  (omega (arith, lt))),
          ),
    )
