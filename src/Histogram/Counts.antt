-- ===== src/Histogram/Counts.antt =====
-- The count of a histogram is that of its buckets, and what bucket a rank falls in.
use ultra_low_latency_orderb.Prelude.{
  ℕ, zero, suc, ◌+◌, ◌%◌, ◌^◌, ◌<◌, ◌≤◌, ◌≡◌, ◌≢◌, refl, ap, arith, leb, write, add64, Bool-cases,
  inl, inr, ==_true, ==_false,
}
use native.Mathlib.Decide.{ℕ_discrete}
use ultra_low_latency_orderb.Histogram.{
  LatencyHistogram, num_buckets, highest_bit, bucket_of, value_of, record_value, merge, clamped,
  scan_rank, percentile,
}

-- The sum of the first `n` buckets.
unfoldable pub bucket_sum : ℕ → (ℕ → ℕ) → ℕ
bucket_sum zero f = 0
bucket_sum (suc n) f = f n + bucket_sum n f

-- The count is the sum of all the buckets, as far as 64 bits show it.
abbrev pub IsCounted : LatencyHistogram → Type 0
IsCounted h = h.count ≡ bucket_sum num_buckets h.bucket % 2 ^ 64

-- Every value has a bucket.
pub bucket_of-lt : (v : ℕ) → bucket_of v < num_buckets
unfolding bucket_of highest_bit
bucket_of-lt v = ground arith

pub bucket_sum-write_above :
    (n i v : ℕ) (f : ℕ → ℕ) → n ≤ i → bucket_sum n (write f i v) ≡ bucket_sum n f
unfolding bucket_sum
bucket_sum-write_above zero i v f le = refl
bucket_sum-write_above (suc n) i v f le =
    rw (==_false n i (λ e. ground arith), bucket_sum-write_above n i v f (omega arith)) refl

pub bucket_sum-write :
    (n i v : ℕ) (f : ℕ → ℕ) → i < n → bucket_sum n (write f i v) + f i ≡ bucket_sum n f + v
unfolding bucket_sum
bucket_sum-write zero i v f lt = absurd (omega arith)
bucket_sum-write (suc n) i v f lt = elim (ℕ_discrete n i) [
  | yes e ↦ rw (==_true n i e) (omega (arith, bucket_sum-write_above n i v f (omega arith), ap f e))
  | no ne ↦ rw (==_false n i ne) (omega (arith, bucket_sum-write n i v f (below n i ne lt)))
]
  where
    below : (n i : ℕ) → n ≢ i → i < suc n → i < n
    below n i ne lt = ground arith

bucket_sum-merge :
    (n : ℕ) (f g : ℕ → ℕ)
    → bucket_sum n (λ b. add64 (f b) (g b)) % 2 ^ 64 ≡ (bucket_sum n f + bucket_sum n g) % 2 ^ 64
unfolding bucket_sum
bucket_sum-merge zero f g = refl
bucket_sum-merge (suc n) f g = omega (arith, bucket_sum-merge n f g)

-- `record` adds one to the count and to one bucket, so that the count stays that of the buckets.
pub record_value-IsCounted :
    (h : LatencyHistogram) (v : ℕ) → IsCounted h → IsCounted (record_value h v)
unfolding record_value
record_value-IsCounted h v c = omega (
  arith,
  c,
  bucket_sum-write num_buckets (bucket_of v) (add64 (h.bucket (bucket_of v)) 1) h.bucket
      (bucket_of-lt v),
)

-- `merge` of two histograms whose counts are those of their buckets gives one more.
pub merge-IsCounted : (h o : LatencyHistogram) → IsCounted h → IsCounted o → IsCounted (merge h o)
unfolding merge
merge-IsCounted h o c d = omega (arith, c, d, bucket_sum-merge num_buckets h.bucket o.bucket)

bucket_sum_mono : (b t : ℕ) (f : ℕ → ℕ) → b ≤ t → bucket_sum b f ≤ bucket_sum t f
unfolding bucket_sum
bucket_sum_mono b zero f le = let e : b ≡ 0 = omega arith in rw e (omega arith)
bucket_sum_mono b (suc t) f le = elim (ℕ_discrete b (suc t)) [
  | yes e ↦ rw e (omega arith)
  | no ne ↦ omega (arith, bucket_sum_mono b t f (below b t ne le))
]
  where
    below : (b t : ℕ) → b ≢ suc t → b ≤ suc t → b ≤ t
    below b t ne le = ground arith

-- The value is that of the bucket in which the rank falls.
abbrev pub IsRanked : LatencyHistogram → ℕ → ℕ → Type 0
IsRanked h rank value =
    (b : ℕ) × (value ≡ value_of b)
    × (b < num_buckets)
    × (bucket_sum b h.bucket < rank)
    × (rank ≤ bucket_sum (suc b) h.bucket)

pub bucket_sum-suc : (n : ℕ) (f : ℕ → ℕ) → bucket_sum (suc n) f ≡ f n + bucket_sum n f
unfolding bucket_sum
bucket_sum-suc n f = refl

scan_rank-IsRanked :
    (n : ℕ) (h : LatencyHistogram) (rank b acc : ℕ)
    → b + n ≡ num_buckets
    → acc ≡ bucket_sum b h.bucket
    → acc < rank
    → rank ≤ bucket_sum num_buckets h.bucket
    → bucket_sum num_buckets h.bucket < 2 ^ 64
    → IsRanked h rank (scan_rank n h rank b acc)
unfolding scan_rank
scan_rank-IsRanked zero h rank b acc e a lt le word =
    absurd (omega (arith, ap (λ k. bucket_sum k h.bucket) (whole b e)))
  where
    whole : (b : ℕ) → b + 0 ≡ 896 → b ≡ 896
    whole b e = omega arith
scan_rank-IsRanked (suc n) h rank b acc e a lt le word =
    let grown = bucket_sum_mono (suc b) num_buckets h.bucket (omega arith) in
    let next : add64 acc (h.bucket b) ≡ bucket_sum (suc b) h.bucket =
      omega (arith, a, grown, bucket_sum-suc b h.bucket) in
    elim (Bool-cases (leb rank (add64 acc (h.bucket b)))) [
      | inl here ↦ rw here (b, refl, omega arith, omega arith, ground (arith, next))
      | inr later ↦ rw later (
          scan_rank-IsRanked n h rank (suc b) (add64 acc (h.bucket b)) (omega arith) next
            (ground arith) le word)
    ]

bucket_sum-zero : (f : ℕ → ℕ) → 0 ≡ bucket_sum 0 f
unfolding bucket_sum
bucket_sum-zero f = refl

clamped-pos : (count rank : ℕ) → 0 < count → 0 < clamped count rank
unfolding clamped
clamped-pos count rank lt = ground arith

clamped-le : (count rank total : ℕ) → 0 < count → count ≡ total → clamped count rank ≤ total
unfolding clamped
clamped-le count rank total lt e = ground arith

percentile-some :
    (h : LatencyHistogram) (rank : ℕ)
    → 0 < h.count
    → percentile h rank ≡ scan_rank num_buckets h (clamped h.count rank) 0 0
unfolding percentile
percentile-some h rank lt = rw (==_false h.count 0 (λ e. omega (arith, lt, e))) refl

-- Where fewer than 2 ^ 64 values are counted, and at least one, `percentile` does not run past the
-- last bucket: it gives the value of the bucket in which the clamped rank falls.
pub percentile-IsRanked :
    (h : LatencyHistogram) (rank : ℕ)
    → IsCounted h
    → 0 < h.count
    → bucket_sum num_buckets h.bucket < 2 ^ 64
    → IsRanked h (clamped h.count rank) (percentile h rank)
percentile-IsRanked h rank c lt word = rw (percentile-some h rank lt) (
    scan_rank-IsRanked num_buckets h (clamped h.count rank) 0 0 refl (bucket_sum-zero h.bucket)
      (clamped-pos h.count rank lt)
      (clamped-le h.count rank (bucket_sum num_buckets h.bucket) lt (omega (arith, c, word))) word)
