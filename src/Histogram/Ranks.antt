-- ===== src/Histogram/Ranks.antt =====
-- What percentile says of the values recorded: the value at a rank, as near as the buckets are wide.
use ultra_low_latency_orderb.Prelude.{
  ℕ, zero, suc, ◌*◌, ◌^◌, ◌<◌, ◌≤◌, ◌≡◌, ◌∙◌, ◌⊎◌, refl, sym, ap, arith, inl, inr, Bool, true,
  false, Bool-cases, ltb, leb, ltb→lt, lt→ltb, ltb-false, List, [], ◌∷◌, length, add64,
  if◌then◌else◌,
}
use ultra_low_latency_orderb.Histogram.{
  LatencyHistogram, num_buckets, bucket_of, value_of, reset, record_value, clamped, percentile,
}
use ultra_low_latency_orderb.Histogram.Counts.{
  bucket_sum, bucket_sum-suc, bucket_sum-write, bucket_sum-write_above, bucket_of-lt,
  percentile-IsRanked,
}
use ultra_low_latency_orderb.Histogram.Accuracy.{value_of-bucket_of, bucket_of_mono}

-- A new histogram after the values of a list, the last of them first.
abbrev pub record_all : List ℕ → LatencyHistogram
record_all [] = reset
record_all (v ∷ vs) = record_value (record_all vs) v

-- How many values pass a test.
unfoldable pub tally : (ℕ → Bool) → List ℕ → ℕ
tally p [] = 0
tally p (v ∷ vs) = if p v then suc (tally p vs) else tally p vs

abbrev pub AreTicks : List ℕ → Type 0
AreTicks [] = Unit {0}
AreTicks (v ∷ vs) = (v < 2 ^ 32) × AreTicks vs

tally-le_length : (p : ℕ → Bool) (vs : List ℕ) → tally p vs ≤ length vs
unfolding tally
tally-le_length p [] = omega arith
tally-le_length p (v ∷ vs) = elim (Bool-cases (p v)) [
  | inl passed ↦ rw passed (omega (arith, tally-le_length p vs))
  | inr failed ↦ rw failed (omega (arith, tally-le_length p vs))
]

tally-all : (p : ℕ → Bool) (vs : List ℕ) → ((v : ℕ) → p v ≡ true) → tally p vs ≡ length vs
unfolding tally
tally-all p [] all = refl
tally-all p (v ∷ vs) all = rw (all v) (ap suc (tally-all p vs all))

tally_mono :
    (p q : ℕ → Bool) (vs : List ℕ)
    → AreTicks vs
    → ((v : ℕ) → v < 2 ^ 32 → p v ≡ true → q v ≡ true)
    → tally p vs ≤ tally q vs
unfolding tally
tally_mono p q [] t imp = omega arith
tally_mono p q (v ∷ vs) t imp = elim (Bool-cases (p v)) [
  | inl passed ↦ rw (passed, imp v t.0 passed) (omega (arith, tally_mono p q vs t.1 imp))
  | inr failed ↦ rw failed (under (q v) (tally_mono p q vs t.1 imp))
]
  where
    under : (b : Bool) {m n : ℕ} → m ≤ n → m ≤ (if b then suc n else n)
    under true le = omega arith
    under false le = le

-- A value in the bucket at which the tally grows.
tally-gap :
    (b : ℕ) (vs : List ℕ)
    → AreTicks vs
    → tally (λ v. ltb (bucket_of v) b) vs < tally (λ v. ltb (bucket_of v) (suc b)) vs
    → (v : ℕ) × (v < 2 ^ 32) × (bucket_of v ≡ b)
unfolding tally
tally-gap b [] t lt = absurd (omega arith)
tally-gap b (v ∷ vs) t lt = elim (compared (bucket_of v) b) [
  | inl low ↦
      let e = lt→ltb (bucket_of v) b low in
      let e' = lt→ltb (bucket_of v) (suc b) (omega arith) in
      tally-gap b vs t.1 (omega (arith, simp (e, e') at lt))
  | inr (inl here) ↦ (v, t.0, here)
  | inr (inr high) ↦
      let e = ltb-false (bucket_of v) b (omega arith) in
      let e' = ltb-false (bucket_of v) (suc b) high in tally-gap b vs t.1 (simp (e, e') at lt)
]
  where
    compared : (m n : ℕ) → (m < n) ⊎ ((m ≡ n) ⊎ (suc n ≤ m))
    compared m n = omega arith

bucket_sum-reset : (n : ℕ) → bucket_sum n reset.bucket ≡ 0
unfolding reset bucket_sum
bucket_sum-reset zero = refl
bucket_sum-reset (suc n) = omega (arith, bucket_sum-reset n)

bucket_sum-record_all :
    (n : ℕ) (vs : List ℕ)
    → length vs < 2 ^ 64
    → bucket_sum n (record_all vs).bucket ≡ tally (λ v. ltb (bucket_of v) n) vs
unfolding tally record_value reset
bucket_sum-record_all n [] few = bucket_sum-reset n
bucket_sum-record_all n (v ∷ vs) few =
    let f = (record_all vs).bucket in
    let i = bucket_of v in
    let one : f i ≤ length vs = omega (
      arith,
      bucket_sum-suc i f,
      bucket_sum-record_all (suc i) vs (omega arith),
      tally-le_length (λ v. ltb (bucket_of v) (suc i)) vs,
    ) in
    elim (compared i n) [
      | inl inside ↦ rw (lt→ltb i n inside) (
          omega (
            arith,
            one,
            bucket_sum-write n i (add64 (f i) 1) f inside,
            bucket_sum-record_all n vs (omega arith),
          ))
      | inr outside ↦
          rw (ltb-false i n outside, bucket_sum-write_above n i (add64 (f i) 1) f outside)
            (bucket_sum-record_all n vs (omega arith))
    ]
  where
    compared : (m n : ℕ) → (m < n) ⊎ (n ≤ m)
    compared m n = omega arith

count-record_all : (vs : List ℕ) → length vs < 2 ^ 64 → (record_all vs).count ≡ length vs
unfolding record_value reset
count-record_all [] few = refl
count-record_all (v ∷ vs) few = omega (arith, count-record_all vs (omega arith))

-- The value in the bucket of `low` is one of the least that are not below `low`.
near_of_bucket :
    (x v : ℕ)
    → x < 2 ^ 32
    → v < 2 ^ 32
    → bucket_of v ≤ bucket_of x
    → 32 * v ≤ 33 * value_of (bucket_of x)
near_of_bucket x v xlt vlt le = elim (compared v x) [
  | inl below ↦ omega (arith, value_of-bucket_of x xlt)
  | inr above ↦
      let same : bucket_of v ≡ bucket_of x = omega (arith, bucket_of_mono x v above vlt) in
      omega (arith, value_of-bucket_of v vlt, ap value_of same)
]
  where
    compared : (m n : ℕ) → (m ≤ n) ⊎ (n ≤ m)
    compared m n = omega arith

bucket_below :
    (x v : ℕ) → x < 2 ^ 32 → v < 2 ^ 32 → v < value_of (bucket_of x) → bucket_of v < bucket_of x
bucket_below x v xlt vlt lt = elim (compared (bucket_of v) (bucket_of x)) [
  | inl less ↦ less
  | inr (inl same) ↦ absurd (omega (arith, value_of-bucket_of v vlt, ap value_of same))
  | inr (inr more) ↦ absurd (
      omega (
        arith,
        value_of-bucket_of x xlt,
        bucket_of_mono v x (omega (arith, value_of-bucket_of x xlt)) xlt,
      ))
]
  where
    compared : (m n : ℕ) → (m < n) ⊎ ((m ≡ n) ⊎ (n < m))
    compared m n = omega arith

clamped-rank : (count rank : ℕ) → 0 < rank → rank ≤ count → clamped count rank ≡ rank
unfolding clamped
clamped-rank count rank some_rank le = ground arith

-- Of 32-bit values that a new histogram has recorded, fewer than 2 ^ 64, `percentile` at a rank
-- between one and their number gives a number that fewer of them than the rank are below, while as
-- many as the rank are at it or above it by at most a 32nd, or below.
pub percentile-record_all :
    (vs : List ℕ) (rank : ℕ)
    → AreTicks vs
    → length vs < 2 ^ 64
    → 0 < rank
    → rank ≤ length vs
    → let low = percentile (record_all vs) rank in
      (tally (λ v. ltb v low) vs < rank) × (rank ≤ tally (λ v. leb (32 * v) (33 * low)) vs)
percentile-record_all vs rank t few some_rank le =
    let h = record_all vs in
    let sums : (n : ℕ) → bucket_sum n h.bucket ≡ tally (λ v. ltb (bucket_of v) n) vs =
      λ n. bucket_sum-record_all n vs few in
    let counted = count-record_all vs few in
    let total : bucket_sum num_buckets h.bucket ≡ length vs =
      sums num_buckets
      ∙ tally-all (λ v. ltb (bucket_of v) num_buckets) vs
          (λ v. lt→ltb (bucket_of v) num_buckets (bucket_of-lt v)) in
    let (b, e, _, low, high) =
      percentile-IsRanked h rank (omega (arith, counted, total)) (omega (arith, counted))
        (omega (arith, total)) in
    let r = clamped-rank h.count rank some_rank (omega (arith, counted)) in
    let (x, xlt, xb) = tally-gap b vs t (omega (arith, low, high, sums b, sums (suc b))) in
    let p : percentile h rank ≡ value_of (bucket_of x) = e ∙ ap value_of (sym xb) in
    let under =
      tally_mono (λ v. ltb v (value_of (bucket_of x))) (λ v. ltb (bucket_of v) b) vs t
        (λ v vlt q.
          lt→ltb (bucket_of v) b
            (omega (arith, xb, bucket_below x v xlt vlt (ltb→lt v (value_of (bucket_of x)) q)))) in
    let within =
      tally_mono (λ v. ltb (bucket_of v) (suc b)) (λ v. leb (32 * v) (33 * value_of (bucket_of x)))
        vs t
        (λ v vlt q.
          le→leb (32 * v) (33 * value_of (bucket_of x))
            (near_of_bucket x v xlt vlt (omega (arith, xb, ltb→lt (bucket_of v) (suc b) q)))) in
    rw p (omega (arith, low, r, sums b, under), omega (arith, high, r, sums (suc b), within))
  where
    le→leb : (a b : ℕ) → a ≤ b → leb a b ≡ true
    le→leb a b h = ground arith
