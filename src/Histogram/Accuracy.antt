-- ===== src/Histogram/Accuracy.antt =====
-- How near `valueOf(bucketOf(v))` comes to `v`.
use ultra_low_latency_orderb.Prelude.{
  ℕ, zero, suc, ◌+◌, ◌-◌, ◌*◌, ◌/◌, ◌%◌, ◌^◌, ◌<◌, ◌≤◌, ◌≡◌, ◌∙◌, ◌⊎◌, refl, sym, ap, arith, inl,
  inr, lt→ltb, ltb-false, ==_true, ==_false,
}
use native.Mathlib.Nat.{
  two-pow-succ, le-div_iff_mul-le, div-lt_iff_lt-mul, div-mul-le_self, lt-div-mul-add,
  pow-le-pow_right, mul-le-mul_right, lt_of_mul-lt-mul_right, mod-eq_of_lt,
}
use ultra_low_latency_orderb.Prelude.Bits.{digit, digit-lt, pow_pos}
use ultra_low_latency_orderb.Bitmap.{leading_zeros}
use ultra_low_latency_orderb.Histogram.{highest_bit, bucket_of, value_of}

-- The digit above all the others says whether a number reaches its power.
digit-top_zero : (n w : ℕ) → w < 2 ^ suc n → digit w n ≡ 0 → w < 2 ^ n
digit-top_zero zero w lt e = omega arith
digit-top_zero (suc n) w lt e =
    omega (arith, two-pow-succ n, digit-top_zero n (w / 2) (omega (arith, two-pow-succ (suc n))) e)

digit-top_one : (n w : ℕ) → digit w n ≡ 1 → 2 ^ n ≤ w
digit-top_one zero w e = omega arith
digit-top_one (suc n) w e = omega (arith, two-pow-succ n, digit-top_one n (w / 2) e)

-- `j` is the number of binary digits of `w`, less one.
record IsLog (w j : ℕ) : Type 0 where
  reaches : 2 ^ j ≤ w
  below : w < 2 ^ suc j

leading_zeros-IsLog :
    (n w : ℕ) → 0 < w → w < 2 ^ n → (leading_zeros n w < n) × IsLog w (n - 1 - leading_zeros n w)
unfolding leading_zeros
leading_zeros-IsLog zero w some_bits lt = absurd (omega arith)
leading_zeros-IsLog (suc n) w some_bits lt = elim (digit_cases w n) [
  | inl one ↦
      let e : suc n - 1 - 0 ≡ n = omega arith in
      rw (==_true (digit w n) 1 one)
        (omega arith, rw e (record { reaches = digit-top_one n w one; below = lt }))
  | inr nil ↦
      let (few, log) = leading_zeros-IsLog n w some_bits (digit-top_zero n w lt nil) in
      let e : suc n - 1 - suc (leading_zeros n w) ≡ n - 1 - leading_zeros n w = omega arith in
      rw (==_false (digit w n) 1 (omega arith)) (omega arith, rw e log)
]
  where
    digit_cases : (w j : ℕ) → (digit w j ≡ 1) ⊎ (digit w j ≡ 0)
    digit_cases w j = omega (arith, digit-lt j w)

highest_bit-IsLog : (v : ℕ) → 0 < v → v < 2 ^ 32 → IsLog v (highest_bit v)
unfolding highest_bit
highest_bit-IsLog v some_bits lt = (leading_zeros-IsLog 32 v some_bits lt).1

-- Of `v` at least 32: its octave `k`, its place `q` in the octave with 32 added, and its bucket.
record IsPlaced (v b : ℕ) : Type 0 where
  k : ℕ
  q : ℕ
  octave : k < 27
  place : (32 ≤ q) × (q < 64)
  reaches : q * 2 ^ k ≤ v
  below : v < q * 2 ^ k + 2 ^ k
  index : b ≡ 32 * k + q

octave_power : (k : ℕ) → 2 ^ suc (suc (suc (suc (suc k)))) ≡ 32 * 2 ^ k
octave_power k = omega (
  arith,
  two-pow-succ k,
  two-pow-succ (suc k),
  two-pow-succ (suc (suc k)),
  two-pow-succ (suc (suc (suc k))),
  two-pow-succ (suc (suc (suc (suc k)))),
)

log_at_least : (v j : ℕ) → 32 ≤ v → IsLog v j → 5 ≤ j
log_at_least v j le log = elim (ltb_cases j 5) [
  | inl few ↦ absurd (omega (arith, power few))
  | inr many ↦ many
]
  where
    ltb_cases : (m n : ℕ) → (m < n) ⊎ (n ≤ m)
    ltb_cases m n = omega arith

    power : j < 5 → 2 ^ suc j ≤ 2 ^ 5
    power few = pow-le-pow_right (omega arith) few

IsLog-octave : (v j : ℕ) → IsLog v j → 5 ≤ j → (32 * 2 ^ (j - 5) ≤ v) × (v < 64 * 2 ^ (j - 5))
IsLog-octave v j log le =
    let e : suc (suc (suc (suc (suc (j - 5))))) ≡ j = omega arith in
    let power : 2 ^ j ≡ 32 * 2 ^ (j - 5) = ap (λ i. 2 ^ i) (sym e) ∙ octave_power (j - 5) in
    (omega (arith, power), omega (arith, power, two-pow-succ j))

highest_bit-lt : (v : ℕ) → highest_bit v < 32
unfolding highest_bit
highest_bit-lt v = omega arith

bucket_of-IsPlaced : (v : ℕ) → 32 ≤ v → v < 2 ^ 32 → IsPlaced v (bucket_of v)
unfolding bucket_of
bucket_of-IsPlaced v le lt =
    let log = highest_bit-IsLog v (omega arith) lt in
    let many = log_at_least v (highest_bit v) le log in
    let (reaches, below) = IsLog-octave v (highest_bit v) log many in
    let k = highest_bit v - 5 in
    let some_bits = pow_pos k in
    let low : 32 ≤ v / 2 ^ k = (le-div_iff_mul-le some_bits).1 reaches in
    let high : v / 2 ^ k < 64 = (div-lt_iff_lt-mul some_bits).1 below in
    rw (ltb-false v 32 le) (record {
      k = k;
      q = v / 2 ^ k;
      octave = omega (arith, highest_bit-lt v);
      place = (low, high);
      reaches = div-mul-le_self v (2 ^ k);
      below = lt-div-mul-add some_bits;
      index = omega arith;
    })

-- The number that `valueOf` gives for a bucket is below its values, by a 32nd at most.
abbrev pub IsNear : ℕ → ℕ → Type 0
IsNear low v = (low ≤ v) × (32 * (v - low) ≤ low)

value_of-octave : (k q b : ℕ) → 32 ≤ q → q < 64 → b ≡ 32 * k + q → value_of b ≡ q * 2 ^ k % 2 ^ 32
unfolding value_of
value_of-octave k q b low high e =
    let sub : 32 + b % 32 ≡ q = omega arith in
    let shift : b / 32 - 1 ≡ k = omega arith in rw (ltb-false b 32 (omega arith), sub, shift) refl

bucket_of-small : (v : ℕ) → v < 32 → bucket_of v ≡ v
unfolding bucket_of
bucket_of-small v lt = rw (lt→ltb v 32 lt) refl

value_of-small : (b : ℕ) → b < 32 → value_of b ≡ b
unfolding value_of
value_of-small b lt = rw (lt→ltb b 32 lt) refl

small_or_large : (v : ℕ) → (v < 32) ⊎ (32 ≤ v)
small_or_large v = omega arith

-- The bucket of every 32-bit value has a number that `valueOf` puts at the value or below, and
-- short of it by at most a 32nd.
pub value_of-bucket_of : (v : ℕ) → v < 2 ^ 32 → IsNear (value_of (bucket_of v)) v
value_of-bucket_of v lt = elim (small_or_large v) [
  | inl small ↦
      rw (bucket_of-small v small) (rw (value_of-small v small) (omega arith, omega arith))
  | inr large ↦
      let w = bucket_of-IsPlaced v large lt in
      let product = mul-le-mul_right (2 ^ w.k) w.place.0 in
      let e : value_of (bucket_of v) ≡ w.q * 2 ^ w.k =
        value_of-octave w.k w.q (bucket_of v) w.place.0 w.place.1 w.index
        ∙ mod-eq_of_lt (omega (arith, w.reaches)) in
      rw e (w.reaches, omega (arith, w.below, product))
]

IsPlaced-mono : (u v b c : ℕ) → u ≤ v → IsPlaced u b → IsPlaced v c → b ≤ c
IsPlaced-mono u v b c le x y = elim (compared x.k y.k) [
  | inl lower ↦ omega (arith, x.index, y.index, x.place.1, y.place.0)
  | inr (inl same) ↦
      let power = ap (λ k. 2 ^ k) same in
      let lt : x.q * 2 ^ y.k < suc y.q * 2 ^ y.k =
        omega (arith, x.reaches, y.below, ap (λ p. x.q * p) power) in
      omega (arith, x.index, y.index, lt_of_mul-lt-mul_right (2 ^ y.k) lt)
  | inr (inr higher) ↦
      let power : 2 ^ suc y.k ≤ 2 ^ x.k = pow-le-pow_right (omega arith) higher in
      let under = mul-le-mul_right (2 ^ y.k) y.place.1 in
      let over = mul-le-mul_right (2 ^ x.k) x.place.0 in
      absurd (omega (arith, x.reaches, y.below, power, two-pow-succ y.k, under, over))
]
  where
    compared : (m n : ℕ) → (m < n) ⊎ ((m ≡ n) ⊎ (suc n ≤ m))
    compared m n = omega arith

-- A larger 32-bit value never goes into a smaller bucket.
pub bucket_of_mono : (u v : ℕ) → u ≤ v → v < 2 ^ 32 → bucket_of u ≤ bucket_of v
bucket_of_mono u v le lt = elim (small_or_large u) [
  | inl small ↦ elim (small_or_large v) [
    | inl also ↦ rw (bucket_of-small u small, bucket_of-small v also) le
    | inr large ↦
        let w = bucket_of-IsPlaced v large lt in
        rw (bucket_of-small u small) (omega (arith, w.index, w.place.0))
  ]
  | inr large ↦
      IsPlaced-mono u v (bucket_of u) (bucket_of v) le (bucket_of-IsPlaced u large (omega arith))
        (bucket_of-IsPlaced v (omega arith) lt)
]
