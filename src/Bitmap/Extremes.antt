-- ===== src/Bitmap/Extremes.antt =====
-- The two scans of include/orderbook.hpp find the extreme set bits.
use native.Mathlib.Decide.{ℕ_discrete, dec_lt}
use ultra_low_latency_orderb.Prelude.{
  ℕ, zero, suc, ◌+◌, ◌-◌, ◌*◌, ◌/◌, ◌%◌, ◌^◌, ◌≤◌, ◌<◌, ◌≡◌, ◌≢◌, ◌∙◌, refl, subst, ◌⊎◌, inl, inr,
  Option, none, some, arith, ==_true, ==_false,
}
use ultra_low_latency_orderb.Prelude.Bits.{digit, digit-lt, digit_of_zero, eq_zero_of_digits}
use ultra_low_latency_orderb.Bitmap.{
  Words, leading_zeros, clzll, trailing_zeros, ctzll, highest_set_bit, lowest_from, lowest_set_bit,
}
use ultra_low_latency_orderb.Bitmap.Scan.{bit, AreWords}

digit_cases : (w j : ℕ) → (digit w j ≡ 1) ⊎ (digit w j ≡ 0)
digit_cases w j = omega (arith, digit-lt j w)

-- No digit of the lowest `n` is set.
abbrev Blank : ℕ → ℕ → Type 0
Blank n w = (j : ℕ) → j < n → digit w j ≡ 0

-- `p` is the highest set digit of the lowest `n`.
record IsTop (n w p : ℕ) : Type 0 where
  below : p < n
  is_set : digit w p ≡ 1
  above : (j : ℕ) → p < j → j < n → digit w j ≡ 0

-- `p` is the lowest set digit, and is among the lowest `n`.
record IsBottom (n w p : ℕ) : Type 0 where
  below : p < n
  is_set : digit w p ≡ 1
  under : (j : ℕ) → j < p → digit w j ≡ 0

leading_zeros-IsTop :
    (n w : ℕ) → Blank n w ⊎ ((leading_zeros n w < n) × IsTop n w (n - 1 - leading_zeros n w))
unfolding leading_zeros
leading_zeros-IsTop zero w = inl (λ j h. absurd (omega arith))
leading_zeros-IsTop (suc n) w = elim (digit_cases w n) [
  | inl one ↦
      let e : suc n - 1 - 0 ≡ n = omega arith in
      rw (==_true (digit w n) 1 one) (
        inr (
          omega arith,
          rw e
              (record { below = omega arith; is_set = one; above = λ j p q. absurd (omega arith) }),
        ))
  | inr nil ↦ rw (==_false (digit w n) 1 (omega arith)) (elim (leading_zeros-IsTop n w) [
    | inl blank ↦ inl λ j h. last w n j nil (blank j) h
    | inr (lt, top) ↦
        let e : suc n - 1 - suc (leading_zeros n w) ≡ n - 1 - leading_zeros n w = omega arith in
        inr (
          omega arith,
          rw e (record {
            below = omega (arith, top.below);
            is_set = top.is_set;
            above = λ j p q. last w n j nil (top.above j p) q;
          }),
        )
  ])
]
  where
    last : (w n j : ℕ) → digit w n ≡ 0 → (j < n → digit w j ≡ 0) → j < suc n → digit w j ≡ 0
    last w n j e h q = elim (ℕ_discrete j n) [ yes i ↦ rw i e | no ne ↦ h (omega arith) ]

trailing_zeros-IsBottom : (n w : ℕ) → Blank n w ⊎ IsBottom n w (trailing_zeros n w)
unfolding trailing_zeros
trailing_zeros-IsBottom zero w = inl (λ j h. absurd (omega arith))
trailing_zeros-IsBottom (suc n) w = elim (digit_cases w 0) [
  | inl one ↦
      rw (==_true (w % 2) 1 one)
        (inr (record { below = omega arith; is_set = one; under = λ j p. absurd (omega arith) }))
  | inr nil ↦ rw (==_false (w % 2) 1 (omega arith)) (elim (trailing_zeros-IsBottom n (w / 2)) [
    | inl blank ↦ inl (elim [ zero ↦ λ h. nil | suc j ↦ λ h. blank j (omega arith) ])
    | inr bottom ↦ inr (record {
      below = omega (arith, bottom.below);
      is_set = bottom.is_set;
      under = elim [ zero ↦ λ h. nil | suc j ↦ λ h. bottom.under j (omega arith) ];
    })
  ])
]

not-Blank : (n w : ℕ) → w < 2 ^ n → w ≢ 0 → Blank n w → ⊥
not-Blank n w h ne blank = ne (eq_zero_of_digits n w h blank)

-- For a word that is not zero, `63 - __builtin_clzll` is its highest set bit.
clzll-IsTop : (w : ℕ) → w < 2 ^ 64 → w ≢ 0 → IsTop 64 w (63 - clzll w)
unfolding clzll
clzll-IsTop w h ne = elim (leading_zeros-IsTop 64 w) [
  | inl blank ↦ absurd (not-Blank 64 w h ne blank)
  | inr top ↦ top.1
]

-- For a word that is not zero, `__builtin_ctzll` is its lowest set bit.
ctzll-IsBottom : (w : ℕ) → w < 2 ^ 64 → w ≢ 0 → IsBottom 64 w (ctzll w)
unfolding ctzll
ctzll-IsBottom w h ne = elim (trailing_zeros-IsBottom 64 w) [
  | inl blank ↦ absurd (not-Blank 64 w h ne blank)
  | inr bottom ↦ bottom
]

-- A result of the downward scan over `n` words: -1 where every bit is clear, and otherwise a set
-- bit with only clear bits above it.
abbrev pub IsHighest : Words → ℕ → Option ℕ → Type 0
IsHighest w n none = (j : ℕ) → j < n * 64 → bit w j ≡ 0
IsHighest w n (some i) = (bit w i ≡ 1) × (i < n * 64) × ((j : ℕ) → i < j → j < n * 64 → bit w j ≡ 0)

-- A result of the upward scan: -1, or a set bit with only clear bits below it.
abbrev pub IsLowest : Words → ℕ → Option ℕ → Type 0
IsLowest w n none = (j : ℕ) → j < n * 64 → bit w j ≡ 0
IsLowest w n (some i) = (bit w i ≡ 1) × (i < n * 64) × ((j : ℕ) → j < i → bit w j ≡ 0)

at_word : (w : Words) (k b : ℕ) → b < 64 → bit w (k * 64 + b) ≡ digit (w k) b
at_word w k b h =
    let e : (k * 64 + b) / 64 ≡ k = omega arith in
    let f : (k * 64 + b) % 64 ≡ b = omega arith in rw (e, f) refl

in_word : (w : Words) (k j : ℕ) → k * 64 ≤ j → j < suc k * 64 → bit w j ≡ digit (w k) (j - k * 64)
in_word w k j p q =
    let e : j / 64 ≡ k = omega arith in let f : j % 64 ≡ j - k * 64 = omega arith in rw (e, f) refl

-- A word that is zero has none of its 64 bits set.
blank_word : (w : Words) (k j : ℕ) → w k ≡ 0 → k * 64 ≤ j → j < suc k * 64 → bit w j ≡ 0
blank_word w k j e p q = in_word w k j p q ∙ rw e (digit_of_zero (j - k * 64))

IsHighest-suc :
    (w : Words) (n : ℕ) (r : Option ℕ) → w n ≡ 0 → IsHighest w n r → IsHighest w (suc n) r
IsHighest-suc w n none e h =
    λ j q. elim (dec_lt j (n * 64)) [ yes p ↦ h j p | no p ↦ blank_word w n j e (omega arith) q ]
IsHighest-suc w n (some i) e h = (
  h.0,
  omega (arith, h.1),
  λ j p q. elim (dec_lt j (n * 64)) [
    | yes b ↦ h.2 j p b
    | no b ↦ blank_word w n j e (omega arith) q
  ],
)

-- Over 64-bit words `highestSetBit` is -1 exactly where no bit is set, and otherwise the highest set bit.
pub highest_set_bit-IsHighest :
    (w : Words) (n : ℕ) → AreWords w → IsHighest w n (highest_set_bit w n)
unfolding highest_set_bit
highest_set_bit-IsHighest w zero h = λ j q. absurd (omega arith)
highest_set_bit-IsHighest w (suc n) h = elim (ℕ_discrete (w n) 0) [
  | yes e ↦
      rw (==_true (w n) 0 e)
        (IsHighest-suc w n (highest_set_bit w n) e (highest_set_bit-IsHighest w n h))
  | no ne ↦
      let top = clzll-IsTop (w n) (h n) ne in
      let p = 63 - clzll (w n) in
      rw (==_false (w n) 0 ne) (
        at_word w n p top.below ∙ top.is_set,
        omega (arith, top.below),
        λ j above q.
            in_word w n j (omega arith) q ∙ top.above (j - n * 64) (omega arith) (omega arith),
      )
]

-- The rest of the upward scan, where every bit of the words before is clear.
lowest_from-IsLowest :
    (w : Words) (n k : ℕ)
    → AreWords w
    → ((j : ℕ) → j < k * 64 → bit w j ≡ 0)
    → IsLowest w (n + k) (lowest_from w n k)
unfolding lowest_from
lowest_from-IsLowest w zero k h clear = λ j q. clear j (omega arith)
lowest_from-IsLowest w (suc n) k h clear = elim (ℕ_discrete (w k) 0) [
  | yes e ↦ rw (==_true (w k) 0 e) (
      subst (λ m. IsLowest w m (lowest_from w n (suc k))) shift
        (lowest_from-IsLowest w n (suc k) h λ j q. elim (dec_lt j (k * 64)) [
          | yes p ↦ clear j p
          | no p ↦ blank_word w k j e (omega arith) q
        ]))
  | no ne ↦
      let low = ctzll-IsBottom (w k) (h k) ne in
      let p = ctzll (w k) in
      rw (==_false (w k) 0 ne) (
        at_word w k p low.below ∙ low.is_set,
        omega (arith, low.below),
        λ j under. elim (dec_lt j (k * 64)) [
          | yes q ↦ clear j q
          | no q ↦
              in_word w k j (omega arith) (omega (arith, low.below))
              ∙ low.under (j - k * 64) (omega arith)
        ],
      )
]
  where
    shift : n + suc k ≡ suc n + k
    shift = omega arith

-- Over 64-bit words `lowestSetBit` is -1 exactly where no bit is set, and otherwise the lowest set bit.
pub lowest_set_bit-IsLowest : (w : Words) (n : ℕ) → AreWords w → IsLowest w n (lowest_set_bit w n)
unfolding lowest_set_bit
lowest_set_bit-IsLowest w n h =
    subst (λ m. IsLowest w m (lowest_from w n 0)) (omega arith)
      (lowest_from-IsLowest w n 0 h (λ j q. absurd (omega arith)))
