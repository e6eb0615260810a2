-- ===== src/Bitmap/Scan.antt =====
-- What the bit operations do to single bits, and that the two scans find the extreme set bits.
use Prim.Native.Nat.{bit_and, bit_or}
use native.Mathlib.Decide.{ℕ_discrete}
use ultra_low_latency_orderb.Prelude.{
  ℕ, suc, ◌-◌, ◌/◌, ◌%◌, ◌^◌, ◌<◌, ◌≡◌, ◌∙◌, refl, sym, ap, ◌==◌, if◌then◌else◌, arith, ==_true,
  ==_false,
}
use ultra_low_latency_orderb.Prelude.Bits.{
  digit, digit-bit_or, digit-bit_and, digit-pow, digit-complement, digit-lt, pow_mono, bit_or-lt,
  bit_and-le,
}
use ultra_low_latency_orderb.Bitmap.{Words, set_bit, clear_bit}

-- Bit `i` of the map.
abbrev pub bit : Words → ℕ → ℕ
bit w i = digit (w (i / 64)) (i % 64)

-- Every word fits 64 bits.
abbrev pub AreWords : Words → Type 0
AreWords w = (k : ℕ) → w k < 2 ^ 64

digit-set : (w k j : ℕ) → digit (bit_or w (2 ^ k)) j ≡ (if j == k then 1 else digit w j)
digit-set w k j = rw (digit-bit_or j w (2 ^ k), digit-pow j k) (ground (arith, digit-lt j w))

digit-clear :
    (w k j : ℕ)
    → j < 64
    → k < 64
    → digit (bit_and w (2 ^ 64 - 1 - 2 ^ k)) j ≡ (if j == k then 0 else digit w j)
digit-clear w k j hj hk =
    rw
      (
        digit-bit_and j w (2 ^ 64 - 1 - 2 ^ k),
        digit-complement 64 j (2 ^ k) hj (pow_mono k 64 hk),
        digit-pow j k,
      )
      (ground (arith, digit-lt j w))

split_eq : (i j : ℕ) → i / 64 ≡ j / 64 → i % 64 ≡ j % 64 → i ≡ j
split_eq i j p q = omega arith

-- `setBit` sets its bit and no other.
pub bit-set_bit : (w : Words) (i j : ℕ) → bit (set_bit w i) j ≡ (if j == i then 1 else bit w j)
unfolding set_bit
bit-set_bit w i j = elim (ℕ_discrete (j / 64) (i / 64)) [
  | yes word ↦
      rw (==_true (j / 64) (i / 64) word)
        (digit-set (w (i / 64)) (i % 64) (j % 64) ∙ rw (← word) (ground (arith, split_eq j i word)))
  | no other ↦
      rw (==_false (j / 64) (i / 64) other)
        (sym (rw (==_false j i (λ e. other (ap (λ k. k / 64) e))) refl))
]

-- `clearBit` clears its bit and no other.
pub bit-clear_bit : (w : Words) (i j : ℕ) → bit (clear_bit w i) j ≡ (if j == i then 0 else bit w j)
unfolding clear_bit
bit-clear_bit w i j = elim (ℕ_discrete (j / 64) (i / 64)) [
  | yes word ↦ rw (==_true (j / 64) (i / 64) word) (
      digit-clear (w (i / 64)) (i % 64) (j % 64) (omega arith) (omega arith)
      ∙ rw (← word) (ground (arith, split_eq j i word)))
  | no other ↦
      rw (==_false (j / 64) (i / 64) other)
        (sym (rw (==_false j i (λ e. other (ap (λ k. k / 64) e))) refl))
]

pub set_bit-AreWords : (w : Words) (i : ℕ) → AreWords w → AreWords (set_bit w i)
unfolding set_bit
set_bit-AreWords w i h k = ground (
  arith,
  h k,
  bit_or-lt 64 (w (i / 64)) (2 ^ (i % 64)) (h (i / 64)) (pow_mono (i % 64) 64 (omega arith)),
)

pub clear_bit-AreWords : (w : Words) (i : ℕ) → AreWords w → AreWords (clear_bit w i)
unfolding clear_bit
clear_bit-AreWords w i h k = ground (
  arith,
  h k,
  h (i / 64),
  bit_and-le (suc (w (i / 64))) (w (i / 64)) (2 ^ 64 - 1 - 2 ^ (i % 64)) (omega arith),
)
