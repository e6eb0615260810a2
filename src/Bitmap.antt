-- ===== src/Bitmap.antt =====
-- The occupancy bitmap of include/orderbook.hpp: a vector of 64-bit words, a bit for each level.
-- The vector is a function of the word's index, with its size beside it where the code reads it.
pub mod Scan
pub mod Extremes
mod Tests
use Prim.Native.Nat.{bit_and, bit_or}
use ultra_low_latency_orderb.Prelude.{
  ℕ, zero, suc, ◌+◌, ◌-◌, ◌*◌, ◌/◌, ◌%◌, ◌^◌, Option, none, some, write, ◌==◌, if◌then◌else◌,
}
use ultra_low_latency_orderb.Prelude.Bits.{digit}

abbrev pub Words : Type 0
Words = ℕ → ℕ

-- `w[i>>6] |= 1ULL << (i & 63)`.
unfoldable pub set_bit : Words → ℕ → Words
set_bit w i = write w (i / 64) (bit_or (w (i / 64)) (2 ^ (i % 64)))

-- `w[i>>6] &= ~(1ULL << (i & 63))`.
unfoldable pub clear_bit : Words → ℕ → Words
clear_bit w i = write w (i / 64) (bit_and (w (i / 64)) (2 ^ 64 - 1 - 2 ^ (i % 64)))

-- `__builtin_clzll`: the zeros above the highest set bit among the lowest `n`.
unfoldable pub leading_zeros : ℕ → ℕ → ℕ
leading_zeros zero w = 0
leading_zeros (suc n) w = if digit w n == 1 then 0 else suc (leading_zeros n w)

unfoldable pub clzll : ℕ → ℕ
unfolding leading_zeros
clzll w = leading_zeros 64 w

-- `__builtin_ctzll`: the zeros below the lowest set bit.
unfoldable pub trailing_zeros : ℕ → ℕ → ℕ
trailing_zeros zero w = 0
trailing_zeros (suc n) w = if w % 2 == 1 then 0 else suc (trailing_zeros n (w / 2))

unfoldable pub ctzll : ℕ → ℕ
unfolding trailing_zeros
ctzll w = trailing_zeros 64 w

-- The loop down from word `n - 1`; `none` is the result -1.
unfoldable pub highest_set_bit : Words → ℕ → Option ℕ
highest_set_bit w zero = none
highest_set_bit w (suc wi) =
    if w wi == 0 then highest_set_bit w wi else some (wi * 64 + (63 - clzll (w wi)))

-- The loop up from word `wi`, with `n` words left.
unfoldable pub lowest_from : Words → ℕ → ℕ → Option ℕ
lowest_from w zero wi = none
lowest_from w (suc n) wi =
    let rest = lowest_from w n (suc wi) in if w wi == 0 then rest else some (wi * 64 + ctzll (w wi))

unfoldable pub lowest_set_bit : Words → ℕ → Option ℕ
lowest_set_bit w n = lowest_from w n 0
