-- ===== src/Bitmap/Tests.antt =====
-- A map of two words on which the theorems are run.
use ultra_low_latency_orderb.Prelude.{◌≡◌, arith, zero, suc, ◌==◌, if◌then◌else◌}
use ultra_low_latency_orderb.Bitmap.{Words, set_bit, clear_bit, highest_set_bit, lowest_set_bit}
use ultra_low_latency_orderb.Bitmap.Scan.{bit, AreWords, bit-set_bit, bit-clear_bit}
use ultra_low_latency_orderb.Bitmap.Extremes.{
  IsHighest, IsLowest, highest_set_bit-IsHighest, lowest_set_bit-IsLowest,
}

-- Bits 1, 2 and 67.
abbrev two_words : Words
two_words zero = 6
two_words (suc zero) = 8
two_words (suc (suc k)) = 0

two_words-AreWords : AreWords two_words
two_words-AreWords zero = omega arith
two_words-AreWords (suc zero) = omega arith
two_words-AreWords (suc (suc k)) = omega arith

bit-set_bit_example : bit (set_bit two_words 70) 67 ≡ (if 67 == 70 then 1 else bit two_words 67)
bit-set_bit_example = bit-set_bit two_words 70 67

bit-clear_bit_example : bit (clear_bit two_words 67) 2 ≡ (if 2 == 67 then 0 else bit two_words 2)
bit-clear_bit_example = bit-clear_bit two_words 67 2

highest_set_bit-IsHighest_example : IsHighest two_words 2 (highest_set_bit two_words 2)
highest_set_bit-IsHighest_example = highest_set_bit-IsHighest two_words 2 two_words-AreWords

lowest_set_bit-IsLowest_example : IsLowest two_words 2 (lowest_set_bit two_words 2)
lowest_set_bit-IsLowest_example = lowest_set_bit-IsLowest two_words 2 two_words-AreWords
