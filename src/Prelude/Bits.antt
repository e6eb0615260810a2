-- ===== src/Prelude/Bits.antt =====
-- The binary digits of a word, and what or, and-not and a single set bit are digit by digit.
use Prim.Native.Nat.{
  ℕ, zero, suc, ◌+◌, ◌-◌, ◌*◌, ◌/◌, ◌%◌, ◌^◌, ◌≤◌, ◌<◌, min, max, bit_and, bit_or, digits,
  bit_and-bitwise, bit_or-bitwise,
}
use mathlib.Core.Path.{◌≡◌, refl, ap, ◌∙◌}
use native.Mathlib.Omega.{arith}
use native.Mathlib.Nat.{two-pow-succ}
use ultra_low_latency_orderb.Prelude.Tests.{◌==◌, if◌then◌else◌}

-- Digit `j` of `w`, the lowest being digit 0.
abbrev pub digit : ℕ → ℕ → ℕ
digit w zero = w % 2
digit w (suc j) = digit (w / 2) j

-- Either operation goes digit by digit, whatever fuel it is given from the left operand up.
module _ (z : ℕ → ℕ) (f : ℕ → ℕ → ℕ) (blank : (b : ℕ) → z b ≡ z (b / 2) * 2 + f 0 (b % 2)) where
  digits_enough : (n m a b : ℕ) → a ≤ n → a ≤ m → digits z f n a b ≡ digits z f m a b
  digits_enough zero zero a b p q = refl
  digits_enough zero (suc m) zero b p q = refl
  digits_enough zero (suc m) (suc a) b p q = absurd (omega arith)
  digits_enough (suc n) zero zero b p q = refl
  digits_enough (suc n) zero (suc a) b p q = absurd (omega arith)
  digits_enough (suc n) (suc m) zero b p q = refl
  digits_enough (suc n) (suc m) (suc a) b p q =
      omega (arith, digits_enough n m (suc a / 2) (b / 2) (omega arith) (omega arith))

  digits_halve :
      (a b : ℕ) → digits z f a a b ≡ digits z f (a / 2) (a / 2) (b / 2) * 2 + f (a % 2) (b % 2)
  digits_halve zero b = blank b
  digits_halve (suc a) b =
      omega (arith, digits_enough a (suc a / 2) (suc a / 2) (b / 2) (omega arith) (omega arith))

or_halve : (a b : ℕ) → bit_or a b ≡ bit_or (a / 2) (b / 2) * 2 + max (a % 2) (b % 2)
or_halve a b =
    bit_or-bitwise a b
    ∙ (digits_halve (λ b. b) max (λ b. omega arith) a b
        ∙ omega (arith, bit_or-bitwise (a / 2) (b / 2)))

and_halve : (a b : ℕ) → bit_and a b ≡ bit_and (a / 2) (b / 2) * 2 + min (a % 2) (b % 2)
and_halve a b =
    bit_and-bitwise a b
    ∙ (digits_halve (λ b. 0) min (λ b. omega arith) a b
        ∙ omega (arith, bit_and-bitwise (a / 2) (b / 2)))

pub digit-bit_or : (j a b : ℕ) → digit (bit_or a b) j ≡ max (digit a j) (digit b j)
digit-bit_or zero a b = omega (arith, or_halve a b)
digit-bit_or (suc j) a b =
    let e : bit_or a b / 2 ≡ bit_or (a / 2) (b / 2) = omega (arith, or_halve a b) in
    rw e (digit-bit_or j (a / 2) (b / 2))

pub digit-bit_and : (j a b : ℕ) → digit (bit_and a b) j ≡ min (digit a j) (digit b j)
digit-bit_and zero a b = omega (arith, and_halve a b)
digit-bit_and (suc j) a b =
    let e : bit_and a b / 2 ≡ bit_and (a / 2) (b / 2) = omega (arith, and_halve a b) in
    rw e (digit-bit_and j (a / 2) (b / 2))

pub digit_of_zero : (j : ℕ) → digit 0 j ≡ 0
digit_of_zero zero = refl
digit_of_zero (suc j) = digit_of_zero j

pub digit-pow : (j k : ℕ) → digit (2 ^ k) j ≡ (if j == k then 1 else 0)
digit-pow zero zero = refl
digit-pow zero (suc k) = ground (arith, two-pow-succ k)
digit-pow (suc j) zero = digit_of_zero j ∙ ground arith
digit-pow (suc j) (suc k) =
    let e : 2 ^ suc k / 2 ≡ 2 ^ k = omega (arith, two-pow-succ k) in
    rw e (digit-pow j k ∙ ground arith)

-- The complement among `n` digits.
pub digit-complement : (n j w : ℕ) → j < n → w < 2 ^ n → digit (2 ^ n - 1 - w) j ≡ 1 - digit w j
digit-complement zero j w h l = absurd (omega arith)
digit-complement (suc n) zero w h l = omega (arith, two-pow-succ n)
digit-complement (suc n) (suc j) w h l =
    let e : (2 ^ suc n - 1 - w) / 2 ≡ 2 ^ n - 1 - w / 2 = omega (arith, two-pow-succ n) in
    rw e (digit-complement n j (w / 2) (omega arith) (omega (arith, two-pow-succ n)))

pub digit-lt : (j w : ℕ) → digit w j < 2
digit-lt zero w = omega arith
digit-lt (suc j) w = digit-lt j (w / 2)

-- A word is zero exactly when none of its digits is set.
pub eq_zero_of_digits : (n w : ℕ) → w < 2 ^ n → ((j : ℕ) → j < n → digit w j ≡ 0) → w ≡ 0
eq_zero_of_digits zero w l h = omega arith
eq_zero_of_digits (suc n) w l h = omega (
  arith,
  h 0 (omega arith),
  eq_zero_of_digits n (w / 2) (omega (arith, two-pow-succ n)) (λ j p. h (suc j) (omega arith)),
)

pub pow_pos : (k : ℕ) → 0 < 2 ^ k
pow_pos zero = omega arith
pow_pos (suc k) = omega (arith, two-pow-succ k, pow_pos k)

pub pow_mono : (j n : ℕ) → j < n → 2 ^ j < 2 ^ n
pow_mono j zero h = absurd (omega arith)
pow_mono zero (suc n) h = omega (arith, two-pow-succ n, pow_pos n)
pow_mono (suc j) (suc n) h =
    omega (arith, two-pow-succ n, two-pow-succ j, pow_mono j n (omega arith))

or_below : (n a b : ℕ) → a < 2 ^ n → b < 2 ^ n → bit_or a b < 2 ^ n
or_below zero a b p q = ground (arith, or_zero a b)
  where
    or_zero : (a b : ℕ) → a < 1 → b < 1 → bit_or a b < 1
    or_zero zero zero p q = omega arith
    or_zero zero (suc b) p q = absurd (omega arith)
    or_zero (suc a) b p q = absurd (omega arith)
or_below (suc n) a b p q = omega (
  arith,
  two-pow-succ n,
  or_halve a b,
  or_below n (a / 2) (b / 2) (omega (arith, two-pow-succ n)) (omega (arith, two-pow-succ n)),
)

pub bit_or-lt : (n a b : ℕ) → a < 2 ^ n → b < 2 ^ n → bit_or a b < 2 ^ n
bit_or-lt n a b p q = or_below n a b p q

pub bit_and-le : (n a b : ℕ) → a < n → bit_and a b ≤ a
bit_and-le zero a b h = absurd (omega arith)
bit_and-le (suc n) zero b h = le_of_zero b
  where
    le_of_zero : (b : ℕ) → bit_and 0 b ≤ 0
    le_of_zero b = omega (arith, bit_and-bitwise 0 b)
bit_and-le (suc n) (suc a) b h =
    omega (arith, and_halve (suc a) b, bit_and-le n (suc a / 2) (b / 2) (omega arith))

or_zero_right : (a : ℕ) → bit_or a 0 ≡ a
or_zero_right a = below (suc a) a (omega arith)
  where
    below : (n a : ℕ) → a < n → bit_or a 0 ≡ a
    below zero a h = absurd (omega arith)
    below (suc n) zero h = refl
    below (suc n) (suc a) h = omega (arith, or_halve (suc a) 0, below n (suc a / 2) (omega arith))

-- An or of disjoint fields is their sum.
pub bit_or-shifted : (k a b : ℕ) → b < 2 ^ k → bit_or (a * 2 ^ k) b ≡ a * 2 ^ k + b
bit_or-shifted zero a b h =
    let e : b ≡ 0 = omega arith in
    let f : a * 2 ^ 0 ≡ a = omega arith in rw (e, f) (or_zero_right a ∙ omega arith)
bit_or-shifted (suc k) a b h =
    let double : a * 2 ^ suc k ≡ 2 * (a * 2 ^ k) = rw (two-pow-succ k) (omega arith) in
    let halved : a * 2 ^ suc k / 2 ≡ a * 2 ^ k = omega (arith, double) in
    omega (
      arith,
      double,
      or_halve (a * 2 ^ suc k) b,
      ap (λ x. bit_or x (b / 2)) halved,
      bit_or-shifted k a (b / 2) (omega (arith, two-pow-succ k)),
    )
