-- ===== src/ItchParser/BigEndian.antt =====
-- The field readers against numbers written with their highest byte first.
use native.Mathlib.Nat.{
  div-add-mod', pow-suc, mod-lt, mod-eq_of_lt, div-lt_iff_lt-mul, one-le-pow, mul-le-mul_right,
  le-mul_of_pos_right, add-mul, mul_assoc, mul_comm,
}
use Prim.Native.Nat.{bit_or}
use ultra_low_latency_orderb.Prelude.{
  ℕ, zero, suc, ◌+◌, ◌*◌, ◌/◌, ◌%◌, ◌^◌, ◌<◌, ◌≤◌, ◌≡◌, ◌∙◌, refl, sym, ap, subst, arith, [], ◌∷◌,
  drop,
}
use ultra_low_latency_orderb.Prelude.Bits.{bit_or-shifted}
use ultra_low_latency_orderb.ItchParser.{Bytes, byte, rd_u32, rd_loop, rd_u48, rd_u64}

-- `n` bytes of a number, the highest first, before what follows.
abbrev pub big_endian : ℕ → ℕ → Bytes → Bytes
big_endian zero v rest = rest
big_endian (suc n) v rest = v / 256 ^ n % 256 ∷ big_endian n (v % 256 ^ n) rest

byte-drop : (i k : ℕ) (b : Bytes) → byte b (i + k) ≡ byte (drop i b) k
byte-drop zero k b = ap (byte b) (start k)
  where
    start : (k : ℕ) → zero + k ≡ k
    start k = omega arith
byte-drop (suc i) k [] = refl
byte-drop (suc i) k (x ∷ b) = ap (byte (x ∷ b)) (more i k) ∙ byte-drop i k b
  where
    more : (i k : ℕ) → suc i + k ≡ suc (i + k)
    more i k = omega arith

rd_loop-cons : (n : ℕ) (x : ℕ) (b : Bytes) (i v : ℕ) → rd_loop n (x ∷ b) (suc i) v ≡ rd_loop n b i v
unfolding rd_loop
rd_loop-cons zero x b i v = refl
rd_loop-cons (suc n) x b i v =
    let e : suc i + 1 ≡ suc (i + 1) = omega arith in rw e (rd_loop-cons n x b (i + 1) _)

rd_loop-nil : (n i v : ℕ) → rd_loop n [] i v ≡ rd_loop n [] 0 v
unfolding rd_loop
rd_loop-nil zero i v = refl
rd_loop-nil (suc n) i v = rd_loop-nil n (i + 1) _ ∙ sym (rd_loop-nil n (0 + 1) _)

rd_loop-drop : (n i v : ℕ) (b : Bytes) → rd_loop n b i v ≡ rd_loop n (drop i b) 0 v
rd_loop-drop n zero v b = refl
rd_loop-drop n (suc i) v [] = rd_loop-nil n (suc i) v
rd_loop-drop n (suc i) v (x ∷ b) = rd_loop-cons n x b i v ∙ rd_loop-drop n i v b

power_pos : (n : ℕ) → 0 < 256 ^ n
power_pos n = one-le-pow n 256 (omega arith)

-- One more byte behind those that are read: what the register holds, what it may hold still, and
-- what it holds in the end.
shifted_in :
    (p v acc : ℕ)
    → 0 < p
    → v < 256 * p
    → (acc + 1) * (p * 256) ≤ 2 ^ 64
    → (bit_or (acc * 2 ^ 8 % 2 ^ 64) (v / p % 256) ≡ acc * 256 + v / p)
      × ((acc * 256 + v / p + 1) * p ≤ 2 ^ 64)
      × ((acc * 256 + v / p) * p + v % p ≡ acc * (p * 256) + v)
shifted_in p v acc some_p lt fits =
    let x : v / p < 256 = (div-lt_iff_lt-mul some_p).1 lt in
    let whole : (acc + 1) * (p * 256) ≡ (acc + 1) * 256 * p = grind arith in
    let under : (acc * 256 + v / p + 1) * p ≤ (acc + 1) * 256 * p =
      mul-le-mul_right p (omega (arith, x)) in
    let wide : (acc + 1) * 256 ≤ (acc + 1) * 256 * p =
      le-mul_of_pos_right ((acc + 1) * 256) some_p in
    let byte_lt : v / p % 256 ≡ v / p = mod-eq_of_lt x in
    let fits_in : acc * 2 ^ 8 % 2 ^ 64 ≡ acc * 2 ^ 8 = omega (arith, wide, fits, whole) in
    (
      rw (byte_lt, fits_in) (bit_or-shifted 8 acc (v / p) x),
      omega (arith, under, fits, whole),
      omega (
        arith,
        add-mul (acc * 256) (v / p) p,
        ap (λ q. acc * q) (mul_comm p 256),
        mul_assoc acc 256 p,
        div-add-mod' v p,
      ),
    )

rd_loop-big_endian :
    (n v acc : ℕ) (rest : Bytes)
    → v < 256 ^ n
    → (acc + 1) * 256 ^ n ≤ 2 ^ 64
    → rd_loop n (big_endian n v rest) 0 acc ≡ acc * 256 ^ n + v
unfolding rd_loop
rd_loop-big_endian zero v acc rest lt fits = omega arith
rd_loop-big_endian (suc n) v acc rest lt fits =
    let p = 256 ^ n in
    let power : 256 ^ suc n ≡ p * 256 = pow-suc 256 n in
    let (register, room, total) =
      shifted_in p v acc (power_pos n) (omega (arith, lt, power))
        (subst (λ q. (acc + 1) * q ≤ 2 ^ 64) power fits) in
    rw (power, register)
      (rd_loop-cons n (v / p % 256) (big_endian n (v % p) rest) 0 (acc * 256 + v / p)
        ∙ rd_loop-big_endian n (v % p) (acc * 256 + v / p) rest (mod-lt v (power_pos n)) room
        ∙ total)

-- A number in its bytes, read from where they stand.
rd_loop_at :
    (n v i : ℕ) (b rest : Bytes)
    → v < 256 ^ n
    → 256 ^ n ≤ 2 ^ 64
    → drop i b ≡ big_endian n v rest
    → rd_loop n b i 0 ≡ v
rd_loop_at n v i b rest lt fits e =
    rd_loop-drop n i 0 b
    ∙ ap (λ d. rd_loop n d 0 0) e
    ∙ rd_loop-big_endian n v 0 rest lt (omega (arith, fits))
    ∙ omega arith

pub rd_u48_at :
    (v i : ℕ) (b rest : Bytes) → v < 2 ^ 48 → drop i b ≡ big_endian 6 v rest → rd_u48 b i ≡ v
unfolding rd_u48
rd_u48_at v i b rest lt e = rd_loop_at 6 v i b rest lt (omega arith) e

pub rd_u64_at :
    (v i : ℕ) (b rest : Bytes) → v < 2 ^ 64 → drop i b ≡ big_endian 8 v rest → rd_u64 b i ≡ v
unfolding rd_u64
rd_u64_at v i b rest lt e = rd_loop_at 8 v i b rest lt (omega arith) e

-- Four bytes or-ed together are their sum.
joined :
    (x y z w : ℕ)
    → y < 256
    → z < 256
    → w < 256
    → bit_or (bit_or (bit_or (x * 2 ^ 24) (y * 2 ^ 16)) (z * 2 ^ 8)) w
      ≡ x * 2 ^ 24 + y * 2 ^ 16 + z * 2 ^ 8 + w
joined x y z w ly lz lw =
    let a = bit_or-shifted 24 x (y * 2 ^ 16) (omega (arith, ly)) in
    let b : x * 2 ^ 24 + y * 2 ^ 16 ≡ (x * 2 ^ 8 + y) * 2 ^ 16 = omega arith in
    let c = bit_or-shifted 16 (x * 2 ^ 8 + y) (z * 2 ^ 8) (omega (arith, lz)) in
    let d : (x * 2 ^ 8 + y) * 2 ^ 16 + z * 2 ^ 8 ≡ ((x * 2 ^ 8 + y) * 2 ^ 8 + z) * 2 ^ 8 =
      omega arith in
    rw (a, b, c, d) (bit_or-shifted 8 ((x * 2 ^ 8 + y) * 2 ^ 8 + z) w lw ∙ omega arith)

pub rd_u32_at :
    (v i : ℕ) (b rest : Bytes) → v < 2 ^ 32 → drop i b ≡ big_endian 4 v rest → rd_u32 b i ≡ v
unfolding rd_u32
rd_u32_at v i b rest lt e =
    let first : byte b i ≡ byte (drop i b) 0 = ap (byte b) (start i) ∙ byte-drop i 0 b in
    rw (first, byte-drop i 1 b, byte-drop i 2 b, byte-drop i 3 b, e)
      (joined (v / 256 ^ 3 % 256) (v % 256 ^ 3 / 256 ^ 2 % 256)
          (v % 256 ^ 3 % 256 ^ 2 / 256 ^ 1 % 256) (v % 256 ^ 3 % 256 ^ 2 % 256 ^ 1 / 256 ^ 0 % 256)
          (omega arith) (omega arith) (omega arith)
        ∙ omega (arith, lt))
  where
    start : (i : ℕ) → i ≡ i + 0
    start i = omega arith
