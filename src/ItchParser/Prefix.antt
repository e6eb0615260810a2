-- ===== src/ItchParser/Prefix.antt =====
-- decode reads no byte of the buffer beyond the message: what it gives depends on the bytes of the
-- message alone.
use ultra_low_latency_orderb.Prelude.{
  ℕ, zero, suc, ◌+◌, ◌<◌, ◌≤◌, ◌≡◌, refl, ap, arith, true, false, ltb, leb, Bool-cases, inl, inr,
}
use ultra_low_latency_orderb.ItchParser.{
  Bytes, byte, rd_u32, rd_loop, rd_u48, rd_u64, Message, eight_bytes, common_fields, add_fields,
  reduce_fields, priced_fields, replace_fields, only_kind, decoded, unmodeled, decode_kind, decode,
}

-- The first `n` bytes of two buffers are the same.
abbrev pub Agree : Bytes → Bytes → ℕ → Type 0
Agree a b n = (i : ℕ) → i < n → byte a i ≡ byte b i

module _ (a b : Bytes) (n : ℕ) (h : Agree a b n) where
  rd_loop-Agree : (k i v : ℕ) → i + k ≤ n → rd_loop k a i v ≡ rd_loop k b i v
  unfolding rd_loop
  rd_loop-Agree zero i v le = refl
  rd_loop-Agree (suc k) i v le = rw (h i (omega arith)) (rd_loop-Agree k (i + 1) _ (omega arith))

  rd_u32-Agree : (i : ℕ) → i + 4 ≤ n → rd_u32 a i ≡ rd_u32 b i
  unfolding rd_u32
  rd_u32-Agree i le =
      rw
        (
          h i (omega arith),
          h (i + 1) (omega arith),
          h (i + 2) (omega arith),
          h (i + 3) (omega arith),
        )
        refl

  eight_bytes-Agree : (i : ℕ) → i + 8 ≤ n → eight_bytes a i ≡ eight_bytes b i
  unfolding eight_bytes
  eight_bytes-Agree i le =
      rw
        (
          h i (omega arith),
          h (i + 1) (omega arith),
          h (i + 2) (omega arith),
          h (i + 3) (omega arith),
          h (i + 4) (omega arith),
          h (i + 5) (omega arith),
          h (i + 6) (omega arith),
          h (i + 7) (omega arith),
        )
        refl

  only_kind-Agree : 1 ≤ n → only_kind a ≡ only_kind b
  unfolding only_kind
  only_kind-Agree le = rw (h 0 (omega arith)) refl

  common_fields-Agree : 19 ≤ n → common_fields a ≡ common_fields b
  unfolding common_fields rd_u48 rd_u64
  common_fields-Agree le =
      rw (h 0 (omega arith), rd_loop-Agree 6 5 0 (omega arith), rd_loop-Agree 8 11 0 (omega arith))
        refl

  add_fields-Agree : 36 ≤ n → add_fields a ≡ add_fields b
  unfolding add_fields
  add_fields-Agree le =
      rw
        (
          common_fields-Agree (omega arith),
          h 19 (omega arith),
          rd_u32-Agree 20 (omega arith),
          eight_bytes-Agree 24 (omega arith),
          rd_u32-Agree 32 (omega arith),
        )
        refl

  reduce_fields-Agree : 23 ≤ n → reduce_fields a ≡ reduce_fields b
  unfolding reduce_fields
  reduce_fields-Agree le =
      rw (common_fields-Agree (omega arith), rd_u32-Agree 19 (omega arith)) refl

  priced_fields-Agree : 36 ≤ n → priced_fields a ≡ priced_fields b
  unfolding priced_fields
  priced_fields-Agree le =
      rw
        (
          common_fields-Agree (omega arith),
          rd_u32-Agree 19 (omega arith),
          rd_u32-Agree 32 (omega arith),
        )
        refl

  replace_fields-Agree : 35 ≤ n → replace_fields a ≡ replace_fields b
  unfolding replace_fields rd_u64
  replace_fields-Agree le =
      rw
        (
          common_fields-Agree (omega arith),
          rd_loop-Agree 8 19 0 (omega arith),
          rd_u32-Agree 27 (omega arith),
          rd_u32-Agree 31 (omega arith),
        )
        refl

  decoded-Agree :
      (need : ℕ) (x y : Message)
      → 1 ≤ n
      → (need ≤ n → x ≡ y)
      → decoded need n a x ≡ decoded need n b y
  decoded-Agree need x y le same = elim (Bool-cases (ltb n need)) [
    | inl short ↦ rw short (ap (λ m. (false, m)) (only_kind-Agree le))
    | inr long ↦ rw long (ap (λ m. (true, m)) (same (ground arith)))
  ]

  unmodeled-Agree : 1 ≤ n → unmodeled a n ≡ unmodeled b n
  unfolding unmodeled rd_u48
  unmodeled-Agree le = elim (Bool-cases (leb 11 n)) [
    | inl long ↦ rw (long, only_kind-Agree le, rd_loop-Agree 6 5 0 (ground arith)) refl
    | inr short ↦ rw (short, only_kind-Agree le) refl
  ]

  decode_kind-Agree : (kind : ℕ) → 1 ≤ n → decode_kind kind a n ≡ decode_kind kind b n
  unfolding decode_kind
  decode_kind-Agree kind le =
      rw
        (
          decoded-Agree 36 _ _ le add_fields-Agree,
          decoded-Agree 40 _ _ le (λ k. add_fields-Agree (omega arith)),
          decoded-Agree 31 _ _ le (λ k. reduce_fields-Agree (omega arith)),
          decoded-Agree 36 _ _ le priced_fields-Agree,
          decoded-Agree 23 _ _ le reduce_fields-Agree,
          decoded-Agree 19 _ _ le common_fields-Agree,
          decoded-Agree 35 _ _ le replace_fields-Agree,
          unmodeled-Agree le,
        )
        refl

-- Two buffers whose first `n` bytes are the same are decoded alike as a message of length `n`.
pub decode-Agree : (a b : Bytes) (n : ℕ) (m : Message) → Agree a b n → decode a n m ≡ decode b n m
unfolding decode
decode-Agree a b n m h = elim (Bool-cases (ltb n 1)) [
  | inl short ↦ rw short refl
  | inr long ↦
      rw long (rw (h 0 (ground arith)) (decode_kind-Agree a b n h (byte b 0) (ground arith)))
]
