-- ===== src/ItchParser.antt =====
-- include/itch_parser.hpp: NASDAQ TotalView-ITCH 5.0 messages out of a byte buffer.
-- A buffer is a list of bytes; a pointer into it is the list from there on. A read past the end,
-- which the length tests exclude, gives 0.
pub mod Prefix
pub mod Framing
pub mod Dump
pub mod BigEndian
pub mod RoundTrip
mod Tests
use Prim.Native.Nat.{bit_or}
use ultra_low_latency_orderb.Prelude.{
  ℕ, zero, suc, ◌+◌, ◌*◌, ◌%◌, ◌^◌, Bool, true, false, List, [], ◌∷◌, ◌++◌, ltb, leb, ◌==◌,
  if◌then◌else◌, get_or, set, length, drop, replicate,
}

abbrev pub Bytes : Type 0
Bytes = List ℕ

abbrev pub byte : Bytes → ℕ → ℕ
byte b i = get_or b i 0

-- `(uint16_t(p[0]) << 8) | p[1]`, at offset `i`.
unfoldable pub rd_u16 : Bytes → ℕ → ℕ
rd_u16 b i = bit_or (byte b i * 2 ^ 8) (byte b (i + 1))

unfoldable pub rd_u32 : Bytes → ℕ → ℕ
rd_u32 b i =
    bit_or (bit_or (bit_or (byte b i * 2 ^ 24) (byte b (i + 1) * 2 ^ 16)) (byte b (i + 2) * 2 ^ 8))
      (byte b (i + 3))

-- `for (...) v = (v << 8) | p[i]` over `n` bytes, in a uint64_t.
unfoldable pub rd_loop : ℕ → Bytes → ℕ → ℕ → ℕ
rd_loop zero b i v = v
rd_loop (suc n) b i v = rd_loop n b (i + 1) (bit_or (v * 2 ^ 8 % 2 ^ 64) (byte b i))

unfoldable pub rd_u48 : Bytes → ℕ → ℕ
unfolding rd_loop
rd_u48 b i = rd_loop 6 b i 0

unfoldable pub rd_u64 : Bytes → ℕ → ℕ
unfolding rd_loop
rd_u64 b i = rd_loop 8 b i 0

-- The loop of `trimStock` from index `n - 1` down.
unfoldable pub trim_from : ℕ → Bytes → Bytes
trim_from zero s = s
trim_from (suc i) s = let rest = trim_from i (set s i 0) in if byte s i == b' ' then rest else s

unfoldable pub trim_stock : Bytes → Bytes
unfolding trim_from
trim_stock s = trim_from 8 s

pub record Message : Type 0 where
  pub kind : ℕ
  pub timestamp : ℕ
  pub order_ref : ℕ
  pub new_order_ref : ℕ
  pub side : ℕ
  pub shares : ℕ
  pub price : ℕ
  pub stock : Bytes
  pub raw_stock : Bytes

-- `Message{}`.
abbrev pub blank_message : Message
blank_message = record {
  kind = b'?';
  timestamp = 0;
  order_ref = 0;
  new_order_ref = 0;
  side = 0;
  shares = 0;
  price = 0;
  stock = replicate 9 0;
  raw_stock = replicate 8 0;
}

-- `memcpy(.., b + i, 8)`.
unfoldable pub eight_bytes : Bytes → ℕ → Bytes
eight_bytes b i =
    byte b i
    ∷ byte b (i + 1)
    ∷ byte b (i + 2)
    ∷ byte b (i + 3)
    ∷ byte b (i + 4)
    ∷ byte b (i + 5)
    ∷ byte b (i + 6)
    ∷ byte b (i + 7)
    ∷ []

-- The fields that every modelled message has, after `m = Message{}; m.type = b[0]`.
unfoldable pub common_fields : Bytes → Message
common_fields b = record blank_message {
  kind = byte b 0;
  timestamp = rd_u48 b 5;
  order_ref = rd_u64 b 11;
}

-- 'A' and 'F' read the same fields.
unfoldable pub add_fields : Bytes → Message
add_fields b = record (common_fields b) {
  side = byte b 19;
  shares = rd_u32 b 20;
  raw_stock = eight_bytes b 24;
  stock = trim_stock (eight_bytes b 24 ++ (0 ∷ []));
  price = rd_u32 b 32;
}

-- 'E' and 'X' read the same fields.
unfoldable pub reduce_fields : Bytes → Message
reduce_fields b = record (common_fields b) { shares = rd_u32 b 19 }

unfoldable pub priced_fields : Bytes → Message
priced_fields b = record (common_fields b) { shares = rd_u32 b 19; price = rd_u32 b 32 }

unfoldable pub replace_fields : Bytes → Message
replace_fields b = record (common_fields b) {
  new_order_ref = rd_u64 b 19;
  shares = rd_u32 b 27;
  price = rd_u32 b 31;
}

-- A message whose type is set and nothing else.
unfoldable pub only_kind : Bytes → Message
only_kind b = record blank_message { kind = byte b 0 }

-- A case of the switch: refused where the message is shorter than `need`.
abbrev pub decoded : ℕ → ℕ → Bytes → Message → Bool × Message
decoded need len b m = if ltb len need then (false, only_kind b) else (true, m)

-- The `default` case.
unfoldable pub unmodeled : Bytes → ℕ → Bool × Message
unmodeled b len =
    (false, if leb 11 len then record (only_kind b) { timestamp = rd_u48 b 5 } else only_kind b)

-- The switch on `b[0]`.
unfoldable pub decode_kind : ℕ → Bytes → ℕ → Bool × Message
decode_kind kind b len =
    if kind == b'A'
    then decoded 36 len b (add_fields b)
    else if kind == b'F'
    then decoded 40 len b (add_fields b)
    else if kind == b'E'
    then decoded 31 len b (reduce_fields b)
    else if kind == b'C'
    then decoded 36 len b (priced_fields b)
    else if kind == b'X'
    then decoded 23 len b (reduce_fields b)
    else if kind == b'D'
    then decoded 19 len b (common_fields b)
    else if kind == b'U'
    then decoded 35 len b (replace_fields b)
    else unmodeled b len

-- `decode(b, len, m)`: the result and what is in `m` afterwards.
unfoldable pub decode : Bytes → ℕ → Message → Bool × Message
decode b len m = if ltb len 1 then (false, m) else decode_kind (byte b 0) b len

-- The message handed to `fn`, if there is one.
abbrev pub handed : Bool × Message → List Message
handed (true, m) = m ∷ []
handed (false, m) = []

-- The loop of `parseBuffer` from offset `off`: the messages that it hands to `fn`, in order; their
-- number is the count that it returns. A byte is read each round, so `size` rounds are enough.
unfoldable pub parse_from : ℕ → Bytes → ℕ → ℕ → List Message
parse_from zero data' size off = []
parse_from (suc fuel) data' size off =
    let len = rd_u16 (drop off data') 0 in
    let rest =
      handed (decode (drop (off + 2) data') len blank_message)
      ++ parse_from fuel data' size (off + (2 + len)) in
    if leb (off + 2) size
    then (if len == 0 then [] else if ltb size (off + 2 + len) then [] else rest)
    else []

unfoldable pub parse_buffer : Bytes → List Message
parse_buffer data' = parse_from (length data' + 1) data' (length data') 0
