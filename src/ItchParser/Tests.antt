-- ===== src/ItchParser/Tests.antt =====
-- A buffer of two short messages on which the theorems are run.
use ultra_low_latency_orderb.Prelude.{
  zero, suc, inr, ◌≡◌, refl, arith, List, [], ◌∷◌, take, length, true,
}
use ultra_low_latency_orderb.ItchParser.{Bytes, decode, blank_message, parse_from, parse_buffer}
use ultra_low_latency_orderb.ItchParser.Prefix.{Agree, decode-Agree}
use ultra_low_latency_orderb.ItchParser.Dump.{
  modeled_of, dump, frames_before, reports, dump-parse_buffer,
}
use ultra_low_latency_orderb.ItchParser.RoundTrip.{Wire, encode, shown, decode-encode}
use ultra_low_latency_orderb.ItchParser.Framing.{
  frames, AreBodies, decoded_all, parse_buffer-frames, parse_from-enough,
}

-- A deletion of order 1, and a message of an unmodelled type.
abbrev deletion : Bytes
deletion = b'D' ∷ 0 ∷ 0 ∷ 0 ∷ 0 ∷ 0 ∷ 0 ∷ 0 ∷ 0 ∷ 0 ∷ 9 ∷ 0 ∷ 0 ∷ 0 ∷ 0 ∷ 0 ∷ 0 ∷ 0 ∷ 1 ∷ []

abbrev bodies : List Bytes
bodies = deletion ∷ (b'S' ∷ 0 ∷ []) ∷ []

bodies-AreBodies : AreBodies bodies
bodies-AreBodies = (omega arith, omega arith, (omega arith, omega arith, tt))

decode-Agree_example :
    decode (b'D' ∷ 1 ∷ []) 1 blank_message ≡ decode (b'D' ∷ 2 ∷ []) 1 blank_message
decode-Agree_example = decode-Agree (b'D' ∷ 1 ∷ []) (b'D' ∷ 2 ∷ []) 1 blank_message first
  where
    first : Agree (b'D' ∷ 1 ∷ []) (b'D' ∷ 2 ∷ []) 1
    first zero lt = refl
    first (suc i) lt = absurd (omega arith)

parse_buffer-frames_example : parse_buffer (frames bodies) ≡ decoded_all bodies
parse_buffer-frames_example = parse_buffer-frames bodies bodies-AreBodies

parse_from-enough_example : parse_from 30 (frames bodies) 25 0 ≡ parse_from 40 (frames bodies) 25 0
parse_from-enough_example = parse_from-enough 30 40 (frames bodies) 25 0 (omega arith) (omega arith)

-- A length of seven with one byte behind it.
abbrev cut_off : Bytes
cut_off = 0 ∷ 7 ∷ 1 ∷ []

dump-parse_buffer_example :
    (dump (frames_before bodies cut_off) 2 ≡ take 2 (reports bodies))
    × (modeled_of (reports bodies) ≡ parse_buffer (frames_before bodies cut_off))
dump-parse_buffer_example =
    dump-parse_buffer bodies cut_off 2 bodies-AreBodies (omega arith, inr (omega arith))
      (omega arith)

-- Ten shares of order 9 executed at a price of its own.
abbrev execution : Wire
execution =
    Wire.executed_at (record { extra = λ i. i; time = 1_000_000; order_ref = 9 }) 10 77 b'Y'
      1_234_500

decode-encode_example :
    decode (encode execution) (length (encode execution)) blank_message ≡ (true, shown execution)
decode-encode_example =
    decode-encode execution blank_message ((omega arith, omega arith), omega arith, omega arith)
