-- ===== src/ItchParser/Dump.antt =====
-- The walk of fpga/tools/itch_dump.cpp over a file of messages, which prints every one of them, and
-- how it goes with parseBuffer. How printf writes a number is a parameter.
use ultra_low_latency_orderb.Prelude.{
  ℕ, zero, suc, ◌+◌, ◌*◌, ◌^◌, ◌<◌, ◌≤◌, ◌≡◌, ◌∙◌, ◌⊎◌, inl, inr, refl, sym, ap, arith, map, Bool,
  ==_true, ==_false, length-append, true, false, ◌&&◌, List, [], ◌∷◌, ◌++◌, length, drop, take, leb,
  ltb, ltb-false, lt→ltb, ◌==◌, if◌then◌else◌,
}
use ultra_low_latency_orderb.Metrics.{codes}
use ultra_low_latency_orderb.ItchParser.{
  Bytes, rd_u16, Message, blank_message, decode, handed, parse_from, parse_buffer,
}
use ultra_low_latency_orderb.ItchParser.Framing.{
  frame, AreBodies, rd_u16-frame, rd_u16-pair, drop-next, decode-body,
}

-- The loop from offset `off` with `n` messages reported: for each message the result of `decode`
-- and what it has decoded. A byte is read each round, so `size` rounds are enough.
unfoldable pub dump_from : ℕ → Bytes → ℕ → ℕ → ℕ → ℕ → List (Bool × Message)
dump_from zero data' size maxn off n = []
dump_from (suc fuel) data' size maxn off n =
    let len = rd_u16 (drop off data') 0 in
    let rest =
      decode (drop (off + 2) data') len blank_message
      ∷ dump_from fuel data' size maxn (off + (2 + len)) (n + 1) in
    if leb (off + 2) size && ltb n maxn
    then (if len == 0 then [] else if ltb size (off + 2 + len) then [] else rest)
    else []

unfoldable pub dump : Bytes → ℕ → List (Bool × Message)
dump data' maxn = dump_from (length data' + 1) data' (length data') maxn 0 0

-- The line that is printed: `unsigned` is `%llu` and `%u`, and `hex` is `%02x`.
unfoldable pub line_text : (unsigned hex : ℕ → Bytes) → Bool × Message → Bytes
line_text unsigned hex (modeled, m) =
    codes "typ="
    ++ hex m.kind
    ++ codes " mod="
    ++ unsigned (if modeled then 1 else 0)
    ++ codes " ts="
    ++ unsigned m.timestamp
    ++ codes " ref="
    ++ unsigned m.order_ref
    ++ codes " nref="
    ++ unsigned m.new_order_ref
    ++ codes " side="
    ++ hex m.side
    ++ codes " sh="
    ++ unsigned m.shares
    ++ codes " px="
    ++ unsigned m.price
    ++ codes " stock="
    ++ stock_text hex m.raw_stock
    ++ codes "\n"
  where
    stock_text : (ℕ → Bytes) → Bytes → Bytes
    stock_text hex [] = []
    stock_text hex (c ∷ cs) = hex c ++ stock_text hex cs

-- What parseBuffer would hand on of the messages reported.
abbrev pub modeled_of : List (Bool × Message) → List Message
modeled_of [] = []
modeled_of (r ∷ rs) = handed r ++ modeled_of rs

abbrev pub no_limit : ℕ
no_limit = 18446744073709551615

modeled_of-dump_from :
    (fuel : ℕ) (data' : Bytes) (size maxn off n : ℕ)
    → n + fuel ≤ maxn
    → modeled_of (dump_from fuel data' size maxn off n) ≡ parse_from fuel data' size off
unfolding dump_from parse_from
modeled_of-dump_from zero data' size maxn off n le = refl
modeled_of-dump_from (suc fuel) data' size maxn off n le =
    let len = rd_u16 (drop off data') 0 in
    rw
      (
        lt→ltb n maxn (omega arith),
        sym (modeled_of-dump_from fuel data' size maxn (off + (2 + len)) (n + 1) (omega arith)),
      )
      (by_tests (leb (off + 2) size) (len == 0) (ltb size (off + 2 + len))
        (decode (drop (off + 2) data') len blank_message) _)
  where
    by_tests :
        (a b c : Bool) (r : Bool × Message) (rs : List (Bool × Message))
        → modeled_of (if a && true then (if b then [] else if c then [] else r ∷ rs) else [])
          ≡ (if a then (if b then [] else if c then [] else handed r ++ modeled_of rs) else [])
    by_tests false b c r rs = refl
    by_tests true true c r rs = refl
    by_tests true false true r rs = refl
    by_tests true false false r rs = refl

dump_from-stop :
    (fuel : ℕ) (data' : Bytes) (size maxn off n : ℕ)
    → maxn ≤ n
    → dump_from fuel data' size maxn off n ≡ []
unfolding dump_from
dump_from-stop zero data' size maxn off n le = refl
dump_from-stop (suc fuel) data' size maxn off n le =
    rw (ltb-false n maxn le) (neither (leb (off + 2) size) _)
  where
    neither : (a : Bool) (rs : List (Bool × Message)) → (if a && false then rs else []) ≡ []
    neither true rs = refl
    neither false rs = refl

-- The walk to a number of messages goes as one without a limit, as far as it goes.
dump_from-take :
    (fuel : ℕ) (data' : Bytes) (size m limit maxn off n : ℕ)
    → n + fuel ≤ maxn
    → limit ≡ n + m
    → dump_from fuel data' size limit off n ≡ take m (dump_from fuel data' size maxn off n)
unfolding dump_from
dump_from-take zero data' size zero limit maxn off n le e = refl
dump_from-take zero data' size (suc m) limit maxn off n le e = refl
dump_from-take (suc fuel) data' size zero limit maxn off n le e =
    dump_from-stop (suc fuel) data' size limit off n (omega arith)
dump_from-take (suc fuel) data' size (suc m) limit maxn off n le e =
    let len = rd_u16 (drop off data') 0 in
    rw
      (
        lt→ltb n maxn (omega arith),
        lt→ltb n limit (omega arith),
        dump_from-take fuel data' size m limit maxn (off + (2 + len)) (n + 1) (omega arith)
            (omega arith),
      )
      (by_tests (leb (off + 2) size) (len == 0) (ltb size (off + 2 + len)) _ _)
  where
    by_tests :
        (a b c : Bool) (r : Bool × Message) (rs : List (Bool × Message))
        → (if a && true then (if b then [] else if c then [] else r ∷ take m rs) else [])
          ≡ take (suc m) (if a && true then (if b then [] else if c then [] else r ∷ rs) else [])
    by_tests false b c r rs = refl
    by_tests true true c r rs = refl
    by_tests true false true r rs = refl
    by_tests true false false r rs = refl

-- Messages, each behind its length, and then `tail`.
abbrev pub frames_before : List Bytes → Bytes → Bytes
frames_before [] tail = tail
frames_before (body ∷ r) tail = frame body (frames_before r tail)

-- The bytes in which no further message begins or is whole: none or one, a length of nought, or a
-- length with fewer bytes behind it.
abbrev pub IsEnd : Bytes → Type 0
IsEnd [] = Unit {0}
IsEnd (hi ∷ []) = Unit {0}
IsEnd (hi ∷ lo ∷ r) = (lo < 2 ^ 8) × ((256 * hi + lo ≡ 0) ⊎ (length r < 256 * hi + lo))

-- What decoding each message by itself gives, modelled or not.
abbrev pub reports : List Bytes → List (Bool × Message)
reports bodies = map (λ body. decode body (length body) blank_message) bodies

dump_from-end :
    (fuel : ℕ) (data' tail : Bytes) (size maxn off n : ℕ)
    → drop off data' ≡ tail
    → size ≡ off + length tail
    → IsEnd tail
    → dump_from fuel data' size maxn off n ≡ []
unfolding dump_from
dump_from-end zero data' tail size maxn off n e s v = refl
dump_from-end (suc fuel) data' [] size maxn off n e s v =
    let out : leb (off + 2) size ≡ false = ground arith in rw out refl
dump_from-end (suc fuel) data' (hi ∷ []) size maxn off n e s v =
    let out : leb (off + 2) size ≡ false = ground arith in rw out refl
dump_from-end (suc fuel) data' (hi ∷ lo ∷ r) size maxn off n e s v =
    let len : rd_u16 (drop off data') 0 ≡ 256 * hi + lo =
      ap (λ d. rd_u16 d 0) e ∙ rd_u16-pair hi lo r v.0 in
    elim v.1 [
      | inl nought ↦
          rw (len, ==_true (256 * hi + lo) 0 nought)
            (if_empty (leb (off + 2) size && ltb n maxn) _ refl)
      | inr short ↦
          rw (len, lt→ltb size (off + 2 + (256 * hi + lo)) (omega arith))
            (if_empty (leb (off + 2) size && ltb n maxn) _ (else_empty (256 * hi + lo == 0) _ refl))
    ]
  where
    if_empty : (a : Bool) (rs : List (Bool × Message)) → rs ≡ [] → (if a then rs else []) ≡ []
    if_empty true rs e = e
    if_empty false rs e = refl

    else_empty : (a : Bool) (rs : List (Bool × Message)) → rs ≡ [] → (if a then [] else rs) ≡ []
    else_empty true rs e = refl
    else_empty false rs e = e

-- One round of the loop, at a whole message.
dump_from-frame :
    (fuel : ℕ) (data' : Bytes) (size maxn off n : ℕ) (body rest : Bytes)
    → drop off data' ≡ frame body rest
    → 0 < length body
    → off + 2 + length body ≤ size
    → n < maxn
    → dump_from (suc fuel) data' size maxn off n
      ≡ decode body (length body) blank_message
        ∷ dump_from fuel data' size maxn (off + (2 + length body)) (n + 1)
unfolding dump_from
dump_from-frame fuel data' size maxn off n body rest e some_bytes fits more =
    let two : leb (off + 2) size ≡ true = ground arith in
    let len : rd_u16 (drop off data') 0 ≡ length body =
      ap (λ d. rd_u16 d 0) e ∙ rd_u16-frame body rest in
    let same : decode (drop (off + 2) data') (length body) blank_message
        ≡ decode body (length body) blank_message =
      decode-body off data' body rest e in
    rw (two, len, same, lt→ltb n maxn more)
      (rw
        (==_false (length body) 0 (λ z. ground arith), ltb-false size (off + 2 + length body) fits)
        refl)

dump_from-frames :
    (bodies : List Bytes) (tail : Bytes) (fuel : ℕ) (data' : Bytes) (size maxn off n : ℕ)
    → AreBodies bodies
    → IsEnd tail
    → drop off data' ≡ frames_before bodies tail
    → size ≡ off + length (frames_before bodies tail)
    → length (frames_before bodies tail) < fuel
    → n + fuel ≤ maxn
    → dump_from fuel data' size maxn off n ≡ reports bodies
dump_from-frames [] tail fuel data' size maxn off n v w e s lt le =
    dump_from-end fuel data' tail size maxn off n e s w
dump_from-frames (body ∷ r) tail zero data' size maxn off n v w e s lt le = absurd (omega arith)
dump_from-frames (body ∷ r) tail (suc fuel) data' size maxn off n v w e s lt le =
    let rest = frames_before r tail in
    let long = length-append body rest in
    dump_from-frame fuel data' size maxn off n body rest e v.0 (omega (arith, long)) (omega arith)
    ∙ ap (λ rs. decode body (length body) blank_message ∷ rs)
        (dump_from-frames r tail fuel data' size maxn (off + (2 + length body)) (n + 1) v.2 w
          (drop-next off data' body rest e) (omega (arith, long)) (omega (arith, long))
          (omega arith))

-- Of a file of messages behind their lengths, none empty and none of 2 ^ 16 bytes or more, and then
-- bytes in which no further message is whole, shorter than 2 ^ 64 - 1 bytes, the walk reports every
-- message, modelled or not, as decoding it by itself does, in order and up to the limit; and the
-- modelled ones among all of them are just those that parseBuffer hands on.
pub dump-parse_buffer :
    (bodies : List Bytes) (tail : Bytes) (maxn : ℕ)
    → AreBodies bodies
    → IsEnd tail
    → length (frames_before bodies tail) < no_limit
    → (dump (frames_before bodies tail) maxn ≡ take maxn (reports bodies))
      × (modeled_of (reports bodies) ≡ parse_buffer (frames_before bodies tail))
unfolding dump parse_buffer
dump-parse_buffer bodies tail maxn v w short =
    let data' = frames_before bodies tail in
    let all =
      dump_from-frames bodies tail (length data' + 1) data' (length data') no_limit 0 0 v w refl
        (omega arith) (omega arith) (omega arith) in
    (
      dump_from-take (length data' + 1) data' (length data') maxn maxn no_limit 0 0 (omega arith)
            (omega arith)
          ∙ ap (take maxn) all,
      ap modeled_of (sym all)
          ∙ modeled_of-dump_from (length data' + 1) data' (length data') no_limit 0 0 (omega arith),
    )
