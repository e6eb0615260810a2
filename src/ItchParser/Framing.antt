-- ===== src/ItchParser/Framing.antt =====
-- parseBuffer against its framing: messages, each behind its length, come out again in order.
use ultra_low_latency_orderb.Prelude.{
  ℕ, zero, suc, ◌+◌, ◌*◌, ◌/◌, ◌%◌, ◌^◌, ◌<◌, ◌≤◌, ◌≡◌, ◌∙◌, refl, ap, sym, arith, true, false,
  List, [], ◌∷◌, ◌++◌, length, length-append, drop, leb, ltb-false, ==_false,
}
use ultra_low_latency_orderb.Prelude.Bits.{bit_or-shifted}
use ultra_low_latency_orderb.ItchParser.{
  Bytes, rd_u16, Message, blank_message, decode, handed, parse_from, parse_buffer,
}
use ultra_low_latency_orderb.ItchParser.Prefix.{Agree, decode-Agree}

-- A message behind its length, and several one after the other.
abbrev pub frame : Bytes → Bytes → Bytes
frame body rest = length body / 256 ∷ length body % 256 ∷ (body ++ rest)

abbrev pub frames : List Bytes → Bytes
frames [] = []
frames (body ∷ r) = frame body (frames r)

-- Lengths that the two bytes can say, and that do not end the buffer.
abbrev pub AreBodies : List Bytes → Type 0
AreBodies [] = Unit {0}
AreBodies (body ∷ r) = (0 < length body) × (length body < 2 ^ 16) × AreBodies r

-- What decoding each message by itself hands on.
abbrev pub decoded_all : List Bytes → List Message
decoded_all [] = []
decoded_all (body ∷ r) = handed (decode body (length body) blank_message) ++ decoded_all r

drop-drop : (m n : ℕ) (xs : Bytes) → drop (m + n) xs ≡ drop n (drop m xs)
drop-drop zero n xs = let e : zero + n ≡ n = omega arith in ap (λ k. drop k xs) e
drop-drop (suc m) zero [] = let e : suc m + zero ≡ suc m = omega arith in ap (λ k. drop k []) e
drop-drop (suc m) (suc n) [] = ap (λ k. drop k []) (more m n)
  where
    more : (m n : ℕ) → suc m + suc n ≡ suc (m + suc n)
    more m n = omega arith
drop-drop (suc m) n (x ∷ xs) = ap (λ k. drop k (x ∷ xs)) (more m n) ∙ drop-drop m n xs
  where
    more : (m n : ℕ) → suc m + n ≡ suc (m + n)
    more m n = omega arith

drop-append : (xs ys : Bytes) → drop (length xs) (xs ++ ys) ≡ ys
drop-append [] ys = refl
drop-append (x ∷ xs) ys = drop-append xs ys

append-Agree : (xs ys : Bytes) → Agree (xs ++ ys) xs (length xs)
append-Agree [] ys i lt = absurd (omega arith)
append-Agree (x ∷ xs) ys zero lt = refl
append-Agree (x ∷ xs) ys (suc i) lt = append-Agree xs ys i (omega arith)

pub rd_u16-pair :
    (hi lo : ℕ) (rest : Bytes) → lo < 2 ^ 8 → rd_u16 (hi ∷ lo ∷ rest) 0 ≡ 256 * hi + lo
unfolding rd_u16
rd_u16-pair hi lo rest lt = bit_or-shifted 8 hi lo lt ∙ omega arith

pub rd_u16-frame : (body rest : Bytes) → rd_u16 (frame body rest) 0 ≡ length body
rd_u16-frame body rest =
    rd_u16-pair (length body / 256) (length body % 256) (body ++ rest) (omega arith) ∙ omega arith

drop-frame :
    (off : ℕ) (data' body rest : Bytes)
    → drop off data' ≡ frame body rest
    → drop (off + 2) data' ≡ body ++ rest
drop-frame off data' body rest e = drop-drop off 2 data' ∙ rw e refl

pub drop-next :
    (off : ℕ) (data' body rest : Bytes)
    → drop off data' ≡ frame body rest
    → drop (off + (2 + length body)) data' ≡ rest
drop-next off data' body rest e =
    ap (λ k. drop k data') (assoc off (length body))
    ∙ drop-drop (off + 2) (length body) data'
    ∙ rw (drop-frame off data' body rest e) (drop-append body rest)
  where
    assoc : (off n : ℕ) → off + (2 + n) ≡ off + 2 + n
    assoc off n = omega arith

-- What stands behind the length decodes as the message by itself does.
pub decode-body :
    (off : ℕ) (data' body rest : Bytes)
    → drop off data' ≡ frame body rest
    → decode (drop (off + 2) data') (length body) blank_message
      ≡ decode body (length body) blank_message
decode-body off data' body rest e =
    rw (drop-frame off data' body rest e)
      (decode-Agree (body ++ rest) body (length body) blank_message (append-Agree body rest))

-- One round of the loop, at a whole message.
parse_from-frame :
    (fuel : ℕ) (data' : Bytes) (size off : ℕ) (body rest : Bytes)
    → drop off data' ≡ frame body rest
    → 0 < length body
    → off + 2 + length body ≤ size
    → parse_from (suc fuel) data' size off
      ≡ handed (decode body (length body) blank_message)
        ++ parse_from fuel data' size (off + (2 + length body))
unfolding parse_from
parse_from-frame fuel data' size off body rest e some_bytes fits =
    let two : leb (off + 2) size ≡ true = ground arith in
    let len : rd_u16 (drop off data') 0 ≡ length body =
      ap (λ d. rd_u16 d 0) e ∙ rd_u16-frame body rest in
    let same : decode (drop (off + 2) data') (length body) blank_message
        ≡ decode body (length body) blank_message =
      decode-body off data' body rest e in
    rw (two, len, same)
      (rw
        (==_false (length body) 0 (λ z. ground arith), ltb-false size (off + 2 + length body) fits)
        refl)

parse_from-end :
    (fuel : ℕ) (data' : Bytes) (size off : ℕ) → size ≤ off → parse_from fuel data' size off ≡ []
unfolding parse_from
parse_from-end zero data' size off le = refl
parse_from-end (suc fuel) data' size off le =
    let out : leb (off + 2) size ≡ false = ground arith in rw out refl

parse_from-frames :
    (bodies : List Bytes) (fuel : ℕ) (data' : Bytes) (size off : ℕ)
    → AreBodies bodies
    → drop off data' ≡ frames bodies
    → size ≡ off + length (frames bodies)
    → length (frames bodies) < fuel
    → parse_from fuel data' size off ≡ decoded_all bodies
parse_from-frames [] fuel data' size off v e n lt = parse_from-end fuel data' size off (omega arith)
parse_from-frames (body ∷ r) zero data' size off v e n lt = absurd (omega arith)
parse_from-frames (body ∷ r) (suc fuel) data' size off v e n lt =
    let long = length-append body (frames r) in
    parse_from-frame fuel data' size off body (frames r) e v.0 (omega (arith, long))
    ∙ ap (λ ms. handed (decode body (length body) blank_message) ++ ms)
        (parse_from-frames r fuel data' size (off + (2 + length body)) v.2
          (drop-next off data' body (frames r) e) (omega (arith, long)) (omega (arith, long)))

-- Parsing a buffer of whole messages, none empty and none of 2 ^ 16 bytes or more, each behind its
-- length, gives what decoding each of them by itself gives, in their order and with none left out.
pub parse_buffer-frames :
    (bodies : List Bytes) → AreBodies bodies → parse_buffer (frames bodies) ≡ decoded_all bodies
unfolding parse_buffer
parse_buffer-frames bodies v =
    parse_from-frames bodies (length (frames bodies) + 1) (frames bodies) (length (frames bodies)) 0
      v refl (omega arith) (omega arith)

-- Any two numbers of rounds above the bytes left give the same: on any buffer the loop has ended by
-- then, and does not run out.
pub parse_from-enough :
    (fuel more : ℕ) (data' : Bytes) (size off : ℕ)
    → size < off + fuel
    → size < off + more
    → parse_from fuel data' size off ≡ parse_from more data' size off
unfolding parse_from
parse_from-enough zero more data' size off lt lt' =
    sym (parse_from-end more data' size off (omega arith))
parse_from-enough (suc fuel) zero data' size off lt lt' =
    parse_from-end (suc fuel) data' size off (omega arith)
parse_from-enough (suc fuel) (suc more) data' size off lt lt' =
    let len = rd_u16 (drop off data') 0 in
    rw (parse_from-enough fuel more data' size (off + (2 + len)) (omega arith) (omega arith)) refl
