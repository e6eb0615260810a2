-- ===== src/ItchParser/RoundTrip.antt =====
-- The message types of ITCH 5.0 that decode models, written down as the format lays them out, and
-- read back.
use ultra_low_latency_orderb.Prelude.{ℕ, ◌^◌, ◌<◌, ◌≡◌, refl, ap, true, [], ◌∷◌, length}
use ultra_low_latency_orderb.ItchParser.{
  Bytes, trim_stock, Message, blank_message, eight_bytes, common_fields, add_fields, reduce_fields,
  priced_fields, replace_fields, decode_kind, decode,
}
use ultra_low_latency_orderb.ItchParser.BigEndian.{big_endian, rd_u32_at, rd_u48_at, rd_u64_at}

-- What every message begins with: its locate and tracking numbers, its time and the order's number.
pub record Header : Type 0 where
  pub extra : ℕ → ℕ
  pub time : ℕ
  pub order_ref : ℕ

-- The types that change a book, 'A' with 'F' and 'E' with the match number that follows it.
pub data Wire : Type 0 where
  added : Header → (side shares price : ℕ) (stock : ℕ → ℕ) → Wire
  attributed : Header → (side shares price : ℕ) (stock : ℕ → ℕ) (attribution : ℕ) → Wire
  executed : Header → (shares match_number : ℕ) → Wire
  executed_at : Header → (shares match_number printable price : ℕ) → Wire
  cancelled : Header → (shares : ℕ) → Wire
  deleted : Header → Wire
  replaced : Header → (new_ref shares price : ℕ) → Wire

abbrev pub eight : (ℕ → ℕ) → Bytes → Bytes
eight s rest = s 0 ∷ s 1 ∷ s 2 ∷ s 3 ∷ s 4 ∷ s 5 ∷ s 6 ∷ s 7 ∷ rest

abbrev pub headed : ℕ → Header → Bytes → Bytes
headed kind h rest =
    kind
    ∷ h.extra 0
    ∷ h.extra 1
    ∷ h.extra 2
    ∷ h.extra 3
    ∷ big_endian 6 h.time (big_endian 8 h.order_ref rest)

-- The bytes of a message.
abbrev pub encode : Wire → Bytes
encode (Wire.added h side shares price stock) =
    headed b'A' h (side ∷ big_endian 4 shares (eight stock (big_endian 4 price [])))
encode (Wire.attributed h side shares price stock attribution) =
    headed b'F' h
      (side ∷ big_endian 4 shares (eight stock (big_endian 4 price (big_endian 4 attribution []))))
encode (Wire.executed h shares match_number) =
    headed b'E' h (big_endian 4 shares (big_endian 8 match_number []))
encode (Wire.executed_at h shares match_number printable price) =
    headed b'C' h
      (big_endian 4 shares (big_endian 8 match_number (printable ∷ big_endian 4 price [])))
encode (Wire.cancelled h shares) = headed b'X' h (big_endian 4 shares [])
encode (Wire.deleted h) = headed b'D' h []
encode (Wire.replaced h new_ref shares price) =
    headed b'U' h (big_endian 8 new_ref (big_endian 4 shares (big_endian 4 price [])))

abbrev pub shown_header : ℕ → Header → Message
shown_header kind h = record blank_message {
  kind = kind;
  timestamp = h.time;
  order_ref = h.order_ref;
}

abbrev pub shown_add : ℕ → Header → ℕ → ℕ → ℕ → (ℕ → ℕ) → Message
shown_add kind h side shares price stock = record (shown_header kind h) {
  side = side;
  shares = shares;
  price = price;
  raw_stock = eight stock [];
  stock = trim_stock (eight stock (0 ∷ []));
}

-- What a message says, in the fields of `Message`.
abbrev pub shown : Wire → Message
shown (Wire.added h side shares price stock) = shown_add b'A' h side shares price stock
shown (Wire.attributed h side shares price stock attribution) =
    shown_add b'F' h side shares price stock
shown (Wire.executed h shares match_number) = record (shown_header b'E' h) { shares = shares }
shown (Wire.executed_at h shares match_number printable price) = record (shown_header b'C' h) {
  shares = shares;
  price = price;
}
shown (Wire.cancelled h shares) = record (shown_header b'X' h) { shares = shares }
shown (Wire.deleted h) = shown_header b'D' h
shown (Wire.replaced h new_ref shares price) = record (shown_header b'U' h) {
  new_order_ref = new_ref;
  shares = shares;
  price = price;
}

abbrev pub HeaderFits : Header → Type 0
HeaderFits h = (h.time < 2 ^ 48) × (h.order_ref < 2 ^ 64)

-- The numbers fit their fields.
abbrev pub Fits : Wire → Type 0
Fits (Wire.added h side shares price stock) = HeaderFits h × (shares < 2 ^ 32) × (price < 2 ^ 32)
Fits (Wire.attributed h side shares price stock attribution) =
    HeaderFits h × (shares < 2 ^ 32) × (price < 2 ^ 32)
Fits (Wire.executed h shares match_number) = HeaderFits h × (shares < 2 ^ 32)
Fits (Wire.executed_at h shares match_number printable price) =
    HeaderFits h × (shares < 2 ^ 32) × (price < 2 ^ 32)
Fits (Wire.cancelled h shares) = HeaderFits h × (shares < 2 ^ 32)
Fits (Wire.deleted h) = HeaderFits h
Fits (Wire.replaced h new_ref shares price) =
    HeaderFits h × (new_ref < 2 ^ 64) × (shares < 2 ^ 32) × (price < 2 ^ 32)

common_fields-headed :
    (kind : ℕ) (h : Header) (rest : Bytes)
    → HeaderFits h
    → common_fields (headed kind h rest) ≡ shown_header kind h
unfolding common_fields
common_fields-headed kind h rest f =
    rw
      (
        rd_u48_at h.time 5 (headed kind h rest) (big_endian 8 h.order_ref rest) f.0 refl,
        rd_u64_at h.order_ref 11 (headed kind h rest) rest f.1 refl,
      )
      refl

-- decode of the bytes of a message of a modelled type whose numbers fit their fields, whatever
-- stood in the record before, says that it is modelled
-- and gives its fields.
pub decode-encode :
    (w : Wire) (m : Message) → Fits w → decode (encode w) (length (encode w)) m ≡ (true, shown w)
unfolding decode decode_kind reduce_fields priced_fields replace_fields add_fields eight_bytes
decode-encode (Wire.deleted h) m f = ap (λ x. (true, x)) (common_fields-headed b'D' h [] f)
decode-encode (Wire.cancelled h shares) m f =
    rw
      (
        common_fields-headed b'X' h (big_endian 4 shares []) f.0,
        rd_u32_at shares 19 (encode (Wire.cancelled h shares)) [] f.1 refl,
      )
      refl
decode-encode (Wire.executed h shares match_number) m f =
    let rest = big_endian 8 match_number [] in
    rw
      (
        common_fields-headed b'E' h (big_endian 4 shares rest) f.0,
        rd_u32_at shares 19 (encode (Wire.executed h shares match_number)) rest f.1 refl,
      )
      refl
decode-encode (Wire.executed_at h shares match_number printable price) m f =
    let w = Wire.executed_at h shares match_number printable price in
    let rest = big_endian 8 match_number (printable ∷ big_endian 4 price []) in
    rw
      (
        common_fields-headed b'C' h (big_endian 4 shares rest) f.0,
        rd_u32_at shares 19 (encode w) rest f.1 refl,
        rd_u32_at price 32 (encode w) [] f.2 refl,
      )
      refl
decode-encode (Wire.replaced h new_ref shares price) m f =
    let w = Wire.replaced h new_ref shares price in
    let tail = big_endian 4 shares (big_endian 4 price []) in
    rw
      (
        common_fields-headed b'U' h (big_endian 8 new_ref tail) f.0,
        rd_u64_at new_ref 19 (encode w) tail f.1 refl,
        rd_u32_at shares 27 (encode w) (big_endian 4 price []) f.2 refl,
        rd_u32_at price 31 (encode w) [] f.3 refl,
      )
      refl
decode-encode (Wire.added h side shares price stock) m f =
    let w = Wire.added h side shares price stock in
    let tail = eight stock (big_endian 4 price []) in
    rw
      (
        common_fields-headed b'A' h (side ∷ big_endian 4 shares tail) f.0,
        rd_u32_at shares 20 (encode w) tail f.1 refl,
        rd_u32_at price 32 (encode w) [] f.2 refl,
      )
      refl
decode-encode (Wire.attributed h side shares price stock attribution) m f =
    let w = Wire.attributed h side shares price stock attribution in
    let last = big_endian 4 attribution [] in
    let tail = eight stock (big_endian 4 price last) in
    rw
      (
        common_fields-headed b'F' h (side ∷ big_endian 4 shares tail) f.0,
        rd_u32_at shares 20 (encode w) tail f.1 refl,
        rd_u32_at price 32 (encode w) last f.2 refl,
      )
      refl
