-- ===== src/BookReplay.antt =====
-- include/book_replay.hpp: an order book driven by the decoded messages of one symbol.
-- `none` is a null dereference in the pool of the book.
pub mod Target
pub mod Replayed
mod Tests
use ultra_low_latency_orderb.Prelude.{
  ℕ, ◌+◌, ◌-◌, ◌*◌, ◌/◌, Bool, Option, none, some, List, [], ◌∷◌, ◌++◌, ltb, ◌==◌, if◌then◌else◌,
  take, replicate, add64,
}
use ultra_low_latency_orderb.Prelude.Int.{ℤ, pos}
use ultra_low_latency_orderb.Types.{Side, buy, sell, Order}
use ultra_low_latency_orderb.ItchParser.{Bytes, Message}
use ultra_low_latency_orderb.OrderBook.{
  OrderBook, add_order_with_id, cancel_order, modify_order, get_order,
}

pub record BookReplay : Type 0 where
  pub book : OrderBook
  pub target : ℕ
  pub seen : ℕ
  pub added : ℕ
  pub deleted : ℕ
  pub reduced : ℕ
  pub replaced : ℕ

-- `memcpy` of bytes into an unsigned integer, on a host that stores the low byte first.
unfoldable pub pack : Bytes → ℕ
pack [] = 0
pack (x ∷ xs) = x + 256 * pack xs

-- The symbol, given without its null, left-justified in eight bytes that are blank otherwise.
unfoldable pub padded : Bytes → Bytes
padded symbol = take 8 (symbol ++ replicate 8 b' ')

unfoldable pub new_replay : OrderBook → Bytes → BookReplay
new_replay b symbol = record {
  book = b;
  target = pack (padded symbol);
  seen = 0;
  added = 0;
  deleted = 0;
  reduced = 0;
  replaced = 0;
}

unfoldable pub to_cents : ℕ → ℤ
to_cents price = pos (price / 100)

unfoldable pub is_target : BookReplay → Message → Bool
is_target r m = pack m.raw_stock == r.target

-- `if (addOrder(..)) ++counter`: the counter after the book has returned `id`.
abbrev pub counted : ℕ → ℕ → ℕ
counted id counter = if id == 0 then counter else add64 counter 1

unfoldable pub side_of_message : Message → Side
side_of_message m = if m.side == b'B' then buy else sell

unfoldable pub on_add : BookReplay → Message → Option BookReplay
on_add r m =
    if is_target r m
    then elim (add_order_with_id r.book (side_of_message m) (to_cents m.price) m.shares
        m.order_ref) [
          | none ↦ none
          | some (id, b) ↦ some (record r { book = b; added = counted id r.added })
        ]
    else some r

unfoldable pub on_delete : BookReplay → ℕ → BookReplay
on_delete r ref = elim (get_order r.book ref) [
  | none ↦ r
  | some o ↦ record r { book = (cancel_order r.book ref).1; deleted = add64 r.deleted 1 }
]

-- The book after `shares` are taken from the order `o`, found under `ref`.
unfoldable pub reduced_book : OrderBook → ℕ → Order → ℕ → OrderBook
reduced_book b ref o shares =
    if ltb shares o.quantity
    then (modify_order b ref (o.quantity - shares)).1
    else (cancel_order b ref).1

unfoldable pub on_reduce : BookReplay → ℕ → ℕ → BookReplay
on_reduce r ref shares = elim (get_order r.book ref) [
  | none ↦ r
  | some o ↦ record r { book = reduced_book r.book ref o shares; reduced = add64 r.reduced 1 }
]

unfoldable pub on_replace : BookReplay → Message → Option BookReplay
on_replace r m = elim (get_order r.book m.order_ref) [
  | none ↦ some r
  | some o ↦
      elim (add_order_with_id (cancel_order r.book m.order_ref).1 o.side (to_cents m.price) m.shares
        m.new_order_ref) [
          | none ↦ none
          | some (id, b) ↦ some (record r { book = b; replaced = counted id r.replaced })
        ]
]

-- The switch of `onMessage`.
unfoldable pub on_kind : BookReplay → Message → Option BookReplay
on_kind r m =
    if m.kind == b'A'
    then on_add r m
    else if m.kind == b'F'
    then on_add r m
    else if m.kind == b'D'
    then some (on_delete r m.order_ref)
    else if m.kind == b'X'
    then some (on_reduce r m.order_ref m.shares)
    else if m.kind == b'E'
    then some (on_reduce r m.order_ref m.shares)
    else if m.kind == b'C'
    then some (on_reduce r m.order_ref m.shares)
    else if m.kind == b'U'
    then on_replace r m
    else some r

unfoldable pub on_message : BookReplay → Message → Option BookReplay
on_message r m = elim (on_kind r m) [
  | none ↦ none
  | some r' ↦ some (record r' { seen = add64 r'.seen 1 })
]
