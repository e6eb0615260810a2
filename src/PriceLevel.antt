-- ===== src/PriceLevel.antt =====
-- include/price_level.hpp: one price's orders as an intrusive doubly linked list.
-- The orders live in a heap that the whole book shares, a function of the slot's address; a
-- method that writes through a pointer returns the heap beside the level.
pub mod Links
pub mod Fifo
pub mod Queue
pub mod Append
pub mod Remove
pub mod Quantity
mod Tests
use ultra_low_latency_orderb.Prelude.{
  ℕ, ◌+◌, ◌-◌, ◌%◌, ◌^◌, ◌≡◌, Bool, true, false, ◌||◌, Option, none, some, ltb, ◌==◌, add64, sub64,
  if◌then◌else◌, write, is_none,
}
use ultra_low_latency_orderb.Prelude.Int.{ℤ, pos_part, neg_part}
use ultra_low_latency_orderb.Types.{Order}

abbrev pub Heap : Type 0
Heap = ℕ → Order

pub record PriceLevel : Type 0 where
  pub price : ℤ
  pub total_quantity : ℕ
  pub head : Option ℕ
  pub tail : Option ℕ
  pub order_count : ℕ

-- `PriceLevel(price)` followed by nothing; the book calls `setPrice` on it.
unfoldable pub new_level : ℤ → PriceLevel
new_level p = record { price = p; total_quantity = 0; head = none; tail = none; order_count = 0 }

unfoldable pub set_price : PriceLevel → ℤ → PriceLevel
set_price l p = record l { price = p }

abbrev pub is_empty : PriceLevel → Bool
is_empty l = is_none l.head

-- An int64_t added to a uint64_t: the sum modulo 2 ^ 64.
unfoldable pub adjust_total_quantity : PriceLevel → ℤ → PriceLevel
adjust_total_quantity l delta = record l {
  total_quantity = (l.total_quantity + pos_part delta + 2 ^ 64 - neg_part delta % 2 ^ 64) % 2 ^ 64;
}

-- `tail_->next = order`, or `head_ = order` at an empty level.
unfoldable pub link_tail : Heap → Option ℕ → ℕ → Heap
link_tail h none a = h
link_tail h (some t) a = write h t (record (h t) { next = some a })

abbrev pub head_after_append : Option ℕ → Option ℕ → ℕ → Option ℕ
head_after_append head none a = some a
head_after_append head (some t) a = head

unfoldable pub add_order : Heap → PriceLevel → Option ℕ → Heap × PriceLevel
unfolding link_tail
add_order h l none = (h, l)
add_order h l (some a) =
    let h1 : Heap = write h a (record (h a) { next = none; prev = l.tail }) in
    let h2 : Heap = link_tail h1 l.tail a in
    (
      h2,
      record l {
        head = head_after_append l.head l.tail a;
        tail = some a;
        total_quantity = add64 l.total_quantity (h2 a).quantity;
        order_count = add64 l.order_count 1;
      },
    )

-- `order->prev->next = order->next`, if there is an order before.
unfoldable pub unlink_next : Heap → Option ℕ → Option ℕ → Heap
unlink_next h none n = h
unlink_next h (some p) n = write h p (record (h p) { next = n })

-- `order->next->prev = order->prev`, if there is an order behind.
unfoldable pub unlink_prev : Heap → Option ℕ → Option ℕ → Heap
unlink_prev h none p = h
unlink_prev h (some n) p = write h n (record (h n) { prev = p })

-- The pointer that takes the place of `head_` or `tail_` when there is no neighbour on that side.
abbrev pub end_after_unlink : Option ℕ → Option ℕ → Option ℕ → Option ℕ
end_after_unlink old none new = new
end_after_unlink old (some x) new = old

unfoldable pub remove_order : Heap → PriceLevel → Option ℕ → Heap × PriceLevel
unfolding unlink_next unlink_prev
remove_order h l none = (h, l)
remove_order h l (some a) =
    let h1 : Heap = unlink_next h (h a).prev (h a).next in
    let h2 : Heap = unlink_prev h1 (h1 a).next (h1 a).prev in
    (
      write h2 a (record (h2 a) { next = none; prev = none }),
      record l {
        head = end_after_unlink l.head (h a).prev (h a).next;
        tail = end_after_unlink l.tail (h1 a).next (h1 a).prev;
        total_quantity = sub64 l.total_quantity (h2 a).quantity;
        order_count = sub64 l.order_count 1;
      },
    )

-- Past the guard of `reduceHeadQuantity`: `a` is the head and `qty` at most its quantity.
unfoldable pub reduce_at : Heap → PriceLevel → ℕ → ℕ → Heap × PriceLevel
reduce_at h l a qty =
    let h1 : Heap = write h a (record (h a) { quantity = (h a).quantity - qty }) in
    let l1 : PriceLevel = record l { total_quantity = sub64 l.total_quantity qty } in
    if (h1 a).quantity == 0 then remove_order h1 l1 (some a) else (h1, l1)

unfoldable pub reduce_head_quantity : Heap → PriceLevel → ℕ → Heap × PriceLevel
reduce_head_quantity h l qty = elim l.head [
  | none ↦ (h, l)
  | some a ↦ if ltb (h a).quantity qty then (h, l) else reduce_at h l a qty
]
