-- ===== src/PriceLevel/Remove.antt =====
-- `removeOrder` of price_level.hpp against queues.
use ultra_low_latency_orderb.Prelude.{
  ℕ, ◌+◌, ◌-◌, ◌%◌, ◌^◌, ◌<◌, ◌≡◌, refl, sym, none, some, List, arith, points_at, ◌∈◌, erase, false,
  length-erase, Distinct-erase, ==_true, ==_false,
}
use ultra_low_latency_orderb.PriceLevel.{Heap, PriceLevel, remove_order, end_after_unlink}
use ultra_low_latency_orderb.PriceLevel.Links.{
  SameData, remove_order-next, remove_order-prev, remove_order-SameData,
}
use ultra_low_latency_orderb.PriceLevel.Fifo.{Links-erase}
use ultra_low_latency_orderb.PriceLevel.Queue.{
  IsQueue, quantity_sum_frame, quantity_sum-erase, head?-erase, last_or-erase, data-quantity,
  ne_of_points_at, prev-ne, next-ne,
}

-- The fields that `removeOrder` writes in the level, for an order that is not its own neighbour.
module _ (h : Heap) (l : PriceLevel) (a : ℕ) (prev_ne : points_at (h a).prev a ≡ false)
    (next_ne : points_at (h a).next a ≡ false) where
  remove_order_total :
      (remove_order h l (some a)).1.total_quantity
      ≡ (l.total_quantity + 2 ^ 64 - (h a).quantity) % 2 ^ 64
  unfolding remove_order
  remove_order_total = ground arith

  remove_order_count :
      (remove_order h l (some a)).1.order_count ≡ (l.order_count + 2 ^ 64 - 1) % 2 ^ 64
  unfolding remove_order
  remove_order_count = refl

  remove_order_head :
      (remove_order h l (some a)).1.head ≡ end_after_unlink l.head (h a).prev (h a).next
  unfolding remove_order
  remove_order_head = refl

  remove_order_tail :
      (remove_order h l (some a)).1.tail ≡ end_after_unlink l.tail (h a).next (h a).prev
  unfolding remove_order
  remove_order_tail = ground arith

-- `removeOrder` takes an order of the level, of a 64-bit quantity, out of the queue, whatever its place, and changes no
-- order's data; the order's own pointers are null afterwards.
pub remove_order-IsQueue :
    (h : Heap) (l : PriceLevel) (xs : List ℕ) (a : ℕ)
    → IsQueue h l xs
    → a ∈ xs
    → (h a).quantity < 2 ^ 64
    → let (g, m) = remove_order h l (some a) in
      IsQueue g m (erase a xs) × SameData h g × ((g a).next ≡ none) × ((g a).prev ≡ none)
remove_order-IsQueue h l xs a v i word =
    let np = prev-ne h none xs a v.links v.distinct i refl in
    let nn = next-ne h none xs a v.links v.distinct i in
    let np' = ne_of_points_at (h a).prev a np in
    let nn' = ne_of_points_at (h a).next a nn in
    let next = λ (b : ℕ). remove_order-next h l a b np' nn' in
    let prev = λ (b : ℕ). remove_order-prev h l a b np' nn' in
    (
      record {
        links =
            Links-erase h (remove_order h l (some a)).0 a
              (λ b ne e. rw (next b, ==_false b a ne, e, ==_true b b refl) refl)
              (λ b ne e. rw (next b, ==_false b a ne, e) refl)
              (λ b ne e. rw (prev b, ==_false b a ne, e, ==_true b b refl) refl)
              (λ b ne e. rw (prev b, ==_false b a ne, e) refl) none xs v.links v.distinct i
              (λ b j. refl);
        distinct = Distinct-erase a xs v.distinct;
        head = rw (remove_order_head h l a np nn, v.head) (sym (head?-erase h xs a v.links i));
        tail =
            rw (remove_order_tail h l a np nn, v.tail) (sym (last_or-erase h none xs a v.links i));
        total = omega (
          arith,
          remove_order_total h l a np nn,
          quantity_sum_frame h (remove_order h l (some a)).0 (erase a xs) (λ b j.
              data-quantity h (remove_order h l (some a)).0 b (remove_order-SameData h l a)),
          quantity_sum-erase h xs a i,
          v.total,
        );
        count = omega (arith, remove_order_count h l a np nn, length-erase xs a i, v.count);
      },
      remove_order-SameData h l a,
      rw (next a, ==_true a a refl) refl,
      rw (prev a, ==_true a a refl) refl,
    )
