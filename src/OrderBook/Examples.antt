-- ===== src/OrderBook/Examples.antt =====
-- A small book, empty and with one offer, on which the operations and their theorems are run.
use ultra_low_latency_orderb.Prelude.{
  ℕ, ◌≡◌, ◌∙◌, subst, ap, sym, ◌<◌, refl, true, false, Option, none, some, List, [], ◌∷◌, arith,
}
use ultra_low_latency_orderb.Prelude.Int.{pos, pos_part, ◌+ℤ◌, ◌-ℤ◌}
use ultra_low_latency_orderb.Types.{sell, new_order}
use ultra_low_latency_orderb.PriceLevel
use ultra_low_latency_orderb.ObjectPool
use ultra_low_latency_orderb.OrderBook.{
  OrderBook, new_ladder, new_book, price_to_index, in_range, ladder_after_add, register, link_order,
  add_order_with_id,
}
use ultra_low_latency_orderb.OrderBook.Shape.{Queues, IsBook, put}
use ultra_low_latency_orderb.OrderBook.MarketLimit.{HasWordPrices}
use ultra_low_latency_orderb.OrderBook.Submit.{slot_queued}
use ultra_low_latency_orderb.OrderBook.Uncrossed.{IsUncrossed}
use ultra_low_latency_orderb.OrderBook.Create.{no_orders, new_book-IsBook}
use ultra_low_latency_orderb.OrderBook.Add.{add_order_with_id-IsAdded, IsAdded}

pub few_levels : pos_part (pos 200 -ℤ pos 1 +ℤ pos 1) < 9223372036854775808
unfolding ◌+ℤ◌ ◌-ℤ◌
few_levels = omega arith

-- Room for prices from 1 to 200, and for eight orders before the pool grows.
abbrev pub empty_book : OrderBook
empty_book = new_book (pos 1) (pos 200) 8

abbrev pub empty_free : List ℕ
empty_free = (new_book-IsBook (pos 1) (pos 200) 8 (omega arith) few_levels).0

pub empty_valid : IsBook empty_book no_orders empty_free []
empty_valid = (new_book-IsBook (pos 1) (pos 200) 8 (omega arith) few_levels).1

-- The same book with one offer of 5 at 100 under id 7.
abbrev pub taken : Option (ℕ × OrderBook) → OrderBook
taken none = empty_book
taken (some (id, b)) = b

pub test_in : in_range empty_book (pos 100) ≡ true
unfolding in_range new_book
test_in = refl

pub test_out : in_range empty_book (pos 201) ≡ false
unfolding in_range new_book
test_out = refl

pub test_new : (id : ℕ) → empty_book.orders id ≡ none
unfolding new_book
test_new id = refl

pub empty_book-IsUncrossed : IsUncrossed empty_book
unfolding new_book new_ladder
empty_book-IsUncrossed i j p q = ground arith

pub one_run :
    (b' : OrderBook) × (add_order_with_id empty_book sell (pos 100) 5 7 ≡ some (7, b'))
    × IsAdded empty_book no_orders [] sell (new_order 7 sell (pos 100) 5) b'
one_run =
    add_order_with_id-IsAdded empty_book no_orders empty_free [] sell (pos 100) 5 7 empty_valid
      test_in (test_new 7) (omega arith)

-- The book with one offer of 5 at 100 under id 7, where it stands, and what is known of it.
abbrev pub one_offer : OrderBook
one_offer = one_run.0

pub one_added : IsAdded empty_book no_orders [] sell (new_order 7 sell (pos 100) 5) one_offer
one_added = one_run.2

abbrev pub offer : ℕ
offer = one_added.slot

abbrev pub one_queue : Queues
one_queue = put sell (price_to_index empty_book (pos 100)) offer no_orders

pub one_valid : IsBook one_offer one_queue one_added.free (offer ∷ [])
unfolding new_order
one_valid = one_added.book

pub one_mapped : one_offer.orders 7 ≡ some offer
unfolding new_order
one_mapped =
    ap one_offer.orders (sym (ap (λ o. o.id) one_added.stored))
    ∙ (one_valid.placed sell (price_to_index empty_book (pos 100)) offer
        (slot_queued sell no_orders _ offer)).mapped

-- The book that `addOrder` computes is the one that the theorem names.
pub one_is : taken (add_order_with_id empty_book sell (pos 100) 5 7) ≡ one_offer
one_is = ap taken one_run.1

pub test_one_in :
    in_range (taken (add_order_with_id empty_book sell (pos 100) 5 7)) (pos 100) ≡ true
unfolding add_order_with_id register link_order new_order price_to_index in_range ladder_after_add
    new_book PriceLevel.add_order ObjectPool.allocate ObjectPool.take_slot ObjectPool.grow
    ObjectPool.add_chunk ObjectPool.thread_slots
test_one_in = refl

pub test_one_levels : 99 < (taken (add_order_with_id empty_book sell (pos 100) 5 7)).num_levels
unfolding add_order_with_id register link_order new_order price_to_index in_range ladder_after_add
    new_book PriceLevel.add_order ObjectPool.allocate ObjectPool.take_slot ObjectPool.grow
    ObjectPool.add_chunk ObjectPool.thread_slots ◌+ℤ◌ ◌-ℤ◌
test_one_levels = omega arith

pub test_one_words : HasWordPrices (taken (add_order_with_id empty_book sell (pos 100) 5 7))
unfolding add_order_with_id register link_order new_order price_to_index in_range ladder_after_add
    new_book PriceLevel.add_order ObjectPool.allocate ObjectPool.take_slot ObjectPool.grow
    ObjectPool.add_chunk ObjectPool.thread_slots
test_one_words = record { low = omega arith; high = omega arith }

pub one_new : (taken (add_order_with_id empty_book sell (pos 100) 5 7)).orders 9 ≡ none
unfolding add_order_with_id register link_order new_order price_to_index in_range ladder_after_add
    new_book PriceLevel.add_order ObjectPool.allocate ObjectPool.take_slot ObjectPool.grow
    ObjectPool.add_chunk ObjectPool.thread_slots
one_new = refl

pub one_bids : (taken (add_order_with_id empty_book sell (pos 100) 5 7)).bids.best_idx ≡ none
unfolding add_order_with_id register link_order new_order price_to_index in_range ladder_after_add
    new_book new_ladder PriceLevel.add_order ObjectPool.allocate ObjectPool.take_slot
    ObjectPool.grow ObjectPool.add_chunk ObjectPool.thread_slots
one_bids = refl

pub one_offer-IsUncrossed : IsUncrossed one_offer
one_offer-IsUncrossed i j p q =
    let e : one_offer.bids.best_idx ≡ none = subst (λ b. b.bids.best_idx ≡ none) one_is one_bids in
    ground arith
