-- ===== src/OrderBook/Tests.antt =====
-- The theorems about the book, at the small book.
use ultra_low_latency_orderb.Prelude.{
  ℕ, ◌≡◌, subst, length, ◌<◌, refl, true, take, none, some, List, [], ◌∷◌, arith,
}
use ultra_low_latency_orderb.Prelude.Int.{pos}
use ultra_low_latency_orderb.Types.{buy, sell, Trade, new_order}
use ultra_low_latency_orderb.OrderBook.{
  OrderBook, new_book, price_to_index, in_range, add_order_with_id, cancel_order, modify_order,
}
use ultra_low_latency_orderb.OrderBook.Matching.{submit_limit, match_order, match_level}
use ultra_low_latency_orderb.OrderBook.Fills.{entries}
use ultra_low_latency_orderb.OrderBook.Shape.{IsBook, put}
use ultra_low_latency_orderb.OrderBook.Cancel.{IsCancelled, cancel_order-IsCancelled}
use ultra_low_latency_orderb.OrderBook.Modify.{IsModified, modify_order-IsModified}
use ultra_low_latency_orderb.OrderBook.MatchBook.{MatchRun}
use ultra_low_latency_orderb.OrderBook.MatchTotal.{match_order-MatchRun}
use ultra_low_latency_orderb.OrderBook.MatchLevel.{LevelRun, match_level-LevelRun}
use ultra_low_latency_orderb.OrderBook.Submit.{IsSubmitted, submit_limit-IsSubmitted}
use ultra_low_latency_orderb.OrderBook.Depth.{get_depth}
use ultra_low_latency_orderb.OrderBook.Depth.Rungs.{rungs_down, rungs_up, get_depth-take}
use ultra_low_latency_orderb.OrderBook.Create.{no_orders, new_book-IsBook}
use ultra_low_latency_orderb.OrderBook.Add.{add_order_with_id-IsAdded, IsAdded}
use ultra_low_latency_orderb.OrderBook.Examples.{
  few_levels, empty_book, empty_free, empty_valid, test_in, test_new, one_offer, one_added, offer,
  one_queue, one_valid, one_mapped, one_is, test_one_in, test_one_levels, one_new,
  one_offer-IsUncrossed,
}

add_order_with_id-IsAdded_example :
    (b' : OrderBook) × (add_order_with_id empty_book sell (pos 100) 5 7 ≡ some (7, b'))
    × IsAdded empty_book no_orders [] sell (new_order 7 sell (pos 100) 5) b'
add_order_with_id-IsAdded_example =
    add_order_with_id-IsAdded empty_book no_orders empty_free [] sell (pos 100) 5 7 empty_valid
      test_in (test_new 7) (omega arith)

new_book-IsBook_example :
    (fs : List ℕ) × IsBook (new_book (pos 1) (pos 200) 8) no_orders fs [] × (0 < length fs)
new_book-IsBook_example = new_book-IsBook (pos 1) (pos 200) 8 (omega arith) few_levels

cancel_order-IsCancelled_example :
    ((cancel_order one_offer 7).0 ≡ true)
    × IsCancelled one_offer one_queue one_added.free
        (offer ∷ [])
        7
        offer
        (cancel_order one_offer 7).1
cancel_order-IsCancelled_example =
    cancel_order-IsCancelled one_offer one_queue one_added.free (offer ∷ []) 7 offer one_valid
      one_mapped

modify_order-IsModified_example :
    ((modify_order one_offer 7 3).0 ≡ true)
    × IsModified one_offer one_queue one_added.free
        (offer ∷ [])
        offer
        3
        (modify_order one_offer 7 3).1
modify_order-IsModified_example =
    modify_order-IsModified one_offer one_queue one_added.free (offer ∷ []) 7 offer 3 one_valid
      one_mapped (omega arith)

match_order-MatchRun_example :
    MatchRun one_offer one_queue
      (offer ∷ [])
      buy
      (pos 100)
      9
      8
      []
      (match_order one_offer buy (pos 100) 8 9 [])
match_order-MatchRun_example =
    match_order-MatchRun one_offer one_queue one_added.free (offer ∷ []) buy (pos 100) 8 9 []
      one_valid

submit_limit-IsSubmitted_example :
    (trades : List Trade) × (b' : OrderBook) × (submit_limit one_offer buy (pos 100) 8 9
      ≡ some (trades, b'))
    × IsSubmitted buy (pos 100) 8 9 trades b'
submit_limit-IsSubmitted_example =
    submit_limit-IsSubmitted one_offer one_queue one_added.free (offer ∷ []) buy (pos 100) 8 9
      one_valid one_offer-IsUncrossed (subst (λ b. in_range b (pos 100) ≡ true) one_is test_one_in)
      (subst (λ b. b.orders 9 ≡ none) one_is one_new) (omega arith)

match_level-LevelRun_example :
    LevelRun one_offer one_queue
      (offer ∷ [])
      buy
      9
      sell
      99
      (pos 100)
      3
      []
      (entries one_offer.heap (one_queue sell 99))
      (match_level 2 buy 9 sell 99 (pos 100) 3 [] one_offer)
match_level-LevelRun_example =
    match_level-LevelRun buy 9 sell 99 (pos 100) (one_queue sell 99) 2 3 [] one_offer one_queue
      one_added.free (offer ∷ []) one_valid refl (short (price_to_index empty_book (pos 100)))
      (subst (λ b. 99 < b.num_levels) one_is test_one_levels)
  where
    short : (i : ℕ) → length (put sell i offer no_orders sell 99) < 2
    short i = ground arith

get_depth-take_example : get_depth one_offer 3 ≡ (
  take 3 (rungs_down one_offer (one_queue buy) one_offer.num_levels),
  take 3 (rungs_up one_offer (one_queue sell) one_offer.num_levels 0),
)
get_depth-take_example = get_depth-take one_offer one_queue one_added.free (offer ∷ []) 3 one_valid
