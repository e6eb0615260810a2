-- ===== src/PriceLevel/Tests.antt =====
-- A level of two orders on which the theorems are run.
use ultra_low_latency_orderb.Prelude.{
  ℕ, zero, suc, ◌-◌, ◌<◌, ◌≡◌, ◌≢◌, refl, arith, none, some, [], ◌∷◌, ◌==◌, if◌then◌else◌,
}
use ultra_low_latency_orderb.Prelude.Int.{pos}
use ultra_low_latency_orderb.Types.{sell, new_order}
use ultra_low_latency_orderb.PriceLevel.{
  Heap, PriceLevel, add_order, remove_order, reduce_head_quantity,
}
use ultra_low_latency_orderb.PriceLevel.Links.{SameData}
use ultra_low_latency_orderb.PriceLevel.Queue.{IsQueue}
use ultra_low_latency_orderb.PriceLevel.Append.{add_order-IsQueue}
use ultra_low_latency_orderb.PriceLevel.Remove.{remove_order-IsQueue}
use ultra_low_latency_orderb.PriceLevel.Quantity.{reduce_head_quantity-IsQueue}

-- Slots 1 and 2 are linked; every other slot holds an order of 7 that is in no level.
abbrev two_heap : Heap
two_heap (suc zero) = record (new_order 1 sell (pos 100) 5) { next = some 2 }
two_heap (suc (suc zero)) = record (new_order 2 sell (pos 100) 6) { prev = some 1 }
two_heap slot = new_order slot sell (pos 100) 7

abbrev two_level : PriceLevel
two_level = record {
  price = pos 100;
  total_quantity = 11;
  head = some 1;
  tail = some 2;
  order_count = 2;
}

two_valid : IsQueue two_heap two_level (1 ∷ 2 ∷ [])
unfolding new_order
two_valid = record {
  links = (refl, refl, (refl, refl, tt));
  distinct = (refl, (refl, tt));
  head = refl;
  tail = refl;
  total = refl;
  count = refl;
}

add_order-IsQueue_example :
    let (g, m) = add_order two_heap two_level (some 3) in
    IsQueue g m (1 ∷ 2 ∷ 3 ∷ []) × SameData two_heap g
add_order-IsQueue_example = add_order-IsQueue two_heap two_level (1 ∷ 2 ∷ []) 3 two_valid refl

two_word : (two_heap 2).quantity < 18446744073709551616
unfolding new_order
two_word = omega arith

one_word : (two_heap 1).quantity < 18446744073709551616
unfolding new_order
one_word = omega arith

one_le : 3 < (two_heap 1).quantity
unfolding new_order
one_le = omega arith

remove_order-IsQueue_example :
    let (g, m) = remove_order two_heap two_level (some 2) in
    IsQueue g m (1 ∷ []) × SameData two_heap g × ((g 2).next ≡ none) × ((g 2).prev ≡ none)
remove_order-IsQueue_example =
    remove_order-IsQueue two_heap two_level (1 ∷ 2 ∷ []) 2 two_valid refl two_word

reduce_head_quantity-IsQueue_example :
    let (g, m) = reduce_head_quantity two_heap two_level 3 in
    IsQueue g m (if (two_heap 1).quantity == 3 then 2 ∷ [] else 1 ∷ 2 ∷ [])
    × ((g 1).quantity ≡ (two_heap 1).quantity - 3)
    × ((b : ℕ) → b ≢ 1 → (g b).quantity ≡ (two_heap b).quantity)
reduce_head_quantity-IsQueue_example =
    reduce_head_quantity-IsQueue two_heap two_level 1 (2 ∷ []) 3 two_valid (omega (arith, one_le))
      one_word
