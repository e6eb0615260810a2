-- ===== src/OrderBook/Modify.antt =====
-- Changes of a resting order's quantity: `modifyOrder`, and the partial fills of the two matchers.
use native.Mathlib.Decide.{ℕ_discrete}
use mathlib.Core.Path.{fun_ext}
use ultra_low_latency_orderb.Prelude.{
  ℕ, ◌+◌, ◌-◌, ◌%◌, ◌^◌, ◌<◌, ◌≤◌, ◌≡◌, ◌∙◌, refl, sym, ap, subst, true, some, List, ◌∈◌, write,
  arith, ==_true, ==_false,
}
use ultra_low_latency_orderb.Prelude.Int.{ℤ, pos, pos_part, neg_part, ◌-ℤ◌, signed64}
use ultra_low_latency_orderb.Types.{Side, buy, sell, Order}
use ultra_low_latency_orderb.PriceLevel.{Heap, PriceLevel, adjust_total_quantity}
use ultra_low_latency_orderb.PriceLevel.Queue.{quantity_sum, quantity_sum-erase}
use ultra_low_latency_orderb.PriceLevel.Quantity.{with_quantity, with_quantity-IsQueue}
use ultra_low_latency_orderb.OrderBook.{
  OrderBook, Ladder, ladder, with_ladder, with_level, opposite, price_to_index, requantify,
  modify_order,
}
use ultra_low_latency_orderb.OrderBook.Matching.{reduce_maker}
use ultra_low_latency_orderb.OrderBook.Shape.{IsPlaced, IsFound, IsBook, Queues, with_side}
use ultra_low_latency_orderb.OrderBook.LadderSteps.{IsLadder-frame}
use ultra_low_latency_orderb.OrderBook.LadderBest.{with_level-IsLadder}
use ultra_low_latency_orderb.OrderBook.Assemble.{
  with_ladder-IsBook, price_to_index_same, opposite-ne, ladder_same,
}
use ultra_low_latency_orderb.OrderBook.Cancel.{index_below, queued, here}

-- A queue written over itself changes nothing.
with_side_self : (s : Side) (q : Queues) (idx : ℕ) → with_side s (write (q s) idx (q s idx)) q ≡ q
with_side_self s q idx = fun_ext (λ t. fun_ext (λ i. same s t i))
  where
    same : (s t : Side) (i : ℕ) → with_side s (write (q s) idx (q s idx)) q t i ≡ q t i
    same buy sell i = refl
    same sell buy i = refl
    same buy buy i = elim (ℕ_discrete i idx) [
      | yes e ↦ rw (==_true i idx e) (ap (q buy) (sym e))
      | no ne ↦ rw (==_false i idx ne) refl
    ]
    same sell sell i = elim (ℕ_discrete i idx) [
      | yes e ↦ rw (==_true i idx e) (ap (q sell) (sym e))
      | no ne ↦ rw (==_false i idx ne) refl
    ]

-- An order's data with another quantity.
abbrev pub requantified : Order → ℕ → Order
requantified o n = record o { quantity = n }

-- The book with quantity `n` in the order `slot`, which rests on level `idx` of the side `s`.
abbrev pub with_order_quantity : OrderBook → Side → ℕ → ℕ → ℕ → PriceLevel → OrderBook
with_order_quantity b s idx slot n lvl =
    with_ladder s (record b { heap = with_quantity b.heap slot n })
      (with_level (ladder s b) idx lvl)

module _ (b : OrderBook) (q : Queues) (fs live : List ℕ) (v : IsBook b q fs live) (s : Side)
    (idx slot n t : ℕ) (at_level : slot ∈ q s idx) (word : n < 2 ^ 64)
    (follows : t ≡ (quantity_sum b.heap (q s idx) + n - (b.heap slot).quantity) % 2 ^ 64) where
  -- Where the level's total follows the change, the book stays right, and no queue changes.
  pub with_order_quantity-IsBook :
      idx < b.num_levels
      → IsBook
          (with_order_quantity b s idx slot n
            (record ((ladder s b).levels idx) { total_quantity = t }))
          q
          fs
          live
  with_order_quantity-IsBook lt =
      subst (λ k. IsBook (with_ladder s c l) k fs live) (with_side_self s q idx)
        (with_ladder-IsBook s c l q (write (q s) idx (q s idx)) fs live
          (with_level-IsLadder s b.heap g b.num_levels (ladder s b) (q s) idx lvl (q s idx)
            (v.ladders s) lt
            (with_quantity-IsQueue b.heap ((ladder s b).levels idx) (q s idx) slot n t
              ((v.ladders s).queues idx) at_level follows)
            (λ i a ne j. same s i a j (λ e. ne e.1)) refl)
          (rw (ladder_same (opposite s) b c refl refl) (
            IsLadder-frame (opposite s) b.heap g b.num_levels (ladder (opposite s) b)
              (q (opposite s)) (v.ladders (opposite s))
              (λ i a j. same (opposite s) i a j (λ e. opposite-ne s e.0))))
          v.pool (λ u i a j. placed u i a (subst (λ k. a ∈ k u i) (with_side_self s q idx) j))
          (λ i a e. found i a (v.found i a e)) v.spans v.total)
    where
      g : Heap
      g = with_quantity b.heap slot n

      lvl : PriceLevel
      lvl = record ((ladder s b).levels idx) { total_quantity = t }

      c : OrderBook
      c = record b { heap = g }

      l : Ladder
      l = with_level (ladder s b) idx lvl

      same : (u : Side) (i a : ℕ) → a ∈ q u i → ((u ≡ s) × (i ≡ idx) → ⊥) → g a ≡ b.heap a
      same u i a j other =
          rw (==_false a slot (λ e. other (meet (subst (λ k. k ∈ q u i) e j)))) refl
        where
          meet : slot ∈ q u i → (u ≡ s) × (i ≡ idx)
          meet k = (
            sym (v.placed u i slot k).side ∙ (v.placed s idx slot at_level).side,
            sym (v.placed u i slot k).index ∙ (v.placed s idx slot at_level).index,
          )

      kept :
          (a : ℕ)
          → ((g a).id ≡ (b.heap a).id)
            × ((g a).side ≡ (b.heap a).side)
            × ((g a).price ≡ (b.heap a).price)
      kept a = elim (ℕ_discrete a slot) [
        | yes e ↦ rw (==_true a slot e) (
          ap (λ k. (b.heap k).id) (sym e),
          ap (λ k. (b.heap k).side) (sym e),
          ap (λ k. (b.heap k).price) (sym e),
        )
        | no ne ↦ rw (==_false a slot ne) (refl, refl, refl)
      ]

      quantity_word : (a : ℕ) → (b.heap a).quantity < 2 ^ 64 → (g a).quantity < 2 ^ 64
      quantity_word a w = elim (ℕ_discrete a slot) [
        | yes e ↦ rw (==_true a slot e) word
        | no ne ↦ rw (==_false a slot ne) w
      ]

      placed : (u : Side) (i a : ℕ) → a ∈ q u i → IsPlaced c live u i a
      placed u i a j =
          let p = v.placed u i a j in
          record {
            is_live = p.is_live;
            mapped = rw ((kept a).0) p.mapped;
            side = (kept a).1 ∙ p.side;
            index =
                price_to_index_same b c (g a).price refl
                ∙ (ap (price_to_index b) ((kept a).2) ∙ p.index);
            word = quantity_word a p.word;
          }

      found :
          (i a : ℕ) → IsFound b q i a → IsFound c (with_side s (write (q s) idx (q s idx)) q) i a
      found i a f = record {
        same_id = (kept a).0 ∙ f.same_id;
        queued =
            subst (λ k. a ∈ k (g a).side (price_to_index c (g a).price))
              (sym (with_side_self s q idx))
              (rw ((kept a).1, price_to_index_same b c (g a).price refl, (kept a).2) f.queued);
      }

-- The int64_t difference that `modifyOrder` adds to the level's total, modulo 2 ^ 64.
delta-mod :
    (t n o : ℕ)
    → t < 2 ^ 64
    → n < 2 ^ 64
    → o < 2 ^ 64
    → let d = signed64 n -ℤ signed64 o in
      (t + pos_part d + 2 ^ 64 - neg_part d % 2 ^ 64) % 2 ^ 64 ≡ (t + n + 2 ^ 64 - o) % 2 ^ 64
unfolding ◌-ℤ◌
delta-mod t n o ht hn ho = ground arith

minus-mod :
    (t f : ℕ)
    → t < 2 ^ 64
    → f < 2 ^ 64
    → let d = pos 0 -ℤ signed64 f in
      (t + pos_part d + 2 ^ 64 - neg_part d % 2 ^ 64) % 2 ^ 64 ≡ (t + 2 ^ 64 - f) % 2 ^ 64
unfolding ◌-ℤ◌
minus-mod t f ht hf = ground arith

quantity-le : (h : Heap) (xs : List ℕ) (a : ℕ) → a ∈ xs → (h a).quantity ≤ quantity_sum h xs
quantity-le h xs a i = omega (arith, quantity_sum-erase h xs a i)

-- What `modifyOrder` of an id in the map leaves: the same orders in the same queues, the one in
-- `slot` with quantity `n`; nothing else in the heap or the map changes.
pub record IsModified (b : OrderBook) (q : Queues) (fs live : List ℕ) (slot n : ℕ) (b' : OrderBook)
    : Type 0 where
  pub book : IsBook b' q fs live
  pub heap : b'.heap ≡ with_quantity b.heap slot n
  pub orders : b'.orders ≡ b.orders

adjusted-IsModified :
    (b : OrderBook) (q : Queues) (fs live : List ℕ) (s : Side) (idx slot n : ℕ) (d : ℤ)
    → IsBook b q fs live
    → slot ∈ q s idx
    → idx < b.num_levels
    → n < 2 ^ 64
    → (b.heap slot).quantity < 2 ^ 64
    → let t = ((ladder s b).levels idx).total_quantity in
      (t + pos_part d + 2 ^ 64 - neg_part d % 2 ^ 64) % 2 ^ 64
        ≡ (t + n + 2 ^ 64 - (b.heap slot).quantity) % 2 ^ 64
      → IsModified b q fs live slot n
          (with_order_quantity b s idx slot n (adjust_total_quantity ((ladder s b).levels idx) d))
unfolding adjust_total_quantity
adjusted-IsModified b q fs live s idx slot n d v i lt word old e = record {
  book =
      with_order_quantity-IsBook b q fs live v s idx slot n _ i word
        (e ∙ omega (arith, ((v.ladders s).queues idx).total, quantity-le b.heap (q s idx) slot i))
        lt;
  heap = fields s;
  orders = fields_orders s;
}
  where
    fields :
        (s : Side)
        → (with_order_quantity b s idx slot n
            (adjust_total_quantity ((ladder s b).levels idx) d)).heap
          ≡ with_quantity b.heap slot n
    fields buy = refl
    fields sell = refl

    fields_orders :
        (s : Side)
        → (with_order_quantity b s idx slot n
            (adjust_total_quantity ((ladder s b).levels idx) d)).orders
          ≡ b.orders
    fields_orders buy = refl
    fields_orders sell = refl

total-lt :
    (b : OrderBook) (q : Queues) (fs live : List ℕ) (s : Side) (idx : ℕ)
    → IsBook b q fs live
    → ((ladder s b).levels idx).total_quantity < 2 ^ 64
total-lt b q fs live s idx v = omega (arith, ((v.ladders s).queues idx).total)

-- On a book that is right, `modifyOrder` of an id in the map to a 64-bit quantity returns true and
-- sets that order's quantity, keeping its place in its queue (`IsModified`); the level's total follows modulo 2 ^ 64,
-- the casts to int64_t included.
pub modify_order-IsModified :
    (b : OrderBook) (q : Queues) (fs live : List ℕ) (id slot n : ℕ)
    → IsBook b q fs live
    → b.orders id ≡ some slot
    → n < 2 ^ 64
    → ((modify_order b id n).0 ≡ true) × IsModified b q fs live slot n (modify_order b id n).1
unfolding modify_order requantify
modify_order-IsModified b q fs live id slot n v hit word =
    let p = here b q fs live v id slot hit in
    let s = (b.heap slot).side in
    let idx = price_to_index b (b.heap slot).price in
    rw (hit, modify_order)
      (
        refl,
        adjusted-IsModified b q fs live s idx slot n (signed64 n -ℤ signed64 (b.heap slot).quantity)
            v (queued b q fs live v id slot hit) (index_below b q fs live v id slot hit) word p.word
            (delta-mod ((ladder s b).levels idx).total_quantity n (b.heap slot).quantity
              (total-lt b q fs live s idx v) word p.word),
      )

-- A partial fill of `match` is such a change, by the shares filled.
pub reduce_maker-IsModified :
    (b : OrderBook) (q : Queues) (fs live : List ℕ) (s : Side) (idx maker fill : ℕ)
    → IsBook b q fs live
    → maker ∈ q s idx
    → fill ≤ (b.heap maker).quantity
    → idx < b.num_levels
    → IsModified b q fs live maker
        ((b.heap maker).quantity - fill)
        (reduce_maker b s idx maker fill)
unfolding reduce_maker
reduce_maker-IsModified b q fs live s idx maker fill v i le lt =
    let p = v.placed s idx maker i in
    adjusted-IsModified b q fs live s idx maker ((b.heap maker).quantity - fill)
      (pos 0 -ℤ signed64 fill) v i lt (omega (arith, p.word)) p.word
      (minus-mod ((ladder s b).levels idx).total_quantity fill (total-lt b q fs live s idx v)
          (omega (arith, p.word))
        ∙ omega (arith, p.word))
