-- ===== src/PriceLevel/Quantity.antt =====
-- Changes of an order's quantity: `reduceHeadQuantity` and `adjustTotalQuantity` of price_level.hpp.
use native.Mathlib.Decide.{ℕ_discrete}
use ultra_low_latency_orderb.Prelude.{
  ℕ, ◌+◌, ◌-◌, ◌%◌, ◌^◌, ◌<◌, ◌≤◌, ◌≡◌, ◌≢◌, ◌∙◌, ap, refl, none, some, List, [], ◌∷◌, arith, ◌==◌,
  if◌then◌else◌, ◌∈◌, ◌∉◌, Distinct, sub64, ==_true, ==_false, subst,
}
use ultra_low_latency_orderb.PriceLevel.{
  Heap, PriceLevel, remove_order, reduce_head_quantity, reduce_at,
}
use ultra_low_latency_orderb.PriceLevel.Fifo.{Links-frame}
use ultra_low_latency_orderb.PriceLevel.Queue.{
  IsQueue, quantity_sum, quantity_sum_frame, data-quantity,
}
use ultra_low_latency_orderb.PriceLevel.Remove.{remove_order-IsQueue}
use ultra_low_latency_orderb.Prelude.{write, ltb-false}

-- The heap with another quantity in the order `a`.
abbrev pub with_quantity : Heap → ℕ → ℕ → Heap
with_quantity h a q = write h a (record (h a) { quantity = q })

quantity_sum-with_quantity_out :
    (h : Heap) (xs : List ℕ) (a q : ℕ)
    → a ∉ xs
    → quantity_sum (with_quantity h a q) xs ≡ quantity_sum h xs
quantity_sum-with_quantity_out h xs a q out =
    quantity_sum_frame h (with_quantity h a q) xs (λ b i. ground (arith, ne_of_has a b xs i out))
  where
    ne_of_has : (a b : ℕ) (xs : List ℕ) → b ∈ xs → a ∉ xs → b ≢ a
    ne_of_has a b xs i out e = ground arith

pub quantity_sum-with_quantity :
    (h : Heap) (xs : List ℕ) (a q : ℕ)
    → Distinct xs
    → a ∈ xs
    → quantity_sum (with_quantity h a q) xs + (h a).quantity ≡ quantity_sum h xs + q
quantity_sum-with_quantity h [] a q d i = ground arith
quantity_sum-with_quantity h (x ∷ xs) a q d i = elim (ℕ_discrete x a) [
  | yes hit ↦ rw (==_true x a hit) (
      omega (
        arith,
        ap (λ k. (h k).quantity) hit,
        quantity_sum-with_quantity_out h xs a q (subst (λ k. k ∉ xs) hit d.0),
      ))
  | no miss ↦
      rw (==_false x a miss) (omega (arith, quantity_sum-with_quantity h xs a q d.1 (ground arith)))
]

-- A level whose total follows a change of one order's quantity holds the same queue.
pub with_quantity-IsQueue :
    (h : Heap) (l : PriceLevel) (xs : List ℕ) (a q t : ℕ)
    → IsQueue h l xs
    → a ∈ xs
    → t ≡ (quantity_sum h xs + q - (h a).quantity) % 2 ^ 64
    → IsQueue (with_quantity h a q) (record l { total_quantity = t }) xs
with_quantity-IsQueue h l xs a q t v i e = record {
  links = Links-frame h (with_quantity h a q) none xs v.links (λ b j. (ground arith, ground arith));
  distinct = v.distinct;
  head = v.head;
  tail = v.tail;
  total = omega (arith, quantity_sum-with_quantity h xs a q v.distinct i);
  count = v.count;
}

pub quantity-with_quantity_self : (h : Heap) (a q : ℕ) → (with_quantity h a q a).quantity ≡ q
quantity-with_quantity_self h a q = rw (==_true a a refl)

pub quantity-with_quantity_ne :
    (h : Heap) (a q b : ℕ) → b ≢ a → (with_quantity h a q b).quantity ≡ (h b).quantity
quantity-with_quantity_ne h a q b ne = rw (==_false b a ne)

sub_self : (m n : ℕ) → m ≡ n → m - n ≡ 0
sub_self m n e = omega arith

-- The level after `qty` shares are taken from the head order, with what that leaves in the heap.
record Reduced (h g : Heap) (m : PriceLevel) (a : ℕ) (r : List ℕ) (qty : ℕ) : Type 0 where
  queue : IsQueue g m (if (h a).quantity == qty then r else a ∷ r)
  left : (g a).quantity ≡ (h a).quantity - qty
  others : (b : ℕ) → b ≢ a → (g b).quantity ≡ (h b).quantity

reduce_at-Reduced :
    (h : Heap) (l : PriceLevel) (a : ℕ) (r : List ℕ) (qty : ℕ)
    → IsQueue h l (a ∷ r)
    → qty ≤ (h a).quantity
    → (h a).quantity < 2 ^ 64
    → Reduced h (reduce_at h l a qty).0 (reduce_at h l a qty).1 a r qty
unfolding reduce_at
reduce_at-Reduced h l a r qty v le word =
    let v1 =
      with_quantity-IsQueue h l (a ∷ r) a ((h a).quantity - qty) (sub64 l.total_quantity qty) v
        (rw (==_true a a refl)) (omega (arith, v.total)) in
    elim (ℕ_discrete (h a).quantity qty) [
      | yes all ↦
          let g1 = with_quantity h a ((h a).quantity - qty) in
          let l1 : PriceLevel = record l { total_quantity = sub64 l.total_quantity qty } in
          let zero_left =
            quantity-with_quantity_self h a ((h a).quantity - qty)
            ∙ sub_self (h a).quantity qty all in
          let out =
            remove_order-IsQueue g1 l1 (a ∷ r) a v1 (rw (==_true a a refl))
              (omega (arith, zero_left)) in
          let same = λ (b : ℕ). data-quantity g1 (remove_order g1 l1 (some a)).0 b out.1 in
          rw (==_true (g1 a).quantity 0 zero_left) (record {
            queue = rw (==_true (h a).quantity qty all) (rw (==_true a a refl) at out.0);
            left = same a ∙ quantity-with_quantity_self h a ((h a).quantity - qty);
            others = λ b ne. same b ∙ quantity-with_quantity_ne h a ((h a).quantity - qty) b ne;
          })
      | no some_left ↦
          let g1 = with_quantity h a ((h a).quantity - qty) in
          let kept = quantity-with_quantity_self h a ((h a).quantity - qty) in
          rw (==_false (g1 a).quantity 0 (omega (arith, kept))) (record {
            queue = rw (==_false (h a).quantity qty some_left) v1;
            left = kept;
            others = λ b ne. quantity-with_quantity_ne h a ((h a).quantity - qty) b ne;
          })
    ]

-- Taking up to its quantity, of 64 bits, from the head order: the head stays first with what is left, or leaves
-- the queue when nothing is left, and no other order's quantity changes.
pub reduce_head_quantity-IsQueue :
    (h : Heap) (l : PriceLevel) (a : ℕ) (r : List ℕ) (qty : ℕ)
    → IsQueue h l (a ∷ r)
    → qty ≤ (h a).quantity
    → (h a).quantity < 2 ^ 64
    → let (g, m) = reduce_head_quantity h l qty in
      IsQueue g m (if (h a).quantity == qty then r else a ∷ r)
      × ((g a).quantity ≡ (h a).quantity - qty)
      × ((b : ℕ) → b ≢ a → (g b).quantity ≡ (h b).quantity)
unfolding reduce_head_quantity
reduce_head_quantity-IsQueue h l a r qty v le word =
    let out = reduce_at-Reduced h l a r qty v le word in
    rw (v.head, reduce_head_quantity)
      (rw (ltb-false (h a).quantity qty le) (out.queue, out.left, out.others))
