-- ===== src/PriceLevel/Links.antt =====
-- The pointers of price_level.hpp: what `addOrder` and `removeOrder` write, and that the links
-- they leave are those of the list with the order added at the end or taken out.
use ultra_low_latency_orderb.Prelude.{
  ℕ, ◌≡◌, ◌≢◌, Option, none, some, List, [], ◌∷◌, arith, ◌==◌, if◌then◌else◌, points_at, ◌∈◌, head?,
  false,
}
use ultra_low_latency_orderb.Types.{Order}
use ultra_low_latency_orderb.PriceLevel.{Heap, PriceLevel, add_order, remove_order}

-- From `p` on, the orders `xs` are chained both ways and the last has no successor.
abbrev pub Links : Heap → Option ℕ → List ℕ → Type 0
Links h p [] = Unit {0}
Links h p (x ∷ xs) = ((h x).prev ≡ p) × ((h x).next ≡ head? xs) × Links h (some x) xs

-- An order without its pointers.
abbrev pub bare : Order → Order
bare o = record o { next = none; prev = none }

-- No order differs but in its pointers.
abbrev pub SameData : Heap → Heap → Type 0
SameData h g = (a : ℕ) → bare (g a) ≡ bare (h a)

-- The orders of `xs` are the same, their pointers included.
abbrev pub SameOn : List ℕ → Heap → Heap → Type 0
SameOn xs h g = (a : ℕ) → a ∈ xs → g a ≡ h a

pub Links-SameOn :
    {h g : Heap} (p : Option ℕ) (xs : List ℕ) → Links h p xs → SameOn xs h g → Links g p xs
Links-SameOn p [] l s = tt
Links-SameOn p (x ∷ xs) l s =
    let e = s x (ground arith) in
    (ground arith, ground arith, Links-SameOn (some x) xs l.2 (λ a i. s a (ground arith)))

module _ (h : Heap) (l : PriceLevel) (a : ℕ) where
  pub add_order-next :
      (b : ℕ)
      → l.tail ≢ some a
      → ((add_order h l (some a)).0 b).next
        ≡ (if b == a then none else if points_at l.tail b then some a else (h b).next)
  unfolding add_order
  add_order-next b ne = ground arith

  pub add_order-prev :
      (b : ℕ) → ((add_order h l (some a)).0 b).prev ≡ (if b == a then l.tail else (h b).prev)
  unfolding add_order
  add_order-prev b = ground arith

  pub add_order-SameData : SameData h (add_order h l (some a)).0
  unfolding add_order
  add_order-SameData b = ground arith

  pub add_order_frame :
      (b : ℕ) → b ≢ a → points_at l.tail b ≡ false → (add_order h l (some a)).0 b ≡ h b
  unfolding add_order
  add_order_frame b ne out = ground arith

  pub remove_order-next :
      (b : ℕ)
      → (h a).prev ≢ some a
      → (h a).next ≢ some a
      → ((remove_order h l (some a)).0 b).next
        ≡ (if b == a then none else if points_at (h a).prev b then (h a).next else (h b).next)
  unfolding remove_order
  remove_order-next b np nn = ground arith

  pub remove_order-prev :
      (b : ℕ)
      → (h a).prev ≢ some a
      → (h a).next ≢ some a
      → ((remove_order h l (some a)).0 b).prev
        ≡ (if b == a then none else if points_at (h a).next b then (h a).prev else (h b).prev)
  unfolding remove_order
  remove_order-prev b np nn = ground arith

  pub remove_order-SameData : SameData h (remove_order h l (some a)).0
  unfolding remove_order
  remove_order-SameData b = ground arith

  pub remove_order_frame :
      (b : ℕ)
      → b ≢ a
      → points_at (h a).prev b ≡ false
      → points_at (h a).next b ≡ false
      → (remove_order h l (some a)).0 b ≡ h b
  unfolding remove_order
  remove_order_frame b ne np nn = ground arith
