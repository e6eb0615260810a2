-- ===== src/OrderBook/Assemble.antt =====
-- The book's invariant from its parts, where one side's ladder is replaced.
use native.Mathlib.Decide.{ℕ_discrete}
use ultra_low_latency_orderb.Prelude.{
  ℕ, ◌%◌, ◌^◌, ◌≡◌, ◌≢◌, ◌∙◌, refl, ap, subst, ◌⊎◌, inl, inr, Bool, true, false, some, List, length,
  ◌∈◌, ◌∉◌, has, write, arith, ==_true, ==_false,
}
use ultra_low_latency_orderb.Prelude.Int.{ℤ, pos, pos_part, ◌+ℤ◌, ◌-ℤ◌}
use ultra_low_latency_orderb.Types.{Side, buy, sell}
use ultra_low_latency_orderb.ObjectPool.FreeList.{IsPool}
use ultra_low_latency_orderb.OrderBook.{
  OrderBook, Ladder, ladder, with_ladder, opposite, price_to_index,
}
use ultra_low_latency_orderb.PriceLevel.Links.{bare}
use ultra_low_latency_orderb.OrderBook.Shape.{
  IsLadder, IsPlaced, IsFound, IsBook, Queues, with_side,
}

-- The index of a price depends on the lowest price alone.
pub price_to_index_same :
    (b c : OrderBook) (p : ℤ) → c.min_price ≡ b.min_price → price_to_index c p ≡ price_to_index b p
unfolding price_to_index
price_to_index_same b c p e = rw e refl

module _ (s : Side) (b : OrderBook) (l : Ladder) (q : Queues) (f : ℕ → List ℕ) (fs live : List ℕ)
    (changed : IsLadder s b.heap b.num_levels l f)
    (kept : IsLadder (opposite s) b.heap b.num_levels (ladder (opposite s) b) (q (opposite s)))
    (pool : IsPool b.pool fs live)
    (placed : (t : Side) (i a : ℕ) → a ∈ with_side s f q t i → IsPlaced b live t i a)
    (found : (id a : ℕ) → b.orders id ≡ some a → IsFound b (with_side s f q) id a)
    (spans : b.num_levels ≡ pos_part (b.max_price -ℤ b.min_price +ℤ pos 1))
    (total : b.total_orders ≡ length live % 2 ^ 64) where
  pub with_ladder-IsBook : IsBook (with_ladder s b l) (with_side s f q) fs live
  with_ladder-IsBook = go s changed kept placed found
    where
      go :
          (s : Side)
          → IsLadder s b.heap b.num_levels l f
          → IsLadder (opposite s) b.heap b.num_levels (ladder (opposite s) b) (q (opposite s))
          → ((t : Side) (i a : ℕ) → a ∈ with_side s f q t i → IsPlaced b live t i a)
          → ((id a : ℕ) → b.orders id ≡ some a → IsFound b (with_side s f q) id a)
          → IsBook (with_ladder s b l) (with_side s f q) fs live
      go buy c k p d = record {
        ladders = elim [ buy ↦ c | sell ↦ k ];
        pool = pool;
        placed = λ t i a j. record {
          is_live = (p t i a j).is_live;
          mapped = (p t i a j).mapped;
          side = (p t i a j).side;
          index =
              price_to_index_same b (with_ladder buy b l) (b.heap a).price refl ∙ (p t i a j).index;
          word = (p t i a j).word;
        };
        found = λ id a e. record {
          same_id = (d id a e).same_id;
          queued =
              rw (price_to_index_same b (with_ladder buy b l) (b.heap a).price refl)
                (d id a e).queued;
        };
        spans = spans;
        total = total;
      }
      go sell c k p d = record {
        ladders = elim [ buy ↦ k | sell ↦ c ];
        pool = pool;
        placed = λ t i a j. record {
          is_live = (p t i a j).is_live;
          mapped = (p t i a j).mapped;
          side = (p t i a j).side;
          index =
              price_to_index_same b (with_ladder sell b l) (b.heap a).price refl
              ∙ (p t i a j).index;
          word = (p t i a j).word;
        };
        found = λ id a e. record {
          same_id = (d id a e).same_id;
          queued =
              rw (price_to_index_same b (with_ladder sell b l) (b.heap a).price refl)
                (d id a e).queued;
        };
        spans = spans;
        total = total;
      }

-- An order of a ladder with level `idx` replaced is in the new queue, or in its old one elsewhere.
pub has-with_side :
    (s t : Side) (q : Queues) (idx i a : ℕ) (xs : List ℕ)
    → a ∈ with_side s (write (q s) idx xs) q t i
    → ((t ≡ s) × (i ≡ idx) × (a ∈ xs)) ⊎ ((a ∈ q t i) × ((t ≡ s) × (i ≡ idx) → ⊥))
has-with_side buy sell q idx i a xs j = inr (j, λ e. cc)
has-with_side sell buy q idx i a xs j = inr (j, λ e. cc)
has-with_side buy buy q idx i a xs j = elim (ℕ_discrete i idx) [
  | yes e ↦ inl (refl, e, rw (==_true i idx e) at j)
  | no ne ↦ inr (rw (==_false i idx ne) at j, λ e. ne e.1)
]
has-with_side sell sell q idx i a xs j = elim (ℕ_discrete i idx) [
  | yes e ↦ inl (refl, e, rw (==_true i idx e) at j)
  | no ne ↦ inr (rw (==_false i idx ne) at j, λ e. ne e.1)
]

-- And the other way round.
pub with_side-has :
    (s : Side) (q : Queues) (idx a : ℕ) (xs : List ℕ)
    → a ∈ xs
    → a ∈ with_side s (write (q s) idx xs) q s idx
with_side-has buy q idx a xs j = rw (==_true idx idx refl) j
with_side-has sell q idx a xs j = rw (==_true idx idx refl) j

pub with_side-has_old :
    (s t : Side) (q : Queues) (idx i a : ℕ) (xs : List ℕ)
    → a ∈ q t i
    → (a ∈ q s idx → a ∈ xs)
    → a ∈ with_side s (write (q s) idx xs) q t i
with_side-has_old buy sell q idx i a xs j h = j
with_side-has_old sell buy q idx i a xs j h = j
with_side-has_old buy buy q idx i a xs j h = elim (ℕ_discrete i idx) [
  | yes e ↦ rw (==_true i idx e) (h (subst (λ k. a ∈ q buy k) e j))
  | no ne ↦ rw (==_false i idx ne) j
]
with_side-has_old sell sell q idx i a xs j h = elim (ℕ_discrete i idx) [
  | yes e ↦ rw (==_true i idx e) (h (subst (λ k. a ∈ q sell k) e j))
  | no ne ↦ rw (==_false i idx ne) j
]

-- What is said of an order depends on its data alone, not on its pointers.
pub IsPlaced-same :
    (b c : OrderBook) (live live' : List ℕ) (s : Side) (i a : ℕ)
    → IsPlaced b live s i a
    → bare (c.heap a) ≡ bare (b.heap a)
    → c.min_price ≡ b.min_price
    → c.orders (b.heap a).id ≡ some a
    → a ∈ live'
    → IsPlaced c live' s i a
IsPlaced-same b c live live' s i a p e m o j = record {
  is_live = j;
  mapped = rw (ap (λ x. x.id) e) o;
  side = ap (λ x. x.side) e ∙ p.side;
  index =
      price_to_index_same b c (c.heap a).price m ∙ (ap (λ x. price_to_index b x.price) e ∙ p.index);
  word = rw (ap (λ x. x.quantity) e) p.word;
}

pub IsFound-same :
    (b c : OrderBook) (q q' : Queues) (id a : ℕ)
    → IsFound b q id a
    → bare (c.heap a) ≡ bare (b.heap a)
    → c.min_price ≡ b.min_price
    → ((t : Side) (i : ℕ) → a ∈ q t i → a ∈ q' t i)
    → IsFound c q' id a
IsFound-same b c q q' id a f e m h = record {
  same_id = ap (λ x. x.id) e ∙ f.same_id;
  queued =
      rw (ap (λ x. x.side) e, price_to_index_same b c (c.heap a).price m, ap (λ x. x.price) e)
        (h (b.heap a).side (price_to_index b (b.heap a).price) f.queued);
}

pub opposite-ne : (s : Side) → opposite s ≡ s → ⊥
opposite-ne buy e = cc
opposite-ne sell e = cc

pub ladder_same :
    (t : Side) (b c : OrderBook) → c.bids ≡ b.bids → c.asks ≡ b.asks → ladder t c ≡ ladder t b
ladder_same buy b c e f = e
ladder_same sell b c e f = f

pub heap-with_ladder : (s : Side) (b : OrderBook) (l : Ladder) → (with_ladder s b l).heap ≡ b.heap
heap-with_ladder buy b l = refl
heap-with_ladder sell b l = refl

pub differ : (a b : ℕ) (xs : List ℕ) → a ∈ xs → b ∉ xs → a ≢ b
differ a b xs i out e = ground arith

pub absent : (a : ℕ) (xs : List ℕ) → (a ∈ xs → ⊥) → a ∉ xs
absent a xs h = go (has a xs) refl
  where
    go : (t : Bool) → has a xs ≡ t → a ∉ xs
    go true e = absurd (h e)
    go false e = e

pub orders-with_ladder :
    (s : Side) (b : OrderBook) (l : Ladder) → (with_ladder s b l).orders ≡ b.orders
orders-with_ladder buy b l = refl
orders-with_ladder sell b l = refl

-- The price range is the same.
pub record SameSpan (b c : OrderBook) : Type 0 where
  pub low : c.min_price ≡ b.min_price
  pub high : c.max_price ≡ b.max_price
  pub levels : c.num_levels ≡ b.num_levels

pub SameSpan-with_ladder :
    (s : Side) (b c : OrderBook) (l : Ladder)
    → c.min_price ≡ b.min_price
    → c.max_price ≡ b.max_price
    → c.num_levels ≡ b.num_levels
    → SameSpan b (with_ladder s c l)
SameSpan-with_ladder buy b c l e f g = record { low = e; high = f; levels = g }
SameSpan-with_ladder sell b c l e f g = record { low = e; high = f; levels = g }
