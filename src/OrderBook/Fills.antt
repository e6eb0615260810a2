-- ===== src/OrderBook/Fills.antt =====
-- The abstract view of a level and of its matching: ids and quantities in time order.
use ultra_low_latency_orderb.Prelude.{
  ℕ, ◌+◌, ◌-◌, ◌≡◌, refl, ◌⊎◌, inr, List, [], ◌∷◌, leb, ◌==◌, if◌then◌else◌, arith, ◌∈◌, ap₂,
}
use ultra_low_latency_orderb.Prelude.Int.{ℤ}
use ultra_low_latency_orderb.Types.{Side, Trade}
use ultra_low_latency_orderb.PriceLevel.{Heap}

-- An order's id and quantity; so too a fill.
abbrev pub Entry : Type 0
Entry = ℕ × ℕ

-- The level as a client sees it: the oldest order first.
abbrev pub entries : Heap → List ℕ → List Entry
entries h [] = []
entries h (a ∷ r) = ((h a).id, (h a).quantity) ∷ entries h r

-- The fills, the quantity left over and the orders left, when `rem` shares meet the orders of one
-- level in time order.
abbrev pub Filled : Type 0
Filled = List Entry × ℕ × List Entry

abbrev pub prepend : Entry → Filled → Filled
prepend e (fills, rem, rest) = (e ∷ fills, rem, rest)

unfoldable pub fill_queue : ℕ → List Entry → Filled
fill_queue rem [] = ([], rem, [])
fill_queue rem ((id, quantity) ∷ r) =
    let more = prepend (id, quantity) (fill_queue (rem - quantity) r) in
    if rem == 0
    then ([], 0, (id, quantity) ∷ r)
    else if leb quantity rem
    then more
    else ((id, rem) ∷ [], 0, (id, quantity - rem) ∷ r)

abbrev pub entry_sum : List Entry → ℕ
entry_sum [] = 0
entry_sum ((id, quantity) ∷ r) = quantity + entry_sum r

-- The trade that reports a fill.
abbrev pub trade_of : Side → ℕ → ℤ → Entry → Trade
trade_of side taker price (id, quantity) = record {
  price = price;
  quantity = quantity;
  maker_id = id;
  taker_id = taker;
  taker_side = side;
}

-- Matching makes and loses no share: what is filled and what is left over make up `rem`, and what
-- is filled and what still rests make up what rested.
pub fill_queue_conserves :
    (rem : ℕ) (es : List Entry)
    → let (fills, left, rest) = fill_queue rem es in
      (entry_sum fills + left ≡ rem) × (entry_sum fills + entry_sum rest ≡ entry_sum es)
unfolding fill_queue
fill_queue_conserves rem [] = (omega arith, omega arith)
fill_queue_conserves rem ((id, quantity) ∷ r) =
    let (e, f) = fill_queue_conserves (rem - quantity) r in (ground arith, ground arith)

-- It stops for one of two reasons: nothing is left over, or nothing rests.
pub fill_queue_stops :
    (rem : ℕ) (es : List Entry)
    → let (fills, left, rest) = fill_queue rem es in (left ≡ 0) ⊎ (rest ≡ [])
unfolding fill_queue
fill_queue_stops rem [] = inr refl
fill_queue_stops rem ((id, quantity) ∷ r) = ground (arith, fill_queue_stops (rem - quantity) r)

pub entries_same :
    (h g : Heap) (xs : List ℕ)
    → ((a : ℕ) → a ∈ xs → ((g a).id ≡ (h a).id) × ((g a).quantity ≡ (h a).quantity))
    → entries g xs ≡ entries h xs
entries_same h g [] same = refl
entries_same h g (x ∷ xs) same =
    ap₂ ◌∷◌ (ap₂ (λ i n. (i, n)) ((same x (ground arith)).0) ((same x (ground arith)).1))
      (entries_same h g xs (λ a i. same a (ground arith)))
