-- ===== src/OrderBook/MatchLevel.antt =====
-- The inner loop of `match` in src/orderbook.cpp against `fill_queue`.
use native.Mathlib.Decide.{dec_le}
use mathlib.Core.List.{append_assoc, append-nil}
use ultra_low_latency_orderb.Prelude.{
  ℕ, zero, suc, ◌-◌, ◌<◌, ◌≤◌, ◌≡◌, ◌≢◌, ◌∙◌, refl, sym, ap, subst, Option, none, some, List, [],
  ◌∷◌, ◌++◌, map, length, arith, ==_true, ==_false, lt→ltb, min, head?,
}
use ultra_low_latency_orderb.Prelude.Int.{ℤ}
use ultra_low_latency_orderb.Types.{Side, Trade}
use ultra_low_latency_orderb.OrderBook.{OrderBook, ladder, cancel_order}
use ultra_low_latency_orderb.OrderBook.Matching.{fill_maker, reduce_maker, match_level}
use ultra_low_latency_orderb.OrderBook.Shape.{IsBook, Queues}
use ultra_low_latency_orderb.OrderBook.Fills.{Entry, entries, fill_queue, trade_of}
use ultra_low_latency_orderb.OrderBook.HeadMaker.{
  AfterLevel, after_none, after_trans, head_of, cancel_head, reduce_head_maker,
}

-- A maker that is filled whole is cancelled, and any other reduced.
fill_maker-whole :
    (b : OrderBook) (s : Side) (idx a fill : ℕ)
    → fill ≡ (b.heap a).quantity
    → fill_maker b s idx a fill ≡ (cancel_order b (b.heap a).id).1
unfolding fill_maker
fill_maker-whole b s idx a fill e = rw (==_true fill (b.heap a).quantity e) refl

fill_maker-part :
    (b : OrderBook) (s : Side) (idx a fill : ℕ)
    → fill ≢ (b.heap a).quantity
    → fill_maker b s idx a fill ≡ reduce_maker b s idx a fill
unfolding fill_maker
fill_maker-part b s idx a fill ne = rw (==_false fill (b.heap a).quantity ne) refl

-- One run of the inner loop: how it ends, with the fills that it adds to the trades.
pub record LevelRun (b : OrderBook) (q : Queues) (live : List ℕ) (side : Side) (taker : ℕ)
    (s : Side) (idx : ℕ) (price : ℤ) (rem : ℕ) (trades : List Trade) (es : List Entry)
    (result : Option (ℕ × List Trade × OrderBook)) : Type 0 where
  pub after : OrderBook
  pub runs :
      result
      ≡ some (
        (fill_queue rem es).1,
        trades ++ map (trade_of side taker price) (fill_queue rem es).0,
        after,
      )
  pub level : AfterLevel b q live s idx (fill_queue rem es).2 after

pub fill_queue-zero : (es : List Entry) → fill_queue 0 es ≡ ([], 0, es)
unfolding fill_queue
fill_queue-zero [] = refl
fill_queue-zero ((id, quantity) ∷ r) = refl

pub fill_queue-whole :
    (rem id quantity : ℕ) (r : List Entry)
    → 0 < rem
    → quantity ≤ rem
    → let (fills, left, rest) = fill_queue (rem - quantity) r in
      fill_queue rem ((id, quantity) ∷ r) ≡ ((id, quantity) ∷ fills, left, rest)
unfolding fill_queue
fill_queue-whole rem id quantity r p le = ground arith

pub fill_queue-part :
    (rem id quantity : ℕ) (r : List Entry)
    → 0 < rem
    → rem < quantity
    → fill_queue rem ((id, quantity) ∷ r) ≡ ((id, rem) ∷ [], 0, (id, quantity - rem) ∷ r)
unfolding fill_queue
fill_queue-part rem id quantity r p lt = ground arith

match_level-done :
    (fuel : ℕ) (side : Side) (taker : ℕ) (s : Side) (idx : ℕ) (price : ℤ) (trades : List Trade)
    (b : OrderBook)
    → 0 < fuel
    → match_level fuel side taker s idx price 0 trades b ≡ some (0, trades, b)
unfolding match_level
match_level-done zero side taker s idx price trades b h = absurd (omega arith)
match_level-done (suc fuel) side taker s idx price trades b h = refl

match_level-empty :
    (fuel : ℕ) (side : Side) (taker : ℕ) (s : Side) (idx : ℕ) (price : ℤ) (rem : ℕ)
    (trades : List Trade) (b : OrderBook)
    → 0 < fuel
    → 0 < rem
    → ((ladder s b).levels idx).head ≡ none
    → match_level fuel side taker s idx price rem trades b ≡ some (rem, trades, b)
unfolding match_level
match_level-empty zero side taker s idx price rem trades b h p e = absurd (omega arith)
match_level-empty (suc fuel) side taker s idx price rem trades b h p e =
    rw (lt→ltb 0 rem p) (rw (e, match_level) refl)

match_level-head :
    (fuel : ℕ) (side : Side) (taker : ℕ) (s : Side) (idx : ℕ) (price : ℤ) (rem : ℕ)
    (trades : List Trade) (b : OrderBook) (a : ℕ)
    → 0 < rem
    → ((ladder s b).levels idx).head ≡ some a
    → let fill = min rem (b.heap a).quantity in
      match_level (suc fuel) side taker s idx price rem trades b
      ≡ match_level fuel side taker s idx price
          (rem - fill)
          (trades ++ (trade_of side taker price ((b.heap a).id, fill) ∷ []))
          (fill_maker b s idx a fill)
unfolding match_level
match_level-head fuel side taker s idx price rem trades b a p e =
    rw (lt→ltb 0 rem p) (rw (e, match_level) refl)

module _ (side : Side) (taker : ℕ) (s : Side) (idx : ℕ) (price : ℤ) where
  -- A run that starts with nothing left to fill.
  run_done :
      (fuel : ℕ) (trades : List Trade) (b : OrderBook) (q : Queues) (fs live : List ℕ)
      → IsBook b q fs live
      → 0 < fuel
      → LevelRun b q live side taker s idx price 0 trades
          (entries b.heap (q s idx))
          (match_level fuel side taker s idx price 0 trades b)
  run_done fuel trades b q fs live v h = record {
    after = b;
    runs =
        match_level-done fuel side taker s idx price trades b h
        ∙ rw (fill_queue-zero (entries b.heap (q s idx)))
            (ap (λ t. some (0, t, b)) (sym (append-nil trades)));
    level = rw (fill_queue-zero (entries b.heap (q s idx))) (after_none b q fs live s idx v);
  }

  run_empty :
      (fuel rem : ℕ) (trades : List Trade) (b : OrderBook) (q : Queues) (fs live : List ℕ)
      → IsBook b q fs live
      → q s idx ≡ []
      → 0 < fuel
      → 0 < rem
      → LevelRun b q live side taker s idx price rem trades []
          (match_level fuel side taker s idx price rem trades b)
  unfolding fill_queue
  run_empty fuel rem trades b q fs live v e h p = record {
    after = b;
    runs =
        match_level-empty fuel side taker s idx price rem trades b h p
          (((v.ladders s).queues idx).head ∙ ap head? e)
        ∙ ap (λ t. some (rem, t, b)) (sym (append-nil trades));
    level =
        subst (λ es. AfterLevel b q live s idx es b) (ap (entries b.heap) e)
          (after_none b q fs live s idx v);
  }

  whole :
      (a : ℕ) (r : List ℕ) (fuel n : ℕ) (trades : List Trade) (b : OrderBook) (q : Queues)
      (fs live : List ℕ)
      → IsBook b q fs live
      → q s idx ≡ a ∷ r
      → (b.heap a).quantity ≤ n
      → ((b1 : OrderBook) (q1 : Queues) (fs1 live1 : List ℕ)
          → IsBook b1 q1 fs1 live1
          → q1 s idx ≡ r
          → idx < b1.num_levels
          → LevelRun b1 q1 live1 side taker s idx price
              (n - (b.heap a).quantity)
              (trades ++ (trade_of side taker price ((b.heap a).id, (b.heap a).quantity) ∷ []))
              (entries b1.heap r)
              (match_level fuel side taker s idx price
                (n - (b.heap a).quantity)
                (trades ++ (trade_of side taker price ((b.heap a).id, (b.heap a).quantity) ∷ []))
                b1))
      → idx < b.num_levels
      → 0 < n
      → match_level (suc fuel) side taker s idx price n trades b
        ≡ match_level fuel side taker s idx price
            (n - min n (b.heap a).quantity)
            (trades ++ (trade_of side taker price ((b.heap a).id, min n (b.heap a).quantity) ∷ []))
            (fill_maker b s idx a (min n (b.heap a).quantity))
      → LevelRun b q live side taker s idx price n trades
          (entries b.heap (a ∷ r))
          (match_level (suc fuel) side taker s idx price n trades b)
  whole a r fuel n trades b q fs live v e le ih lt pos step =
      let b1 = (cancel_order b (b.heap a).id).1 in
      let (x, now) = cancel_head b q fs live s idx a r v e in
      let run = ih b1 x.queues x.free x.left x.book now (rw (x.span.levels) lt) in
      let all : min n (b.heap a).quantity ≡ (b.heap a).quantity = omega arith in
      let same : entries b1.heap r ≡ entries b.heap r = sym (ap (entries b1.heap) now) ∙ x.shows in
      let spec = fill_queue-whole n (b.heap a).id (b.heap a).quantity (entries b.heap r) pos le in
      let t = trade_of side taker price ((b.heap a).id, (b.heap a).quantity) in
      rw (step, all, fill_maker-whole b s idx a (b.heap a).quantity refl)
        (record {
          after = run.after;
          runs =
              run.runs
              ∙ rw (spec, same)
                  (ap
                    (λ k.
                      some
                        ((fill_queue (n - (b.heap a).quantity) (entries b.heap r)).1, k, run.after))
                    (append_assoc trades (t ∷ []) (
                      map (trade_of side taker price)
                        (fill_queue (n - (b.heap a).quantity) (entries b.heap r)).0)));
          level = rw spec (
              after_trans b b1 run.after q live s idx (entries b.heap r) _ x (
                subst
                  (λ es.
                    AfterLevel b1 x.queues x.left s idx (fill_queue (n - (b.heap a).quantity) es).2
                      run.after)
                  same run.level));
        })

  part :
      (a : ℕ) (r : List ℕ) (fuel n : ℕ) (trades : List Trade) (b : OrderBook) (q : Queues)
      (fs live : List ℕ)
      → IsBook b q fs live
      → q s idx ≡ a ∷ r
      → n < (b.heap a).quantity
      → 0 < n
      → 0 < fuel
      → idx < b.num_levels
      → match_level (suc fuel) side taker s idx price n trades b
        ≡ match_level fuel side taker s idx price
            (n - min n (b.heap a).quantity)
            (trades ++ (trade_of side taker price ((b.heap a).id, min n (b.heap a).quantity) ∷ []))
            (fill_maker b s idx a (min n (b.heap a).quantity))
      → LevelRun b q live side taker s idx price n trades
          (entries b.heap (a ∷ r))
          (match_level (suc fuel) side taker s idx price n trades b)
  part a r fuel n trades b q fs live v e more pos enough lt step =
      let all : min n (b.heap a).quantity ≡ n = omega arith in
      let none_left : n - n ≡ 0 = omega arith in
      let b1 = reduce_maker b s idx a n in
      let t = trade_of side taker price ((b.heap a).id, n) in
      let spec = fill_queue-part n (b.heap a).id (b.heap a).quantity (entries b.heap r) pos more in
      rw (step, all, none_left, fill_maker-part b s idx a n (omega arith))
        (record {
          after = b1;
          runs =
              match_level-done fuel side taker s idx price (trades ++ (t ∷ [])) b1 enough
              ∙ rw spec refl;
          level = rw spec (reduce_head_maker b q fs live s idx a r n v e (omega arith) lt);
        })

  -- On a right book, at a level of the ladder and with more rounds than the level has orders, the
  -- inner loop of `match` ends and does what `fill_queue` says.
  pub match_level-LevelRun :
      (xs : List ℕ) (fuel rem : ℕ) (trades : List Trade) (b : OrderBook) (q : Queues)
      (fs live : List ℕ)
      → IsBook b q fs live
      → q s idx ≡ xs
      → length xs < fuel
      → idx < b.num_levels
      → LevelRun b q live side taker s idx price rem trades
          (entries b.heap xs)
          (match_level fuel side taker s idx price rem trades b)
  match_level-LevelRun xs fuel zero trades b q fs live v e h lt =
      subst
        (λ k.
          LevelRun b q live side taker s idx price 0 trades (entries b.heap k)
            (match_level fuel side taker s idx price 0 trades b))
        e (run_done fuel trades b q fs live v (omega arith))
  match_level-LevelRun [] fuel (suc rem) trades b q fs live v e h lt =
      run_empty fuel (suc rem) trades b q fs live v e (omega arith) (omega arith)
  match_level-LevelRun (a ∷ r) zero (suc rem) trades b q fs live v e h lt = absurd (omega arith)
  match_level-LevelRun (a ∷ r) (suc fuel) (suc rem) trades b q fs live v e h lt =
      let n = suc rem in
      let o = b.heap a in
      let step =
        match_level-head fuel side taker s idx price n trades b a (omega arith)
          (head_of b q fs live s idx a r v e) in
      elim (dec_le o.quantity n) [
        | yes le ↦
            whole a r fuel n trades b q fs live v e le
              (λ b1 q1 fs1 live1 v1 e1 lt1.
                match_level-LevelRun r fuel (n - o.quantity)
                  (trades ++ (trade_of side taker price (o.id, o.quantity) ∷ [])) b1 q1 fs1 live1 v1
                  e1 (omega arith) lt1)
              lt (omega arith) step
        | no more ↦
            part a r fuel n trades b q fs live v e (omega arith) (omega arith) (omega arith) lt step
      ]
