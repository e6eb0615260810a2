-- ===== src/OrderBook/MatchTotal.antt =====
-- `match` of src/orderbook.cpp, whole: totality and what it leaves.
use native.Mathlib.Decide.{ℕ_discrete, dec_lt}
use mathlib.Core.List.{append_assoc}
use ultra_low_latency_orderb.Prelude.{
  ℕ, zero, suc, ◌<◌, ◌≤◌, ◌≡◌, ◌∙◌, refl, sym, ap, subst, inl, inr, false, Option, some, List, [],
  ◌∷◌, ◌++◌, map, length, arith, Bool-cases, Option-cases,
}
use ultra_low_latency_orderb.Prelude.Int.{ℤ}
use ultra_low_latency_orderb.Types.{Side, Trade}
use ultra_low_latency_orderb.OrderBook.{OrderBook, ladder, opposite, index_to_price}
use ultra_low_latency_orderb.OrderBook.Matching.{
  match_level, match_levels, match_order, beyond, rounds, Matched,
}
use ultra_low_latency_orderb.OrderBook.Shape.{occupied, IsBook, IsBest, Queues}
use ultra_low_latency_orderb.OrderBook.Assemble.{opposite-ne}
use ultra_low_latency_orderb.OrderBook.MatchLevel.{LevelRun, match_level-LevelRun}
use ultra_low_latency_orderb.OrderBook.Fills.{
  entries, fill_queue, trade_of, fill_queue_conserves, fill_queue_stops,
}
use ultra_low_latency_orderb.OrderBook.MatchBook.{
  length-queue, trade_sum-append, AreWithin-append, trade_sum-trades, AreWithin-trades, MatchRun,
  run_stopped, match_levels-zero, match_levels-none, match_levels-beyond, match_levels-level,
}

index_to_price_same :
    (b c : OrderBook) (i : ℕ) → c.min_price ≡ b.min_price → index_to_price c i ≡ index_to_price b i
unfolding index_to_price
index_to_price_same b c i e = rw e refl

-- A level that shows no entry has no order.
pub nothing_shown : (b : OrderBook) (xs : List ℕ) → entries b.heap xs ≡ [] → xs ≡ []
nothing_shown b [] e = refl
nothing_shown b (x ∷ xs) e = cc

pub occupied-length : (xs : List ℕ) → occupied xs ≡ 1 → 0 < length xs
occupied-length [] e = omega arith
occupied-length (x ∷ xs) e = omega arith

-- The best level is within the ladder and holds an order.
pub best_level :
    (b : OrderBook) (q : Queues) (fs live : List ℕ) (s : Side) (i : ℕ)
    → IsBook b q fs live
    → (ladder s b).best_idx ≡ some i
    → (occupied (q s i) ≡ 1) × (i < b.num_levels)
best_level b q fs live s i v e =
    let x : IsBest s (some i) (q s) = subst (λ o. IsBest s o (q s)) e (v.ladders s).best in
    (
      x.0,
      elim (dec_lt i b.num_levels) [
        | yes p ↦ p
        | no p ↦ absurd (clash (q s i) x.0 ((v.ladders s).within i (omega arith)))
      ],
    )
  where
    clash : (xs : List ℕ) → occupied xs ≡ 1 → xs ≡ [] → ⊥
    clash xs e f = ground (arith, ap occupied f)

module _ (side : Side) (limit : ℤ) (taker inner : ℕ) where
  -- A run of the inner loop followed by what the rest of the outer loop does.
  run_more :
      (rem best : ℕ) (trades : List Trade) (b : OrderBook) (q : Queues) (fs live : List ℕ)
      (result level : Option Matched)
      → beyond side limit (index_to_price b best) ≡ false
      → (x : LevelRun b q live side taker
          (opposite side)
          best
          (index_to_price b best)
          rem
          trades
          (entries b.heap (q (opposite side) best))
          level)
      → occupied (q (opposite side) best) ≡ 1
      → MatchRun x.after x.level.queues x.level.left side limit taker
          (fill_queue rem (entries b.heap (q (opposite side) best))).1
          (trades
            ++ map
                (trade_of side taker (index_to_price b best))
                (fill_queue rem (entries b.heap (q (opposite side) best))).0)
          result
      → MatchRun b q live side limit taker rem trades result
  run_more rem best trades b q fs live result level inside x held y =
      let es = entries b.heap (q (opposite side) best) in
      let fills = (fill_queue rem es).0 in
      let mine = map (trade_of side taker (index_to_price b best)) fills in
      record {
        left = y.left;
        made = mine ++ y.made;
        after = y.after;
        queues = y.queues;
        free = y.free;
        still_live = y.still_live;
        runs = y.runs ∙ ap (λ t. some (y.left, t, y.after)) (append_assoc trades mine y.made);
        book = y.book;
        conserves = omega (
          arith,
          trade_sum-append mine y.made,
          trade_sum-trades side taker (index_to_price b best) fills,
          (fill_queue_conserves rem es).0,
          y.conserves,
        );
        within =
            AreWithin-append side limit taker mine y.made
              (AreWithin-trades side limit taker (index_to_price b best) fills inside) y.within;
        own_side = λ i. y.own_side i ∙ x.level.others side i (λ e. opposite-ne side (sym e.0));
        other_side = λ i e. y.other_side i (emptier i e (ℕ_discrete i best));
        unmapped = λ id e. y.unmapped id (x.level.unmapped id e);
        stopped = y.stopped;
        span = record {
          low = y.span.low ∙ x.level.span.low;
          high = y.span.high ∙ x.level.span.high;
          levels = y.span.levels ∙ x.level.span.levels;
        };
      }
    where
      emptier :
          (i : ℕ)
          → q (opposite side) i ≡ []
          → Dec (i ≡ best)
          → x.level.queues (opposite side) i ≡ []
      emptier i e (yes f) = absurd (clash (ap occupied e))
        where
          clash : occupied (q (opposite side) i) ≡ 0 → ⊥
          clash z = ground (arith, ap (λ k. occupied (q (opposite side) k)) f)
      emptier i e (no ne) = x.level.others (opposite side) i (λ p. ne p.1) ∙ e

  -- What the outer loop does after a level that its limit reaches.
  run_level :
      (fuel n best : ℕ) (trades : List Trade) (b : OrderBook) (q : Queues) (fs live : List ℕ)
      → IsBook b q fs live
      → length live < suc fuel
      → 0 < n
      → (ladder (opposite side) b).best_idx ≡ some best
      → beyond side limit (index_to_price b best) ≡ false
      → LevelRun b q live side taker
          (opposite side)
          best
          (index_to_price b best)
          n
          trades
          (entries b.heap (q (opposite side) best))
          (match_level inner side taker (opposite side) best (index_to_price b best) n trades b)
      → ((rem : ℕ) (trades : List Trade) (b : OrderBook) (q : Queues) (fs live' : List ℕ)
          → IsBook b q fs live'
          → length live' < fuel
          → length live' ≤ length live
          → MatchRun b q live' side limit taker rem trades
              (match_levels fuel inner side limit taker rem trades b))
      → MatchRun b q live side limit taker n trades
          (match_levels (suc fuel) inner side limit taker n trades b)
  run_level fuel n best trades b q fs live v h more e inside x ih =
      let s = opposite side in
      let es = entries b.heap (q s best) in
      let held = occupied-length (q s best) (best_level b q fs live s best v e).0 in
      let few = length-queue b q fs live s best v in
      let trades' =
        trades ++ map (trade_of side taker (index_to_price b best)) (fill_queue n es).0 in
      rw
        (match_levels-level side limit taker inner fuel n best trades b more e inside
          (fill_queue n es).1 trades' x.after x.runs)
        (run_more n best trades b q fs live
          (match_levels fuel inner side limit taker (fill_queue n es).1 trades' x.after) _ inside x
          (best_level b q fs live s best v e).0
          (elim (fill_queue_stops n es) [
            | inl zero_left ↦ rw zero_left (
                run_stopped side limit taker inner 0 trades' x.after x.level.queues x.level.free
                  x.level.left _ x.level.book (inl refl)
                  (match_levels-zero side limit taker inner fuel trades' x.after
                    (omega (arith, held, few))))
            | inr emptied ↦
                let gone =
                  nothing_shown x.after (x.level.queues s best) (x.level.shows ∙ emptied) in
                let fewer = x.level.shrink in
                ih (fill_queue n es).1 trades' x.after x.level.queues x.level.free x.level.left
                  x.level.book (omega (arith, fewer, ap length gone, held))
                  (omega (arith, fewer, ap length gone, held))
          ]))

  -- With more rounds than live orders the loops of `match` end, as `MatchRun` says.
  pub match_levels-MatchRun :
      (fuel rem : ℕ) (trades : List Trade) (b : OrderBook) (q : Queues) (fs live : List ℕ)
      → IsBook b q fs live
      → length live < fuel
      → length live < inner
      → MatchRun b q live side limit taker rem trades
          (match_levels fuel inner side limit taker rem trades b)
  match_levels-MatchRun zero rem trades b q fs live v h k = absurd (omega arith)
  match_levels-MatchRun (suc fuel) zero trades b q fs live v h k =
      run_stopped side limit taker inner 0 trades b q fs live _ v (inl refl)
        (match_levels-zero side limit taker inner (suc fuel) trades b (omega arith))
  match_levels-MatchRun (suc fuel) (suc n) trades b q fs live v h k =
      elim (Option-cases (ladder (opposite side) b).best_idx) [
        | inl e ↦
            run_stopped side limit taker inner (suc n) trades b q fs live _ v (inr (inl e))
              (match_levels-none side limit taker inner fuel (suc n) trades b (omega arith) e)
        | inr (best, e) ↦ elim (Bool-cases (beyond side limit (index_to_price b best))) [
          | inl out ↦
              run_stopped side limit taker inner (suc n) trades b q fs live _ v
                (inr (inr (best, e, out)))
                (match_levels-beyond side limit taker inner fuel (suc n) best trades b (omega arith)
                  e out)
          | inr inside ↦
              run_level fuel (suc n) best trades b q fs live v h (omega arith) e inside
                (match_level-LevelRun side taker (opposite side) best (index_to_price b best)
                  (q (opposite side) best) inner (suc n) trades b q fs live v refl
                  (omega (arith, length-queue b q fs live (opposite side) best v))
                  (best_level b q fs live (opposite side) best v e).1)
                (λ rem' trades' b' q' fs' live' v' lt le.
                  match_levels-MatchRun fuel rem' trades' b' q' fs' live' v' lt (omega arith))
        ]
      ]

-- On a book that is right, `match` always ends: it does not run out of the rounds that
-- `match_order` gives it, and what it leaves is a `MatchRun`.
pub match_order-MatchRun :
    (b : OrderBook) (q : Queues) (fs live : List ℕ) (side : Side) (limit : ℤ) (quantity taker : ℕ)
    (trades : List Trade)
    → IsBook b q fs live
    → MatchRun b q live side limit taker quantity trades
        (match_order b side limit quantity taker trades)
unfolding match_order
match_order-MatchRun b q fs live side limit quantity taker trades v =
    match_levels-MatchRun side limit taker (rounds b) (rounds b) quantity trades b q fs live v
      (omega (arith, v.pool.whole)) (omega (arith, v.pool.whole))
