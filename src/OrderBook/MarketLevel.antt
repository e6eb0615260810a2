-- ===== src/OrderBook/MarketLevel.antt =====
-- The inner loop of `executeMarketOrder` in src/orderbook.cpp against `fill_queue`.
use native.Mathlib.Decide.{ℕ_discrete, dec_le}
use ultra_low_latency_orderb.Prelude.{
  ℕ, zero, suc, ◌+◌, ◌-◌, ◌^◌, ◌<◌, ◌≤◌, ◌≡◌, ◌≢◌, ◌∙◌, refl, sym, ap, ap₂, subst, Bool, true,
  false, Option, none, some, List, [], ◌∷◌, if◌then◌else◌, length, write, arith, ltb, lt→ltb,
  ltb-false, ==_true, ==_false, min, head?, sub64,
}
use ultra_low_latency_orderb.Prelude.Int.{pos, signed64, ◌-ℤ◌}
use ultra_low_latency_orderb.Types.{Side}
use ultra_low_latency_orderb.PriceLevel.{
  Heap, PriceLevel, adjust_total_quantity, reduce_at, reduce_head_quantity,
}
use ultra_low_latency_orderb.OrderBook.{OrderBook, ladder, cancel_order}
use ultra_low_latency_orderb.OrderBook.Matching.{
  reduce_head, take_from_head, fill_level, reduce_maker,
}
use ultra_low_latency_orderb.OrderBook.Shape.{IsBook, Queues}
use ultra_low_latency_orderb.OrderBook.HeadMaker.{
  AfterLevel, after_none, after_trans, head_of, cancel_head, reduce_head_maker,
}
use ultra_low_latency_orderb.OrderBook.Fills.{Entry, entries, fill_queue}
use ultra_low_latency_orderb.OrderBook.MatchLevel.{
  fill_queue-zero, fill_queue-whole, fill_queue-part,
}

-- Taking shares off a level's total as an unsigned and as a signed number comes to the same.
total_less :
    (l : PriceLevel) (n : ℕ)
    → n < 2 ^ 64
    → record l { total_quantity = sub64 l.total_quantity n }
      ≡ adjust_total_quantity l (pos 0 -ℤ signed64 n)
unfolding adjust_total_quantity ◌-ℤ◌
total_less l n lt = ap (λ t. record l { total_quantity = t }) (ground arith)

reduce_head_quantity-part :
    (h : Heap) (l : PriceLevel) (a n : ℕ)
    → l.head ≡ some a
    → n < (h a).quantity
    → reduce_head_quantity h l n ≡ (
      write h a (record (h a) { quantity = (h a).quantity - n }),
      record l { total_quantity = sub64 l.total_quantity n },
    )
unfolding reduce_head_quantity reduce_at
reduce_head_quantity-part h l a n e lt =
    rw (e, reduce_head_quantity)
      (rw (ltb-false (h a).quantity n (omega arith), reduce_at)
        (rw (==_true a a refl) (
          rw (==_false ((h a).quantity - n) 0 (λ z. omega (arith, z))) (
            ap
              (λ o. (
                write h a (record (h a) { quantity = (h a).quantity - n }),
                record l { total_quantity = sub64 l.total_quantity n; head = o },
              ))
              e))))

-- A head order that is not filled whole is reduced in the same way as by `match`.
reduce_head-reduce_maker :
    (b : OrderBook) (s : Side) (idx a n : ℕ)
    → ((ladder s b).levels idx).head ≡ some a
    → n < (b.heap a).quantity
    → n < 2 ^ 64
    → reduce_head b s idx n ≡ reduce_maker b s idx a n
unfolding reduce_head reduce_maker
reduce_head-reduce_maker b s idx a n e lt word =
    rw
      (
        reduce_head_quantity-part b.heap ((ladder s b).levels idx) a n e lt,
        total_less ((ladder s b).levels idx) n word,
      )
      refl

-- The loop ends, having filled what `fill_queue` fills of what was asked for, and leaves the level
-- as it says.
pub record LevelSwept (b : OrderBook) (q : Queues) (live : List ℕ) (s : Side) (idx fill filled : ℕ)
    (es : List Entry) (result : Option (ℕ × OrderBook)) : Type 0 where
  pub after : OrderBook
  pub runs : result ≡ some (fill - (fill_queue (fill - filled) es).1, after)
  pub level : AfterLevel b q live s idx (fill_queue (fill - filled) es).2 after

module _ (s : Side) (idx fill : ℕ) where
  pub fill_level-done :
      (fuel filled : ℕ) (b : OrderBook)
      → 0 < fuel
      → fill ≤ filled
      → fill_level fuel b s idx fill filled ≡ some (filled, b)
  unfolding fill_level
  fill_level-done zero filled b h le = absurd (omega arith)
  fill_level-done (suc fuel) filled b h le = rw (ltb-false filled fill le) refl

  fill_level-empty :
      (fuel filled : ℕ) (b : OrderBook)
      → 0 < fuel
      → ((ladder s b).levels idx).head ≡ none
      → fill_level fuel b s idx fill filled ≡ some (filled, b)
  unfolding fill_level
  fill_level-empty zero filled b h e = absurd (omega arith)
  fill_level-empty (suc fuel) filled b h e =
      rw (e, fill_level) (either (ltb filled fill) (some (filled, b)))
    where
      either : (t : Bool) (x : Option (ℕ × OrderBook)) → (if t then x else x) ≡ x
      either true x = refl
      either false x = refl

  fill_level-head :
      (fuel filled a : ℕ) (b : OrderBook)
      → filled < fill
      → ((ladder s b).levels idx).head ≡ some a
      → let n = min (b.heap a).quantity (fill - filled) in
        fill_level (suc fuel) b s idx fill filled
        ≡ fill_level fuel (take_from_head b s idx a n) s idx fill (filled + n)
  unfolding fill_level
  fill_level-head fuel filled a b lt e = rw (lt→ltb filled fill lt) (rw (e, fill_level) refl)

  take_whole :
      (b : OrderBook) (a n : ℕ)
      → n ≡ (b.heap a).quantity
      → take_from_head b s idx a n ≡ (cancel_order b (b.heap a).id).1
  unfolding take_from_head
  take_whole b a n e = rw (==_true n (b.heap a).quantity e) refl

  take_part :
      (b : OrderBook) (a n : ℕ)
      → ((ladder s b).levels idx).head ≡ some a
      → n < (b.heap a).quantity
      → n < 2 ^ 64
      → take_from_head b s idx a n ≡ reduce_maker b s idx a n
  unfolding take_from_head
  take_part b a n e lt word =
      rw (==_false n (b.heap a).quantity (λ z. omega (arith, z)))
        (reduce_head-reduce_maker b s idx a n e lt word)

  -- A run that has filled what was asked for.
  swept_done :
      (fuel filled : ℕ) (b : OrderBook) (q : Queues) (fs live : List ℕ)
      → IsBook b q fs live
      → 0 < fuel
      → filled ≡ fill
      → LevelSwept b q live s idx fill filled
          (entries b.heap (q s idx))
          (fill_level fuel b s idx fill filled)
  swept_done fuel filled b q fs live v h e =
      let none_left : fill - filled ≡ 0 = omega arith in
      let all : fill - 0 ≡ filled = omega arith in
      record {
        after = b;
        runs =
            fill_level-done fuel filled b h (omega arith)
            ∙ rw (none_left, fill_queue-zero (entries b.heap (q s idx)), all) refl;
        level =
            rw (none_left, fill_queue-zero (entries b.heap (q s idx)))
              (after_none b q fs live s idx v);
      }

  swept_empty :
      (fuel filled : ℕ) (b : OrderBook) (q : Queues) (fs live : List ℕ)
      → IsBook b q fs live
      → q s idx ≡ []
      → 0 < fuel
      → filled ≤ fill
      → LevelSwept b q live s idx fill filled
          (entries b.heap [])
          (fill_level fuel b s idx fill filled)
  unfolding fill_queue
  swept_empty fuel filled b q fs live v e h le =
      let all : fill - (fill - filled) ≡ filled = omega arith in
      let no_head = ((v.ladders s).queues idx).head ∙ ap head? e in
      record {
        after = b;
        runs = fill_level-empty fuel filled b h no_head ∙ ap (λ n. some (n, b)) (sym all);
        level =
            subst (λ xs. AfterLevel b q live s idx (entries b.heap xs) b) e
              (after_none b q fs live s idx v);
      }

  swept_whole :
      (a : ℕ) (r : List ℕ) (fuel filled : ℕ) (b : OrderBook) (q : Queues) (fs live : List ℕ)
      → IsBook b q fs live
      → q s idx ≡ a ∷ r
      → filled < fill
      → (b.heap a).quantity ≤ fill - filled
      → ((b' : OrderBook) (q' : Queues) (fs' live' : List ℕ)
          → IsBook b' q' fs' live'
          → q' s idx ≡ r
          → b'.num_levels ≡ b.num_levels
          → LevelSwept b' q' live' s idx fill
              (filled + (b.heap a).quantity)
              (entries b'.heap r)
              (fill_level fuel b' s idx fill (filled + (b.heap a).quantity)))
      → LevelSwept b q live s idx fill filled
          (entries b.heap (a ∷ r))
          (fill_level (suc fuel) b s idx fill filled)
  swept_whole a r fuel filled b q fs live v e lt le ih =
      let b1 = (cancel_order b (b.heap a).id).1 in
      let quantity = (b.heap a).quantity in
      let (x, now) = cancel_head b q fs live s idx a r v e in
      let run = ih b1 x.queues x.free x.left x.book now x.span.levels in
      let all : min quantity (fill - filled) ≡ quantity = omega arith in
      let more : fill - (filled + quantity) ≡ fill - filled - quantity = omega arith in
      let same : entries b1.heap r ≡ entries b.heap r = sym (ap (entries b1.heap) now) ∙ x.shows in
      let spec =
        fill_queue-whole (fill - filled) (b.heap a).id quantity (entries b.heap r) (omega arith)
          le in
      let left = ap₂ (λ n es. fill_queue n es) more same in
      rw
        (
          fill_level-head fuel filled a b lt (head_of b q fs live s idx a r v e),
          all,
          take_whole b a quantity refl,
        )
        (record {
          after = run.after;
          runs = run.runs ∙ rw spec (ap (λ f. some (fill - f.1, run.after)) left);
          level = rw spec (
              after_trans b b1 run.after q live s idx (entries b.heap r) _ x
                (subst (λ f. AfterLevel b1 x.queues x.left s idx f.2 run.after) left run.level));
        })

  swept_part :
      (a : ℕ) (r : List ℕ) (fuel filled : ℕ) (b : OrderBook) (q : Queues) (fs live : List ℕ)
      → IsBook b q fs live
      → q s idx ≡ a ∷ r
      → filled < fill
      → fill - filled < (b.heap a).quantity
      → fill < 2 ^ 64
      → 0 < fuel
      → idx < b.num_levels
      → LevelSwept b q live s idx fill filled
          (entries b.heap (a ∷ r))
          (fill_level (suc fuel) b s idx fill filled)
  swept_part a r fuel filled b q fs live v e lt more word enough inside =
      let n = fill - filled in
      let all : min (b.heap a).quantity n ≡ n = omega arith in
      let head = head_of b q fs live s idx a r v e in
      let spec =
        fill_queue-part n (b.heap a).id (b.heap a).quantity (entries b.heap r) (omega arith) more in
      let whole : filled + n ≡ fill - 0 = omega arith in
      rw
        (
          fill_level-head fuel filled a b lt head,
          all,
          take_part b a n head more (omega (arith, word)),
        )
        (record {
          after = reduce_maker b s idx a n;
          runs =
              fill_level-done fuel (filled + n) (reduce_maker b s idx a n) enough (omega arith)
              ∙ rw (spec, whole) refl;
          level = rw spec (reduce_head_maker b q fs live s idx a r n v e (omega arith) inside);
        })

  -- With more rounds than orders in the level, and no more asked for than 64 bits hold, the inner
  -- loop of `executeMarketOrder` ends and does what `fill_queue` says.
  pub fill_level-LevelSwept :
      (xs : List ℕ) (fuel filled : ℕ) (b : OrderBook) (q : Queues) (fs live : List ℕ)
      → IsBook b q fs live
      → q s idx ≡ xs
      → length xs < fuel
      → filled ≤ fill
      → fill < 2 ^ 64
      → idx < b.num_levels
      → LevelSwept b q live s idx fill filled
          (entries b.heap xs)
          (fill_level fuel b s idx fill filled)
  fill_level-LevelSwept [] fuel filled b q fs live v e h le word inside =
      swept_empty fuel filled b q fs live v e (omega arith) le
  fill_level-LevelSwept (a ∷ r) zero filled b q fs live v e h le word inside = absurd (omega arith)
  fill_level-LevelSwept (a ∷ r) (suc fuel) filled b q fs live v e h le word inside =
      elim (ℕ_discrete filled fill) [
        | yes done ↦
            subst
              (λ k.
                LevelSwept b q live s idx fill filled (entries b.heap k)
                  (fill_level (suc fuel) b s idx fill filled))
              e (swept_done (suc fuel) filled b q fs live v (omega arith) done)
        | no ne ↦ elim (dec_le (b.heap a).quantity (fill - filled)) [
          | yes fits ↦
              swept_whole a r fuel filled b q fs live v e (below filled ne le) fits
                (λ b' q' fs' live' v' e' same.
                  fill_level-LevelSwept r fuel (filled + (b.heap a).quantity) b' q' fs' live' v' e'
                    (omega arith) (omega (arith, fits, le)) word (rw same inside))
          | no large ↦
              swept_part a r fuel filled b q fs live v e (below filled ne le) (over large) word
                (omega arith) inside
        ]
      ]
    where
      below : (filled : ℕ) → filled ≢ fill → filled ≤ fill → filled < fill
      below filled ne le = ground arith

      over : {m n : ℕ} → ¬ (m ≤ n) → n < m
      over no_le = ground arith
