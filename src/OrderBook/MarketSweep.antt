-- ===== src/OrderBook/MarketSweep.antt =====
-- `executeMarketOrder` of src/orderbook.cpp, whole: totality and what it leaves.
use ultra_low_latency_orderb.OrderBook.SweepFacts.{
  level_total, best_stays, IsSpent, filled_facts, occupied_cases,
}
use native.Mathlib.Decide.{dec_le}
use ultra_low_latency_orderb.Prelude.{
  ℕ, zero, suc, ◌+◌, ◌-◌, ◌%◌, ◌^◌, ◌<◌, ◌≤◌, ◌≡◌, ◌∙◌, ◌⊎◌, inl, inr, refl, ap, subst, Option,
  none, some, List, [], ◌==◌, if◌then◌else◌, length, arith, lt→ltb, ==_false, min, Option-cases,
}
use ultra_low_latency_orderb.Types.{Side}
use ultra_low_latency_orderb.OrderBook.{OrderBook, ladder, opposite}
use ultra_low_latency_orderb.OrderBook.Matching.{fill_level, sweep}
use ultra_low_latency_orderb.OrderBook.Shape.{IsBest, IsBook, Queues}
use ultra_low_latency_orderb.OrderBook.Assemble.{SameSpan}
use ultra_low_latency_orderb.OrderBook.MatchBook.{length-queue}
use ultra_low_latency_orderb.OrderBook.MatchTotal.{best_level, nothing_shown, occupied-length}
use ultra_low_latency_orderb.OrderBook.Fills.{
  Entry, entries, entry_sum, fill_queue, fill_queue_conserves,
}
use ultra_low_latency_orderb.OrderBook.MarketLevel.{fill_level-done, fill_level-LevelSwept}
use ultra_low_latency_orderb.OrderBook.HeadMaker.{AfterLevel}
use ultra_low_latency_orderb.OrderBook.Resting.{resting, resting-AfterLevel}

-- What the loop leaves: a right book whose other side is as it was, a quantity left over for a
-- reason, and on this side as many shares fewer as the quantity has become less.
pub record SweepRun (b : OrderBook) (q : Queues) (live : List ℕ) (s : Side) (remaining : ℕ)
    (result : Option (ℕ × OrderBook)) : Type 0 where
  pub left : ℕ
  pub after : OrderBook
  pub queues : Queues
  pub free : List ℕ
  pub still_live : List ℕ
  pub runs : result ≡ some (left, after)
  pub book : IsBook after queues free still_live
  pub less : left ≤ remaining
  pub others : (t : Side) (i : ℕ) → (t ≡ s → ⊥) → queues t i ≡ q t i
  pub span : SameSpan b after
  pub conserves :
      resting after.heap (queues s) b.num_levels + remaining
      ≡ resting b.heap (q s) b.num_levels + left
  pub spent : IsSpent after s left

module _ (s : Side) (inner : ℕ) where
  stay :
      (remaining : ℕ) (b : OrderBook) (q : Queues) (fs live : List ℕ)
      (result : Option (ℕ × OrderBook))
      → IsBook b q fs live
      → result ≡ some (remaining, b)
      → IsSpent b s remaining
      → SweepRun b q live s remaining result
  stay remaining b q fs live result v e why = record {
    left = remaining;
    after = b;
    queues = q;
    free = fs;
    still_live = live;
    runs = e;
    book = v;
    less = omega arith;
    others = λ t i o. refl;
    span = record { low = refl; high = refl; levels = refl };
    conserves = refl;
    spent = why;
  }

  sweep-zero : (fuel : ℕ) (b : OrderBook) → 0 < fuel → sweep fuel inner b s 0 ≡ some (0, b)
  unfolding sweep
  sweep-zero zero b h = absurd (omega arith)
  sweep-zero (suc fuel) b h = refl

  sweep-none :
      (fuel remaining : ℕ) (b : OrderBook)
      → (ladder s b).best_idx ≡ none
      → 0 < remaining
      → sweep (suc fuel) inner b s remaining ≡ some (remaining, b)
  unfolding sweep
  sweep-none fuel remaining b e more = rw (lt→ltb 0 remaining more) (rw (e, sweep) refl)

  -- A round at the best level, after its inner loop.
  sweep-level :
      (fuel remaining i filled : ℕ) (b c : OrderBook)
      → 0 < remaining
      → (ladder s b).best_idx ≡ some i
      → fill_level inner b s i (min remaining ((ladder s b).levels i).total_quantity) 0
        ≡ some (filled, c)
      → sweep (suc fuel) inner b s remaining
        ≡ (if filled == 0 then some (remaining, c) else sweep fuel inner c s (remaining - filled))
  unfolding sweep
  sweep-level fuel remaining i filled b c more e run =
      rw (lt→ltb 0 remaining more) (rw (e, sweep) (rw (run, sweep) refl))

  -- At a best level that says it has no shares the loop stops.
  sweep-stuck :
      (fuel remaining i : ℕ) (b : OrderBook)
      → 0 < fuel
      → 0 < inner
      → (ladder s b).best_idx ≡ some i
      → ((ladder s b).levels i).total_quantity ≡ 0
      → sweep fuel inner b s remaining ≡ some (remaining, b)
  sweep-stuck zero remaining i b h k e z = absurd (omega arith)
  sweep-stuck (suc fuel) zero i b h k e z = sweep-zero (suc fuel) b h
  sweep-stuck (suc fuel) (suc n) i b h k e z =
      let nothing : min (suc n) ((ladder s b).levels i).total_quantity ≡ 0 = omega (arith, z) in
      sweep-level fuel (suc n) i 0 b b (omega arith) e (
        ap (λ fill. fill_level inner b s i fill 0) nothing
        ∙ fill_level-done s i 0 inner 0 b k (omega arith))

  -- A run after a round.
  onward :
      (remaining filled i : ℕ) (es : List Entry) (b c : OrderBook) (q : Queues) (live : List ℕ)
      (result : Option (ℕ × OrderBook))
      → (x : AfterLevel b q live s i es c) → i < b.num_levels
      → filled ≤ remaining
      → entry_sum es + filled ≡ entry_sum (entries b.heap (q s i))
      → SweepRun c x.queues x.left s (remaining - filled) result
      → SweepRun b q live s remaining result
  onward remaining filled i es b c q live result x lt le taken y = record {
    left = y.left;
    after = y.after;
    queues = y.queues;
    free = y.free;
    still_live = y.still_live;
    runs = y.runs;
    book = y.book;
    less = omega (arith, y.less);
    others = λ t j o. y.others t j o ∙ x.others t j (λ p. o p.0);
    span = record {
      low = y.span.low ∙ x.span.low;
      high = y.span.high ∙ x.span.high;
      levels = y.span.levels ∙ x.span.levels;
    };
    conserves = omega (
      arith,
      resting-AfterLevel b c q live s i b.num_levels es x lt,
      taken,
      le,
      subst
          (λ n.
            resting y.after.heap (y.queues s) n + (remaining - filled)
            ≡ resting c.heap (x.queues s) n + y.left)
          x.span.levels y.conserves,
    );
    spent = y.spent;
  }

  -- What follows a round, by why it filled no more.
  after_round :
      (fuel remaining filled i : ℕ) (es : List Entry) (b c : OrderBook) (q : Queues)
      (fs live : List ℕ)
      → IsBook b q fs live
      → (ladder s b).best_idx ≡ some i
      → (x : AfterLevel b q live s i es c) → 0 < fuel
      → 0 < inner
      → (remaining - filled ≡ 0) ⊎ ((es ≡ []) ⊎ (entry_sum es % 2 ^ 64 ≡ 0))
      → (length x.left < length live
          → SweepRun c x.queues x.left s
              (remaining - filled)
              (sweep fuel inner c s (remaining - filled)))
      → SweepRun c x.queues x.left s
          (remaining - filled)
          (sweep fuel inner c s (remaining - filled))
  after_round fuel remaining filled i es b c q fs live v e x h k why ih = elim why [
    | inl all ↦
        stay (remaining - filled) c x.queues x.free x.left _ x.book (rw all (sweep-zero fuel c h))
          (inl all)
    | inr (inl emptied) ↦ ih (shrunk (nothing_shown c (x.queues s i) (x.shows ∙ emptied)))
    | inr (inr no_shares) ↦ elim (occupied_cases (x.queues s i)) [
      | inl gone ↦ ih (shrunk gone)
      | inr held ↦
          let best =
            best_stays s (ladder s c).best_idx (q s) (x.queues s) i
              (subst (λ o. IsBest s o (q s)) e (v.ladders s).best) (x.book.ladders s).best held
              (λ j ne. x.others s j (λ p. ne p.1)) in
          let total : ((ladder s c).levels i).total_quantity ≡ 0 =
            level_total c x.queues x.free x.left s i x.book
            ∙ ap (λ es. entry_sum es % 2 ^ 64) x.shows
            ∙ no_shares in
          stay (remaining - filled) c x.queues x.free x.left _ x.book
            (sweep-stuck fuel (remaining - filled) i c h k best total) (inr (inr (i, best, total)))
    ]
  ]
    where
      shrunk : x.queues s i ≡ [] → length x.left < length live
      shrunk gone = omega (
        arith,
        x.shrink,
        ap length gone,
        occupied-length (q s i) (best_level b q fs live s i v e).0,
      )

  run_round :
      (fuel remaining i : ℕ) (b : OrderBook) (q : Queues) (fs live : List ℕ)
      → IsBook b q fs live
      → (ladder s b).best_idx ≡ some i
      → 0 < remaining
      → 0 < ((ladder s b).levels i).total_quantity
      → 0 < fuel
      → length live < inner
      → ((remaining' : ℕ) (c : OrderBook) (q' : Queues) (fs' live' : List ℕ)
          → IsBook c q' fs' live'
          → length live' < length live
          → SweepRun c q' live' s remaining' (sweep fuel inner c s remaining'))
      → SweepRun b q live s remaining (sweep (suc fuel) inner b s remaining)
  run_round fuel remaining i b q fs live v e more some_total h k ih =
      let total = ((ladder s b).levels i).total_quantity in
      let fill = min remaining total in
      let es = entries b.heap (q s i) in
      let sum = level_total b q fs live s i v in
      let all : fill - 0 ≡ fill = omega arith in
      let x =
        fill_level-LevelSwept s i fill (q s i) inner 0 b q fs live v refl
          (omega (arith, k, length-queue b q fs live s i v)) (omega arith) (omega (arith, sum))
          (best_level b q fs live s i v e).1 in
      let runs = x.runs ∙ ap (λ n. some (fill - (fill_queue n es).1, x.after)) all in
      let level = subst (λ n. AfterLevel b q live s i (fill_queue n es).2 x.after) all x.level in
      let filled = fill - (fill_queue fill es).1 in
      let (some_filled, le, why) = filled_facts total remaining es some_total more sum in
      rw
        (
          sweep-level fuel remaining i filled b x.after more e runs,
          ==_false filled 0 (λ z. omega (arith, some_filled, z)),
        )
        (onward remaining filled i (fill_queue fill es).2 b x.after q live _ level
          (best_level b q fs live s i v e).1 le (taken_of fill es)
          (after_round fuel remaining filled i (fill_queue fill es).2 b x.after q fs live v e level
            h (omega (arith, k)) why
            (λ lt.
              ih (remaining - filled) x.after level.queues level.free level.left level.book lt)))
    where
      taken_of :
          (fill : ℕ) (es : List Entry)
          → entry_sum (fill_queue fill es).2 + (fill - (fill_queue fill es).1) ≡ entry_sum es
      taken_of fill es = let (one, two) = fill_queue_conserves fill es in omega (arith, one, two)

  -- With two more rounds than live orders the loop of `executeMarketOrder` ends.
  pub sweep-SweepRun :
      (fuel remaining : ℕ) (b : OrderBook) (q : Queues) (fs live : List ℕ)
      → IsBook b q fs live
      → length live + 1 < fuel
      → length live < inner
      → SweepRun b q live s remaining (sweep fuel inner b s remaining)
  sweep-SweepRun zero remaining b q fs live v h k = absurd (omega arith)
  sweep-SweepRun (suc fuel) zero b q fs live v h k =
      stay 0 b q fs live _ v (sweep-zero (suc fuel) b (omega arith)) (inl refl)
  sweep-SweepRun (suc fuel) (suc n) b q fs live v h k = elim (Option-cases (ladder s b).best_idx) [
    | inl e ↦ stay (suc n) b q fs live _ v (sweep-none fuel (suc n) b e (omega arith)) (inr (inl e))
    | inr (i, e) ↦ elim (dec_le ((ladder s b).levels i).total_quantity 0) [
      | yes none_there ↦
          let z : ((ladder s b).levels i).total_quantity ≡ 0 = omega (arith, none_there) in
          stay (suc n) b q fs live _ v
            (sweep-stuck (suc fuel) (suc n) i b (omega arith) (omega arith) e z)
            (inr (inr (i, e, z)))
      | no some_there ↦
          run_round fuel (suc n) i b q fs live v e (omega arith) (positive some_there) (omega arith)
            k
            (λ r c q' fs' live' v' lt.
              sweep-SweepRun fuel r c q' fs' live' v' (omega arith) (omega arith))
    ]
  ]
    where
      positive : {m : ℕ} → ¬ (m ≤ 0) → 0 < m
      positive no_le = ground arith

-- What `executeMarketOrder` returns and leaves.
pub record IsExecuted (b : OrderBook) (q : Queues) (side : Side) (quantity : ℕ)
    (result : Option (ℕ × OrderBook)) : Type 0 where
  pub executed : ℕ
  pub after : OrderBook
  pub queues : Queues
  pub free : List ℕ
  pub still_live : List ℕ
  pub runs : result ≡ some (executed, after)
  pub book : IsBook after queues free still_live
  pub less : executed ≤ quantity
  pub own_side : (i : ℕ) → queues side i ≡ q side i
  pub span : SameSpan b after
  pub taken :
      resting after.heap (queues (opposite side)) b.num_levels + executed
      ≡ resting b.heap (q (opposite side)) b.num_levels
  pub spent : IsSpent after (opposite side) (quantity - executed)
