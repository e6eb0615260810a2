-- ===== src/OrderBook/LadderSteps.antt =====
-- What the two ends of `addOrder` and `cancelOrder` do to a side's ladder.
use ultra_low_latency_orderb.Prelude.{
  ℕ, ◌*◌, ◌<◌, ◌≤◌, ◌≡◌, ◌≢◌, ◌∙◌, refl, sym, ap, inl, inr, List, [], ◌∷◌, ◌++◌, ◌∈◌, write, arith,
  ==_false, points_at, Bool-cases,
}
use ultra_low_latency_orderb.Types.{Side}
use ultra_low_latency_orderb.PriceLevel.{Heap, PriceLevel}
use ultra_low_latency_orderb.PriceLevel.Queue.{IsQueue, IsQueue-frame}
use ultra_low_latency_orderb.Bitmap.{set_bit, clear_bit}
use ultra_low_latency_orderb.Bitmap.Scan.{
  bit-set_bit, bit-clear_bit, set_bit-AreWords, clear_bit-AreWords,
}
use ultra_low_latency_orderb.OrderBook.{Ladder, ladder_after_add, ladder_after_remove}
use ultra_low_latency_orderb.OrderBook.Shape.{occupied, IsLadder}
use ultra_low_latency_orderb.OrderBook.LadderBest.{
  occupied_cases, occupied-append_one, occupied_below-write, queues-write, with_level-IsLadder,
  is_empty-true, is_empty-false, after_add-IsBest, best_of-IsBest, empty_write, elsewhere-IsBest,
  bits_write,
}

-- `addOrder` keeps the ladder right, whether the level was empty or not.
pub ladder_after_add-IsLadder :
    (s : Side) (h g : Heap) (n : ℕ) (l : Ladder) (q : ℕ → List ℕ) (idx a : ℕ) (lvl : PriceLevel)
    → IsLadder s h n l q
    → idx < n
    → IsQueue g lvl (q idx ++ (a ∷ []))
    → ((i b : ℕ) → i ≢ idx → b ∈ q i → g b ≡ h b)
    → IsLadder s g n (ladder_after_add s l idx lvl) (write q idx (q idx ++ (a ∷ [])))
unfolding ladder_after_add
ladder_after_add-IsLadder s h g n l q idx a lvl v lt new same = elim (occupied_cases (q idx)) [
  | inr full ↦ rw (is_empty-false h (l.levels idx) (q idx) (v.queues idx) full) (
      with_level-IsLadder s h g n l q idx lvl (q idx ++ (a ∷ [])) v lt new same
        (occupied-append_one (q idx) a ∙ sym full))
  | inl empty ↦
      let one = occupied-append_one (q idx) a in
      rw (is_empty-true h (l.levels idx) (q idx) (v.queues idx) empty) (record {
        queues = queues-write h g l.levels q idx lvl (q idx ++ (a ∷ [])) v.queues new same;
        within = λ i le. rw (==_false i idx (omega arith)) (v.within i le);
        words = set_bit-AreWords l.words idx v.words;
        bits =
            bits_write l.words (set_bit l.words idx) q idx (q idx ++ (a ∷ [])) v.bits
              (λ i. rw one (bit-set_bit l.words idx i));
        best = after_add-IsBest s l.best_idx q idx (q idx ++ (a ∷ [])) one empty v.best;
        count = omega (
          arith,
          occupied_below-write n idx q (q idx ++ (a ∷ [])) lt,
          one,
          ap occupied empty,
          v.count,
        );
      })
]

-- `cancelOrder` keeps the ladder right, whether the level is empty afterwards or not.
pub ladder_after_remove-IsLadder :
    (s : Side) (h g : Heap) (n k : ℕ) (l : Ladder) (q : ℕ → List ℕ) (idx : ℕ) (lvl : PriceLevel)
    (xs : List ℕ)
    → IsLadder s h n l q
    → idx < n
    → n ≤ k * 64
    → occupied (q idx) ≡ 1
    → IsQueue g lvl xs
    → ((i b : ℕ) → i ≢ idx → b ∈ q i → g b ≡ h b)
    → IsLadder s g n (ladder_after_remove s k l idx lvl) (write q idx xs)
unfolding ladder_after_remove
ladder_after_remove-IsLadder s h g n k l q idx lvl (x ∷ xs) v lt covers full new same =
    rw (is_empty-false g lvl (x ∷ xs) new refl)
      (with_level-IsLadder s h g n l q idx lvl (x ∷ xs) v lt new same (sym full))
ladder_after_remove-IsLadder s h g n k l q idx lvl [] v lt covers full new same =
    let words = clear_bit-AreWords l.words idx v.words in
    let bits =
      bits_write l.words (clear_bit l.words idx) q idx [] v.bits (bit-clear_bit l.words idx) in
    let within = λ (i : ℕ) (le : n ≤ i). empty_write q idx i (v.within i le) in
    rw (is_empty-true g lvl [] new refl) (record {
      queues = queues-write h g l.levels q idx lvl [] v.queues new same;
      within = within;
      words = words;
      bits = bits;
      best = elim (Bool-cases (points_at l.best_idx idx)) [
        | inl hit ↦
            rw hit (
              best_of-IsBest s (clear_bit l.words idx) k n (write q idx []) words bits within
                covers)
        | inr miss ↦ rw miss (elsewhere-IsBest s l.best_idx q idx miss v.best)
      ];
      count = omega (arith, occupied_below-write n idx q [] lt, v.count);
    })

-- A ladder stays right where none of its orders changes.
pub IsLadder-frame :
    (s : Side) (h g : Heap) (n : ℕ) (l : Ladder) (q : ℕ → List ℕ)
    → IsLadder s h n l q
    → ((i b : ℕ) → b ∈ q i → g b ≡ h b)
    → IsLadder s g n l q
IsLadder-frame s h g n l q v same = record {
  queues = λ i.
      IsQueue-frame h g (l.levels i) (q i) (v.queues i)
        (λ b j. (ap (λ o. o.next) (same i b j), ap (λ o. o.prev) (same i b j)))
        (λ b j. ap (λ o. o.quantity) (same i b j));
  within = v.within;
  words = v.words;
  bits = v.bits;
  best = v.best;
  count = v.count;
}
