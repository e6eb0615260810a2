-- ===== src/OrderBook/LadderBest.antt =====
-- The best index, the bits and the levels of a ladder where one level changes.
use native.Mathlib.Decide.{ℕ_discrete, dec_lt}
use ultra_low_latency_orderb.Prelude.{
  ℕ, zero, suc, ◌+◌, ◌*◌, ◌<◌, ◌≤◌, ◌≡◌, ◌≢◌, ◌∙◌, refl, sym, ap, ◌⊎◌, inl, inr, true, false,
  Option, none, some, List, [], ◌∷◌, ◌++◌, ltb, ◌==◌, if◌then◌else◌, ◌∈◌, write, arith, ==_true,
  ==_false, is_none, points_at, Bool-cases,
}
use ultra_low_latency_orderb.Types.{Side, buy, sell}
use ultra_low_latency_orderb.PriceLevel.{Heap, PriceLevel, is_empty}
use ultra_low_latency_orderb.PriceLevel.Queue.{IsQueue, IsQueue-frame}
use ultra_low_latency_orderb.Bitmap.{Words, highest_set_bit, lowest_set_bit}
use ultra_low_latency_orderb.Bitmap.Scan.{bit, AreWords}
use ultra_low_latency_orderb.Bitmap.Extremes.{
  highest_set_bit-IsHighest, lowest_set_bit-IsLowest, IsHighest, IsLowest,
}
use ultra_low_latency_orderb.OrderBook.{Ladder, best_of, improves, with_level}
use ultra_low_latency_orderb.OrderBook.Shape.{occupied, occupied_below, beats, IsBest, IsLadder}

-- A level's emptiness shows in its head pointer.
is_empty-occupied :
    (h : Heap) (l : PriceLevel) (xs : List ℕ) → IsQueue h l xs → is_empty l ≡ (occupied xs == 0)
is_empty-occupied h l [] v = ap is_none v.head
is_empty-occupied h l (x ∷ xs) v = ap is_none v.head

pub occupied_cases : (xs : List ℕ) → (xs ≡ []) ⊎ (occupied xs ≡ 1)
occupied_cases [] = inl refl
occupied_cases (x ∷ xs) = inr refl

occupied_zero : (xs : List ℕ) → occupied xs ≡ 0 → xs ≡ []
occupied_zero [] e = refl
occupied_zero (x ∷ xs) e = ground arith

pub occupied-append_one : (xs : List ℕ) (a : ℕ) → occupied (xs ++ (a ∷ [])) ≡ 1
occupied-append_one [] a = refl
occupied-append_one (x ∷ xs) a = refl

occupied_below-write_out :
    (n idx : ℕ) (q : ℕ → List ℕ) (xs : List ℕ)
    → n ≤ idx
    → occupied_below n (write q idx xs) ≡ occupied_below n q
occupied_below-write_out zero idx q xs h = refl
occupied_below-write_out (suc n) idx q xs h =
    rw (==_false n idx (omega arith))
      (omega (arith, occupied_below-write_out n idx q xs (omega arith)))

pub occupied_below-write :
    (n idx : ℕ) (q : ℕ → List ℕ) (xs : List ℕ)
    → idx < n
    → occupied_below n (write q idx xs) + occupied (q idx) ≡ occupied_below n q + occupied xs
occupied_below-write zero idx q xs h = absurd (omega arith)
occupied_below-write (suc n) idx q xs h = elim (ℕ_discrete n idx) [
  | yes e ↦
      rw (==_true n idx e) (
        omega
          (arith, occupied_below-write_out n idx q xs (omega arith), ap (λ k. occupied (q k)) e))
  | no ne ↦ rw (==_false n idx ne) (omega (arith, occupied_below-write n idx q xs (omega arith)))
]

-- One level and its queue replaced, the orders of the other queues as they were.
pub queues-write :
    (h g : Heap) (levels : ℕ → PriceLevel) (q : ℕ → List ℕ) (idx : ℕ) (lvl : PriceLevel)
    (xs : List ℕ)
    → ((i : ℕ) → IsQueue h (levels i) (q i))
    → IsQueue g lvl xs
    → ((i b : ℕ) → i ≢ idx → b ∈ q i → g b ≡ h b)
    → (i : ℕ) → IsQueue g (write levels idx lvl i) (write q idx xs i)
queues-write h g levels q idx lvl xs v new same i = elim (ℕ_discrete i idx) [
  | yes e ↦ rw (==_true i idx e) new
  | no ne ↦ rw (==_false i idx ne) (
      IsQueue-frame h g (levels i) (q i) (v i)
        (λ b j. (ap (λ o. o.next) (same i b ne j), ap (λ o. o.prev) (same i b ne j)))
        (λ b j. ap (λ o. o.quantity) (same i b ne j)))
]

-- A level replaced by one that is empty exactly if the old one was.
pub with_level-IsLadder :
    (s : Side) (h g : Heap) (n : ℕ) (l : Ladder) (q : ℕ → List ℕ) (idx : ℕ) (lvl : PriceLevel)
    (xs : List ℕ)
    → IsLadder s h n l q
    → idx < n
    → IsQueue g lvl xs
    → ((i b : ℕ) → i ≢ idx → b ∈ q i → g b ≡ h b)
    → occupied xs ≡ occupied (q idx)
    → IsLadder s g n (with_level l idx lvl) (write q idx xs)
with_level-IsLadder s h g n l q idx lvl xs v lt new same occ = record {
  queues = queues-write h g l.levels q idx lvl xs v.queues new same;
  within = λ i le. rw (==_false i idx (omega arith)) (v.within i le);
  words = v.words;
  bits = λ i. v.bits i ∙ sym (occ_write i);
  best = best l.best_idx v.best;
  count = omega (arith, occupied_below-write n idx q xs lt, v.count);
}
  where
    occ_write : (i : ℕ) → occupied (write q idx xs i) ≡ occupied (q i)
    occ_write i = elim (ℕ_discrete i idx) [
      | yes e ↦ rw (==_true i idx e) (occ ∙ ap (λ k. occupied (q k)) (sym e))
      | no ne ↦ rw (==_false i idx ne) refl
    ]

    empty : (j : ℕ) → q j ≡ [] → write q idx xs j ≡ []
    empty j e = occupied_zero (write q idx xs j) (occ_write j ∙ ap occupied e)

    best : (o : Option ℕ) → IsBest s o q → IsBest s o (write q idx xs)
    best none b = λ j. empty j (b j)
    best (some i) b = (occ_write i ∙ b.0, λ j p. empty j (b.1 j p))

pub is_empty-true :
    (h : Heap) (l : PriceLevel) (xs : List ℕ) → IsQueue h l xs → xs ≡ [] → is_empty l ≡ true
is_empty-true h l xs v e = is_empty-occupied h l xs v ∙ ap (λ k. occupied k == 0) e

pub is_empty-false :
    (h : Heap) (l : PriceLevel) (xs : List ℕ)
    → IsQueue h l xs
    → occupied xs ≡ 1
    → is_empty l ≡ false
is_empty-false h l xs v e = is_empty-occupied h l xs v ∙ ap (λ k. k == 0) e

-- The best index after a level that was empty gets an order.
pub after_add-IsBest :
    (s : Side) (o : Option ℕ) (q : ℕ → List ℕ) (idx : ℕ) (xs : List ℕ)
    → occupied xs ≡ 1
    → q idx ≡ []
    → IsBest s o q
    → IsBest s (if improves s idx o then some idx else o) (write q idx xs)
after_add-IsBest s none q idx xs e empty b =
    (rw (==_true idx idx refl) e, λ j p. rw (==_false j idx (ne s j p)) (b j))
  where
    ne : (s : Side) (j : ℕ) → beats s j idx ≡ true → j ≢ idx
    ne buy j p e = ground arith
    ne sell j p e = ground arith
after_add-IsBest buy (some i) q idx xs e empty b = elim (Bool-cases (ltb i idx)) [
  | inl up ↦ rw up (
    rw (==_true idx idx refl) e,
    λ j p. rw (==_false j idx (ground arith)) (b.1 j (ground arith)),
  )
  | inr down ↦
      rw down (
        rw (==_false i idx (differ i b.0)) b.0,
        λ j p. rw (==_false j idx (ground arith)) (b.1 j p),
      )
]
  where
    differ : (i : ℕ) → occupied (q i) ≡ 1 → i ≢ idx
    differ i o f = ground (arith, ap occupied empty, ap (λ k. occupied (q k)) f)
after_add-IsBest sell (some i) q idx xs e empty b = elim (Bool-cases (ltb idx i)) [
  | inl up ↦ rw up (
    rw (==_true idx idx refl) e,
    λ j p. rw (==_false j idx (ground arith)) (b.1 j (ground arith)),
  )
  | inr down ↦
      rw down (
        rw (==_false i idx (differ i b.0)) b.0,
        λ j p. rw (==_false j idx (ground arith)) (b.1 j p),
      )
]
  where
    differ : (i : ℕ) → occupied (q i) ≡ 1 → i ≢ idx
    differ i o f = ground (arith, ap occupied empty, ap (λ k. occupied (q k)) f)

-- The scan of a bitmap that shows the occupied levels finds the best one.
pub best_of-IsBest :
    (s : Side) (w : Words) (k n : ℕ) (q : ℕ → List ℕ)
    → AreWords w
    → ((i : ℕ) → bit w i ≡ occupied (q i))
    → ((i : ℕ) → n ≤ i → q i ≡ [])
    → n ≤ k * 64
    → IsBest s (best_of s w k) q
unfolding best_of
best_of-IsBest buy w k n q words bits within covers =
    go (highest_set_bit w k) (highest_set_bit-IsHighest w k words)
  where
    clear : (j : ℕ) → (j < k * 64 → bit w j ≡ 0) → q j ≡ []
    clear j h = elim (dec_lt j (k * 64)) [
      | yes p ↦ occupied_zero (q j) (sym (bits j) ∙ h p)
      | no p ↦ within j (omega arith)
    ]

    go : (o : Option ℕ) → IsHighest w k o → IsBest buy o q
    go none h = λ j. clear j (h j)
    go (some i) h = (sym (bits i) ∙ h.0, λ j p. clear j (h.2 j (ground arith)))
best_of-IsBest sell w k n q words bits within covers =
    go (lowest_set_bit w k) (lowest_set_bit-IsLowest w k words)
  where
    clear : (j : ℕ) → (j < k * 64 → bit w j ≡ 0) → q j ≡ []
    clear j h = elim (dec_lt j (k * 64)) [
      | yes p ↦ occupied_zero (q j) (sym (bits j) ∙ h p)
      | no p ↦ within j (omega arith)
    ]

    go : (o : Option ℕ) → IsLowest w k o → IsBest sell o q
    go none h = λ j. clear j (h j)
    go (some i) h = (sym (bits i) ∙ h.0, λ j p. clear j (λ _. h.2 j (ground arith)))

pub empty_write : (q : ℕ → List ℕ) (idx j : ℕ) → q j ≡ [] → write q idx [] j ≡ []
empty_write q idx j e = elim (ℕ_discrete j idx) [
  | yes hit ↦ rw (==_true j idx hit) refl
  | no ne ↦ rw (==_false j idx ne) e
]

-- A best index that is not that of the emptied level stays right.
pub elsewhere-IsBest :
    (s : Side) (o : Option ℕ) (q : ℕ → List ℕ) (idx : ℕ)
    → points_at o idx ≡ false
    → IsBest s o q
    → IsBest s o (write q idx [])
elsewhere-IsBest s none q idx out b = λ j. empty_write q idx j (b j)
elsewhere-IsBest s (some i) q idx out b = (rw out b.0, λ j p. empty_write q idx j (b.1 j p))

pub bits_write :
    (w w' : Words) (q : ℕ → List ℕ) (idx : ℕ) (xs : List ℕ)
    → ((i : ℕ) → bit w i ≡ occupied (q i))
    → ((i : ℕ) → bit w' i ≡ (if i == idx then occupied xs else bit w i))
    → (i : ℕ) → bit w' i ≡ occupied (write q idx xs i)
bits_write w w' q idx xs bits set i = elim (ℕ_discrete i idx) [
  | yes e ↦ set i ∙ rw (==_true i idx e) refl
  | no ne ↦ set i ∙ rw (==_false i idx ne) (bits i)
]
