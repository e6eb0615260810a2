-- ===== src/OrderBook/HeadMaker.antt =====
-- What filling the maker at the head of a level does to the book, in `match` of src/orderbook.cpp.
use ultra_low_latency_orderb.Prelude.{
  ℕ, ◌+◌, ◌-◌, ◌<◌, ◌≤◌, ◌≡◌, ◌≢◌, ◌∙◌, refl, sym, ap, ap₂, subst, Bool, true, false, Option, none,
  some, List, ◌∷◌, ◌==◌, if◌then◌else◌, length, ◌∈◌, write, arith, ==_true, ==_false, erase,
  length-erase, head?, Distinct,
}
use ultra_low_latency_orderb.Types.{Side, buy, sell}
use ultra_low_latency_orderb.PriceLevel.Links.{bare}
use ultra_low_latency_orderb.OrderBook.{OrderBook, ladder, cancel_order, drop_order}
use ultra_low_latency_orderb.OrderBook.Matching.{reduce_maker}
use ultra_low_latency_orderb.OrderBook.Shape.{IsPlaced, IsBook, Queues, with_side, cut}
use ultra_low_latency_orderb.OrderBook.Assemble.{differ, SameSpan, SameSpan-with_ladder}
use ultra_low_latency_orderb.OrderBook.Cancel.{IsCancelled, cancel_order-IsCancelled}
use ultra_low_latency_orderb.OrderBook.Modify.{IsModified, reduce_maker-IsModified}
use ultra_low_latency_orderb.OrderBook.Fills.{Entry, entries, entries_same}

-- The book `b'` after level `idx` of the side `s` was worked on: it is right, the level shows the
-- entries `es`, and every other queue, and the data of every order in one, is as it was.
pub record AfterLevel (b : OrderBook) (q : Queues) (live : List ℕ) (s : Side) (idx : ℕ)
    (es : List Entry) (b' : OrderBook) : Type 0 where
  pub queues : Queues
  pub free : List ℕ
  pub left : List ℕ
  pub book : IsBook b' queues free left
  pub shows : entries b'.heap (queues s idx) ≡ es
  pub others : (t : Side) (i : ℕ) → ((t ≡ s) × (i ≡ idx) → ⊥) → queues t i ≡ q t i
  pub kept :
      (t : Side) (i a : ℕ)
      → ((t ≡ s) × (i ≡ idx) → ⊥)
      → a ∈ q t i
      → bare (b'.heap a) ≡ bare (b.heap a)
  pub span : SameSpan b b'
  pub unmapped : (id : ℕ) → b.orders id ≡ none → b'.orders id ≡ none
  pub shrink : length left + length (q s idx) ≡ length live + length (queues s idx)

pub after_none :
    (b : OrderBook) (q : Queues) (fs live : List ℕ) (s : Side) (idx : ℕ)
    → IsBook b q fs live
    → AfterLevel b q live s idx (entries b.heap (q s idx)) b
after_none b q fs live s idx v = record {
  queues = q;
  free = fs;
  left = live;
  book = v;
  shows = refl;
  others = λ t i o. refl;
  kept = λ t i a o j. refl;
  span = record { low = refl; high = refl; levels = refl };
  unmapped = λ id e. e;
  shrink = refl;
}

pub after_trans :
    (b c d : OrderBook) (q : Queues) (live : List ℕ) (s : Side) (idx : ℕ) (es fs : List Entry)
    → (x : AfterLevel b q live s idx es c) → AfterLevel c x.queues x.left s idx fs d
    → AfterLevel b q live s idx fs d
after_trans b c d q live s idx es fs x y = record {
  queues = y.queues;
  free = y.free;
  left = y.left;
  book = y.book;
  shows = y.shows;
  others = λ t i o. y.others t i o ∙ x.others t i o;
  kept = λ t i a o j. y.kept t i a o (rw (x.others t i o) j) ∙ x.kept t i a o j;
  span = record {
    low = y.span.low ∙ x.span.low;
    high = y.span.high ∙ x.span.high;
    levels = y.span.levels ∙ x.span.levels;
  };
  unmapped = λ id e. y.unmapped id (x.unmapped id e);
  shrink = omega (arith, x.shrink, y.shrink);
}

drop_order-SameSpan : (b : OrderBook) (id slot : ℕ) → SameSpan b (drop_order b id slot)
unfolding drop_order
drop_order-SameSpan b id slot = SameSpan-with_ladder (b.heap slot).side b _ _ refl refl refl

reduce_maker-SameSpan :
    (b : OrderBook) (s : Side) (idx maker fill : ℕ) → SameSpan b (reduce_maker b s idx maker fill)
unfolding reduce_maker
reduce_maker-SameSpan b s idx maker fill = SameSpan-with_ladder s b _ _ refl refl refl

with_side_other :
    (s t : Side) (q : Queues) (idx i : ℕ) (xs : List ℕ)
    → ((t ≡ s) × (i ≡ idx) → ⊥)
    → with_side s (write (q s) idx xs) q t i ≡ q t i
with_side_other buy sell q idx i xs o = refl
with_side_other sell buy q idx i xs o = refl
with_side_other buy buy q idx i xs o = rw (==_false i idx (λ e. o (refl, e))) refl
with_side_other sell sell q idx i xs o = rw (==_false i idx (λ e. o (refl, e))) refl

with_side_here :
    (s : Side) (q : Queues) (idx : ℕ) (xs : List ℕ) → with_side s (write (q s) idx xs) q s idx ≡ xs
with_side_here buy q idx xs = rw (==_true idx idx refl) refl
with_side_here sell q idx xs = rw (==_true idx idx refl) refl

-- The head order of a level, as the loop reads it.
pub head_of :
    (b : OrderBook) (q : Queues) (fs live : List ℕ) (s : Side) (idx a : ℕ) (r : List ℕ)
    → IsBook b q fs live
    → q s idx ≡ a ∷ r
    → ((ladder s b).levels idx).head ≡ some a
head_of b q fs live s idx a r v e = ((v.ladders s).queues idx).head ∙ ap head? e

cancel-SameSpan :
    (b : OrderBook) (id slot : ℕ) → b.orders id ≡ some slot → SameSpan b (cancel_order b id).1
unfolding cancel_order
cancel-SameSpan b id slot e = rw (e, cancel_order) (drop_order-SameSpan b id slot)

pub cancel_head :
    (b : OrderBook) (q : Queues) (fs live : List ℕ) (s : Side) (idx a : ℕ) (r : List ℕ)
    → IsBook b q fs live
    → q s idx ≡ a ∷ r
    → (x : AfterLevel b q live s idx (entries b.heap r) (cancel_order b (b.heap a).id).1)
      × (x.queues s idx ≡ r)
cancel_head b q fs live s idx a r v e = (
  record {
    queues = cut s idx a q;
    free = a ∷ fs;
    left = erase a live;
    book =
        subst (λ k. IsBook b' k (a ∷ fs) (erase a live)) (ap₂ (λ t i. cut t i a q) p.side p.index)
          done.book;
    shows =
        ap (entries b'.heap) now
        ∙ entries_same b.heap b'.heap r
            (λ c j. (ap (λ o. o.id) (done.kept c), ap (λ o. o.quantity) (done.kept c)));
    others = λ t i o. with_side_other s t q idx i (erase a (q s idx)) o;
    kept = λ t i c o j. done.kept c;
    span = span;
    unmapped = λ i m. done.orders i ∙ none_if (i == (b.heap a).id) m;
    shrink = omega (arith, ap length now, ap length e, length-erase live a p.is_live);
  },
  now,
)
  where
    is_head : a ∈ q s idx
    is_head = rw e (rw (==_true a a refl) refl)

    p : IsPlaced b live s idx a
    p = v.placed s idx a is_head

    b' : OrderBook
    b' = (cancel_order b (b.heap a).id).1

    done : IsCancelled b q fs live (b.heap a).id a b'
    done = (cancel_order-IsCancelled b q fs live (b.heap a).id a v p.mapped).1

    now : cut s idx a q s idx ≡ r
    now = with_side_here s q idx (erase a (q s idx)) ∙ (ap (erase a) e ∙ rw (==_true a a refl) refl)

    none_if : (t : Bool) {o : Option ℕ} → o ≡ none → (if t then none else o) ≡ none
    none_if true m = refl
    none_if false m = m

    span : SameSpan b b'
    span = cancel-SameSpan b (b.heap a).id a p.mapped

pub reduce_head_maker :
    (b : OrderBook) (q : Queues) (fs live : List ℕ) (s : Side) (idx a : ℕ) (r : List ℕ) (fill : ℕ)
    → IsBook b q fs live
    → q s idx ≡ a ∷ r
    → fill ≤ (b.heap a).quantity
    → idx < b.num_levels
    → AfterLevel b q live s idx
        (((b.heap a).id, (b.heap a).quantity - fill) ∷ entries b.heap r)
        (reduce_maker b s idx a fill)
reduce_head_maker b q fs live s idx a r fill v e le lt = record {
  queues = q;
  free = fs;
  left = live;
  book = done.book;
  shows =
      ap (entries b'.heap) e
      ∙ ap₂ ◌∷◌ first (entries_same b.heap b'.heap r (λ c j. later c (apart c j)));
  others = λ t i o. refl;
  kept = λ t i c o j. ap bare (elsewhere c (λ x. o (meet t i (subst (λ k. k ∈ q t i) x j))));
  span = reduce_maker-SameSpan b s idx a fill;
  unmapped = λ id m. ap (λ f. f id) done.orders ∙ m;
  shrink = refl;
}
  where
    is_head : a ∈ q s idx
    is_head = rw e (rw (==_true a a refl) refl)

    b' : OrderBook
    b' = reduce_maker b s idx a fill

    done : IsModified b q fs live a ((b.heap a).quantity - fill) b'
    done = reduce_maker-IsModified b q fs live s idx a fill v is_head le lt

    meet : (t : Side) (i : ℕ) → a ∈ q t i → (t ≡ s) × (i ≡ idx)
    meet t i k = (
      sym (v.placed t i a k).side ∙ (v.placed s idx a is_head).side,
      sym (v.placed t i a k).index ∙ (v.placed s idx a is_head).index,
    )

    elsewhere : (c : ℕ) → c ≢ a → b'.heap c ≡ b.heap c
    elsewhere c ne = ap (λ h. h c) done.heap ∙ rw (==_false c a ne) refl

    later :
        (c : ℕ)
        → c ≢ a
        → ((b'.heap c).id ≡ (b.heap c).id) × ((b'.heap c).quantity ≡ (b.heap c).quantity)
    later c ne = (ap (λ o. o.id) (elsewhere c ne), ap (λ o. o.quantity) (elsewhere c ne))

    apart : (c : ℕ) → c ∈ r → c ≢ a
    apart c j = differ c a r j (subst Distinct e (((v.ladders s).queues idx).distinct)).0

    first :
        ◌≡◌ {A = Entry}
          ((b'.heap a).id, (b'.heap a).quantity)
          ((b.heap a).id, (b.heap a).quantity - fill)
    first =
        let x : b'.heap a ≡ record (b.heap a) { quantity = (b.heap a).quantity - fill } =
          ap (λ h. h a) done.heap ∙ rw (==_true a a refl) refl in
        ap₂ (λ i n. (i, n)) (ap (λ o. o.id) x) (ap (λ o. o.quantity) x)
