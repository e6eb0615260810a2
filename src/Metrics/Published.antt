-- ===== src/Metrics/Published.antt =====
-- metrics/book_dashboard_demo.cpp, the function `publishDepth`: the depth of the book as the view
-- that the seqlock carries to the aggregator, and how the snapshot gets it back.
use ultra_low_latency_orderb.Prelude.{
  ℕ, zero, suc, ◌+◌, ◌-◌, ◌*◌, ◌/◌, ◌%◌, ◌^◌, ◌<◌, ◌≤◌, ◌≡◌, ◌∙◌, refl, ap, arith, List, [], ◌∷◌,
  length, map, write, ==_true, ==_false, Bool, true, false, Option, none, some, ◌==◌, if◌then◌else◌,
}
use ultra_low_latency_orderb.Prelude.Int.{ℤ, pos, negsuc, signed64, bits64}
use ultra_low_latency_orderb.OrderBook.{OrderBook, Ladder}
use ultra_low_latency_orderb.PriceLevel.{is_empty}
use ultra_low_latency_orderb.OrderBook.Depth.{depth_level, depth_down, depth_up, get_depth}
use ultra_low_latency_orderb.OrderBook.Depth as Depth
use ultra_low_latency_orderb.BookView.{View, view_words}
use ultra_low_latency_orderb.BookView.Whole.{Same}
use ultra_low_latency_orderb.Metrics.{
  Double, Printer, DepthLevel, max_depth, levels_from, view_bids, view_asks,
}
use ultra_low_latency_orderb.Metrics.Alerts.{evaluate_alerts}
use ultra_low_latency_orderb.Metrics.Aggregator.{Aggregator, render}

-- The loop that writes the levels from word `k` on.
unfoldable pub put_levels : View → ℕ → List Depth.DepthLevel → View
put_levels v k [] = v
put_levels v k (l ∷ ls) =
    put_levels (write (write v k (bits64 l.price)) (k + 1) (l.qty % 2 ^ 64)) (k + 2) ls

-- The view that is published: the two counts share the first word.
unfoldable pub depth_view : OrderBook → View
unfolding put_levels
depth_view b =
    let (bids, asks) = get_depth b max_depth in
    let counts : View = write (λ k. 0) 0 (length bids % 2 ^ 32 + 2 ^ 32 * (length asks % 2 ^ 32)) in
    put_levels (put_levels counts 1 bids) (1 + 2 * max_depth) asks

-- A level of the book as the snapshot shows it.
abbrev pub shown : Depth.DepthLevel → DepthLevel
shown l = record { px = l.price; qty = signed64 (l.qty % 2 ^ 64) }

-- An integer that an int64_t can hold.
abbrev pub IsShort : ℤ → Type 0
IsShort (pos n) = n < 2 ^ 63
IsShort (negsuc n) = n < 2 ^ 63

abbrev pub AreShort : List Depth.DepthLevel → Type 0
AreShort [] = Unit {0}
AreShort (l ∷ ls) = IsShort l.price × AreShort ls

signed64-bits64 : (x : ℤ) → IsShort x → signed64 (bits64 x) ≡ x
signed64-bits64 (pos n) lt = ground arith
signed64-bits64 (negsuc n) lt = ground arith

put_levels-below :
    (ls : List Depth.DepthLevel) (v : View) (k i : ℕ) → i < k → put_levels v k ls i ≡ v i
unfolding put_levels
put_levels-below [] v k i lt = refl
put_levels-below (l ∷ ls) v k i lt =
    let v' : View = write (write v k (bits64 l.price)) (k + 1) (l.qty % 2 ^ 64) in
    put_levels-below ls v' (k + 2) i (omega arith)
    ∙ rw (==_false i (k + 1) (λ e. omega (arith, e)), ==_false i k (λ e. omega (arith, e))) refl

put_levels-above :
    (ls : List Depth.DepthLevel) (v : View) (k i : ℕ)
    → k + 2 * length ls ≤ i
    → put_levels v k ls i ≡ v i
unfolding put_levels
put_levels-above [] v k i le = refl
put_levels-above (l ∷ ls) v k i le =
    let v' : View = write (write v k (bits64 l.price)) (k + 1) (l.qty % 2 ^ 64) in
    put_levels-above ls v' (k + 2) i (omega arith)
    ∙ rw (==_false i (k + 1) (λ e. omega (arith, e)), ==_false i k (λ e. omega (arith, e))) refl

levels_from-put_levels :
    (ls : List Depth.DepthLevel) (v w : View) (k : ℕ)
    → AreShort ls
    → ((i : ℕ) → k ≤ i → i < k + 2 * length ls → w i ≡ put_levels v k ls i)
    → levels_from (length ls) w k ≡ map shown ls
unfolding levels_from put_levels
levels_from-put_levels [] v w k short same = refl
levels_from-put_levels (l ∷ ls) v w k short same =
    let v' : View = write (write v k (bits64 l.price)) (k + 1) (l.qty % 2 ^ 64) in
    let price : w k ≡ bits64 l.price =
      same k (omega arith) (omega arith)
      ∙ put_levels-below ls v' (k + 2) k (omega arith)
      ∙ rw (==_false k (k + 1) (λ e. omega (arith, e)), ==_true k k refl) refl in
    let qty : w (k + 1) ≡ l.qty % 2 ^ 64 =
      same (k + 1) (omega arith) (omega arith)
      ∙ put_levels-below ls v' (k + 2) (k + 1) (omega arith)
      ∙ rw (==_true (k + 1) (k + 1) refl) refl in
    rw
      (
        price,
        qty,
        signed64-bits64 l.price short.0,
        levels_from-put_levels ls v' w (k + 2) short.1
            (λ i le lt. same i (omega arith) (omega arith)),
      )
      refl

-- One round of either loop of `getDepth` keeps to the entries that are wanted.
round_few :
    (empty : Bool) (n : ℕ) (rest : ℕ → List Depth.DepthLevel) (level : Depth.DepthLevel)
    → ((n : ℕ) → length (rest n) ≤ n)
    → length (
        if n == 0
        then []
        else if empty
        then rest (if empty then n else n - 1)
        else level ∷ rest (if empty then n else n - 1))
      ≤ n
round_few empty zero rest level few = omega arith
round_few true (suc n) rest level few =
    rw (==_false (suc n) 0 (λ e. omega (arith, e))) (few (suc n))
round_few false (suc n) rest level few =
    let le : suc (length (rest (suc n - 1))) ≤ suc n = omega (arith, few (suc n - 1)) in
    rw (==_false (suc n) 0 (λ e. omega (arith, e))) le

depth_down-few : (b : OrderBook) (l : Ladder) (i n : ℕ) → length (depth_down b l i n) ≤ n
unfolding depth_down
depth_down-few b l zero n = omega arith
depth_down-few b l (suc i) n =
    round_few (is_empty (l.levels i)) n (depth_down b l i) (depth_level b l i)
      (depth_down-few b l i)

depth_up-few : (b : OrderBook) (l : Ladder) (left i n : ℕ) → length (depth_up b l left i n) ≤ n
unfolding depth_up
depth_up-few b l zero i n = omega arith
depth_up-few b l (suc left) i n =
    round_few (is_empty (l.levels i)) n (depth_up b l left (i + 1)) (depth_level b l i)
      (depth_up-few b l left (i + 1))

get_depth-few :
    (b : OrderBook) (n : ℕ) → (length (get_depth b n).0 ≤ n) × (length (get_depth b n).1 ≤ n)
unfolding get_depth
get_depth-few b n = (bids b.bids.best_idx, asks b.asks.best_idx)
  where
    bids :
        (best : Option ℕ)
        → length (elim best [ none ↦ [] | some i ↦ depth_down b b.bids (suc i) n ]) ≤ n
    bids none = omega arith
    bids (some i) = depth_down-few b b.bids (suc i) n

    asks :
        (best : Option ℕ)
        → length (elim best [ none ↦ [] | some i ↦ depth_up b b.asks (b.num_levels - i) i n ]) ≤ n
    asks none = omega arith
    asks (some i) = depth_up-few b b.asks (b.num_levels - i) i n

view-depth_view :
    (b : OrderBook) (w : View)
    → Same w (depth_view b) view_words
    → AreShort (get_depth b max_depth).0
    → AreShort (get_depth b max_depth).1
    → (view_bids w ≡ map shown (get_depth b max_depth).0)
      × (view_asks w ≡ map shown (get_depth b max_depth).1)
unfolding depth_view view_bids view_asks
view-depth_view b w same short_bids short_asks =
    let bids = (get_depth b max_depth).0 in
    let asks = (get_depth b max_depth).1 in
    let (few_bids, few_asks) = get_depth-few b max_depth in
    let counts : View = write (λ k. 0) 0 (length bids % 2 ^ 32 + 2 ^ 32 * (length asks % 2 ^ 32)) in
    let first : w 0 ≡ length bids + 2 ^ 32 * length asks =
      same 0 (omega arith)
      ∙ put_levels-below asks (put_levels counts 1 bids) 21 0 (omega arith)
      ∙ put_levels-below bids counts 1 0 (omega arith)
      ∙ omega arith in
    (
      ap (λ n. levels_from n w 1) (low (w 0) (length bids) (length asks) first few_bids)
          ∙ levels_from-put_levels bids counts w 1 short_bids (λ i le lt.
            same i (omega arith)
            ∙ put_levels-below asks (put_levels counts 1 bids) 21 i (omega arith)),
      ap (λ n. levels_from n w 21) (high (w 0) (length bids) (length asks) first few_bids)
          ∙ levels_from-put_levels asks (put_levels counts 1 bids) w 21 short_asks
              (λ i le lt. same i (omega arith)),
    )
  where
    low : (x m n : ℕ) → x ≡ m + 2 ^ 32 * n → m ≤ 10 → x % 2 ^ 32 ≡ m
    low x m n e le = omega arith

    high : (x m n : ℕ) → x ≡ m + 2 ^ 32 * n → m ≤ 10 → x / 2 ^ 32 ≡ n
    high x m n e le = omega arith

module _ {W : Type 0} ⦃d : Double W⦄ ⦃p : Printer W⦄ (a : Aggregator W) (t_now t_start drops : ℕ)
    (final : Bool) where
  render-view :
      (w : View)
      → ((render a t_now t_start final drops (some w)).0.bids ≡ view_bids w)
        × ((render a t_now t_start final drops (some w)).0.asks ≡ view_asks w)
  unfolding render evaluate_alerts
  render-view w = (refl, refl)

  -- The snapshot that `render` makes from a read that gave the words of the published view shows
  -- on each side the levels that `getDepth` gives, ten at most, with their prices, all of which fit
  -- an int64_t, and their shares cast to one.
  pub render-depth_view :
      (b : OrderBook) (w : View)
      → Same w (depth_view b) view_words
      → AreShort (get_depth b max_depth).0
      → AreShort (get_depth b max_depth).1
      → let s = (render a t_now t_start final drops (some w)).0 in
        (s.bids ≡ map shown (get_depth b max_depth).0)
        × (s.asks ≡ map shown (get_depth b max_depth).1)
  render-depth_view b w same short_bids short_asks =
      let (bids, asks) = render-view w in
      let (e, f) = view-depth_view b w same short_bids short_asks in (bids ∙ e, asks ∙ f)
