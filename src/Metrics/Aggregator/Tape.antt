-- ===== src/Metrics/Aggregator/Tape.antt =====
-- The tape of a snapshot shows the last trades, newest first.
use ultra_low_latency_orderb.Prelude.{
  ℕ, zero, suc, ◌+◌, ◌-◌, ◌%◌, ◌<◌, ◌≤◌, ◌≡◌, ◌≢◌, ◌∙◌, refl, sym, ap, subst, arith, Bool, true,
  false, List, [], ◌∷◌, length, take, ltb, if◌then◌else◌, write, ==_true, ==_false, add64, Option,
}
use ultra_low_latency_orderb.Prelude.Int.{ℤ, pos}
use ultra_low_latency_orderb.BookView.{View}
use ultra_low_latency_orderb.Histogram.{LatencyHistogram}
use ultra_low_latency_orderb.Metrics.{
  Double, Printer, Payload, latency, snapshot, trade, MetricsEvent, TradeRec, max_tape,
}
use ultra_low_latency_orderb.Metrics.Alerts.{AlertConfig, evaluate_alerts}
use ultra_low_latency_orderb.Metrics.Aggregator.{
  Aggregator, num_ops, op_index, new_aggregator, fold_event, ingest, tape_from, render,
}

-- The trades among some events, newest first, before those of `older`.
abbrev pub with_payload : Payload → List TradeRec → List TradeRec
with_payload (trade price qty maker) older =
    record { px = price; qty = pos qty; maker = maker } ∷ older
with_payload latency older = older
with_payload (snapshot best_bid best_ask) older = older

abbrev pub newest_first : List MetricsEvent → List TradeRec → List TradeRec
newest_first [] older = older
newest_first (e ∷ es) older = newest_first es (with_payload e.payload older)

-- The slots below the running number `n` hold `xs`, the last slot first.
abbrev Shows : (ℕ → TradeRec) → ℕ → List TradeRec → Type 0
Shows tape n [] = Unit
Shows tape zero (x ∷ xs) = ⊥
Shows tape (suc n) (x ∷ xs) = (tape (n % max_tape) ≡ x) × Shows tape n xs

Shows-write :
    (tape : ℕ → TradeRec) (n m : ℕ) (xs : List TradeRec) (r : TradeRec)
    → n ≤ m
    → m + length xs < n + max_tape
    → Shows tape n xs
    → Shows (write tape (m % max_tape) r) n xs
Shows-write tape n m [] r le lt h = tt
Shows-write tape zero m (x ∷ xs) r le lt h = h
Shows-write tape (suc n) m (x ∷ xs) r le lt h = (
  rw (==_false (n % 16) (m % 16) (apart n m (length xs) le lt)) h.0,
  Shows-write tape n m xs r (omega arith) (omega arith) h.1,
)
  where
    apart : (n m k : ℕ) → suc n ≤ m → m + suc k < suc n + 16 → n % 16 ≢ m % 16
    apart n m k le lt e = omega arith

Shows-take :
    (tape : ℕ → TradeRec) (n k : ℕ) (xs : List TradeRec)
    → Shows tape n xs
    → Shows tape n (take k xs)
Shows-take tape n zero xs h = tt
Shows-take tape n (suc k) [] h = tt
Shows-take tape zero (suc k) (x ∷ xs) h = h
Shows-take tape (suc n) (suc k) (x ∷ xs) h = (h.0, Shows-take tape n k xs h.1)

-- After `n` trades, of which `h` are the newest first.
record IsTape {W : Type 0} (a : Aggregator W) (n : ℕ) (h : List TradeRec) : Type 0 where
  shows : Shows a.tape n (take max_tape h)
  next_slot : a.tape_next ≡ n % max_tape
  used : a.tape_n ≡ length (take max_tape h)

length-take-suc : (k : ℕ) (xs : List TradeRec) → length (take k xs) ≤ length (take (suc k) xs)
length-take-suc zero xs = omega arith
length-take-suc (suc k) [] = omega arith
length-take-suc (suc k) (x ∷ xs) = omega (arith, length-take-suc k xs)

length-take_le : (k : ℕ) (xs : List TradeRec) → length (take k xs) ≤ k
length-take_le zero xs = omega arith
length-take_le (suc k) [] = omega arith
length-take_le (suc k) (x ∷ xs) = omega (arith, length-take_le k xs)

-- Only a list that is cut is cut shorter by taking one less.
length-take_grow :
    (k : ℕ) (xs : List TradeRec)
    → length (take k xs)
      ≡ (if ltb (length (take (suc k) xs)) (suc k) then length (take (suc k) xs) else k)
length-take_grow zero [] = refl
length-take_grow zero (x ∷ xs) = refl
length-take_grow (suc k) [] = ground arith
length-take_grow (suc k) (x ∷ xs) = ground (arith, length-take_grow k xs)

take-take_15 : (xs : List TradeRec) → take 15 (take 16 xs) ≡ take 15 xs
take-take_15 xs = shorter 15 xs
  where
    shorter : (k : ℕ) (xs : List TradeRec) → take k (take (suc k) xs) ≡ take k xs
    shorter zero xs = refl
    shorter (suc k) [] = refl
    shorter (suc k) (x ∷ xs) = ap (λ r. x ∷ r) (shorter k xs)

module _ {W : Type 0} where
  trade-IsTape :
      (a : Aggregator W) (n : ℕ) (h : List TradeRec) (e : MetricsEvent) (price : ℤ) (qty maker : ℕ)
      → IsTape a n h
      → IsTape
          (fold_event (trade price qty maker) e a)
          (suc n)
          (record { px = price; qty = pos qty; maker = maker } ∷ h)
  unfolding fold_event
  trade-IsTape a n h e price qty maker v =
      let r : TradeRec = record { px = price; qty = pos qty; maker = maker } in
      let short = length-take_le 15 h in
      record {
        shows = (
          rw v.next_slot (rw (==_true (n % 16) (n % 16) refl) refl),
          subst (λ i. Shows (write a.tape i r) n (take 15 h)) (sym v.next_slot)
              (Shows-write a.tape n n (take 15 h) r (omega arith) (omega arith) (
                subst (λ xs. Shows a.tape n xs) (take-take_15 h)
                  (Shows-take a.tape n 15 (take 16 h) v.shows))),
        );
        next_slot = omega (arith, v.next_slot);
        used = ground (arith, v.used, length-take_grow 15 h, length-take_le 16 h);
      }

  fold_event-IsTape :
      (q : Payload) (a : Aggregator W) (n : ℕ) (h : List TradeRec) (e : MetricsEvent)
      → IsTape a n h
      → (m : ℕ) × IsTape (fold_event q e a) m (with_payload q h)
  unfolding fold_event
  fold_event-IsTape latency a n h e v = (n, kept (ltb (op_index e.otype) num_ops) _)
    where
      kept :
          (b : Bool) (w : ℕ → LatencyHistogram) → IsTape (if b then record a { win = w } else a) n h
      kept true w = record { shows = v.shows; next_slot = v.next_slot; used = v.used }
      kept false w = v
  fold_event-IsTape (snapshot best_bid best_ask) a n h e v =
      (n, record { shows = v.shows; next_slot = v.next_slot; used = v.used })
  fold_event-IsTape (trade price qty maker) a n h e v =
      (suc n, trade-IsTape a n h e price qty maker v)

  -- All of some events, one after the other.
  abbrev pub ingest_all : List MetricsEvent → Aggregator W → Aggregator W
  ingest_all [] a = a
  ingest_all (e ∷ es) a = ingest_all es (ingest a e)

  ingest-IsTape :
      (a : Aggregator W) (n : ℕ) (h : List TradeRec) (e : MetricsEvent)
      → IsTape a n h
      → (m : ℕ) × IsTape (ingest a e) m (with_payload e.payload h)
  unfolding ingest
  ingest-IsTape a n h e v =
      fold_event-IsTape e.payload (record a { consumed = add64 a.consumed 1 }) n h e
        (record { shows = v.shows; next_slot = v.next_slot; used = v.used })

  ingest_all-IsTape :
      (es : List MetricsEvent) (a : Aggregator W) (n : ℕ) (h : List TradeRec)
      → IsTape a n h
      → (m : ℕ) × IsTape (ingest_all es a) m (newest_first es h)
  ingest_all-IsTape [] a n h v = (n, v)
  ingest_all-IsTape (e ∷ es) a n h v =
      let (m, w) = ingest-IsTape a n h e v in
      ingest_all-IsTape es (ingest a e) m (with_payload e.payload h) w

  tape_from-Shows :
      (xs : List TradeRec) (a : Aggregator W) (n i : ℕ)
      → Shows a.tape n xs
      → a.tape_next ≡ (n + i) % max_tape
      → i + length xs ≤ max_tape
      → tape_from (length xs) a i ≡ xs
  unfolding tape_from
  tape_from-Shows [] a n i h e le = refl
  tape_from-Shows (x ∷ xs) a zero i h e le = absurd h
  tape_from-Shows (x ∷ xs) a (suc n) i h e le =
      let at : (a.tape_next + 16 - 1 - i) % 16 ≡ n % 16 = omega (arith, e) in
      let rest = tape_from-Shows xs a n (i + 1) h.1 (omega (arith, e)) (omega arith) in
      rw (at, rest) (ap (λ r. r ∷ xs) h.0)

module _ {W : Type 0} ⦃d : Double W⦄ ⦃p : Printer W⦄ where
  render-tape_from :
      (a : Aggregator W) (t_now t_start drops : ℕ) (final : Bool) (view : Option View)
      → (render a t_now t_start final drops view).0.tape ≡ tape_from a.tape_n a 0
  unfolding render evaluate_alerts
  render-tape_from a t_now t_start drops final view = refl

  new_aggregator-IsTape :
      (ns : W) (render_ns : ℕ) (cfg : AlertConfig W) (storage : ℕ → TradeRec)
      → IsTape (new_aggregator ns render_ns cfg storage) 0 []
  unfolding new_aggregator
  new_aggregator-IsTape ns render_ns cfg storage = record {
    shows = tt;
    next_slot = refl;
    used = refl;
  }

  -- Whatever events a new aggregator ingests, the tape of the snapshot that it then renders shows
  -- the trades among them, newest first, and at most the last sixteen.
  pub render-tape :
      (es : List MetricsEvent) (ns : W) (render_ns : ℕ) (cfg : AlertConfig W)
      (storage : ℕ → TradeRec) (t_now t_start drops : ℕ) (final : Bool) (view : Option View)
      → (render
          (ingest_all es (new_aggregator ns render_ns cfg storage))
          t_now
          t_start
          final
          drops
          view).0.tape
        ≡ take max_tape (newest_first es [])
  render-tape es ns render_ns cfg storage t_now t_start drops final view =
      let a = ingest_all es (new_aggregator ns render_ns cfg storage) in
      let (n, v) =
        ingest_all-IsTape es (new_aggregator ns render_ns cfg storage) 0 []
          (new_aggregator-IsTape ns render_ns cfg storage) in
      let h = newest_first es [] in
      render-tape_from a t_now t_start drops final view
      ∙ ap (λ k. tape_from k a 0) v.used
      ∙ tape_from-Shows (take max_tape h) a n 0 v.shows (omega (arith, v.next_slot))
          (omega (arith, length-take_le 16 h))
