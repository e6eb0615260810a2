-- ===== src/Metrics/Tests.antt =====
-- The pipeline with whole numbers for doubles, on which the theorems are run.
use ultra_low_latency_orderb.Prelude.{
  ℕ, ◌+◌, ◌*◌, ◌/◌, ◌%◌, ◌^◌, ◌≡◌, refl, arith, true, false, none, some, List, map, ◌==◌,
  if◌then◌else◌, [], ◌∷◌, ltb, take,
}
use ultra_low_latency_orderb.Prelude.Int.{pos, ◌+ℤ◌, ◌-ℤ◌}
use ultra_low_latency_orderb.PriceLevel.{new_level}
use ultra_low_latency_orderb.OrderBook.{OrderBook, new_book, new_ladder, index_to_price}
use ultra_low_latency_orderb.OrderBook.Depth.{get_depth, depth_up}
use ultra_low_latency_orderb.Ring.Queue.{Queues}
use ultra_low_latency_orderb.Metrics.{
  codes, Double, Printer, match, trade, latency, MetricsEvent, OpStat, TradeRec, max_tape,
  max_depth, MetricsSnapshot,
}
use ultra_low_latency_orderb.Metrics.Alerts.{
  AlertConfig, evaluate_alerts, check_crossed, check_spread, check_drops, check_p99, check_ops,
  raise,
}
use ultra_low_latency_orderb.Metrics.Alerts.Due.{kinds, IsDue, kinds-evaluate_alerts}
use ultra_low_latency_orderb.Metrics.Json.{json_texts, write_json}
use ultra_low_latency_orderb.Metrics.Json.Bounded.{IsFilled, concat, write_json-IsFilled}
use ultra_low_latency_orderb.Metrics.Aggregator.{new_aggregator, render}
use ultra_low_latency_orderb.Metrics.Aggregator.Tape.{newest_first, ingest_all, render-tape}
use ultra_low_latency_orderb.Metrics.Pipeline.{Action, send, turn, new_pipeline, act_all, stop_at}
use ultra_low_latency_orderb.Metrics.Pipeline.Accounts.{stop_at-accounts}
use ultra_low_latency_orderb.Metrics.Published.{depth_view, shown, AreShort, render-depth_view}

-- Doubles cut to whole numbers, and numbers printed as one byte.
instance abbrev whole : Double ℕ
whole = record {
  nought = 0;
  ratio = λ a b. a / b;
  times = λ a b. a * b;
  over = λ a b. a / b;
  gt = λ a b. ltb b a;
  rank = λ p n. p * n / 100;
}

instance abbrev one_byte : Printer ℕ
one_byte = record {
  unsigned = λ n. (48 + n % 10) ∷ [];
  signed = λ z. 48 ∷ [];
  fixed = λ k n. (48 + n % 10) ∷ [];
}

abbrev slow_op : OpStat ℕ
slow_op = record {
  name = codes "add";
  count = 3;
  ops_per_s = 1;
  p50 = 10;
  p99 = 9000;
  p999 = 9000;
  max_ns = 9000;
}

-- A crossed book, with one slow operation.
abbrev crossed : MetricsSnapshot ℕ
crossed = record {
  uptime_s = 1;
  final = false;
  events = 4;
  trades = 1;
  snaps = 1;
  drops = 2;
  latency_unit = codes "ns";
  have_book = true;
  best_bid = pos 101;
  best_ask = pos 100;
  last_px = pos 100;
  volume = 5;
  ops = slow_op ∷ [];
  alerts = [];
  bids = [];
  asks = [];
  tape = [];
}

abbrev config : AlertConfig ℕ
config = record { p99_ns = 5000; spread_max = pos 0; on_drops = true; on_crossed = true }

kinds-evaluate_alerts_example :
    let (s', drops) = evaluate_alerts crossed config 0 in
    IsDue config crossed 0 (kinds s'.alerts)
    × (s' ≡ record crossed { alerts = s'.alerts })
    × (drops ≡ 2)
kinds-evaluate_alerts_example = kinds-evaluate_alerts crossed config 0 (omega arith)

-- The three alerts that it raises.
test_three_alerts :
    kinds (evaluate_alerts crossed config 0).0.alerts
    ≡ (codes "crit", codes "crossed")
      ∷ (codes "warn", codes "drops")
      ∷ (codes "warn", codes "p99")
      ∷ []
unfolding evaluate_alerts check_crossed check_spread check_drops check_p99 check_ops raise
test_three_alerts = refl

write_json-IsFilled_example :
    let out = write_json crossed (λ i. 7) 101 in
    IsFilled (λ i. 7) 100 (concat (json_texts crossed)) out × (out.0 out.1 ≡ 0)
write_json-IsFilled_example = write_json-IsFilled crossed (λ i. 7) 100

abbrev sale : MetricsEvent
sale = record { tsc = 1; ticks = 0; payload = trade (pos 100) 5 3; otype = match; flags = 0 }

abbrev timing : MetricsEvent
timing = record { tsc = 2; ticks = 40; payload = latency; otype = match; flags = 0 }

abbrev storage : ℕ → TradeRec
storage i = record { px = pos 0; qty = pos 0; maker = 0 }

render-tape_example :
    (render
      (ingest_all (sale ∷ timing ∷ sale ∷ []) (new_aggregator 1 5 config storage))
      9
      0
      true
      0
      none).0.tape
    ≡ take max_tape (newest_first (sale ∷ timing ∷ sale ∷ []) [])
render-tape_example = render-tape (sale ∷ timing ∷ sale ∷ []) 1 5 config storage 9 0 0 true none

abbrev actions : List Action
actions = send sale ∷ turn 9 none ∷ send timing ∷ send sale ∷ []

fresh_consumed : (new_aggregator 1 5 config storage).consumed ≡ 0
unfolding new_aggregator
fresh_consumed = refl

stop_at-accounts_example :
    let s =
      stop_at
        (act_all (new_pipeline (λ i. timing) 0 (new_aggregator 1 5 config storage) 0) 0 actions)
        0
        20
        none in
    ((s.running.aggregator.consumed + s.recorder.drops) % 2 ^ 64 ≡ 3 % 2 ^ 64)
    × Queues s.running.ring []
stop_at-accounts_example =
    stop_at-accounts actions (λ i. timing) 0 (new_aggregator 1 5 config storage) 0 20 none
      fresh_consumed

-- A book with five shares offered at the third price.
abbrev shallow : OrderBook
shallow =
    let b = new_book (pos 1) (pos 5) 8 in
    let level = record (new_level (pos 3)) { head = some 0; total_quantity = 5 } in
    record b {
      asks = record (b.asks) {
        levels = λ i. if i == 2 then level else new_level (pos 0);
        best_idx = some 2;
      };
    }

shallow_bids : AreShort (get_depth shallow max_depth).0
unfolding get_depth new_book new_ladder
shallow_bids = tt

shallow_asks : AreShort (get_depth shallow max_depth).1
unfolding get_depth depth_up new_book new_ladder new_level index_to_price ◌+ℤ◌ ◌-ℤ◌
shallow_asks = (omega arith, tt)

render-depth_view_example :
    let s = (render (new_aggregator 1 5 config storage) 9 0 true 0 (some (depth_view shallow))).0 in
    (s.bids ≡ map shown (get_depth shallow max_depth).0)
    × (s.asks ≡ map shown (get_depth shallow max_depth).1)
render-depth_view_example =
    render-depth_view (new_aggregator 1 5 config storage) 9 0 0 true shallow (depth_view shallow)
      (λ i lt. refl) shallow_bids shallow_asks
