-- ===== src/Metrics/Aggregator.antt =====
-- metrics/include/aggregator.hpp: the thread that drains the ring and makes a snapshot in each
-- cycle. The clock, the drop counter and the published view are arguments; the readout on the
-- console is left out, and a sink is whoever takes the snapshot that `render` returns.
pub mod Tape
use ultra_low_latency_orderb.Prelude.{
  ℕ, zero, suc, ◌+◌, ◌-◌, ◌*◌, ◌%◌, ◌^◌, Bool, true, false, Option, none, some, List, [], ◌∷◌, ◌++◌,
  ltb, leb, ◌==◌, if◌then◌else◌, write, add64, sub64,
}
use ultra_low_latency_orderb.Prelude.Int.{ℤ, pos}
use ultra_low_latency_orderb.Histogram.{LatencyHistogram, record_value, merge, reset, percentile}
use ultra_low_latency_orderb.Ring.{Ring, try_pop, ring_cap}
use ultra_low_latency_orderb.BookView.{View}
use ultra_low_latency_orderb.Metrics.{
  Bytes, codes, Double, Printer, OpType, add, cancel, modify, match, market, Payload, latency,
  snapshot, trade, MetricsEvent, OpStat, DepthLevel, TradeRec, max_tape, MetricsSnapshot, view_bids,
  view_asks,
}
use ultra_low_latency_orderb.Metrics.Alerts.{AlertConfig, evaluate_alerts}

-- `NUM_OPS`.
abbrev pub num_ops : ℕ
num_ops = 5

pub record Aggregator (W : Type 0) : Type 0 where
  pub ns_per_tick : W
  pub render_ns : ℕ
  pub alert_cfg : AlertConfig W
  pub last_drops_alert : ℕ
  pub tape : ℕ → TradeRec
  pub tape_next : ℕ
  pub tape_n : ℕ
  pub win : ℕ → LatencyHistogram
  pub cum : ℕ → LatencyHistogram
  pub consumed : ℕ
  pub trades : ℕ
  pub snaps : ℕ
  pub volume : ℕ
  pub best_bid : ℤ
  pub best_ask : ℤ
  pub last_px : ℤ
  pub last_render_ns : ℕ

-- The constructor and `setAlerts`, over whatever stands in the tape's storage.
unfoldable pub new_aggregator : {W : Type 0} → W → ℕ → AlertConfig W → (ℕ → TradeRec) → Aggregator W
new_aggregator ns_per_tick render_ns alert_cfg storage = record {
  ns_per_tick = ns_per_tick;
  render_ns = render_ns;
  alert_cfg = alert_cfg;
  last_drops_alert = 0;
  tape = storage;
  tape_next = 0;
  tape_n = 0;
  win = λ op. reset;
  cum = λ op. reset;
  consumed = 0;
  trades = 0;
  snaps = 0;
  volume = 0;
  best_bid = pos 0;
  best_ask = pos 0;
  last_px = pos 0;
  last_render_ns = 0;
}

-- `(uint32_t)op`.
abbrev pub op_index : OpType → ℕ
op_index add = 0
op_index cancel = 1
op_index modify = 2
op_index match = 3
op_index market = 4

unfoldable pub op_name : ℕ → Bytes
op_name op =
    if op == 0
    then codes "add"
    else if op == 1
    then codes "cancel"
    else if op == 2
    then codes "modify"
    else if op == 3
    then codes "match"
    else if op == 4
    then codes "market"
    else codes "?"

abbrev pub view_or : (View → List DepthLevel) → Option View → List DepthLevel
view_or levels none = []
view_or levels (some v) = levels v

-- What the loop of `run` keeps: the ring, the aggregator, `next_render`, and the snapshots that it
-- has handed on.
pub record Running (W : Type 0) : Type 0 where
  pub ring : Ring MetricsEvent
  pub aggregator : Aggregator W
  pub next_render : ℕ
  pub shown : List (MetricsSnapshot W)

-- `kDrainBurst`.
abbrev pub drain_burst : ℕ
drain_burst = 4096

module _ {W : Type 0} where
  -- The switch of `ingest`.
  unfoldable pub fold_event : Payload → MetricsEvent → Aggregator W → Aggregator W
  fold_event latency e a =
      if ltb (op_index e.otype) num_ops
      then record a {
        win = write a.win (op_index e.otype) (record_value (a.win (op_index e.otype)) e.ticks);
      }
      else a
  fold_event (snapshot best_bid best_ask) e a = record a {
    best_bid = best_bid;
    best_ask = best_ask;
    snaps = add64 a.snaps 1;
  }
  fold_event (trade price qty maker) e a = record a {
    last_px = price;
    volume = add64 a.volume qty;
    trades = add64 a.trades 1;
    tape = write a.tape a.tape_next (record { px = price; qty = pos qty; maker = maker });
    tape_next = (a.tape_next + 1) % max_tape;
    tape_n = if ltb a.tape_n max_tape then a.tape_n + 1 else a.tape_n;
  }

  unfoldable pub ingest : Aggregator W → MetricsEvent → Aggregator W
  unfolding fold_event
  ingest a e = fold_event e.payload e (record a { consumed = add64 a.consumed 1 })

  -- `for (i = 0; i < n; ++i) { if (!try_pop(e)) break; ingest(e); got = true; }`.
  unfoldable pub drain :
      ℕ → Ring MetricsEvent → Aggregator W → Bool → Ring MetricsEvent × Aggregator W × Bool
  drain zero ring a got = (ring, a, got)
  drain (suc n) ring a got =
      let (ring', popped) = try_pop ring in
      elim popped [ none ↦ (ring', a, got) | some e ↦ drain n ring' (ingest a e) true ]

  -- The loop that copies the tape, from entry `i` on with `n` left.
  unfoldable pub tape_from : ℕ → Aggregator W → ℕ → List TradeRec
  tape_from zero a i = []
  tape_from (suc n) a i =
      a.tape ((a.tape_next + max_tape - 1 - i) % max_tape) ∷ tape_from n a (i + 1)

module _ {W : Type 0} ⦃d : Double W⦄ ⦃p : Printer W⦄ where
  unfoldable pub to_ns : Aggregator W → ℕ → W
  to_ns a ticks =
      if d.gt a.ns_per_tick d.nought
      then d.times (d.ratio ticks 1) a.ns_per_tick
      else d.ratio ticks 1

  -- The row of one operation.
  unfoldable pub op_stat : Aggregator W → W → ℕ → LatencyHistogram → LatencyHistogram → OpStat W
  op_stat a win_s op win cum = record {
    name = op_name op;
    count = cum.count;
    ops_per_s = if d.gt win_s d.nought then d.over (d.ratio win.count 1) win_s else d.nought;
    p50 = to_ns a (percentile win (d.rank (d.ratio 50 1) win.count));
    p99 = to_ns a (percentile win (d.rank (d.ratio 99 1) win.count));
    p999 = to_ns a (percentile win (d.rank (d.ratio 999 10) win.count));
    max_ns = to_ns a cum.max_value;
  }

  -- The loop over the operations, from `op` on with `n` left: the rows are added to `rows`.
  unfoldable pub roll_ops :
      ℕ → ℕ → W → Aggregator W → List (OpStat W) → Aggregator W × List (OpStat W)
  roll_ops zero op win_s a rows = (a, rows)
  roll_ops (suc n) op win_s a rows =
      let total : LatencyHistogram = merge (a.cum op) (a.win op) in
      let rolled : Aggregator W = record a { cum = write a.cum op total } in
      if total.count == 0
      then roll_ops n (op + 1) win_s rolled rows
      else roll_ops n (op + 1) win_s (record rolled { win = write a.win op reset })
          (rows ++ (op_stat a win_s op (a.win op) total ∷ []))

  -- `render`: the snapshot and the aggregator afterwards. `drops` is what the counter says, and
  -- `view` what the read of the published book gives, where it returns true.
  unfoldable pub render :
      Aggregator W → ℕ → ℕ → Bool → ℕ → Option View → MetricsSnapshot W × Aggregator W
  render a t_now t_start final drops view =
      let win_s = d.ratio (sub64 t_now a.last_render_ns) 1_000_000_000 in
      let (b, rows) = roll_ops num_ops 0 win_s (record a { last_render_ns = t_now }) [] in
      let has_snaps = ltb 0 a.snaps in
      let (snap, last_drops) =
        evaluate_alerts
          (record {
            uptime_s = d.ratio (sub64 t_now t_start) 1_000_000_000;
            final = final;
            events = a.consumed;
            trades = a.trades;
            snaps = a.snaps;
            drops = drops;
            latency_unit = if d.gt a.ns_per_tick d.nought then codes "ns" else codes "tick";
            have_book = has_snaps;
            best_bid = if has_snaps then a.best_bid else pos 0;
            best_ask = if has_snaps then a.best_ask else pos 0;
            last_px = if has_snaps then a.last_px else pos 0;
            volume = if has_snaps then a.volume else 0;
            ops = rows;
            alerts = [];
            bids = view_or view_bids view;
            asks = view_or view_asks view;
            tape = tape_from a.tape_n a 0;
          })
          a.alert_cfg a.last_drops_alert in
      (snap, record b { last_drops_alert = last_drops })

  -- One round of the loop of `run`, at the time `t`.
  unfoldable pub run_round : Running W → ℕ → ℕ → ℕ → Option View → Running W
  run_round r t t_start drops view =
      let (ring, a, got) = drain drain_burst r.ring r.aggregator false in
      let (snap, b) = render a t t_start false drops view in
      if leb r.next_render t
      then record {
        ring = ring;
        aggregator = b;
        next_render = add64 t a.render_ns;
        shown = r.shown ++ (snap ∷ []);
      }
      else record { ring = ring; aggregator = a; next_render = r.next_render; shown = r.shown }

  -- The end of `run`, after `stop`: everything left is drained, one event more than the ring can
  -- hold being asked for, and the last snapshot is made.
  unfoldable pub run_final : Running W → ℕ → ℕ → ℕ → Option View → Running W
  run_final r t t_start drops view =
      let (ring, a, got) = drain (ring_cap + 1) r.ring r.aggregator false in
      let (snap, b) = render a t t_start true drops view in
      record {
        ring = ring;
        aggregator = b;
        next_render = r.next_render;
        shown = r.shown ++ (snap ∷ []);
      }
