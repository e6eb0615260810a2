-- ===== src/Metrics/Recorder.antt =====
-- metrics/include/metrics_recorder.hpp, with METRICS_ENABLED: the events of the hot thread. The
-- time stamp counter is an argument, and the ring is passed along.
use Prim.Native.Nat.{bit_and}
use ultra_low_latency_orderb.Prelude.{
  ℕ, ◌+◌, ◌-◌, ◌%◌, ◌^◌, Bool, Option, none, some, ◌==◌, if◌then◌else◌, add64,
}
use ultra_low_latency_orderb.Prelude.Int.{ℤ}
use ultra_low_latency_orderb.Ring.{Ring, try_push}
use ultra_low_latency_orderb.Metrics.{OpType, add, match, latency, snapshot, trade, MetricsEvent}

pub record MetricsRecorder : Type 0 where
  pub sample_count : ℕ
  pub sample_mask : ℕ
  pub drops : ℕ

unfoldable pub new_recorder : ℕ → MetricsRecorder
new_recorder sample_mask = record { sample_count = 0; sample_mask = sample_mask; drops = 0 }

-- The recorder and its ring.
abbrev pub Recording : Type 0
Recording = MetricsRecorder × Ring MetricsEvent

-- `if (!ring_->try_push(e)) drops_.fetch_add(1)`.
unfoldable pub send_event : Recording → MetricsEvent → Recording
send_event (rec, ring) e =
    let (ring', sent) = try_push ring e in
    (if sent then rec else record rec { drops = add64 rec.drops 1 }, ring')

unfoldable pub record_latency : Recording → OpType → ℕ → ℕ → Recording
record_latency (rec, ring) op ticks tsc_now =
    let counted : MetricsRecorder = record rec { sample_count = add64 rec.sample_count 1 } in
    if bit_and rec.sample_count rec.sample_mask == 0
    then send_event (counted, ring)
        (record { tsc = tsc_now; ticks = ticks; payload = latency; otype = op; flags = 0 })
    else (counted, ring)

unfoldable pub record_snapshot : Recording → ℕ → ℤ → ℤ → Recording
record_snapshot r tsc best_bid best_ask =
    send_event r (record {
      tsc = tsc;
      ticks = 0;
      payload = snapshot best_bid best_ask;
      otype = add;
      flags = 0;
    })

unfoldable pub record_trade : Recording → ℕ → ℤ → ℕ → ℕ → Recording
record_trade r tsc price qty maker =
    send_event r
      (record { tsc = tsc; ticks = 0; payload = trade price qty maker; otype = match; flags = 0 })

-- The two ends of a `ScopedLatency`, over a recorder that may be null: `t0` and `t1` are the time
-- stamps that they read.
unfoldable pub scope_start : Bool → ℕ → ℕ
scope_start attached t0 = if attached then t0 else 0

unfoldable pub scope_end : Option Recording → OpType → ℕ → ℕ → Option Recording
scope_end none op t0 t1 = none
scope_end (some r) op t0 t1 = some (record_latency r op ((t1 + 2 ^ 64 - t0) % 2 ^ 64 % 2 ^ 32) t1)
