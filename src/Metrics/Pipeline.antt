-- ===== src/Metrics/Pipeline.antt =====
-- Recorder, ring and aggregator together: what the engine sends and what the aggregator counts.
pub mod Accounts
use ultra_low_latency_orderb.Prelude.{ℕ, ◌+◌, List, [], ◌∷◌, Option}
use ultra_low_latency_orderb.BookView.{View}
use ultra_low_latency_orderb.Ring.{Ring, new_ring}
use ultra_low_latency_orderb.Metrics.{Double, Printer, MetricsEvent, TradeRec}
use ultra_low_latency_orderb.Metrics.Recorder.{MetricsRecorder, new_recorder, send_event}
use ultra_low_latency_orderb.Metrics.Alerts.{AlertConfig}
use ultra_low_latency_orderb.Metrics.Aggregator.{
  Aggregator, Running, new_aggregator, run_round, run_final,
}

-- The recorder, and the loop of `run` over the same ring.
pub record Pipeline (W : Type 0) : Type 0 where
  pub recorder : MetricsRecorder
  pub running : Running W

-- What happens between the start and `stop`: the engine sends an event, or the aggregator goes
-- once through its loop, at a time `t` and with what it then reads of the view.
pub data Action : Type 0 where
  send : MetricsEvent → Action
  turn : (t : ℕ) (view : Option View) → Action

abbrev pub count_sent : List Action → ℕ
count_sent [] = 0
count_sent (send e ∷ acts) = 1 + count_sent acts
count_sent (turn t view ∷ acts) = count_sent acts

module _ {W : Type 0} ⦃d : Double W⦄ ⦃p : Printer W⦄ where
  unfoldable pub act : Pipeline W → ℕ → Action → Pipeline W
  act s t_start (send e) =
      let (recorder, ring) = send_event (s.recorder, s.running.ring) e in
      record { recorder = recorder; running = record (s.running) { ring = ring } }
  act s t_start (turn t view) = record s {
    running = run_round s.running t t_start s.recorder.drops view;
  }

  unfoldable pub act_all : Pipeline W → ℕ → List Action → Pipeline W
  unfolding act
  act_all s t_start [] = s
  act_all s t_start (a ∷ acts) = act_all (act s t_start a) t_start acts

  -- The final drain and the last snapshot.
  unfoldable pub stop_at : Pipeline W → ℕ → ℕ → Option View → Pipeline W
  stop_at s t_start t view = record s {
    running = run_final s.running t t_start s.recorder.drops view;
  }

  -- Before anything was sent.
  unfoldable pub new_pipeline :
      (storage : ℕ → MetricsEvent) (mask : ℕ) (a : Aggregator W) (t_start : ℕ) → Pipeline W
  new_pipeline storage mask a t_start = record {
    recorder = new_recorder mask;
    running = record {
      ring = new_ring storage;
      aggregator = a;
      next_render = t_start + a.render_ns;
      shown = [];
    };
  }
