-- ===== src/Metrics/Alerts.antt =====
-- metrics/include/metrics_alerts.hpp: the alert rules over one snapshot.
pub mod Due
use ultra_low_latency_orderb.Prelude.{
  ℕ, ◌+◌, ◌-◌, Bool, true, false, ◌&&◌, List, [], ◌∷◌, ◌++◌, length, take, get_or, ltb, ◌==◌,
  if◌then◌else◌,
}
use ultra_low_latency_orderb.Prelude.Int.{ℤ, pos, ltb_ℤ, leb_ℤ, ◌-ℤ◌}
use ultra_low_latency_orderb.Metrics.{Bytes, codes, Double, Printer, OpStat, Alert, MetricsSnapshot}

pub record AlertConfig (W : Type 0) : Type 0 where
  pub p99_ns : W
  pub spread_max : ℤ
  pub on_drops : Bool
  pub on_crossed : Bool

-- `AlertConfig{}`.
unfoldable pub default_config : {W : Type 0} ⦃d : Double W⦄ → AlertConfig W
default_config ⦃d⦄ = record {
  p99_ns = d.ratio 5000 1;
  spread_max = pos 0;
  on_drops = true;
  on_crossed = true;
}

-- `CAP`.
abbrev pub max_alerts : ℕ
max_alerts = 8

-- The lambda `add`, and the text that `snprintf` puts into its 80 bytes.
unfoldable pub raise : List Alert → Bytes → Bytes → Bytes → List Alert
raise alerts level code_name text =
    if ltb (length alerts) max_alerts
    then alerts ++ (record { level = level; code_name = code_name; text = take 79 text } ∷ [])
    else alerts

module _ {W : Type 0} ⦃d : Double W⦄ ⦃p : Printer W⦄ where
  abbrev pub has_both_sides : MetricsSnapshot W → Bool
  has_both_sides s = s.have_book && ltb_ℤ (pos 0) s.best_bid && ltb_ℤ (pos 0) s.best_ask

  abbrev pub is_crossed : AlertConfig W → MetricsSnapshot W → Bool
  is_crossed cfg s = cfg.on_crossed && has_both_sides s && leb_ℤ s.best_ask s.best_bid

  unfoldable pub check_crossed : AlertConfig W → MetricsSnapshot W → List Alert → List Alert
  check_crossed cfg s alerts =
      if is_crossed cfg s
      then raise alerts (codes "crit") (codes "crossed") (
          codes "crossed book: bid "
          ++ p.signed s.best_bid
          ++ codes " >= ask "
          ++ p.signed s.best_ask)
      else alerts

  abbrev pub is_wide : AlertConfig W → MetricsSnapshot W → Bool
  is_wide cfg s =
      ltb_ℤ (pos 0) cfg.spread_max
      && has_both_sides s
      && ltb_ℤ cfg.spread_max (s.best_ask -ℤ s.best_bid)

  unfoldable pub check_spread : AlertConfig W → MetricsSnapshot W → List Alert → List Alert
  check_spread cfg s alerts =
      if is_wide cfg s
      then raise alerts (codes "warn") (codes "spread") (
          codes "spread "
          ++ p.signed (s.best_ask -ℤ s.best_bid)
          ++ codes " > "
          ++ p.signed cfg.spread_max)
      else alerts

  abbrev pub has_dropped : AlertConfig W → MetricsSnapshot W → ℕ → Bool
  has_dropped cfg s last_drops = cfg.on_drops && ltb last_drops s.drops

  unfoldable pub check_drops : AlertConfig W → MetricsSnapshot W → ℕ → List Alert → List Alert
  check_drops cfg s last_drops alerts =
      if has_dropped cfg s last_drops
      then raise alerts (codes "warn") (codes "drops")
          (p.unsigned (s.drops - last_drops) ++ codes " new drops (ring overflow)")
      else alerts

  abbrev pub is_timed : AlertConfig W → MetricsSnapshot W → Bool
  is_timed cfg s = d.gt cfg.p99_ns d.nought && (get_or s.latency_unit 0 0 == b'n')

  -- The loop over the operations that are left.
  unfoldable pub check_ops : AlertConfig W → List (OpStat W) → List Alert → List Alert
  check_ops cfg [] alerts = alerts
  check_ops cfg (o ∷ ops) alerts = check_ops cfg ops (
      if d.gt o.p99 cfg.p99_ns
      then raise alerts (codes "warn") (codes "p99") (
          o.name
          ++ codes " p99 "
          ++ p.fixed 0 o.p99
          ++ codes " ns > "
          ++ p.fixed 0 cfg.p99_ns
          ++ codes " ns")
      else alerts)

  unfoldable pub check_p99 : AlertConfig W → MetricsSnapshot W → List Alert → List Alert
  check_p99 cfg s alerts = if is_timed cfg s then check_ops cfg s.ops alerts else alerts

  -- The snapshot with its alerts, and `last_drops` afterwards.
  unfoldable pub evaluate_alerts : MetricsSnapshot W → AlertConfig W → ℕ → MetricsSnapshot W × ℕ
  evaluate_alerts s cfg last_drops =
      let raised = check_drops cfg s last_drops (check_spread cfg s (check_crossed cfg s [])) in
      (record s { alerts = check_p99 cfg s raised }, s.drops)
