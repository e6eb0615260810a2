-- ===== src/Metrics.antt =====
-- metrics/include/metrics_event.hpp and metrics_snapshot.hpp: what the hot thread sends, and the
-- view that the aggregator makes of it. A `double` is a type of the model's user, with the
-- operations that the code applies to it; a text is its bytes. An array beside the number of its
-- used entries is the list of those entries.
pub mod Recorder
pub mod Alerts
pub mod Json
pub mod Aggregator
pub mod Pipeline
pub mod Published
mod Tests
use Prim.Native.Char.{code}
use Prim.Native.String.{String}
use ultra_low_latency_orderb.Prelude.{ℕ, zero, suc, ◌+◌, ◌*◌, ◌/◌, ◌%◌, ◌^◌, Bool, List, [], ◌∷◌}
use ultra_low_latency_orderb.Prelude.Int.{ℤ, signed64}
use ultra_low_latency_orderb.BookView.{View}

abbrev pub Bytes : Type 0
Bytes = List ℕ

abbrev pub codes : String → Bytes
codes String.[] = []
codes (String.◌∷◌ c s) = code c ∷ codes s

-- What the code does with a `double`. `rank p count` is `(uint64_t)ceil(p * 0.01 * count)`, and
-- `ratio a b` the literal or quotient a / b of two integers; `gt` is `>`.
pub record Double (W : Type 0) : Type 0 where
  pub nought : W
  pub ratio : ℕ → ℕ → W
  pub times : W → W → W
  pub over : W → W → W
  pub gt : W → W → Bool
  pub rank : W → ℕ → ℕ

-- What the code prints through `snprintf`: `%llu`, `%lld`, and `%.Nf`.
pub record Printer (W : Type 0) : Type 0 where
  pub unsigned : ℕ → Bytes
  pub signed : ℤ → Bytes
  pub fixed : ℕ → W → Bytes

pub data OpType : Type 0 where
  add cancel modify match market : OpType

-- The tag of an event with the union member that goes with it.
pub data Payload : Type 0 where
  latency : Payload
  snapshot : (best_bid best_ask : ℤ) → Payload
  trade : (price : ℤ) (qty maker : ℕ) → Payload

pub record MetricsEvent : Type 0 where
  pub tsc : ℕ
  pub ticks : ℕ
  pub payload : Payload
  pub otype : OpType
  pub flags : ℕ

pub record OpStat (W : Type 0) : Type 0 where
  pub name : Bytes
  pub count : ℕ
  pub ops_per_s : W
  pub p50 : W
  pub p99 : W
  pub p999 : W
  pub max_ns : W

pub record Alert : Type 0 where
  pub level : Bytes
  pub code_name : Bytes
  pub text : Bytes

pub record DepthLevel : Type 0 where
  pub px : ℤ
  pub qty : ℤ

pub record TradeRec : Type 0 where
  pub px : ℤ
  pub qty : ℤ
  pub maker : ℕ

-- `MAX_DEPTH` and `MAX_TAPE`.
abbrev pub max_depth : ℕ
max_depth = 10

abbrev pub max_tape : ℕ
max_tape = 16

pub record MetricsSnapshot (W : Type 0) : Type 0 where
  pub uptime_s : W
  pub final : Bool
  pub events : ℕ
  pub trades : ℕ
  pub snaps : ℕ
  pub drops : ℕ
  pub latency_unit : Bytes
  pub have_book : Bool
  pub best_bid : ℤ
  pub best_ask : ℤ
  pub last_px : ℤ
  pub volume : ℕ
  pub ops : List (OpStat W)
  pub alerts : List Alert
  pub bids : List DepthLevel
  pub asks : List DepthLevel
  pub tape : List TradeRec

-- The levels that stand in a `BookView` from word `k` on, `n` of them.
unfoldable pub levels_from : ℕ → View → ℕ → List DepthLevel
levels_from zero v k = []
levels_from (suc n) v k =
    record { px = signed64 (v k); qty = signed64 (v (k + 1)) } ∷ levels_from n v (k + 2)

-- `nbids` and `bids`, and `nasks` and `asks`, of a `BookView`.
unfoldable pub view_bids : View → List DepthLevel
unfolding levels_from
view_bids v = levels_from (v 0 % 2 ^ 32) v 1

unfoldable pub view_asks : View → List DepthLevel
unfolding levels_from
view_asks v = levels_from (v 0 / 2 ^ 32) v (1 + 2 * max_depth)
