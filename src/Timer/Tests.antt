-- ===== src/Timer/Tests.antt =====
-- Readings of the clock on which the theorem is run.
use ultra_low_latency_orderb.Prelude.{◌+◌, ◌≡◌, arith}
use ultra_low_latency_orderb.Timer.{ns_between}
use ultra_low_latency_orderb.Timer.Elapsed.{clock, ns_between-clock}

ns_between-clock_example :
    ns_between (clock 5 999_999_999) (clock 7 3) + 5_999_999_999 ≡ 7_000_000_003
ns_between-clock_example =
    ns_between-clock 5 999_999_999 7 3 (omega arith) (omega arith) (omega arith) (omega arith)
