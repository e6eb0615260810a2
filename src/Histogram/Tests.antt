-- ===== src/Histogram/Tests.antt =====
-- A few values on which the theorems are run.
use ultra_low_latency_orderb.Histogram.Ranks.{record_all, tally, percentile-record_all}
use ultra_low_latency_orderb.Prelude.{◌<◌, ◌≤◌, ◌*◌, ltb, leb, [], ◌∷◌, arith}
use ultra_low_latency_orderb.Histogram.{percentile}

percentile-record_all_example :
    let low = percentile (record_all (100 ∷ 7 ∷ [])) 2 in
    (tally (λ v. ltb v low) (100 ∷ 7 ∷ []) < 2)
    × (2 ≤ tally (λ v. leb (32 * v) (33 * low)) (100 ∷ 7 ∷ []))
percentile-record_all_example =
    percentile-record_all (100 ∷ 7 ∷ []) 2 (omega arith, (omega arith, tt)) (omega arith)
      (omega arith) (omega arith)
