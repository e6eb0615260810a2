-- ===== src/Histogram.antt =====
-- metrics/include/latency_histogram.hpp: a log-linear histogram of 32-bit tick counts.
-- The array of buckets is a function of the index, read below `num_buckets` alone. `percentile`
-- takes the rank that the source computes in floating point; mean is left out for the same reason.
pub mod Accuracy
pub mod Counts
pub mod Ranks
mod Tests
use ultra_low_latency_orderb.Prelude.{
  ℕ, zero, suc, ◌+◌, ◌-◌, ◌*◌, ◌/◌, ◌%◌, ◌^◌, ltb, leb, ◌==◌, if◌then◌else◌, write, add64,
}
use ultra_low_latency_orderb.Bitmap.{leading_zeros}

-- `SUB_BITS`, `SUB` and `NB`.
abbrev pub sub_bits : ℕ
sub_bits = 5

abbrev pub sub_count : ℕ
sub_count = 32

abbrev pub num_buckets : ℕ
num_buckets = 896

pub record LatencyHistogram : Type 0 where
  pub bucket : ℕ → ℕ
  pub count : ℕ
  pub sum : ℕ
  pub max_value : ℕ
  pub min_value : ℕ

-- `31u - __builtin_clz(v)`.
unfoldable pub highest_bit : ℕ → ℕ
highest_bit v = 31 - leading_zeros 32 v

unfoldable pub bucket_of : ℕ → ℕ
bucket_of v =
    if ltb v sub_count
    then v
    else (highest_bit v - sub_bits + 1) * sub_count + v / 2 ^ (highest_bit v - sub_bits) % sub_count

unfoldable pub value_of : ℕ → ℕ
value_of b =
    if ltb b sub_count then b else (sub_count + b % sub_count) * 2 ^ (b / sub_count - 1) % 2 ^ 32

-- `reset`, and so the constructor.
unfoldable pub reset : LatencyHistogram
reset = record { bucket = λ b. 0; count = 0; sum = 0; max_value = 0; min_value = 2 ^ 32 - 1 }

-- `record(v)`.
unfoldable pub record_value : LatencyHistogram → ℕ → LatencyHistogram
record_value h v = record {
  bucket = write h.bucket (bucket_of v) (add64 (h.bucket (bucket_of v)) 1);
  count = add64 h.count 1;
  sum = add64 h.sum v;
  max_value = if ltb h.max_value v then v else h.max_value;
  min_value = if ltb v h.min_value then v else h.min_value;
}

unfoldable pub merge : LatencyHistogram → LatencyHistogram → LatencyHistogram
merge h o = record {
  bucket = λ b. add64 (h.bucket b) (o.bucket b);
  count = add64 h.count o.count;
  sum = add64 h.sum o.sum;
  max_value = if ltb h.max_value o.max_value then o.max_value else h.max_value;
  min_value = if ltb o.min_value h.min_value then o.min_value else h.min_value;
}

-- The rank after the two tests of `percentile`.
unfoldable pub clamped : ℕ → ℕ → ℕ
clamped count rank = let r = if rank == 0 then 1 else rank in if ltb count r then count else r

-- The loop of `percentile` over the `n` buckets from `b` on.
unfoldable pub scan_rank : ℕ → LatencyHistogram → ℕ → ℕ → ℕ → ℕ
scan_rank zero h rank b acc = h.max_value
scan_rank (suc n) h rank b acc =
    let acc' = add64 acc (h.bucket b) in
    let rest = scan_rank n h rank (suc b) acc' in if leb rank acc' then value_of b else rest

unfoldable pub percentile : LatencyHistogram → ℕ → ℕ
percentile h rank = if h.count == 0 then 0 else scan_rank num_buckets h (clamped h.count rank) 0 0

-- `min()`.
unfoldable pub min_of : LatencyHistogram → ℕ
min_of h = if h.count == 0 then 0 else h.min_value
