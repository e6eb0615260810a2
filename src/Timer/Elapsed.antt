-- ===== src/Timer/Elapsed.antt =====
-- What the timer's differences say.
use ultra_low_latency_orderb.Prelude.{ℕ, ◌+◌, ◌*◌, ◌^◌, ◌<◌, ◌≤◌, ◌≡◌, arith}
use ultra_low_latency_orderb.Prelude.Int.{pos, ◌-ℤ◌}
use ultra_low_latency_orderb.Timer.{Timespec, ns_between}

abbrev pub clock : ℕ → ℕ → Timespec
clock sec nsec = record { tv_sec = pos sec; tv_nsec = pos nsec }

-- From an earlier reading of the clock to a later one, both with less than a second of nanoseconds,
-- `nsBetween` gives the nanoseconds that have passed, if they are fewer than 2 ^ 64, also where the
-- nanosecond part has gone down.
pub ns_between-clock :
    (s n s' n' : ℕ)
    → n < 1_000_000_000
    → n' < 1_000_000_000
    → s * 1_000_000_000 + n ≤ s' * 1_000_000_000 + n'
    → s' * 1_000_000_000 + n' < s * 1_000_000_000 + n + 2 ^ 64
    → ns_between (clock s n) (clock s' n') + (s * 1_000_000_000 + n) ≡ s' * 1_000_000_000 + n'
unfolding ns_between ◌-ℤ◌
ns_between-clock s n s' n' lt lt' le few = ground arith
