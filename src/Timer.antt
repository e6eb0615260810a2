-- ===== src/Timer.antt =====
-- include/rdtsc_timer.hpp: the conversions and statistics of the cycle timer, on x86. The counter
-- and the clock are read by code outside of it, and what they give is an argument.
pub mod Elapsed
mod Tests
use ultra_low_latency_orderb.Prelude.{
  ℕ, zero, suc, ◌+◌, ◌-◌, ◌*◌, ◌%◌, ◌^◌, Option, none, some, List, [], ◌∷◌, length, get_or, ltb,
  ◌==◌, if◌then◌else◌, sub64,
}
use ultra_low_latency_orderb.Prelude.Int.{ℤ, ◌-ℤ◌, bits64}
use ultra_low_latency_orderb.Metrics.{Double}

pub record Timespec : Type 0 where
  pub tv_sec : ℤ
  pub tv_nsec : ℤ

unfoldable pub ns_between : Timespec → Timespec → ℕ
ns_between a b =
    (bits64 (b.tv_sec -ℤ a.tv_sec) * 1_000_000_000 % 2 ^ 64 + bits64 (b.tv_nsec -ℤ a.tv_nsec))
    % 2 ^ 64

-- The busy wait of `calibrate`: the readings of the clock that are left once one is 200 ms after
-- `t0`, and none where there is none.
unfoldable pub wait_from : Timespec → List Timespec → Option (List Timespec)
unfolding ns_between
wait_from t0 [] = none
wait_from t0 (t1 ∷ readings) =
    let rest = wait_from t0 readings in
    if ltb (ns_between t0 t1) 200_000_000 then rest else some readings

-- The least difference of the readings before and after, and `best`.
unfoldable pub least_from : ℕ → List (ℕ × ℕ) → ℕ
least_from best [] = best
least_from best ((s, e) ∷ tries) =
    least_from (if ltb (sub64 e s) best then sub64 e s else best) tries

unfoldable pub measure_timer_overhead : List (ℕ × ℕ) → ℕ
unfolding least_from
measure_timer_overhead tries =
    let best = least_from (2 ^ 64 - 1) tries in if best == 2 ^ 64 - 1 then 0 else best

-- `percentile`: `idx` is the size of the vector times `p`, cut to a whole number.
unfoldable pub percentile_at : List ℕ → ℕ → ℕ
percentile_at [] idx = 0
percentile_at (x ∷ xs) idx =
    get_or (x ∷ xs) (if ltb idx (length (x ∷ xs)) then idx else length (x ∷ xs) - 1) 0

module _ {W : Type 0} ⦃d : Double W⦄ where
  unfoldable pub ticks_to_ns : ℕ → ℕ → W
  ticks_to_ns tsc_hz ticks =
      d.over (d.times (d.ratio ticks 1) (d.ratio 1_000_000_000 1)) (d.ratio tsc_hz 1)

  -- `calibrate`: the counter is read as `c0` after `t0` and as `c1` after the wait, and the clock
  -- once more after that; `whole` cuts a double to a whole number.
  unfoldable pub calibrate : (whole : W → ℕ) → Timespec → ℕ → List Timespec → ℕ → Option ℕ
  calibrate whole t0 c0 readings c1 = elim (wait_from t0 readings) [
    | none ↦ none
    | some [] ↦ none
    | some (t1 ∷ _) ↦
        some (whole (d.over (d.ratio (sub64 c1 c0) 1) (d.ratio (ns_between t0 t1) 1_000_000_000)))
  ]
