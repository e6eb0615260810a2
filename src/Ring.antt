-- ===== src/Ring.antt =====
-- metrics/include/spsc_ring.hpp: a bounded ring between one producer and one consumer, at the
-- capacity that metrics/include/metrics_config.hpp gives it. The array is a function of the index.
-- `try_push` and `try_pop` are composed of the accesses that the interleavings take one by one.
pub mod Held
pub mod Queue
pub mod Interleave
pub mod Running
pub mod Safety
mod Tests
use ultra_low_latency_orderb.Prelude.{
  ℕ, ◌+◌, ◌%◌, Bool, true, false, Option, none, some, ltb, ◌==◌, if◌then◌else◌, write, add64, sub64,
}

-- `METRICS_RING_CAP`.
abbrev pub ring_cap : ℕ
ring_cap = 65536

pub record Ring {ℓ} (A : Type ℓ) : Type ℓ where
  pub head : ℕ
  pub tail_cache : ℕ
  pub tail : ℕ
  pub head_cache : ℕ
  pub buf : ℕ → A

module _ {ℓ} {A : Type ℓ} where
  -- A new ring, over whatever stands in the storage.
  unfoldable pub new_ring : (ℕ → A) → Ring A
  new_ring storage = record { head = 0; tail_cache = 0; tail = 0; head_cache = 0; buf = storage }

  -- `head - tail_cache_ < Cap`.
  unfoldable pub has_room : Ring A → Bool
  has_room r = ltb (sub64 r.head r.tail_cache) ring_cap

  unfoldable pub refresh_tail : Ring A → Ring A
  refresh_tail r = record r { tail_cache = r.tail }

  -- `buf_[head & MASK] = v`.
  unfoldable pub put : Ring A → A → Ring A
  put r v = record r { buf = write r.buf (r.head % ring_cap) v }

  unfoldable pub publish_head : Ring A → Ring A
  publish_head r = record r { head = add64 r.head 1 }

  unfoldable pub try_push : Ring A → A → Ring A × Bool
  try_push r v =
      if has_room r
      then (publish_head (put r v), true)
      else if has_room (refresh_tail r)
      then (publish_head (put (refresh_tail r) v), true)
      else (refresh_tail r, false)

  -- `tail == head_cache_`.
  unfoldable pub seems_empty : Ring A → Bool
  seems_empty r = r.tail == r.head_cache

  unfoldable pub refresh_head : Ring A → Ring A
  refresh_head r = record r { head_cache = r.head }

  -- `buf_[tail & MASK]`.
  unfoldable pub peek : Ring A → A
  peek r = r.buf (r.tail % ring_cap)

  unfoldable pub publish_tail : Ring A → Ring A
  publish_tail r = record r { tail = add64 r.tail 1 }

  -- `try_pop(out)`: what is stored in `out` where the result is true.
  unfoldable pub try_pop : Ring A → Ring A × Option A
  try_pop r =
      if seems_empty r
      then if seems_empty (refresh_head r)
        then (refresh_head r, none)
        else (publish_tail (refresh_head r), some (peek (refresh_head r)))
      else (publish_tail r, some (peek r))

  unfoldable pub size_approx : Ring A → ℕ
  size_approx r = sub64 r.head r.tail
