-- ===== src/Ring/Tests.antt =====
-- A ring of numbers on which the theorems are run.
use ultra_low_latency_orderb.Prelude.{
  ℕ, ◌≤◌, ◌≡◌, refl, if◌then◌else◌, ltb, some, List, [], ◌∷◌, ◌++◌, length,
}
use ultra_low_latency_orderb.Ring.{Ring, ring_cap, new_ring, has_room, put, try_push, try_pop}
use ultra_low_latency_orderb.Ring.Held.{Holds}
use ultra_low_latency_orderb.Ring.Queue.{Queues, new_ring-Queues, try_push-Queues, try_pop-Queues}
use ultra_low_latency_orderb.Ring.Interleave.{
  Producer, System, begin_push, advance_push, start, Step, Reach,
}
use ultra_low_latency_orderb.Ring.Safety.{Reach-prefix, Reach-put_apart}

abbrev blank : ℕ → ℕ
blank i = 0

-- A ring that holds 5.
abbrev one_held : Ring ℕ
one_held = (try_push (new_ring blank) 5).0

one_held-Queues : Queues one_held (5 ∷ [])
one_held-Queues = (try_push-Queues (new_ring blank) [] 5 (new_ring-Queues blank)).1

try_push-Queues_example :
    ((try_push one_held 6).1 ≡ ltb 1 ring_cap)
    × Queues (try_push one_held 6).0 (if ltb 1 ring_cap then 5 ∷ 6 ∷ [] else 5 ∷ [])
try_push-Queues_example = try_push-Queues one_held (5 ∷ []) 6 one_held-Queues

try_pop-Queues_example : ((try_pop one_held).1 ≡ some 5) × Queues (try_pop one_held).0 []
try_pop-Queues_example = try_pop-Queues one_held (5 ∷ []) one_held-Queues

-- A push of 5 that has found room, and the same push after it has published.
abbrev pushing : System ℕ
pushing = begin_push (start blank) 5

pushing-Reach : Reach blank pushing
pushing-Reach = Reach.next Reach.here (Step.push 5 refl)

abbrev written : System ℕ
written = advance_push pushing.producer pushing

abbrev published : System ℕ
published = advance_push written.producer written

Reach-prefix_example :
    (held : List ℕ) × (published.pushed ≡ published.popped ++ held) × (length held ≤ ring_cap)
Reach-prefix_example =
    Reach-prefix blank published (Reach.next (Reach.next pushing-Reach Step.produce) Step.produce)

pushing_writes : pushing.producer ≡ Producer.writing 5
unfolding begin_push has_room new_ring
pushing_writes = refl

Reach-put_apart_example :
    (held : List ℕ) × (pushing.pushed ≡ pushing.popped ++ held)
    × Holds pushing.ring.buf (length pushing.popped) held
    × Holds (put pushing.ring 5).buf (length pushing.popped) held
Reach-put_apart_example = Reach-put_apart blank pushing 5 pushing-Reach pushing_writes
