-- ===== src/Ring/Safety.antt =====
-- What no order of the two threads' accesses can do to the values in the ring.
use ultra_low_latency_orderb.Prelude.{ℕ, ◌+◌, ◌≤◌, ◌≡◌, subst, List, ◌++◌, length}
use ultra_low_latency_orderb.Ring.{ring_cap, put}
use ultra_low_latency_orderb.Ring.Held.{Holds, length-le-cap, put-IsRing}
use ultra_low_latency_orderb.Ring.Interleave.{Producer, System, Reach}
use ultra_low_latency_orderb.Ring.Running.{Reach-IsRunning, KnowsRoom}

module _ {ℓ} {A : Type ℓ} where
  -- In every state that the two threads can reach, by any order of their accesses, the values
  -- popped are the first of the values pushed, in their order, and those still to come are at most
  -- as many as the ring has slots.
  pub Reach-prefix :
      (storage : ℕ → A) (s : System A)
      → Reach storage s
      → (held : List A) × (s.pushed ≡ s.popped ++ held) × (length held ≤ ring_cap)
  Reach-prefix storage s r =
      let w = Reach-IsRunning r in
      (
        w.held,
        w.history,
        length-le-cap s.ring w.held (length s.popped) w.seen_tail w.seen_head w.ring,
      )

  -- A push that is about to write its slot, in a state that the threads can reach, writes none of
  -- the slots that hold a value still to be popped.
  pub Reach-put_apart :
      (storage : ℕ → A) (s : System A) (v : A)
      → Reach storage s
      → s.producer ≡ Producer.writing v
      → (held : List A) × (s.pushed ≡ s.popped ++ held)
        × Holds s.ring.buf (length s.popped) held
        × Holds (put s.ring v).buf (length s.popped) held
  Reach-put_apart storage s v r e =
      let w = Reach-IsRunning r in
      let k =
        subst (λ p. KnowsRoom p s.ring.buf (length s.popped + length w.held) w.seen_tail) e
          w.producer in
      let (after, _) =
        put-IsRing s.ring w.held (length s.popped) w.seen_tail w.seen_head w.ring v k.0 in
      (w.held, w.history, w.ring.holds, after.holds)
