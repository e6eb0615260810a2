-- ===== src/Ring/Queue.antt =====
-- One thread at a time, the ring is a queue of at most `ring_cap` values.
use ultra_low_latency_orderb.Prelude.{
  ℕ, ◌+◌, ◌<◌, ◌≤◌, ◌≡◌, refl, subst, ap, arith, Bool-cases, inl, inr, Option, none, some, List, [],
  ◌∷◌, ◌++◌, length, ltb, if◌then◌else◌, lt→ltb, ltb-false,
}
use ultra_low_latency_orderb.Ring.{
  Ring, ring_cap, new_ring, has_room, refresh_tail, put, publish_head, try_push, seems_empty,
  refresh_head, peek, publish_tail, try_pop,
}
use ultra_low_latency_orderb.Ring.Held.{
  IsRing, has_room-true, has_room-false, seems_empty-true, seems_empty-false, refresh_tail-IsRing,
  refresh_head-IsRing, length-le-cap, put-IsRing, publish_head-IsRing, first_held,
  publish_tail-IsRing,
}

module _ {ℓ} {A : Type ℓ} where
  -- The ring holds `xs`, whatever its caches say.
  pub record Queues (r : Ring A) (xs : List A) : Type ℓ where
    pub popped : ℕ
    pub seen_tail : ℕ
    pub seen_head : ℕ
    pub ring : IsRing r xs popped seen_tail seen_head

  pub new_ring-IsRing : (storage : ℕ → A) → IsRing (new_ring storage) [] 0 0 0
  unfolding new_ring
  new_ring-IsRing storage = record {
    tail = refl;
    head = refl;
    tail_cache = refl;
    head_cache = refl;
    tail_behind = omega arith;
    head_ahead = omega arith;
    head_behind = omega arith;
    fits = omega arith;
    holds = tt;
  }

  pub new_ring-Queues : (storage : ℕ → A) → Queues (new_ring storage) []
  new_ring-Queues storage = record {
    popped = 0;
    seen_tail = 0;
    seen_head = 0;
    ring = new_ring-IsRing storage;
  }

  pub length-held : (r : Ring A) (xs : List A) → Queues r xs → length xs ≤ ring_cap
  length-held r xs q = length-le-cap r xs q.popped q.seen_tail q.seen_head q.ring

  -- The push that has found room.
  pushed-Queues :
      (r : Ring A) (xs : List A) (x : A) (n t h : ℕ)
      → IsRing r xs n t h
      → n + length xs < t + ring_cap
      → Queues (publish_head (put r x)) (xs ++ (x ∷ []))
  pushed-Queues r xs x n t h v room =
      let (w, e) = put-IsRing r xs n t h v x room in
      record {
        popped = _;
        seen_tail = _;
        seen_head = _;
        ring = publish_head-IsRing (put r x) xs n t h w x room e;
      }

  -- `try_push` on a ring that holds `xs` puts the value behind them and returns true where they are
  -- fewer than the capacity, and otherwise returns false and the ring holds `xs` still.
  pub try_push-Queues :
      (r : Ring A) (xs : List A) (x : A)
      → Queues r xs
      → ((try_push r x).1 ≡ ltb (length xs) ring_cap)
        × Queues (try_push r x).0 (if ltb (length xs) ring_cap then xs ++ (x ∷ []) else xs)
  unfolding try_push
  try_push-Queues r xs x q =
      let v = q.ring in
      elim (Bool-cases (has_room r)) [
        | inl room ↦
            let lt = has_room-true r xs q.popped q.seen_tail q.seen_head v room in
            let few = lt→ltb (length xs) ring_cap (omega (arith, v.tail_behind)) in
            rw (room, few) (refl, pushed-Queues r xs x q.popped q.seen_tail q.seen_head v lt)
        | inr none_cached ↦
            let w = refresh_tail-IsRing r xs q.popped q.seen_tail q.seen_head v in
            elim (Bool-cases (has_room (refresh_tail r))) [
              | inl room ↦
                  let lt = has_room-true (refresh_tail r) xs q.popped q.popped q.seen_head w room in
                  let few = lt→ltb (length xs) ring_cap (omega arith) in
                  rw (none_cached, room, few)
                    (refl, pushed-Queues (refresh_tail r) xs x q.popped q.popped q.seen_head w lt)
              | inr full ↦
                  let eq =
                    has_room-false (refresh_tail r) xs q.popped q.popped q.seen_head w full in
                  let many = ltb-false (length xs) ring_cap (omega arith) in
                  rw (none_cached, full, many)
                    (refl, record { popped = _; seen_tail = _; seen_head = _; ring = w })
            ]
      ]

  -- What a pop of a queue gives, and what it leaves.
  abbrev pub popped_from : List A → Option A
  popped_from [] = none
  popped_from (x ∷ xs) = some x

  abbrev pub left_after : List A → List A
  left_after [] = []
  left_after (x ∷ xs) = xs

  -- The pop that has found a value.
  popped-Queues :
      (r : Ring A) (xs : List A) (n t h : ℕ)
      → IsRing r xs n t h
      → n < h
      → (some (peek r) ≡ popped_from xs) × Queues (publish_tail r) (left_after xs)
  popped-Queues r xs n t h v lt =
      let (x, ys, e, p) = first_held r xs n t h v lt in
      let w = publish_tail-IsRing r x ys n t h (subst (λ k. IsRing r k n t h) e v) lt in
      rw e (ap some p, record { popped = _; seen_tail = _; seen_head = _; ring = w })

  -- `try_pop` on a ring that holds `xs` gives the first of them and leaves the others, and returns
  -- false where there is none.
  pub try_pop-Queues :
      (r : Ring A) (xs : List A)
      → Queues r xs
      → ((try_pop r).1 ≡ popped_from xs) × Queues (try_pop r).0 (left_after xs)
  unfolding try_pop
  try_pop-Queues r xs q =
      let v = q.ring in
      elim (Bool-cases (seems_empty r)) [
        | inr more ↦ rw more (
            popped-Queues r xs q.popped q.seen_tail q.seen_head v
              (seems_empty-false r xs q.popped q.seen_tail q.seen_head v more))
        | inl cached ↦
            let w = refresh_head-IsRing r xs q.popped q.seen_tail q.seen_head v in
            elim (Bool-cases (seems_empty (refresh_head r))) [
              | inr more ↦
                  rw (cached, more)
                    (popped-Queues (refresh_head r) xs q.popped q.seen_tail (q.popped + length xs) w
                      (seems_empty-false (refresh_head r) xs q.popped q.seen_tail
                        (q.popped + length xs) w more))
              | inl empty ↦
                  rw (cached, empty)
                    (drained xs
                      (seems_empty-true (refresh_head r) xs q.popped q.seen_tail
                        (q.popped + length xs) w empty)
                      (record { popped = _; seen_tail = _; seen_head = _; ring = w }))
            ]
      ]
    where
      drained :
          (ys : List A)
          → q.popped ≡ q.popped + length ys
          → Queues (refresh_head r) ys
          → (none ≡ popped_from ys) × Queues (refresh_head r) (left_after ys)
      drained [] e w = (refl, w)
      drained (y ∷ ys) e w = absurd (omega arith)
