-- ===== src/Ring/Held.antt =====
-- What a ring holds, and how each access of spsc_ring.hpp changes it.
use ultra_low_latency_orderb.Prelude.{
  ℕ, suc, ◌+◌, ◌%◌, ◌^◌, ◌<◌, ◌≤◌, ◌≡◌, ◌≢◌, ◌∙◌, refl, ap, arith, true, false, List, [], ◌∷◌, ◌++◌,
  length, length-append, write, ==_true, ==_false,
}
use ultra_low_latency_orderb.Ring.{
  Ring, ring_cap, has_room, refresh_tail, put, publish_head, seems_empty, refresh_head, peek,
  publish_tail,
}

module _ {ℓ} {A : Type ℓ} where
  -- The slots from index `n` on hold `xs`.
  abbrev pub Holds : (ℕ → A) → ℕ → List A → Type ℓ
  Holds buf n [] = Unit
  Holds buf n (x ∷ xs) = (buf (n % ring_cap) ≡ x) × Holds buf (n + 1) xs

  -- The ring holds `xs`, of which the first was the `n`th value ever pushed; the caches lag by
  -- `t` and `h` pops and pushes, counted from the start without wrap.
  pub record IsRing (r : Ring A) (xs : List A) (n t h : ℕ) : Type ℓ where
    pub tail : r.tail ≡ n % 2 ^ 64
    pub head : r.head ≡ (n + length xs) % 2 ^ 64
    pub tail_cache : r.tail_cache ≡ t % 2 ^ 64
    pub head_cache : r.head_cache ≡ h % 2 ^ 64
    pub tail_behind : t ≤ n
    pub head_ahead : n ≤ h
    pub head_behind : h ≤ n + length xs
    pub fits : n + length xs ≤ t + ring_cap
    pub holds : Holds r.buf n xs

  pub Holds-write_else :
      (buf : ℕ → A) (n : ℕ) (xs : List A) (i : ℕ) (v : A)
      → n + length xs ≤ i
      → i < n + ring_cap
      → Holds buf n xs
      → Holds (write buf (i % ring_cap) v) n xs
  Holds-write_else buf n [] i v above below h = tt
  Holds-write_else buf n (x ∷ xs) i v above below h = (
    rw (==_false (n % ring_cap) (i % ring_cap) (apart n i (length xs) above below)) h.0,
    Holds-write_else buf (n + 1) xs i v (omega arith) (omega arith) h.1,
  )
    where
      apart : (n i k : ℕ) → n + suc k ≤ i → i < n + 65536 → n % 65536 ≢ i % 65536
      apart n i k above below e = omega arith

  pub Holds-append_one :
      (buf : ℕ → A) (n : ℕ) (xs : List A) (v : A)
      → Holds buf n xs
      → buf ((n + length xs) % ring_cap) ≡ v
      → Holds buf n (xs ++ (v ∷ []))
  Holds-append_one buf n [] v h e = (rw (zero_right n) at e, tt)
    where
      zero_right : (n : ℕ) → n + 0 ≡ n
      zero_right n = omega arith
  Holds-append_one buf n (x ∷ xs) v h e =
      (h.0, Holds-append_one buf (n + 1) xs v h.1 (rw (shift n (length xs)) at e))
    where
      shift : (n k : ℕ) → n + suc k ≡ n + 1 + k
      shift n k = omega arith

  module _ (r : Ring A) (xs : List A) (n t h : ℕ) (v : IsRing r xs n t h) where
    -- The producer's test says that there is room exactly where its cache says so.
    pub has_room-true : has_room r ≡ true → n + length xs < t + ring_cap
    unfolding has_room
    has_room-true e = ground arith

    pub has_room-false : has_room r ≡ false → n + length xs ≡ t + ring_cap
    unfolding has_room
    has_room-false e = ground arith

    pub seems_empty-true : seems_empty r ≡ true → n ≡ h
    unfolding seems_empty
    seems_empty-true e = ground arith

    pub seems_empty-false : seems_empty r ≡ false → n < h
    unfolding seems_empty
    seems_empty-false e = ground arith

    pub refresh_tail-IsRing : IsRing (refresh_tail r) xs n n h
    unfolding refresh_tail
    refresh_tail-IsRing = record {
      tail = v.tail;
      head = v.head;
      tail_cache = v.tail;
      head_cache = v.head_cache;
      tail_behind = omega arith;
      head_ahead = v.head_ahead;
      head_behind = v.head_behind;
      fits = omega arith;
      holds = v.holds;
    }

    pub refresh_head-IsRing : IsRing (refresh_head r) xs n t (n + length xs)
    unfolding refresh_head
    refresh_head-IsRing = record {
      tail = v.tail;
      head = v.head;
      tail_cache = v.tail_cache;
      head_cache = v.head;
      tail_behind = v.tail_behind;
      head_ahead = omega arith;
      head_behind = omega arith;
      fits = v.fits;
      holds = v.holds;
    }

    pub length-le-cap : length xs ≤ ring_cap
    length-le-cap = omega (arith, v.fits, v.tail_behind)

    pub put-IsRing :
        (x : A)
        → n + length xs < t + ring_cap
        → IsRing (put r x) xs n t h × ((put r x).buf ((n + length xs) % ring_cap) ≡ x)
    unfolding put
    put-IsRing x room =
        let at : r.head % ring_cap ≡ (n + length xs) % ring_cap = omega (arith, v.head) in
        (
          record {
            tail = v.tail;
            head = v.head;
            tail_cache = v.tail_cache;
            head_cache = v.head_cache;
            tail_behind = v.tail_behind;
            head_ahead = v.head_ahead;
            head_behind = v.head_behind;
            fits = v.fits;
            holds = rw at (
                Holds-write_else r.buf n xs (n + length xs) x (omega arith)
                  (omega (arith, v.tail_behind)) v.holds);
          },
          rw at (rw (==_true ((n + length xs) % ring_cap) ((n + length xs) % ring_cap) refl) refl),
        )

    pub publish_head-IsRing :
        (x : A)
        → n + length xs < t + ring_cap
        → r.buf ((n + length xs) % ring_cap) ≡ x
        → IsRing (publish_head r) (xs ++ (x ∷ [])) n t h
    unfolding publish_head
    publish_head-IsRing x room e =
        let long = length-append xs (x ∷ []) in
        record {
          tail = v.tail;
          head = omega (arith, v.head, long);
          tail_cache = v.tail_cache;
          head_cache = v.head_cache;
          tail_behind = v.tail_behind;
          head_ahead = v.head_ahead;
          head_behind = omega (arith, v.head_behind, long);
          fits = omega (arith, long);
          holds = Holds-append_one r.buf n xs x v.holds e;
        }

  -- Where the consumer's cache says that there is a value, the first one is in its slot.
  pub first_held :
      (r : Ring A) (xs : List A) (n t h : ℕ)
      → IsRing r xs n t h
      → n < h
      → (x : A) × (ys : List A) × (xs ≡ x ∷ ys) × (peek r ≡ x)
  unfolding peek
  first_held r [] n t h v lt = absurd (omega (arith, v.head_behind))
  first_held r (x ∷ ys) n t h v lt =
      let at : r.tail % ring_cap ≡ n % ring_cap = omega (arith, v.tail) in
      (x, ys, refl, ap r.buf at ∙ v.holds.0)

  pub publish_tail-IsRing :
      (r : Ring A) (x : A) (ys : List A) (n t h : ℕ)
      → IsRing r (x ∷ ys) n t h
      → n < h
      → IsRing (publish_tail r) ys (n + 1) t h
  unfolding publish_tail
  publish_tail-IsRing r x ys n t h v lt = record {
    tail = omega (arith, v.tail);
    head = omega (arith, v.head);
    tail_cache = v.tail_cache;
    head_cache = v.head_cache;
    tail_behind = omega (arith, v.tail_behind);
    head_ahead = omega arith;
    head_behind = omega (arith, v.head_behind);
    fits = omega (arith, v.fits);
    holds = v.holds.1;
  }
