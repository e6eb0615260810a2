-- ===== src/ObjectPool/FreeList.antt =====
-- The free list of object_pool.hpp: every slot is free or live, never both, and `allocate` always
-- has one to give.
use ultra_low_latency_orderb.Prelude.{
  ℕ, zero, suc, ◌+◌, ◌%◌, ◌^◌, ◌<◌, ◌≡◌, ◌≢◌, refl, subst, Option, none, some, List, [], ◌∷◌, arith,
  if◌then◌else◌, ltb, write, ◌∈◌, ◌∉◌, Distinct, length, ==_true, ==_false, add64,
}
use native.Mathlib.Decide.{ℕ_discrete}
use ultra_low_latency_orderb.ObjectPool.{ObjectPool, thread_slots, add_chunk, new_pool, take_slot}

-- From the pointer `p` the links lead through `fs` to null.
abbrev pub Frees : (ℕ → Option ℕ) → Option ℕ → List ℕ → Type 0
Frees link p [] = p ≡ none
Frees link p (x ∷ xs) = (p ≡ some x) × Frees link (link x) xs

-- `fs` are the free slots in the order in which they will be handed out, `live` the others.
pub record IsPool (p : ObjectPool) (fs live : List ℕ) : Type 0 where
  pub frees : Frees p.link p.free_head fs
  pub distinct : Distinct fs
  pub live_distinct : Distinct live
  pub apart : (b : ℕ) → b ∈ fs → b ∉ live
  pub free_below : (b : ℕ) → b ∈ fs → b < p.capacity
  pub live_below : (b : ℕ) → b ∈ live → b < p.capacity
  pub chunk_pos : 0 < p.chunk_size
  pub counted : p.allocated ≡ length live % 2 ^ 64
  pub whole : p.capacity ≡ length fs + length live

pub Frees-frame :
    (link : ℕ → Option ℕ) (p q : Option ℕ) (a : ℕ) (fs : List ℕ)
    → Frees link p fs
    → a ∉ fs
    → Frees (write link a q) p fs
Frees-frame link p q a [] f out = f
Frees-frame link p q a (x ∷ xs) f out = (
  f.0,
  rw (==_false x a (ne_of_not_mem a x xs out))
      (Frees-frame link (link x) q a xs f.1 (ground arith)),
)
  where
    ne_of_not_mem : (a x : ℕ) (xs : List ℕ) → a ∉ (x ∷ xs) → x ≢ a
    ne_of_not_mem a x xs out e = ground arith

-- The free list after the loop over `n` new slots.
abbrev pub pushed : ℕ → ℕ → List ℕ → List ℕ
pushed zero slot fs = fs
pushed (suc n) slot fs = pushed n (suc slot) (slot ∷ fs)

-- What the loop of `addChunk` keeps while it threads the slots from `slot` on.
record IsThreading (p : ObjectPool) (fs live : List ℕ) (slot : ℕ) : Type 0 where
  frees : Frees p.link p.free_head fs
  distinct : Distinct fs
  apart : (b : ℕ) → b ∈ fs → b ∉ live
  below : (b : ℕ) → b ∈ fs → b < slot
  live_below : (b : ℕ) → b ∈ live → b < slot

absent : (a : ℕ) (xs : List ℕ) → ((b : ℕ) → b ∈ xs → b < a) → a ∉ xs
absent a [] h = refl
absent a (x ∷ xs) h = ground (arith, h x, absent a xs (λ b i. h b (ground arith)))

thread_one-IsThreading :
    (p : ObjectPool) (fs live : List ℕ) (slot : ℕ)
    → IsThreading p fs live slot
    → IsThreading
        (record p { link = write p.link slot p.free_head; free_head = some slot })
        (slot ∷ fs)
        live
        (suc slot)
thread_one-IsThreading p fs live slot v =
    let new = absent slot fs v.below in
    record {
      frees = (
        refl,
        rw (==_true slot slot refl)
            (Frees-frame p.link p.free_head p.free_head slot fs v.frees new),
      );
      distinct = (new, v.distinct);
      apart = λ b i. first b (ℕ_discrete b slot) i;
      below = λ b i. second b (ℕ_discrete b slot) i;
      live_below = λ b i. omega (arith, v.live_below b i);
    }
  where
    first : (b : ℕ) → Dec (b ≡ slot) → b ∈ (slot ∷ fs) → b ∉ live
    first b (yes e) i = rw e (absent slot live v.live_below)
    first b (no ne) i = v.apart b (rw (==_false b slot ne) at i)

    second : (b : ℕ) → Dec (b ≡ slot) → b ∈ (slot ∷ fs) → b < suc slot
    second b (yes e) i = omega arith
    second b (no ne) i = omega (arith, v.below b (rw (==_false b slot ne) at i))

thread_slots-IsThreading :
    (n : ℕ) (p : ObjectPool) (fs live : List ℕ) (slot : ℕ)
    → IsThreading p fs live slot
    → IsThreading (thread_slots n slot p) (pushed n slot fs) live (n + slot)
unfolding thread_slots
thread_slots-IsThreading zero p fs live slot v = record {
  frees = v.frees;
  distinct = v.distinct;
  apart = v.apart;
  below = λ b i. omega (arith, v.below b i);
  live_below = λ b i. omega (arith, v.live_below b i);
}
thread_slots-IsThreading (suc n) p fs live slot v =
    let e : n + suc slot ≡ suc n + slot = omega arith in
    subst (IsThreading _ _ live) e (
      thread_slots-IsThreading n
        (record p { link = write p.link slot p.free_head; free_head = some slot }) (slot ∷ fs) live
        (suc slot) (thread_one-IsThreading p fs live slot v))

-- The loop touches the links and the head of the list alone.
thread_slots-rest :
    (n slot : ℕ) (p : ObjectPool)
    → let q = thread_slots n slot p in
      (q.chunk_size ≡ p.chunk_size) × (q.allocated ≡ p.allocated) × (q.capacity ≡ p.capacity)
unfolding thread_slots
thread_slots-rest zero slot p = (refl, refl, refl)
thread_slots-rest (suc n) slot p =
    thread_slots-rest n (suc slot)
      (record p { link = write p.link slot p.free_head; free_head = some slot })

pub length-pushed : (n slot : ℕ) (fs : List ℕ) → length (pushed n slot fs) ≡ n + length fs
length-pushed zero slot fs = omega arith
length-pushed (suc n) slot fs = omega (arith, length-pushed n (suc slot) (slot ∷ fs))

-- `addChunk` puts the new slots in front of the free list, and no slot is lost or live.
pub add_chunk-IsPool :
    (p : ObjectPool) (fs live : List ℕ) (n : ℕ)
    → IsPool p fs live
    → IsPool (add_chunk p n) (pushed n p.capacity fs) live
unfolding add_chunk
add_chunk-IsPool p fs live n v =
    let t = thread_slots-IsThreading n p fs live p.capacity (record {
      frees = v.frees;
      distinct = v.distinct;
      apart = v.apart;
      below = v.free_below;
      live_below = v.live_below;
    }) in
    let (size, count, cap) = thread_slots-rest n p.capacity p in
    record {
      frees = t.frees;
      distinct = t.distinct;
      live_distinct = v.live_distinct;
      apart = t.apart;
      free_below = λ b i. omega (arith, t.below b i);
      live_below = λ b i. omega (arith, t.live_below b i);
      chunk_pos = omega (arith, size, v.chunk_pos);
      counted = omega (arith, count, v.counted);
      whole = omega (arith, length-pushed n p.capacity fs, v.whole);
    }

-- A pool is built with at least one free slot, and none live.
pub new_pool-IsPool :
    (initial chunk : ℕ) → (fs : List ℕ) × IsPool (new_pool initial chunk) fs [] × (0 < length fs)
unfolding new_pool
new_pool-IsPool initial chunk =
    let size = if ltb 0 chunk then chunk else 1 in
    let n = if ltb 0 initial then initial else size in
    (
      pushed n 0 [],
      add_chunk-IsPool _ [] [] n (record {
        frees = refl;
        distinct = tt;
        live_distinct = tt;
        apart = λ b i. refl;
        free_below = λ b i. ground arith;
        live_below = λ b i. ground arith;
        chunk_pos = ground arith;
        counted = omega arith;
        whole = omega arith;
      }),
      omega (arith, length-pushed n 0 [], at_least_one initial chunk),
    )
  where
    at_least_one :
        (initial chunk : ℕ)
        → 0 < (if ltb 0 initial then initial else if ltb 0 chunk then chunk else 1)
    at_least_one initial chunk = ground arith

pub take_slot-IsPool :
    (p : ObjectPool) (slot : ℕ) (rest live : List ℕ)
    → IsPool p (slot ∷ rest) live
    → (q : ObjectPool) × (take_slot p ≡ some (slot, q)) × IsPool q rest (slot ∷ live)
unfolding take_slot
take_slot-IsPool p slot rest live v = (
  record p { free_head = p.link slot; allocated = add64 p.allocated 1 },
  rw (v.frees.0, take_slot) refl,
  record {
    frees = v.frees.1;
    distinct = v.distinct.1;
    live_distinct = (v.apart slot (rw (==_true slot slot refl) refl), v.live_distinct);
    apart = λ b i. other b i (ℕ_discrete b slot);
    free_below = λ b i. v.free_below b (ground arith);
    live_below = λ b i. below b i (ℕ_discrete b slot);
    chunk_pos = v.chunk_pos;
    counted = omega (arith, v.counted);
    whole = omega (arith, v.whole);
  },
)
  where
    other : (b : ℕ) → b ∈ rest → Dec (b ≡ slot) → b ∉ (slot ∷ live)
    other b i (yes e) = absurd (differ (subst (λ k. k ∈ rest) e i) v.distinct.0)
      where
        differ : slot ∈ rest → slot ∉ rest → ⊥
        differ i out = cc
    other b i (no ne) = rw (==_false b slot ne) (v.apart b (rw (==_false b slot ne) i))

    below : (b : ℕ) → b ∈ (slot ∷ live) → Dec (b ≡ slot) → b < p.capacity
    below b i (yes e) = rw e (v.free_below slot (rw (==_true slot slot refl) refl))
    below b i (no ne) = v.live_below b (rw (==_false b slot ne) at i)
