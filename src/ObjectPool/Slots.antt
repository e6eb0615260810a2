-- ===== src/ObjectPool/Slots.antt =====
-- `allocate` and `deallocate` of object_pool.hpp on the free list.
use ultra_low_latency_orderb.Prelude.{
  ℕ, ◌^◌, ◌<◌, ◌≡◌, refl, ap, subst, ◌⊎◌, inl, inr, some, List, [], ◌∷◌, arith, is_none, ◌∈◌, ◌∉◌,
  erase, length, true, false, ==_true, ==_false, Distinct-erase, has-erase_of_not, has-erase_ne,
  has-erase_self, length-erase,
}
use native.Mathlib.Decide.{ℕ_discrete}
use ultra_low_latency_orderb.ObjectPool.{
  ObjectPool, add_chunk, grow, take_slot, allocate, deallocate, available,
}
use ultra_low_latency_orderb.ObjectPool.FreeList.{
  Frees-frame, IsPool, pushed, length-pushed, add_chunk-IsPool, take_slot-IsPool,
}

nonempty : (xs : List ℕ) → 0 < length xs → (x : ℕ) × (rest : List ℕ) × (xs ≡ x ∷ rest)
nonempty [] h = absurd (omega arith)
nonempty (x ∷ rest) h = (x, rest, refl)

grow-none : (p : ObjectPool) → is_none p.free_head ≡ true → grow p ≡ add_chunk p p.chunk_size
unfolding grow
grow-none p e = ground arith

grow-some : (p : ObjectPool) → is_none p.free_head ≡ false → grow p ≡ p
unfolding grow
grow-some p e = ground arith

-- After the test of `allocate` the free list has a slot.
grow-IsPool :
    (p : ObjectPool) (fs live : List ℕ)
    → IsPool p fs live
    → (slot : ℕ) × (rest : List ℕ) × IsPool (grow p) (slot ∷ rest) live
      × ((fs ≡ []) ⊎ (fs ≡ slot ∷ rest))
grow-IsPool p [] live v =
    let fs' = pushed p.chunk_size p.capacity [] in
    let (slot, rest, e) =
      nonempty fs' (omega (arith, length-pushed p.chunk_size p.capacity [], v.chunk_pos)) in
    (
      slot,
      rest,
      rw (grow-none p (ap is_none v.frees)) (
          subst (λ k. IsPool (add_chunk p p.chunk_size) k live) e
            (add_chunk-IsPool p [] live p.chunk_size v)),
      inl refl,
    )
grow-IsPool p (slot ∷ rest) live v =
    (slot, rest, rw (grow-some p (ap is_none v.frees.0)) v, inr refl)

-- `allocate` never reads through null: it returns a slot that is not live, the first of the free
-- list where there is one, and marks just that slot live.
pub allocate-IsPool :
    (p : ObjectPool) (fs live : List ℕ)
    → IsPool p fs live
    → (slot : ℕ) × (q : ObjectPool) × (rest : List ℕ) × (allocate p ≡ some (slot, q))
      × IsPool q rest (slot ∷ live)
      × (slot ∉ live)
      × ((fs ≡ []) ⊎ (fs ≡ slot ∷ rest))
unfolding allocate
allocate-IsPool p fs live v =
    let (slot, rest, w, came) = grow-IsPool p fs live v in
    let (q, e, u) = take_slot-IsPool (grow p) slot rest live w in
    (slot, q, rest, e, u, u.live_distinct.0, came)

-- `deallocate` of a live slot makes it the next one to be handed out, and no longer live.
pub deallocate-IsPool :
    (p : ObjectPool) (fs live : List ℕ) (slot : ℕ)
    → IsPool p fs live
    → slot ∈ live
    → IsPool (deallocate p (some slot)) (slot ∷ fs) (erase slot live)
unfolding deallocate
deallocate-IsPool p fs live slot v i =
    let out : slot ∉ fs = elim_has fs (λ j. v.apart slot j) in
    record {
      frees = (
        refl,
        rw (==_true slot slot refl)
            (Frees-frame p.link p.free_head p.free_head slot fs v.frees out),
      );
      distinct = (out, v.distinct);
      live_distinct = Distinct-erase slot live v.live_distinct;
      apart = λ b j. apart b j (ℕ_discrete b slot);
      free_below = λ b j. below b j (ℕ_discrete b slot);
      live_below = λ b j. live_below b j (ℕ_discrete b slot);
      chunk_pos = v.chunk_pos;
      counted = omega (arith, length-erase live slot i, v.counted);
      whole = omega (arith, length-erase live slot i, v.whole);
    }
  where
    elim_has : (fs : List ℕ) → (slot ∈ fs → slot ∉ live) → slot ∉ fs
    elim_has fs h = ground (arith, h)

    apart : (b : ℕ) → b ∈ (slot ∷ fs) → Dec (b ≡ slot) → b ∉ erase slot live
    apart b j (yes e) = rw e (has-erase_self slot live v.live_distinct)
    apart b j (no ne) = has-erase_of_not b slot live (v.apart b (rw (==_false b slot ne) at j))

    below : (b : ℕ) → b ∈ (slot ∷ fs) → Dec (b ≡ slot) → b < p.capacity
    below b j (yes e) = rw e (v.live_below slot i)
    below b j (no ne) = v.free_below b (rw (==_false b slot ne) at j)

    live_below : (b : ℕ) → b ∈ erase slot live → Dec (b ≡ slot) → b < p.capacity
    live_below b j (yes e) = rw e (v.live_below slot i)
    live_below b j (no ne) = v.live_below b (rw (has-erase_ne b slot live ne) at j)

-- A slot that has just been given back is the one that the next `allocate` returns, from a pool
-- whose free list reads as it did before.
pub allocate-deallocate :
    (p : ObjectPool) (slot : ℕ)
    → (q : ObjectPool) × (allocate (deallocate p (some slot)) ≡ some (slot, q))
      × (q.free_head ≡ p.free_head)
      × (q.capacity ≡ p.capacity)
unfolding allocate deallocate grow take_slot
allocate-deallocate p slot = (_, refl, rw (==_true slot slot refl), refl)

-- `available()` is the length of the free list, where the capacity fits a size_t.
pub available-length :
    (p : ObjectPool) (fs live : List ℕ)
    → IsPool p fs live
    → p.capacity < 2 ^ 64
    → available p ≡ length fs
unfolding available
available-length p fs live v fits = omega (arith, v.counted, v.whole)
