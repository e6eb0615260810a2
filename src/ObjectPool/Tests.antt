-- ===== src/ObjectPool/Tests.antt =====
-- A pool of two slots on which the theorems are run.
use ultra_low_latency_orderb.Prelude.{
  ℕ, ◌<◌, ◌≡◌, refl, ==_true, some, List, [], ◌∷◌, length, ◌∈◌, ◌∉◌, ◌⊎◌, erase,
}
use ultra_low_latency_orderb.ObjectPool.{ObjectPool, new_pool, allocate, deallocate}
use ultra_low_latency_orderb.ObjectPool.FreeList.{IsPool, new_pool-IsPool}
use ultra_low_latency_orderb.ObjectPool.Slots.{allocate-IsPool, deallocate-IsPool}

new_pool-IsPool_example : (fs : List ℕ) × IsPool (new_pool 2 3) fs [] × (0 < length fs)
new_pool-IsPool_example = new_pool-IsPool 2 3

two_pool : (fs : List ℕ) × IsPool (new_pool 2 3) fs [] × (0 < length fs)
two_pool = new_pool-IsPool 2 3

abbrev two_free : List ℕ
two_free = two_pool.0

allocate-IsPool_example :
    (slot : ℕ) × (q : ObjectPool) × (rest : List ℕ) × (allocate (new_pool 2 3) ≡ some (slot, q))
    × IsPool q rest (slot ∷ [])
    × (slot ∉ [])
    × ((two_free ≡ []) ⊎ (two_free ≡ slot ∷ rest))
allocate-IsPool_example = allocate-IsPool (new_pool 2 3) two_free [] two_pool.1

one_taken :
    (slot : ℕ) × (q : ObjectPool) × (rest : List ℕ) × (allocate (new_pool 2 3) ≡ some (slot, q))
    × IsPool q rest (slot ∷ [])
    × (slot ∉ [])
    × ((two_free ≡ []) ⊎ (two_free ≡ slot ∷ rest))
one_taken = allocate-IsPool (new_pool 2 3) two_free [] two_pool.1

abbrev first_slot : ℕ
first_slot = one_taken.0

abbrev one_left : ObjectPool
one_left = one_taken.1

deallocate-IsPool_example :
    IsPool
      (deallocate one_left (some first_slot))
      (first_slot ∷ one_taken.2)
      (erase first_slot (first_slot ∷ []))
deallocate-IsPool_example =
    deallocate-IsPool one_left one_taken.2 (first_slot ∷ []) first_slot one_taken.4
      (here first_slot)
  where
    here : (a : ℕ) → a ∈ (a ∷ [])
    here a = rw (==_true a a refl) refl
