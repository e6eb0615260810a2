-- ===== src/ObjectPool.antt =====
-- include/object_pool.hpp: slots handed out and taken back through an intrusive free list.
-- Slots are numbered in the order in which the chunks bring them, so a chunk's slots stand from
-- the capacity before it on. A slot is a union of an object and a link; the model keeps the link
-- here and the object in the book's heap. `capacity_` counts slots in memory and cannot wrap.
pub mod FreeList
pub mod Slots
mod Tests
use ultra_low_latency_orderb.Prelude.{
  ℕ, zero, suc, ◌+◌, ltb, if◌then◌else◌, write, is_none, Option, none, some, add64, sub64,
}

pub record ObjectPool : Type 0 where
  pub free_head : Option ℕ
  pub link : ℕ → Option ℕ
  pub chunk_size : ℕ
  pub allocated : ℕ
  pub capacity : ℕ
  pub num_chunks : ℕ

-- The loop of `addChunk` over the `n` slots from `slot` on.
unfoldable pub thread_slots : ℕ → ℕ → ObjectPool → ObjectPool
thread_slots zero slot p = p
thread_slots (suc n) slot p =
    thread_slots n (suc slot)
      (record p { link = write p.link slot p.free_head; free_head = some slot })

unfoldable pub add_chunk : ObjectPool → ℕ → ObjectPool
add_chunk p n = record (thread_slots n p.capacity p) {
  capacity = p.capacity + n;
  num_chunks = p.num_chunks + 1;
}

-- The constructor.
unfoldable pub new_pool : ℕ → ℕ → ObjectPool
new_pool initial_capacity chunk_size =
    let size = if ltb 0 chunk_size then chunk_size else 1 in
    add_chunk
      (record {
        free_head = none;
        link = λ slot. none;
        chunk_size = size;
        allocated = 0;
        capacity = 0;
        num_chunks = 0;
      })
      (if ltb 0 initial_capacity then initial_capacity else size)

-- `if (!free_head_) addChunk(chunk_size_)`.
unfoldable pub grow : ObjectPool → ObjectPool
grow p = if is_none p.free_head then add_chunk p p.chunk_size else p

-- The slot that `allocate` takes; `none` is the read through a null `free_head_`.
unfoldable pub take_slot : ObjectPool → Option (ℕ × ObjectPool)
take_slot p = elim p.free_head [
  | none ↦ none
  | some slot ↦ some (slot, record p { free_head = p.link slot; allocated = add64 p.allocated 1 })
]

unfoldable pub allocate : ObjectPool → Option (ℕ × ObjectPool)
allocate p = take_slot (grow p)

unfoldable pub deallocate : ObjectPool → Option ℕ → ObjectPool
deallocate p none = p
deallocate p (some slot) = record p {
  link = write p.link slot p.free_head;
  free_head = some slot;
  allocated = sub64 p.allocated 1;
}

unfoldable pub available : ObjectPool → ℕ
available p = sub64 p.capacity p.allocated
