-- ===== src/Ring/Interleave.antt =====
-- The two threads over one ring, one shared access at a time and in any order. The accesses are
-- taken to happen in one order that both threads see, which the release and acquire pairs give for
-- the slot and the index that publishes it.
use ultra_low_latency_orderb.Prelude.{ℕ, ◌≡◌, if◌then◌else◌, List, [], ◌∷◌, ◌++◌}
use ultra_low_latency_orderb.Ring.{
  Ring, new_ring, has_room, refresh_tail, put, publish_head, seems_empty, refresh_head, peek,
  publish_tail,
}

-- Where `try_push` stands: before the load of `tail_`, before the write of the slot, and before the
-- store of `head_`.
pub data Producer {ℓ} (A : Type ℓ) : Type ℓ where
  resting : Producer A
  refreshing : A → Producer A
  writing : A → Producer A
  publishing : A → Producer A

-- Where `try_pop` stands: before the load of `head_`, before the read of the slot, and before the
-- store of `tail_`.
pub data Consumer {ℓ} (A : Type ℓ) : Type ℓ where
  waiting : Consumer A
  reloading : Consumer A
  reading : Consumer A
  releasing : A → Consumer A

-- `pushed` are the values whose push has been published, and `popped` those whose pop has.
pub record System {ℓ} (A : Type ℓ) : Type ℓ where
  pub ring : Ring A
  pub producer : Producer A
  pub consumer : Consumer A
  pub pushed : List A
  pub popped : List A

module _ {ℓ} {A : Type ℓ} where
  unfoldable pub begin_push : System A → A → System A
  begin_push s v = record s {
    producer = if has_room s.ring then Producer.writing v else Producer.refreshing v;
  }

  -- The next access of a push that is under way.
  unfoldable pub advance_push : Producer A → System A → System A
  advance_push Producer.resting s = s
  advance_push (Producer.refreshing v) s = record s {
    ring = refresh_tail s.ring;
    producer = if has_room (refresh_tail s.ring) then Producer.writing v else Producer.resting;
  }
  advance_push (Producer.writing v) s = record s {
    ring = put s.ring v;
    producer = Producer.publishing v;
  }
  advance_push (Producer.publishing v) s = record s {
    ring = publish_head s.ring;
    producer = Producer.resting;
    pushed = s.pushed ++ (v ∷ []);
  }

  unfoldable pub begin_pop : System A → System A
  begin_pop s = record s {
    consumer = if seems_empty s.ring then Consumer.reloading else Consumer.reading;
  }

  -- The next access of a pop that is under way.
  unfoldable pub advance_pop : Consumer A → System A → System A
  advance_pop Consumer.waiting s = s
  advance_pop Consumer.reloading s = record s {
    ring = refresh_head s.ring;
    consumer = if seems_empty (refresh_head s.ring) then Consumer.waiting else Consumer.reading;
  }
  advance_pop Consumer.reading s = record s { consumer = Consumer.releasing (peek s.ring) }
  advance_pop (Consumer.releasing v) s = record s {
    ring = publish_tail s.ring;
    consumer = Consumer.waiting;
    popped = s.popped ++ (v ∷ []);
  }

  pub data Step (s : System A) : System A → Type ℓ where
    push : (v : A) → s.producer ≡ Producer.resting → Step s (begin_push s v)
    produce : Step s (advance_push s.producer s)
    pop : s.consumer ≡ Consumer.waiting → Step s (begin_pop s)
    consume : Step s (advance_pop s.consumer s)

  -- Before either thread has done anything.
  abbrev pub start : (ℕ → A) → System A
  start storage = record {
    ring = new_ring storage;
    producer = Producer.resting;
    consumer = Consumer.waiting;
    pushed = [];
    popped = [];
  }

  pub data Reach (storage : ℕ → A) : System A → Type ℓ where
    here : Reach storage (start storage)
    next : {s t : System A} → Reach storage s → Step s t → Reach storage t
