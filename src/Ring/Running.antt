-- ===== src/Ring/Running.antt =====
-- The invariant of the two threads over one ring: what each knows where it stands, and what the
-- ring holds.
use mathlib.Core.List.{append_assoc}
use ultra_low_latency_orderb.Prelude.{
  ℕ, ◌+◌, ◌<◌, ◌≡◌, ◌⊎◌, ◌∙◌, refl, sym, ap, subst, arith, true, false, Bool-cases, inl, inr,
  if◌then◌else◌, List, [], ◌∷◌, ◌++◌, length, length-append, ◌%◌,
}
use ultra_low_latency_orderb.Ring.{
  ring_cap, has_room, refresh_tail, put, publish_head, seems_empty, refresh_head, publish_tail,
}
use ultra_low_latency_orderb.Ring.Held.{
  IsRing, has_room-true, seems_empty-false, refresh_tail-IsRing, refresh_head-IsRing, put-IsRing,
  publish_head-IsRing, first_held, publish_tail-IsRing,
}
use ultra_low_latency_orderb.Ring.Queue.{new_ring-IsRing}
use ultra_low_latency_orderb.Ring.Interleave.{
  Producer, Consumer, System, begin_push, advance_push, begin_pop, advance_pop, Step, Reach,
}

module _ {ℓ} {A : Type ℓ} where
  -- What the producer knows where it stands, for `k` slots taken up to the next one to write.
  abbrev pub KnowsRoom : Producer A → (ℕ → A) → ℕ → ℕ → Type ℓ
  KnowsRoom Producer.resting buf k t = Unit
  KnowsRoom (Producer.refreshing v) buf k t = Unit
  KnowsRoom (Producer.writing v) buf k t = (k < t + ring_cap) × Unit {ℓ}
  KnowsRoom (Producer.publishing v) buf k t = (k < t + ring_cap) × (buf (k % ring_cap) ≡ v)

  -- What the consumer knows where it stands.
  abbrev pub KnowsValue : Consumer A → ℕ → ℕ → List A → Type ℓ
  KnowsValue Consumer.waiting n h xs = Unit
  KnowsValue Consumer.reloading n h xs = Unit
  KnowsValue Consumer.reading n h xs = (n < h) × Unit {ℓ}
  KnowsValue (Consumer.releasing v) n h xs = (n < h) × (ys : List A) × (xs ≡ v ∷ ys)

  -- The invariant: the ring holds `held`, which is what was pushed and not yet popped.
  pub record IsRunning (s : System A) : Type ℓ where
    pub held : List A
    pub seen_tail : ℕ
    pub seen_head : ℕ
    pub ring : IsRing s.ring held (length s.popped) seen_tail seen_head
    pub producer : KnowsRoom s.producer s.ring.buf (length s.popped + length held) seen_tail
    pub consumer : KnowsValue s.consumer (length s.popped) seen_head held
    pub history : s.pushed ≡ s.popped ++ held

  begin_push-IsRunning : (s : System A) (v : A) → IsRunning s → IsRunning (begin_push s v)
  unfolding begin_push
  begin_push-IsRunning s v w = elim (Bool-cases (has_room s.ring)) [
    | inl room ↦ record {
      held = w.held;
      seen_tail = w.seen_tail;
      seen_head = w.seen_head;
      ring = w.ring;
      producer =
          rw room
            (has_room-true s.ring w.held (length s.popped) w.seen_tail w.seen_head w.ring room, tt);
      consumer = w.consumer;
      history = w.history;
    }
    | inr full ↦ record {
      held = w.held;
      seen_tail = w.seen_tail;
      seen_head = w.seen_head;
      ring = w.ring;
      producer = rw full tt;
      consumer = w.consumer;
      history = w.history;
    }
  ]

  advance_push-IsRunning :
      (p : Producer A) (s : System A) → s.producer ≡ p → IsRunning s → IsRunning (advance_push p s)
  unfolding advance_push refresh_tail put publish_head
  advance_push-IsRunning Producer.resting s e w = w
  advance_push-IsRunning (Producer.refreshing v) s e w =
      let r = refresh_tail-IsRing s.ring w.held (length s.popped) w.seen_tail w.seen_head w.ring in
      record {
        held = w.held;
        seen_tail = length s.popped;
        seen_head = w.seen_head;
        ring = r;
        producer = knows r (Bool-cases (has_room (refresh_tail s.ring)));
        consumer = w.consumer;
        history = w.history;
      }
    where
      knows :
          IsRing (refresh_tail s.ring) w.held (length s.popped) (length s.popped) w.seen_head
          → (has_room (refresh_tail s.ring) ≡ true) ⊎ (has_room (refresh_tail s.ring) ≡ false)
          → KnowsRoom
              (if has_room (refresh_tail s.ring) then Producer.writing v else Producer.resting)
              s.ring.buf
              (length s.popped + length w.held)
              (length s.popped)
      knows r (inl room) = rw room (
        has_room-true (refresh_tail s.ring) w.held (length s.popped) (length s.popped) w.seen_head r
            room,
        tt,
      )
      knows r (inr full) = rw full tt
  advance_push-IsRunning (Producer.writing v) s e w =
      let k =
        subst (λ p. KnowsRoom p s.ring.buf (length s.popped + length w.held) w.seen_tail) e
          w.producer in
      let (r, here) =
        put-IsRing s.ring w.held (length s.popped) w.seen_tail w.seen_head w.ring v k.0 in
      record {
        held = w.held;
        seen_tail = w.seen_tail;
        seen_head = w.seen_head;
        ring = r;
        producer = (k.0, here);
        consumer = w.consumer;
        history = w.history;
      }
  advance_push-IsRunning (Producer.publishing v) s e w =
      let k =
        subst (λ p. KnowsRoom p s.ring.buf (length s.popped + length w.held) w.seen_tail) e
          w.producer in
      record {
        held = w.held ++ (v ∷ []);
        seen_tail = w.seen_tail;
        seen_head = w.seen_head;
        ring =
            publish_head-IsRing s.ring w.held (length s.popped) w.seen_tail w.seen_head w.ring v k.0
              k.1;
        producer = tt;
        consumer = more s.consumer w.consumer;
        history = rw w.history (append_assoc s.popped w.held (v ∷ []));
      }
    where
      more :
          (c : Consumer A)
          → KnowsValue c (length s.popped) w.seen_head w.held
          → KnowsValue c (length s.popped) w.seen_head (w.held ++ (v ∷ []))
      more Consumer.waiting x = tt
      more Consumer.reloading x = tt
      more Consumer.reading x = x
      more (Consumer.releasing u) (lt, ys, q) = (lt, ys ++ (v ∷ []), ap (λ k. k ++ (v ∷ [])) q)

  begin_pop-IsRunning : (s : System A) → IsRunning s → IsRunning (begin_pop s)
  unfolding begin_pop
  begin_pop-IsRunning s w = elim (Bool-cases (seems_empty s.ring)) [
    | inl cached ↦ record {
      held = w.held;
      seen_tail = w.seen_tail;
      seen_head = w.seen_head;
      ring = w.ring;
      producer = w.producer;
      consumer = rw cached tt;
      history = w.history;
    }
    | inr more ↦ record {
      held = w.held;
      seen_tail = w.seen_tail;
      seen_head = w.seen_head;
      ring = w.ring;
      producer = w.producer;
      consumer = rw more (
        seems_empty-false s.ring w.held (length s.popped) w.seen_tail w.seen_head w.ring more,
        tt,
      );
      history = w.history;
    }
  ]

  advance_pop-IsRunning :
      (c : Consumer A) (s : System A) → s.consumer ≡ c → IsRunning s → IsRunning (advance_pop c s)
  unfolding advance_pop refresh_head publish_tail
  advance_pop-IsRunning Consumer.waiting s e w = w
  advance_pop-IsRunning Consumer.reloading s e w =
      let r = refresh_head-IsRing s.ring w.held (length s.popped) w.seen_tail w.seen_head w.ring in
      record {
        held = w.held;
        seen_tail = w.seen_tail;
        seen_head = length s.popped + length w.held;
        ring = r;
        producer = w.producer;
        consumer = knows r (Bool-cases (seems_empty (refresh_head s.ring)));
        history = w.history;
      }
    where
      knows :
          IsRing
            (refresh_head s.ring)
            w.held
            (length s.popped)
            w.seen_tail
            (length s.popped + length w.held)
          → (seems_empty (refresh_head s.ring) ≡ true) ⊎ (seems_empty (refresh_head s.ring) ≡ false)
          → KnowsValue
              (if seems_empty (refresh_head s.ring) then Consumer.waiting else Consumer.reading)
              (length s.popped)
              (length s.popped + length w.held)
              w.held
      knows r (inl empty) = rw empty tt
      knows r (inr more) = rw more (
        seems_empty-false (refresh_head s.ring) w.held (length s.popped) w.seen_tail
            (length s.popped + length w.held) r more,
        tt,
      )
  advance_pop-IsRunning Consumer.reading s e w =
      let k = subst (λ c. KnowsValue c (length s.popped) w.seen_head w.held) e w.consumer in
      let (x, ys, q, p) =
        first_held s.ring w.held (length s.popped) w.seen_tail w.seen_head w.ring k.0 in
      record {
        held = w.held;
        seen_tail = w.seen_tail;
        seen_head = w.seen_head;
        ring = w.ring;
        producer = w.producer;
        consumer = (k.0, ys, q ∙ ap (λ a. a ∷ ys) (sym p));
        history = w.history;
      }
  advance_pop-IsRunning (Consumer.releasing v) s e w =
      let k = subst (λ c. KnowsValue c (length s.popped) w.seen_head w.held) e w.consumer in
      let (lt, ys, q) = k in
      let long : length (s.popped ++ (v ∷ [])) ≡ length s.popped + 1 =
        omega (arith, length-append s.popped (v ∷ [])) in
      let size : length s.popped + length w.held ≡ length s.popped + 1 + length ys =
        omega (arith, ap length q) in
      let r = subst (λ xs. IsRing s.ring xs (length s.popped) w.seen_tail w.seen_head) q w.ring in
      record {
        held = ys;
        seen_tail = w.seen_tail;
        seen_head = w.seen_head;
        ring =
            rw long
              (publish_tail-IsRing s.ring v ys (length s.popped) w.seen_tail w.seen_head r lt);
        producer =
            rw long (subst (λ m. KnowsRoom s.producer s.ring.buf m w.seen_tail) size w.producer);
        consumer = tt;
        history = w.history ∙ ap (λ xs. s.popped ++ xs) q ∙ sym (append_assoc s.popped (v ∷ []) ys);
      }

  Step-IsRunning : {s t : System A} → Step s t → IsRunning s → IsRunning t
  Step-IsRunning {s} (Step.push v e) w = begin_push-IsRunning s v w
  Step-IsRunning {s} Step.produce w = advance_push-IsRunning s.producer s refl w
  Step-IsRunning {s} (Step.pop e) w = begin_pop-IsRunning s w
  Step-IsRunning {s} Step.consume w = advance_pop-IsRunning s.consumer s refl w

  pub Reach-IsRunning : {storage : ℕ → A} {s : System A} → Reach storage s → IsRunning s
  Reach-IsRunning {storage} Reach.here = record {
    held = [];
    seen_tail = 0;
    seen_head = 0;
    ring = (new_ring-IsRing storage);
    producer = tt;
    consumer = tt;
    history = refl;
  }
  Reach-IsRunning (Reach.next r st) = Step-IsRunning st (Reach-IsRunning r)
