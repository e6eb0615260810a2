-- ===== src/Metrics/Pipeline/Accounts.antt =====
-- Every event sent is counted once: as consumed or as dropped.
use ultra_low_latency_orderb.Prelude.{
  ℕ, zero, suc, ◌+◌, ◌%◌, ◌^◌, ◌<◌, ◌≡◌, ◌∙◌, refl, ap, subst, arith, Bool, true, false, Bool-cases,
  inl, inr, Option, List, [], ◌∷◌, ◌++◌, length, length-append, ltb, leb, ◌==◌, if◌then◌else◌,
  add64,
}
use ultra_low_latency_orderb.BookView.{View}
use ultra_low_latency_orderb.Histogram.{LatencyHistogram, merge}
use ultra_low_latency_orderb.Ring.{Ring, ring_cap, try_push, try_pop}
use ultra_low_latency_orderb.Ring.Queue.{
  Queues, length-held, new_ring-Queues, try_push-Queues, try_pop-Queues,
}
use ultra_low_latency_orderb.Metrics.{
  Double, Printer, Payload, latency, snapshot, trade, MetricsEvent, OpStat,
}
use ultra_low_latency_orderb.Metrics.Recorder.{new_recorder, send_event}
use ultra_low_latency_orderb.Metrics.Aggregator.{
  Aggregator, num_ops, op_index, fold_event, ingest, drain, roll_ops, render, run_round, run_final,
  drain_burst,
}
use ultra_low_latency_orderb.Metrics.Pipeline.{
  Pipeline, Action, send, turn, count_sent, act, act_all, stop_at, new_pipeline,
}

module _ {W : Type 0} where
  fold_event-consumed :
      (q : Payload) (e : MetricsEvent) (a : Aggregator W) → (fold_event q e a).consumed ≡ a.consumed
  unfolding fold_event
  fold_event-consumed latency e a = either (ltb (op_index e.otype) num_ops) _
    where
      either :
          (b : Bool) (w : ℕ → LatencyHistogram)
          → (if b then record a { win = w } else a).consumed ≡ a.consumed
      either true w = refl
      either false w = refl
  fold_event-consumed (snapshot best_bid best_ask) e a = refl
  fold_event-consumed (trade price qty maker) e a = refl

  ingest-consumed :
      (a : Aggregator W) (e : MetricsEvent) → (ingest a e).consumed ≡ add64 a.consumed 1
  unfolding ingest
  ingest-consumed a e = fold_event-consumed e.payload e (record a { consumed = add64 a.consumed 1 })

  -- The drain of a ring that holds `xs`: what is left, and that the rest was counted.
  record IsDrained (n : ℕ) (xs : List MetricsEvent) (a : Aggregator W)
      (out : Ring MetricsEvent × Aggregator W × Bool) : Type 0 where
    left : List MetricsEvent
    ring : Queues out.0 left
    counted : (out.1.consumed + length left) % 2 ^ 64 ≡ (a.consumed + length xs) % 2 ^ 64
    emptied : length xs < n → left ≡ []

  drain-IsDrained :
      (n : ℕ) (xs : List MetricsEvent) (ring : Ring MetricsEvent) (a : Aggregator W) (got : Bool)
      → Queues ring xs
      → IsDrained n xs a (drain n ring a got)
  unfolding drain
  drain-IsDrained zero xs ring a got q = record {
    left = xs;
    ring = q;
    counted = refl;
    emptied = λ lt. absurd (omega arith);
  }
  drain-IsDrained (suc n) [] ring a got q =
      let (e, w) = try_pop-Queues ring [] q in
      rw (e, drain) (record { left = []; ring = w; counted = refl; emptied = λ lt. refl })
  drain-IsDrained (suc n) (x ∷ xs) ring a got q =
      let (e, w) = try_pop-Queues ring (x ∷ xs) q in
      let r = drain-IsDrained n xs (try_pop ring).0 (ingest a x) true w in
      rw (e, drain)
        (record {
          left = r.left;
          ring = r.ring;
          counted = omega (arith, r.counted, ingest-consumed a x);
          emptied = λ lt. r.emptied (omega arith);
        })

module _ {W : Type 0} ⦃d : Double W⦄ ⦃p : Printer W⦄ where
  roll_ops-consumed :
      (n op : ℕ) (win_s : W) (a : Aggregator W) (rows : List (OpStat W))
      → (roll_ops n op win_s a rows).0.consumed ≡ a.consumed
  unfolding roll_ops
  roll_ops-consumed zero op win_s a rows = refl
  roll_ops-consumed (suc n) op win_s a rows =
      elim (Bool-cases ((merge (a.cum op) (a.win op)).count == 0)) [
        | inl e ↦ rw e (roll_ops-consumed n (op + 1) win_s _ _)
        | inr e ↦ rw e (roll_ops-consumed n (op + 1) win_s _ _)
      ]

  render-consumed :
      (a : Aggregator W) (t_now t_start drops : ℕ) (final : Bool) (view : Option View)
      → (render a t_now t_start final drops view).1.consumed ≡ a.consumed
  unfolding render
  render-consumed a t_now t_start drops final view =
      roll_ops-consumed num_ops 0 _ (record a { last_render_ns = t_now }) []

  -- `n` events were sent: `held` are in the ring, and the others are counted.
  record IsAccounted (s : Pipeline W) (n : ℕ) : Type 0 where
    held : List MetricsEvent
    ring : Queues s.running.ring held
    counted : (s.running.aggregator.consumed + s.recorder.drops + length held) % 2 ^ 64 ≡ n % 2 ^ 64

  send-IsAccounted :
      (s : Pipeline W) (t_start n : ℕ) (e : MetricsEvent)
      → IsAccounted s n
      → IsAccounted (act s t_start (send e)) (n + 1)
  unfolding act send_event
  send-IsAccounted s t_start n e v =
      let (ok, q) = try_push-Queues s.running.ring v.held e v.ring in
      elim (Bool-cases (ltb (length v.held) ring_cap)) [
        | inl room ↦ rw (ok ∙ room) (record {
          held = v.held ++ (e ∷ []);
          ring =
              subst
                (λ b.
                  Queues (try_push s.running.ring e).0 (if b then v.held ++ (e ∷ []) else v.held))
                room q;
          counted = omega (arith, v.counted, length-append v.held (e ∷ []));
        })
        | inr full ↦ rw (ok ∙ full) (record {
          held = v.held;
          ring =
              subst
                (λ b.
                  Queues (try_push s.running.ring e).0 (if b then v.held ++ (e ∷ []) else v.held))
                full q;
          counted = omega (arith, v.counted);
        })
      ]

  turn-IsAccounted :
      (s : Pipeline W) (t_start n t : ℕ) (view : Option View)
      → IsAccounted s n
      → IsAccounted (act s t_start (turn t view)) n
  unfolding act run_round
  turn-IsAccounted s t_start n t view v =
      let out = drain drain_burst s.running.ring s.running.aggregator false in
      let r = drain-IsDrained drain_burst v.held s.running.ring s.running.aggregator false v.ring in
      let same = render-consumed out.1 t t_start s.recorder.drops false view in
      elim (Bool-cases (leb s.running.next_render t)) [
        | inl due ↦ rw due (record {
          held = r.left;
          ring = r.ring;
          counted = omega (arith, v.counted, r.counted, same);
        })
        | inr early ↦
            rw early (record {
              held = r.left;
              ring = r.ring;
              counted = omega (arith, v.counted, r.counted);
            })
      ]

  act_all-IsAccounted :
      (acts : List Action) (s : Pipeline W) (t_start n : ℕ)
      → IsAccounted s n
      → IsAccounted (act_all s t_start acts) (n + count_sent acts)
  unfolding act_all
  act_all-IsAccounted [] s t_start n v = record {
    held = v.held;
    ring = v.ring;
    counted = omega (arith, v.counted);
  }
  act_all-IsAccounted (send e ∷ acts) s t_start n v =
      let w =
        act_all-IsAccounted acts (act s t_start (send e)) t_start (n + 1)
          (send-IsAccounted s t_start n e v) in
      record { held = w.held; ring = w.ring; counted = omega (arith, w.counted) }
  act_all-IsAccounted (turn t view ∷ acts) s t_start n v =
      act_all-IsAccounted acts (act s t_start (turn t view)) t_start n
        (turn-IsAccounted s t_start n t view v)

  new_pipeline-IsAccounted :
      (storage : ℕ → MetricsEvent) (mask : ℕ) (a : Aggregator W) (t_start : ℕ)
      → a.consumed ≡ 0
      → IsAccounted (new_pipeline storage mask a t_start) 0
  unfolding new_pipeline new_recorder
  new_pipeline-IsAccounted storage mask a t_start e = record {
    held = [];
    ring = new_ring-Queues storage;
    counted = omega (arith, e);
  }

  -- However the engine's events and the rounds of `run` follow one another from a start at which
  -- nothing is consumed, once
  -- `run` has ended the ring is empty, and what was consumed and what was dropped make up what was
  -- sent, modulo 2 ^ 64.
  pub stop_at-accounts :
      (acts : List Action) (storage : ℕ → MetricsEvent) (mask : ℕ) (a : Aggregator W)
      (t_start t : ℕ) (view : Option View)
      → a.consumed ≡ 0
      → let s =
          stop_at (act_all (new_pipeline storage mask a t_start) t_start acts) t_start t view in
        ((s.running.aggregator.consumed + s.recorder.drops) % 2 ^ 64 ≡ count_sent acts % 2 ^ 64)
        × Queues s.running.ring []
  unfolding stop_at run_final
  stop_at-accounts acts storage mask a t_start t view none_yet =
      let s = act_all (new_pipeline storage mask a t_start) t_start acts in
      let v =
        act_all-IsAccounted acts (new_pipeline storage mask a t_start) t_start 0
          (new_pipeline-IsAccounted storage mask a t_start none_yet) in
      let out = drain (ring_cap + 1) s.running.ring s.running.aggregator false in
      let r =
        drain-IsDrained (ring_cap + 1) v.held s.running.ring s.running.aggregator false v.ring in
      let gone = r.emptied (omega (arith, length-held s.running.ring v.held v.ring)) in
      (
        omega (
          arith,
          v.counted,
          r.counted,
          ap length gone,
          render-consumed out.1 t t_start s.recorder.drops true view,
        ),
        subst (λ xs. Queues out.0 xs) gone r.ring,
      )
