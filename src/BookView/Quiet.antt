-- ===== src/BookView/Quiet.antt =====
-- A read that no publication disturbs returns true in its first round.
use ultra_low_latency_orderb.Prelude.{
  ℕ, zero, suc, ◌+◌, ◌%◌, ◌<◌, ◌≡◌, ◌∙◌, refl, ap, subst, arith, write, ==_true, ==_false, lt→ltb,
}
use ultra_low_latency_orderb.BookView.{
  view_words, View, Writer, Reader, Shared, advance_reader, run_reader, Reach,
}
use ultra_low_latency_orderb.BookView.Whole.{Same, Same-write, Writes, Reach-IsLocked}

advance_reader-copy :
    (s : Shared) (out : View) (tries s1 k : ℕ)
    → s.reader ≡ Reader.copying out tries s1 k
    → k < view_words
    → advance_reader s.reader s
      ≡ record s { reader = Reader.copying (write out k (s.words k)) tries s1 (k + 1) }
unfolding advance_reader
advance_reader-copy s out tries s1 k e lt =
    rw (e, advance_reader) (rw (lt→ltb k view_words lt) refl)

-- The rounds that copy the words still missing.
run_reader-copy :
    (j : ℕ) (s : Shared) (out : View) (tries s1 k : ℕ)
    → s.reader ≡ Reader.copying out tries s1 k
    → k + j ≡ view_words
    → Same out s.words k
    → (out' : View) × (run_reader j s
        ≡ record s { reader = Reader.copying out' tries s1 view_words })
      × Same out' s.words view_words
unfolding run_reader
run_reader-copy zero s out tries s1 k e n h =
    let full : k ≡ view_words = omega arith in
    (
      out,
      ap (λ r. record s { reader = r }) (e ∙ ap (λ m. Reader.copying out tries s1 m) full),
      subst (λ m. Same out s.words m) full h,
    )
run_reader-copy (suc j) s out tries s1 k e n h =
    let t : Shared = record s {
      reader = Reader.copying (write out k (s.words k)) tries s1 (k + 1);
    } in
    let (out', f, g) =
      run_reader-copy j t (write out k (s.words k)) tries s1 (k + 1) refl (omega arith)
        (Same-write out s.words k h) in
    (out', ap (run_reader j) (advance_reader-copy s out tries s1 k e (omega arith)) ∙ f, g)

run_reader-suc_right :
    (n : ℕ) (s : Shared)
    → run_reader (suc n) s ≡ advance_reader (run_reader n s).reader (run_reader n s)
unfolding run_reader
run_reader-suc_right zero s = refl
run_reader-suc_right (suc n) s = run_reader-suc_right n (advance_reader s.reader s)

run_reader-suc :
    (n : ℕ) (s : Shared) → run_reader (suc n) s ≡ run_reader n (advance_reader s.reader s)
unfolding run_reader
run_reader-suc n s = refl

-- The load of an even number begins the copy.
advance_reader-start :
    (s : Shared) (out : View) (tries : ℕ)
    → s.reader ≡ Reader.starting out (suc tries)
    → s.seq % 2 ≡ 0
    → advance_reader s.reader s ≡ record s { reader = Reader.copying out tries s.seq 0 }
unfolding advance_reader
advance_reader-start s out tries e even =
    let no_writer = ==_false (s.seq % 2) 1 (λ f. omega arith) in
    rw (e, advance_reader) (rw no_writer refl)

-- The second load finds the number that the first one did.
advance_reader-accept :
    (s : Shared) (out : View) (tries : ℕ)
    → s.reader ≡ Reader.copying out tries s.seq view_words
    → advance_reader s.reader s ≡ record s { reader = Reader.accepted out }
unfolding advance_reader
advance_reader-accept s out tries e = rw (e, advance_reader) (rw (==_true s.seq s.seq refl) refl)

-- From every state that the two threads can reach in which no publication is under way and a read
-- has a round left, the reader's next accesses, one for each word and two more, with no access of
-- the writer between them, make the read return true with the whole of the view that was published last.
pub run_reader-accepts :
    (s : Shared) (out : View) (tries : ℕ)
    → Reach s
    → s.writer ≡ Writer.resting
    → s.reader ≡ Reader.starting out (suc tries)
    → (out' : View) × (run_reader (suc (suc view_words)) s
        ≡ record s { reader = Reader.accepted out' })
      × Same out' s.latest view_words
run_reader-accepts s out tries r idle e =
    let w = Reach-IsLocked r in
    let h = subst (λ p. Writes p s.words s.latest s.stores) idle w.writer in
    let even : s.seq % 2 ≡ 0 = omega (arith, w.seq, h.0) in
    let t : Shared = record s { reader = Reader.copying out tries s.seq 0 } in
    let (out', f, g) =
      run_reader-copy view_words t out tries s.seq 0 refl refl (λ i lt. absurd (omega arith)) in
    let begun = advance_reader-start s out tries e even in
    (
      out',
      run_reader-suc (suc view_words) s
          ∙ ap (run_reader (suc view_words)) begun
          ∙ run_reader-suc_right view_words t
          ∙ ap (λ u. advance_reader u.reader u) f
          ∙ advance_reader-accept (record s { reader = Reader.copying out' tries s.seq view_words })
              out' tries refl,
      λ i lt. g i lt ∙ h.1 i lt,
    )
