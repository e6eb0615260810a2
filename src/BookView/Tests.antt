-- ===== src/BookView/Tests.antt =====
-- A read of the first view, on which the theorems are run.
use ultra_low_latency_orderb.Prelude.{ℕ, zero, suc, ◌<◌, ◌≡◌, refl, arith}
use ultra_low_latency_orderb.BookView.{
  view_words, View, Writer, Reader, Shared, begin_read, advance_reader, run_reader, start, Step,
  Reach,
}
use ultra_low_latency_orderb.BookView.Whole.{Same, Reach-Same}
use ultra_low_latency_orderb.BookView.Quiet.{run_reader-accepts}

abbrev torn : View
torn k = 7

-- A read has begun.
abbrev reading : Shared
reading = begin_read start torn

reading-Reach : Reach reading
reading-Reach = Reach.next Reach.here (Step.read torn refl)

reading_starts : reading.reader ≡ Reader.starting torn 16
unfolding begin_read
reading_starts = refl

reading_alone : reading.writer ≡ Writer.resting
unfolding begin_read
reading_alone = refl

run_reader-accepts_example :
    (out' : View) × (run_reader (suc (suc view_words)) reading
      ≡ record reading { reader = Reader.accepted out' })
    × Same out' reading.latest view_words
run_reader-accepts_example =
    run_reader-accepts reading torn 15 reading-Reach reading_alone reading_starts

-- The reader's accesses are steps, with any number of them after a reachable state.
run_reader-Reach : (n : ℕ) (s : Shared) → Reach s → Reach (run_reader n s)
unfolding run_reader
run_reader-Reach zero s r = r
run_reader-Reach (suc n) s r =
    run_reader-Reach n (advance_reader s.reader s) (Reach.next r Step.copy_out)

-- All the words copied.
abbrev copied : Shared
copied = run_reader 42 reading

copied-Reach : Reach copied
copied-Reach = run_reader-Reach 42 reading reading-Reach

abbrev words_of : Reader → View
words_of (Reader.copying out tries s1 k) = out
words_of _ = torn

copied_reader : copied.reader ≡ Reader.copying (words_of copied.reader) 15 0 view_words
unfolding run_reader advance_reader begin_read
copied_reader = refl

copied_stores : copied.stores < 4294967296
unfolding run_reader advance_reader begin_read
copied_stores = omega arith

copied_seq : copied.seq ≡ 0
unfolding run_reader advance_reader begin_read
copied_seq = refl

Reach-Same_example : Same (words_of copied.reader) copied.latest view_words
Reach-Same_example =
    Reach-Same copied (words_of copied.reader) 15 0 copied-Reach copied_stores copied_reader
      copied_seq
