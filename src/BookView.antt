-- ===== src/BookView.antt =====
-- metrics/include/book_view.hpp: the seqlock through which one thread publishes the depth of the
-- book to another. A view is copied word by word: it is a function of the word's index, read below
-- `view_words`. `publish` and `read` stand here as the accesses that they make of the shared state,
-- one at a time; the accesses are taken to happen in one order, which the fences are there to give.
pub mod Whole
pub mod Quiet
mod Tests
use ultra_low_latency_orderb.Prelude.{
  ℕ, zero, suc, ◌+◌, ◌%◌, ◌^◌, ◌<◌, ◌≡◌, Bool, true, false, Option, none, some, ltb, ◌==◌,
  if◌then◌else◌, write,
}

-- The words of a `BookView`: two counts, and twice ten levels of two words each.
abbrev pub view_words : ℕ
view_words = 41

abbrev pub View : Type 0
View = ℕ → ℕ

-- `publish(v)`: before its first load, and with `k` words copied, `s` being what it loaded.
pub data Writer : Type 0 where
  resting : Writer
  writing : (v : View) (s k : ℕ) → Writer

-- `read(out)`, with `tries` rounds left: at the head of the loop; with `k` words copied, `s1` being
-- what it loaded; returned true; returned false.
pub data Reader : Type 0 where
  starting : (out : View) (tries : ℕ) → Reader
  copying : (out : View) (tries s1 k : ℕ) → Reader
  accepted : (out : View) → Reader
  refused : Reader

-- `latest` is the view whose publication was the last to end.
pub record Shared : Type 0 where
  pub seq : ℕ
  pub words : View
  pub writer : Writer
  pub reader : Reader
  pub latest : View
  pub stores : ℕ

-- The two stores of `seq_` are counted in `stores`, which does not wrap.
unfoldable pub store_seq : Shared → ℕ → Shared
store_seq s n = record s { seq = n % 2 ^ 32; stores = s.stores + 1 }

unfoldable pub begin_publish : Shared → View → Shared
unfolding store_seq
begin_publish s v = record (store_seq s (s.seq + 1)) { writer = Writer.writing v s.seq 0 }

-- The next access of `publish`.
unfoldable pub advance_writer : Writer → Shared → Shared
unfolding store_seq
advance_writer Writer.resting s = s
advance_writer (Writer.writing v n k) s =
    if ltb k view_words
    then record s { words = write s.words k (v k); writer = Writer.writing v n (k + 1) }
    else record (store_seq s (n + 2)) { writer = Writer.resting; latest = v }

unfoldable pub begin_read : Shared → View → Shared
begin_read s out = record s { reader = Reader.starting out 16 }

-- The next access of `read`.
unfoldable pub advance_reader : Reader → Shared → Shared
advance_reader (Reader.starting out zero) s = record s { reader = Reader.refused }
advance_reader (Reader.starting out (suc tries)) s = record s {
  reader = if s.seq % 2 == 1 then Reader.starting out tries else Reader.copying out tries s.seq 0;
}
advance_reader (Reader.copying out tries s1 k) s = record s {
  reader =
      if ltb k view_words
      then Reader.copying (write out k (s.words k)) tries s1 (k + 1)
      else if s.seq == s1
      then Reader.accepted out
      else Reader.starting out tries;
}
advance_reader (Reader.accepted out) s = s
advance_reader Reader.refused s = s

-- The reader's next `n` accesses, with none of the writer's between them.
unfoldable pub run_reader : ℕ → Shared → Shared
run_reader zero s = s
run_reader (suc n) s = run_reader n (advance_reader s.reader s)

-- A new publish or read begins where the last one has ended.
abbrev pub is_over : Reader → Bool
is_over (Reader.accepted out) = true
is_over Reader.refused = true
is_over _ = false

pub data Step (s : Shared) : Shared → Type 0 where
  publish : (v : View) → s.writer ≡ Writer.resting → Step s (begin_publish s v)
  copy_in : Step s (advance_writer s.writer s)
  read : (out : View) → is_over s.reader ≡ true → Step s (begin_read s out)
  copy_out : Step s (advance_reader s.reader s)

-- Nothing published, and no read begun.
abbrev pub start : Shared
start = record {
  seq = 0;
  words = λ k. 0;
  writer = Writer.resting;
  reader = Reader.refused;
  latest = λ k. 0;
  stores = 0;
}

pub data Reach : Shared → Type 0 where
  here : Reach start
  next : {s t : Shared} → Reach s → Step s t → Reach t
