-- ===== src/BookView/Whole.antt =====
-- A read that returns true has copied one whole view, whatever the order of the accesses; and a
-- read that no publication disturbs returns true.
use ultra_low_latency_orderb.Prelude.{
  ℕ, zero, suc, ◌+◌, ◌-◌, ◌%◌, ◌^◌, ◌<◌, ◌≤◌, ◌≡◌, ◌≢◌, ◌∙◌, refl, sym, ap, subst, arith, Bool,
  true, false, Bool-cases, inl, inr, ltb, ◌==◌, if◌then◌else◌, write, ==_true, ==_false, ltb→lt,
}
use native.Mathlib.Decide.{ℕ_discrete}
use ultra_low_latency_orderb.BookView.{
  view_words, View, Writer, Reader, Shared, begin_publish, advance_writer, begin_read,
  advance_reader, Step, Reach,
}

-- The first `k` words of two views are the same.
abbrev pub Same : View → View → ℕ → Type 0
Same v w k = (i : ℕ) → i < k → v i ≡ w i

pub Same-write : (v w : View) (k : ℕ) → Same v w k → Same (write v k (w k)) w (k + 1)
Same-write v w k h i lt = elim (ℕ_discrete i k) [
  | yes e ↦ rw (==_true i k e) (ap w (sym e))
  | no ne ↦ rw (==_false i k ne) (h i (below i k ne lt))
]
  where
    below : (i k : ℕ) → i ≢ k → i < k + 1 → i < k
    below i k ne lt = ground arith

-- What holds of the writer: between publications the words are the latest view, and the number of
-- stores is even; during one it is odd, and the first words are the new view's.
abbrev pub Writes : Writer → View → View → ℕ → Type 0
Writes Writer.resting words latest stores = (stores % 2 ≡ 0) × Same words latest view_words
Writes (Writer.writing v n k) words latest stores =
    (stores % 2 ≡ 1) × (n ≡ (stores + 2 ^ 32 - 1) % 2 ^ 32) × (k ≤ view_words) × Same words v k

-- What holds of the reader: if nothing was stored since it loaded `s1`, it has a part of the words.
abbrev pub Reads : Reader → View → ℕ → Type 0
Reads (Reader.copying out tries s1 k) words stores =
    (c : ℕ) × (s1 ≡ c % 2 ^ 32)
    × (c ≤ stores)
    × (c % 2 ≡ 0)
    × (k ≤ view_words)
    × (c ≡ stores → Same out words k)
Reads (Reader.starting out tries) words stores = Unit
Reads (Reader.accepted out) words stores = Unit
Reads Reader.refused words stores = Unit

pub record IsLocked (s : Shared) : Type 0 where
  pub seq : s.seq ≡ s.stores % 2 ^ 32
  pub writer : Writes s.writer s.words s.latest s.stores
  pub reader : Reads s.reader s.words s.stores

-- A store outdates what the reader has copied.
Reads-store :
    (r : Reader) (words words' : View) (stores : ℕ)
    → Reads r words stores
    → Reads r words' (stores + 1)
Reads-store (Reader.copying out tries s1 k) words words' stores (c, e, le, even, kle, same) =
    (c, e, omega arith, even, kle, λ q. absurd (omega (arith, q, le)))
Reads-store (Reader.starting out tries) words words' stores h = tt
Reads-store (Reader.accepted out) words words' stores h = tt
Reads-store Reader.refused words words' stores h = tt

-- A word written during a publication is not one that an undisturbed reader has copied.
Reads-write :
    (r : Reader) (words words' : View) (stores : ℕ)
    → stores % 2 ≡ 1
    → Reads r words stores
    → Reads r words' stores
Reads-write (Reader.copying out tries s1 k) words words' stores odd (c, e, le, even, kle, same) =
    (c, e, le, even, kle, λ q. absurd (differ c stores even odd q))
  where
    differ : (c stores : ℕ) → c % 2 ≡ 0 → stores % 2 ≡ 1 → c ≡ stores → ⊥
    differ c stores even odd q = omega arith
Reads-write (Reader.starting out tries) words words' stores odd h = tt
Reads-write (Reader.accepted out) words words' stores odd h = tt
Reads-write Reader.refused words words' stores odd h = tt

begin_publish-IsLocked :
    (s : Shared) (v : View) → s.writer ≡ Writer.resting → IsLocked s → IsLocked (begin_publish s v)
unfolding begin_publish
begin_publish-IsLocked s v e w =
    let k = subst (λ p. Writes p s.words s.latest s.stores) e w.writer in
    record {
      seq = omega (arith, w.seq);
      writer =
          (omega (arith, k.0), omega (arith, w.seq), omega arith, λ i lt. absurd (omega arith));
      reader = Reads-store s.reader s.words s.words s.stores w.reader;
    }

advance_writer-IsLocked :
    (p : Writer) (s : Shared) → s.writer ≡ p → IsLocked s → IsLocked (advance_writer p s)
unfolding advance_writer
advance_writer-IsLocked Writer.resting s e w = w
advance_writer-IsLocked (Writer.writing v n k) s e w =
    let h = subst (λ p. Writes p s.words s.latest s.stores) e w.writer in
    elim (Bool-cases (ltb k view_words)) [
      | inl more ↦ rw more (record {
        seq = w.seq;
        writer = (h.0, h.1, omega (arith, ltb→lt k view_words more), Same-write s.words v k h.3);
        reader = Reads-write s.reader s.words (write s.words k (v k)) s.stores h.0 w.reader;
      })
      | inr done ↦
          let full : k ≡ view_words = ground (arith, h.2) in
          rw done (record {
            seq = omega (arith, h.1);
            writer = (omega (arith, h.0), subst (λ j. Same s.words v j) full h.3);
            reader = Reads-store s.reader s.words s.words s.stores w.reader;
          })
    ]

advance_reader-IsLocked :
    (r : Reader) (s : Shared) → s.reader ≡ r → IsLocked s → IsLocked (advance_reader r s)
unfolding advance_reader
advance_reader-IsLocked (Reader.starting out zero) s e w = record {
  seq = w.seq;
  writer = w.writer;
  reader = tt;
}
advance_reader-IsLocked (Reader.starting out (suc tries)) s e w =
    elim (Bool-cases (s.seq % 2 == 1)) [
      | inl odd ↦ record { seq = w.seq; writer = w.writer; reader = rw odd tt }
      | inr even ↦ record {
        seq = w.seq;
        writer = w.writer;
        reader = rw even (
          s.stores,
          w.seq,
          omega arith,
          even_stores s.seq s.stores w.seq even,
          omega arith,
          λ q i lt. absurd (omega arith),
        );
      }
    ]
  where
    even_stores : (a b : ℕ) → a ≡ b % 2 ^ 32 → (a % 2 == 1) ≡ false → b % 2 ≡ 0
    even_stores a b e f = ground arith
advance_reader-IsLocked (Reader.copying out tries s1 k) s e w =
    let (c, q, le, even, kle, same) = subst (λ r. Reads r s.words s.stores) e w.reader in
    elim (Bool-cases (ltb k view_words)) [
      | inl more ↦ record {
        seq = w.seq;
        writer = w.writer;
        reader = rw more (
          c,
          q,
          le,
          even,
          omega (arith, ltb→lt k view_words more),
          λ f. Same-write out s.words k (same f),
        );
      }
      | inr done ↦ record { seq = w.seq; writer = w.writer; reader = rw done (ends (s.seq == s1)) }
    ]
  where
    ends :
        (b : Bool)
        → Reads (if b then Reader.accepted out else Reader.starting out tries) s.words s.stores
    ends true = tt
    ends false = tt
advance_reader-IsLocked (Reader.accepted out) s e w = w
advance_reader-IsLocked Reader.refused s e w = w

Step-IsLocked : {s t : Shared} → Step s t → IsLocked s → IsLocked t
unfolding begin_read
Step-IsLocked {s} (Step.publish v e) w = begin_publish-IsLocked s v e w
Step-IsLocked {s} Step.copy_in w = advance_writer-IsLocked s.writer s refl w
Step-IsLocked {s} (Step.read out e) w = record { seq = w.seq; writer = w.writer; reader = tt }
Step-IsLocked {s} Step.copy_out w = advance_reader-IsLocked s.reader s refl w

pub Reach-IsLocked : {s : Shared} → Reach s → IsLocked s
Reach-IsLocked Reach.here = record { seq = refl; writer = (refl, λ i lt. refl); reader = tt }
Reach-IsLocked (Reach.next r st) = Step-IsLocked st (Reach-IsLocked r)

-- In every state that the two threads can reach with fewer than 2 ^ 32 stores of the sequence
-- number, a read that is about to find the number it loaded has copied the whole of the view that
-- was published last, and no word of another.
pub Reach-Same :
    (s : Shared) (out : View) (tries s1 : ℕ)
    → Reach s
    → s.stores < 2 ^ 32
    → s.reader ≡ Reader.copying out tries s1 view_words
    → s.seq ≡ s1
    → Same out s.latest view_words
Reach-Same s out tries s1 r few e found =
    let w = Reach-IsLocked r in
    let (c, q, le, even, kle, same) = subst (λ r. Reads r s.words s.stores) e w.reader in
    let now : c ≡ s.stores = omega (arith, w.seq, found, q) in
    quiet s.writer now even (same now) w.writer
  where
    quiet :
        (p : Writer) {c : ℕ}
        → c ≡ s.stores
        → c % 2 ≡ 0
        → Same out s.words view_words
        → Writes p s.words s.latest s.stores
        → Same out s.latest view_words
    quiet Writer.resting now even same h = λ i lt. same i lt ∙ h.1 i lt
    quiet (Writer.writing v n k) now even same h = absurd (omega (arith, h.0))
