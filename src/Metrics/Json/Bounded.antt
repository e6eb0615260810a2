-- ===== src/Metrics/Json/Bounded.antt =====
-- The buffer that `writeJson` leaves: as much of the whole text as fits, a null, and nothing else.
use ultra_low_latency_orderb.Prelude.{
  ℕ, zero, suc, ◌+◌, ◌-◌, ◌<◌, ◌≤◌, ◌≡◌, ◌≢◌, ◌∙◌, min, refl, sym, ap, subst, arith, false, List,
  [], ◌∷◌, ◌++◌, length, length-append, take, leb, if◌then◌else◌, write, ==_true, ==_false,
}
use mathlib.Core.List.{append_assoc, append-nil}
use native.Mathlib.Decide.{dec_le}
use ultra_low_latency_orderb.Metrics.{Bytes, Printer, MetricsSnapshot}
use ultra_low_latency_orderb.Metrics.Json.{
  Memory, put_text, jappend, append_all, json_texts, write_json,
}

-- The bytes from `pos` on are `text`.
abbrev pub Reads : Memory → ℕ → Bytes → Type 0
Reads buf pos [] = Unit
Reads buf pos (c ∷ text) = (buf pos ≡ c) × Reads buf (pos + 1) text

write_self : (buf : Memory) (pos c : ℕ) → write buf pos c pos ≡ c
write_self buf pos c = rw (==_true pos pos refl) refl

write_other : (buf : Memory) (pos c i : ℕ) → i ≢ pos → write buf pos c i ≡ buf i
write_other buf pos c i ne = rw (==_false i pos ne) refl

put_text-before :
    (text : Bytes) (buf : Memory) (pos room i : ℕ) → i < pos → put_text buf pos room text i ≡ buf i
unfolding put_text
put_text-before text buf pos zero i lt = refl
put_text-before text buf pos (suc zero) i lt = write_other buf pos 0 i (λ e. omega arith)
put_text-before [] buf pos (suc (suc room)) i lt = write_other buf pos 0 i (λ e. omega arith)
put_text-before (c ∷ text) buf pos (suc (suc room)) i lt =
    put_text-before text (write buf pos c) (pos + 1) (suc room) i (omega arith)
    ∙ write_other buf pos c i (λ e. omega arith)

put_text-behind :
    (text : Bytes) (buf : Memory) (pos room i : ℕ)
    → pos + room ≤ i
    → put_text buf pos room text i ≡ buf i
unfolding put_text
put_text-behind text buf pos zero i le = refl
put_text-behind text buf pos (suc zero) i le = write_other buf pos 0 i (λ e. omega arith)
put_text-behind [] buf pos (suc (suc room)) i le = write_other buf pos 0 i (λ e. omega arith)
put_text-behind (c ∷ text) buf pos (suc (suc room)) i le =
    put_text-behind text (write buf pos c) (pos + 1) (suc room) i (omega arith)
    ∙ write_other buf pos c i (λ e. omega arith)

put_text-Reads :
    (text : Bytes) (buf : Memory) (pos room : ℕ)
    → Reads (put_text buf pos (suc room) text) pos (take room text)
unfolding put_text
put_text-Reads text buf pos zero = tt
put_text-Reads [] buf pos (suc room) = tt
put_text-Reads (c ∷ text) buf pos (suc room) = (
  put_text-before text (write buf pos c) (pos + 1) (suc room) pos (omega arith)
      ∙ write_self buf pos c,
  put_text-Reads text (write buf pos c) (pos + 1) room,
)

put_text-null :
    (text : Bytes) (buf : Memory) (pos room : ℕ)
    → put_text buf pos (suc room) text (pos + min (length text) room) ≡ 0
unfolding put_text
put_text-null text buf pos zero =
    let e : pos + min (length text) 0 ≡ pos = omega arith in rw e (write_self buf pos 0)
put_text-null [] buf pos (suc room) =
    let e : pos + min 0 (suc room) ≡ pos = omega arith in rw e (write_self buf pos 0)
put_text-null (c ∷ text) buf pos (suc room) =
    let e : pos + min (suc (length text)) (suc room) ≡ pos + 1 + min (length text) room =
      omega arith in
    rw e (put_text-null text (write buf pos c) (pos + 1) room)

Reads-same :
    (a b : Memory) (pos : ℕ) (text : Bytes)
    → ((i : ℕ) → i < pos + length text → a i ≡ b i)
    → Reads b pos text
    → Reads a pos text
Reads-same a b pos [] h r = tt
Reads-same a b pos (c ∷ text) h r =
    (h pos (omega arith) ∙ r.0, Reads-same a b (pos + 1) text (λ i lt. h i (omega arith)) r.1)

Reads-append :
    (a : Memory) (pos : ℕ) (xs ys : Bytes)
    → Reads a pos xs
    → Reads a (pos + length xs) ys
    → Reads a pos (xs ++ ys)
Reads-append a pos [] ys r s = let e : pos + 0 ≡ pos = omega arith in subst (λ k. Reads a k ys) e s
Reads-append a pos (x ∷ xs) ys r s =
    let e : pos + suc (length xs) ≡ pos + 1 + length xs = omega arith in
    (r.0, Reads-append a (pos + 1) xs ys r.1 (subst (λ k. Reads a k ys) e s))

length-take : (n : ℕ) (xs : Bytes) → length (take n xs) ≡ min n (length xs)
length-take zero xs = omega arith
length-take (suc n) [] = omega arith
length-take (suc n) (x ∷ xs) = omega (arith, length-take n xs)

take-append_le :
    (n : ℕ) (xs ys : Bytes) → length xs ≤ n → take n (xs ++ ys) ≡ xs ++ take (n - length xs) ys
take-append_le n [] ys le = let e : n - 0 ≡ n = omega arith in rw e refl
take-append_le zero (x ∷ xs) ys le = absurd (omega arith)
take-append_le (suc n) (x ∷ xs) ys le =
    let e : suc n - suc (length xs) ≡ n - length xs = omega arith in
    rw e (ap (λ r. x ∷ r) (take-append_le n xs ys (omega arith)))

take-all : (n : ℕ) (xs : Bytes) → length xs ≤ n → take n xs ≡ xs
take-all zero [] le = refl
take-all (suc n) [] le = refl
take-all zero (x ∷ xs) le = absurd (omega arith)
take-all (suc n) (x ∷ xs) le = ap (λ r. x ∷ r) (take-all n xs (omega arith))

take-append_full : (n : ℕ) (xs ys : Bytes) → n ≤ length xs → take n (xs ++ ys) ≡ take n xs
take-append_full zero xs ys le = refl
take-append_full (suc n) [] ys le = absurd (omega arith)
take-append_full (suc n) (x ∷ xs) ys le = ap (λ r. x ∷ r) (take-append_full n xs ys (omega arith))

-- The buffer `buf` of `suc last` bytes after texts that make up `whole` were appended.
pub record IsFilled (buf : Memory) (last : ℕ) (whole : Bytes) (out : Memory × ℕ) : Type 0 where
  pub reads : Reads out.0 0 (take last whole)
  pub result : out.1 ≡ min (length whole) last
  pub outside : (i : ℕ) → last < i → out.0 i ≡ buf i

-- A call where the buffer was full already.
append_full :
    (buf : Memory) (last : ℕ) (whole text : Bytes) (out : Memory × ℕ)
    → IsFilled buf last whole out
    → last ≤ length whole
    → Reads (put_text out.0 last 1 text) 0 (take last (whole ++ text))
append_full buf last whole text out v full = rw (take-append_full last whole text full) (
    Reads-same (put_text out.0 last 1 text) out.0 0 (take last whole)
      (λ i lt. put_text-before text out.0 last 1 i (omega (arith, length-take last whole))) v.reads)

-- A call where it was not.
append_room :
    (buf : Memory) (last : ℕ) (whole text : Bytes) (out : Memory × ℕ)
    → IsFilled buf last whole out
    → length whole ≤ last
    → Reads
        (put_text out.0 (length whole) (suc (last - length whole)) text)
        0
        (take last (whole ++ text))
append_room buf last whole text out v room =
    let after : Memory = put_text out.0 (length whole) (suc (last - length whole)) text in
    rw (take-append_le last whole text room) (
      Reads-append after 0 whole (take (last - length whole) text)
        (Reads-same after out.0 0 whole
          (λ i lt.
            put_text-before text out.0 (length whole) (suc (last - length whole)) i (omega arith))
          (subst (λ w. Reads out.0 0 w) (take-all last whole room) v.reads))
        (subst (λ k. Reads after k (take (last - length whole) text)) (zero_left (length whole))
          (put_text-Reads text out.0 (length whole) (last - length whole))))
  where
    zero_left : (n : ℕ) → n ≡ 0 + n
    zero_left n = omega arith

-- Either way.
append-Reads :
    (buf : Memory) (last : ℕ) (whole text : Bytes) (out : Memory × ℕ)
    → IsFilled buf last whole out
    → Reads (put_text out.0 out.1 (suc (last - out.1)) text) 0 (take last (whole ++ text))
append-Reads buf last whole text out v = elim (dec_le last (length whole)) [
  | yes full ↦
      let n : out.1 ≡ last = omega (arith, v.result) in
      let r : last - out.1 ≡ 0 = omega (arith, n) in
      rw (r, n) (append_full buf last whole text out v full)
  | no room ↦
      let n : out.1 ≡ length whole = omega (arith, v.result) in
      rw n (append_room buf last whole text out v (omega arith))
]

jappend-eq :
    (last : ℕ) (out : Memory × ℕ) (text : Bytes)
    → out.1 ≤ last
    → jappend (suc last) out text
      ≡ (put_text out.0 out.1 (suc (last - out.1)) text, min (out.1 + length text) last)
unfolding jappend
jappend-eq last (buf, n) text le =
    let fits : leb (suc last) n ≡ false = ground arith in
    let room : suc last - n ≡ suc (last - n) = omega arith in
    rw (fits, room) (ap (λ k. (put_text buf n (suc (last - n)) text, k)) (ends (n + length text)))
  where
    ends : (m : ℕ) → (if leb (suc last) m then suc last - 1 else m) ≡ min m last
    ends m = ground arith

jappend-IsFilled :
    (buf : Memory) (last : ℕ) (whole text : Bytes) (out : Memory × ℕ)
    → IsFilled buf last whole out
    → let next = jappend (suc last) out text in
      IsFilled buf last (whole ++ text) next × (next.0 next.1 ≡ 0)
jappend-IsFilled buf last whole text out v =
    let le : out.1 ≤ last = omega (arith, v.result) in
    rw (jappend-eq last out text le) (
      record {
        reads = append-Reads buf last whole text out v;
        result = omega (arith, v.result, length-append whole text);
        outside = λ i lt.
            put_text-behind text out.0 out.1 (suc (last - out.1)) i (omega arith) ∙ v.outside i lt;
      },
      subst (λ k. put_text out.0 out.1 (suc (last - out.1)) text k ≡ 0) (at out.1 (length text) le)
          (put_text-null text out.0 out.1 (last - out.1)),
    )
  where
    at : (n k : ℕ) → n ≤ last → n + min k (last - n) ≡ min (n + k) last
    at n k le = omega arith

abbrev pub concat : List Bytes → Bytes
concat [] = []
concat (text ∷ texts) = text ++ concat texts

append_all-IsFilled :
    (texts : List Bytes) (buf : Memory) (last : ℕ) (whole text : Bytes) (out : Memory × ℕ)
    → IsFilled buf last whole out
    → let next = append_all (suc last) out (text ∷ texts) in
      IsFilled buf last (whole ++ (text ++ concat texts)) next × (next.0 next.1 ≡ 0)
unfolding append_all
append_all-IsFilled [] buf last whole text out v =
    subst
      (λ w.
        IsFilled buf last w (jappend (suc last) out text)
        × ((jappend (suc last) out text).0 (jappend (suc last) out text).1 ≡ 0))
      (ap (λ r. whole ++ r) (sym (append-nil text))) (jappend-IsFilled buf last whole text out v)
append_all-IsFilled (next ∷ texts) buf last whole text out v =
    let (w, _) = jappend-IsFilled buf last whole text out v in
    let all =
      append_all-IsFilled texts buf last (whole ++ text) next (jappend (suc last) out text) w in
    subst
      (λ w.
        IsFilled buf last w (append_all (suc last) (jappend (suc last) out text) (next ∷ texts))
        × ((append_all (suc last) (jappend (suc last) out text) (next ∷ texts)).0
              (append_all (suc last) (jappend (suc last) out text) (next ∷ texts)).1
            ≡ 0))
      (append_assoc whole text (next ++ concat texts)) all

-- In a buffer of at least one byte `writeJson` leaves the whole text cut to one byte less, with a
-- null behind it; it returns the number of bytes before the null, and no byte beyond the buffer is
-- written.
pub write_json-IsFilled :
    {W : Type 0} ⦃p : Printer W⦄ (s : MetricsSnapshot W) (buf : Memory) (last : ℕ)
    → let out = write_json s buf (suc last) in
      IsFilled buf last (concat (json_texts s)) out × (out.0 out.1 ≡ 0)
unfolding write_json json_texts
write_json-IsFilled s buf last =
    append_all-IsFilled _ buf last [] _ (buf, 0)
      (record { reads = nothing; result = omega arith; outside = λ i lt. refl })
  where
    nothing : Reads buf 0 (take last [])
    nothing = start last
      where
        start : (n : ℕ) → Reads buf 0 (take n [])
        start zero = tt
        start (suc n) = tt
