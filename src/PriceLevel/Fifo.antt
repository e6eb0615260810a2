-- ===== src/PriceLevel/Fifo.antt =====
-- The list that the pointers of price_level.hpp stand for, under `addOrder` and `removeOrder`.
use ultra_low_latency_orderb.Prelude.{
  ℕ, ◌≡◌, ◌≢◌, Option, none, some, List, [], ◌∷◌, ◌++◌, arith, ◌==◌, if◌then◌else◌, points_at, ◌∈◌,
  ◌∉◌, Distinct, head?, last_or, erase, false, points_at-last_or, ◌∙◌, sym, ap, subst, ==_true,
  ==_false, ◌⊎◌, inl, inr, Bool-cases,
}
use native.Mathlib.Decide.{ℕ_discrete}
use ultra_low_latency_orderb.PriceLevel.{Heap}
use ultra_low_latency_orderb.PriceLevel.Links.{Links}

-- `g` is `h` with `a` linked behind the order at `t`.
module _ (h g : Heap) (a : ℕ) (t : Option ℕ) (new_prev : (g a).prev ≡ t)
    (new_next : (g a).next ≡ none)
    (next : (b : ℕ) → b ≢ a → (g b).next ≡ (if points_at t b then some a else (h b).next))
    (prev : (b : ℕ) → b ≢ a → (g b).prev ≡ (h b).prev) where
  pub Links-append_one :
      (p : Option ℕ) (xs : List ℕ)
      → Links h p xs
      → Distinct xs
      → a ∉ xs
      → last_or p xs ≡ t
      → Links g p (xs ++ (a ∷ []))
  Links-append_one p [] l d out e = (ground arith, new_next, tt)
  Links-append_one p (x ∷ []) l d out e =
      (ground (arith, prev x), ground (arith, next x), (ground arith, new_next, tt))
  Links-append_one p (x ∷ (y ∷ r)) l d out e = (
    ground (arith, prev x),
    ground (arith, next x, points_at-last_or x y r d.0),
    Links-append_one (some x) (y ∷ r) l.2 d.1 (ground arith) e,
  )

-- Where an order's neighbours stand.
pub Links-prev :
    (h : Heap) (p : Option ℕ) (xs : List ℕ) (a : ℕ)
    → Links h p xs
    → a ∈ xs
    → ((head? xs ≡ some a) × ((h a).prev ≡ p)) ⊎ ((b : ℕ) × (b ∈ xs) × ((h a).prev ≡ some b))
Links-prev h p [] a l i = ground arith
Links-prev h p (x ∷ xs) a l i = elim (Bool-cases (a == x)) [
  | inl hit ↦ inl (ground arith, ground arith)
  | inr miss ↦ elim (Links-prev h (some x) xs a l.2 (ground arith)) [
    | inl (e, q) ↦ inr (x, ground arith, q)
    | inr (b, j, q) ↦ inr (b, ground arith, q)
  ]
]

pub Links-next :
    (h : Heap) (p : Option ℕ) (xs : List ℕ) (a : ℕ)
    → Links h p xs
    → a ∈ xs
    → ((h a).next ≡ none) ⊎ ((b : ℕ) × (b ∈ xs) × ((h a).next ≡ some b))
Links-next h p [] a l i = ground arith
Links-next h p (x ∷ []) a l i = inl (ground arith)
Links-next h p (x ∷ (y ∷ r)) a l i = elim (Bool-cases (a == x)) [
  | inl hit ↦ inr (y, ground arith, ground arith)
  | inr miss ↦ elim (Links-next h (some x) (y ∷ r) a l.2 (ground arith)) [
    | inl e ↦ inl e
    | inr (b, j, q) ↦ inr (b, ground arith, q)
  ]
]

-- A list keeps its links where no pointer of its orders changes.
pub Links-frame :
    (h g : Heap) (p : Option ℕ) (xs : List ℕ)
    → Links h p xs
    → ((b : ℕ) → b ∈ xs → ((g b).next ≡ (h b).next) × ((g b).prev ≡ (h b).prev))
    → Links g p xs
Links-frame h g p [] l same = tt
Links-frame h g p (x ∷ xs) l same = (
  ground (arith, same x),
  ground (arith, same x),
  Links-frame h g (some x) xs l.2 (λ b i. same b (ground arith)),
)

-- The pointer `p` leads to none of `xs`.
abbrev pub Outside : Option ℕ → List ℕ → Type 0
Outside p xs = (b : ℕ) → b ∈ xs → points_at p b ≡ false

ne_of_has : (a b : ℕ) (xs : List ℕ) → b ∈ xs → a ∉ xs → b ≢ a
ne_of_has a b xs i out e = ground arith

has-head : (x : ℕ) (xs : List ℕ) → x ∈ (x ∷ xs)
has-head x xs = ground arith

has-tail : (b x : ℕ) (xs : List ℕ) → b ∈ xs → b ∈ (x ∷ xs)
has-tail b x xs i = ground arith

points_at-ne : (n b : ℕ) → b ≢ n → points_at (some n) b ≡ false
points_at-ne n b ne = ground arith

-- `g` is `h` with `a` unlinked from its neighbours.
module _ (h g : Heap) (a : ℕ)
    (next_at : (b : ℕ) → b ≢ a → (h a).prev ≡ some b → (g b).next ≡ (h a).next)
    (next_off : (b : ℕ) → b ≢ a → points_at (h a).prev b ≡ false → (g b).next ≡ (h b).next)
    (prev_at : (b : ℕ) → b ≢ a → (h a).next ≡ some b → (g b).prev ≡ (h a).prev)
    (prev_off : (b : ℕ) → b ≢ a → points_at (h a).next b ≡ false → (g b).prev ≡ (h b).prev) where
  Links-behind :
      (p : Option ℕ) (xs : List ℕ)
      → Links h p (a ∷ xs)
      → Distinct (a ∷ xs)
      → Outside p (a ∷ xs)
      → Links g p xs
  Links-behind p [] l d out = tt
  Links-behind p (n ∷ r) l d out = (
    prev_at n n_ne l.1 ∙ l.0,
    next_off n n_ne (rw l.0 (out n (has-tail n a (n ∷ r) (has-head n r)))) ∙ l.2.1,
    Links-frame h g (some n) r l.2.2 λ b i. (
      next_off b (ne b i) (rw l.0 (out b (has-tail b a (n ∷ r) (has-tail b n r i)))),
      prev_off b (ne b i) (rw l.1 (points_at-ne n b (ne_of_has n b r i d.1.0))),
    ),
  )
    where
      n_ne : n ≢ a
      n_ne = ne_of_has a n (n ∷ r) (has-head n r) d.0

      ne : (b : ℕ) → b ∈ r → b ≢ a
      ne b i = ne_of_has a b (n ∷ r) (has-tail b n r i) d.0

  Links-before_prev :
      (p : Option ℕ) (x : ℕ) (xs : List ℕ)
      → Links h p (x ∷ xs)
      → x ∉ xs
      → x ≢ a
      → a ∈ xs
      → (g x).prev ≡ p
  Links-before_prev p x xs l d ne i = elim (Links-next h (some x) xs a l.2 i) [
    | inl e ↦ prev_off x ne (rw e) ∙ l.0
    | inr (b, j, q) ↦
        prev_off x ne (rw q (points_at-ne b x (λ e. ne_of_has x b xs j d (sym e)))) ∙ l.0
  ]

  Links-before_next :
      (p : Option ℕ) (x y : ℕ) (r : List ℕ)
      → Links h p (x ∷ (y ∷ r))
      → x ∉ (y ∷ r)
      → x ≢ a
      → a ∈ (y ∷ r)
      → (g x).next ≡ head? (erase a (y ∷ r))
  Links-before_next p x y r l d ne i = elim (ℕ_discrete a y) [
    | yes hit ↦
        rw (==_true a y hit)
          (next_at x ne (ap (λ k. (h k).prev) hit ∙ l.2.0) ∙ (ap (λ k. (h k).next) hit ∙ l.2.1))
    | no miss ↦ rw (==_false a y miss) (elim (Links-prev h (some x) (y ∷ r) a l.2 i) [
      | inl (e, q) ↦ absurd (miss (ground arith))
      | inr (b, j, q) ↦
          next_off x ne (rw q (points_at-ne b x (λ e. ne_of_has x b (y ∷ r) j d (sym e)))) ∙ l.1
    ])
  ]

  pub Links-erase :
      (p : Option ℕ) (xs : List ℕ)
      → Links h p xs
      → Distinct xs
      → a ∈ xs
      → Outside p xs
      → Links g p (erase a xs)
  Links-erase p [] l d i out = tt
  Links-erase p (x ∷ []) l d i out = elim (ℕ_discrete a x) [
    | yes hit ↦ rw (==_true a x hit) tt
    | no miss ↦ absurd (miss (ground arith))
  ]
  Links-erase p (x ∷ (y ∷ r)) l d i out = elim (ℕ_discrete a x) [
    | yes hit ↦ rw (==_true a x hit) (
        Links-behind p (y ∷ r) (subst (λ k. Links h p (k ∷ (y ∷ r))) (sym hit) l)
          (subst (λ k. Distinct (k ∷ (y ∷ r))) (sym hit) d)
          (subst (λ k. Outside p (k ∷ (y ∷ r))) (sym hit) out))
    | no miss ↦
        let i' : a ∈ (y ∷ r) = rw (==_false a x miss) at i in
        let ne : x ≢ a = λ e. miss (sym e) in
        rw (==_false a x miss) (
          Links-before_prev p x (y ∷ r) l d.0 ne i',
          Links-before_next p x y r l d.0 ne i',
          Links-erase (some x) (y ∷ r) l.2 d.1 i'
              (λ c j. points_at-ne x c (ne_of_has x c (y ∷ r) j d.0)),
        )
  ]
