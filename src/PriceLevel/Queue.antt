-- ===== src/PriceLevel/Queue.antt =====
-- A price level as a queue of orders, oldest first: the methods of price_level.hpp against lists.
use native.Mathlib.Decide.{ℕ_discrete}
use ultra_low_latency_orderb.Prelude.{
  ℕ, ◌+◌, ◌%◌, ◌^◌, ◌≡◌, ◌≢◌, ◌∙◌, ap, refl, sym, Option, none, some, List, [], ◌∷◌, ◌++◌, arith,
  points_at, ◌∈◌, ◌∉◌, Distinct, head?, last_or, last?, erase, false, inl, inr, length,
  points_at-last_or, ==_true, ==_false, subst,
}
use ultra_low_latency_orderb.PriceLevel.{Heap, PriceLevel, end_after_unlink}
use ultra_low_latency_orderb.PriceLevel.Links.{Links, SameData}
use ultra_low_latency_orderb.PriceLevel.Fifo.{Links-prev, Links-frame}

-- The shares resting in the orders `xs`.
abbrev pub quantity_sum : Heap → List ℕ → ℕ
quantity_sum h [] = 0
quantity_sum h (x ∷ xs) = (h x).quantity + quantity_sum h xs

-- The level `l` holds the orders `xs`, oldest first; its counters are those of the list, as far as
-- 64 bits show them.
pub record IsQueue (h : Heap) (l : PriceLevel) (xs : List ℕ) : Type 0 where
  pub links : Links h none xs
  pub distinct : Distinct xs
  pub head : l.head ≡ head? xs
  pub tail : l.tail ≡ last? xs
  pub total : l.total_quantity ≡ quantity_sum h xs % 2 ^ 64
  pub count : l.order_count ≡ length xs % 2 ^ 64

pub quantity_sum_frame :
    (h g : Heap) (xs : List ℕ)
    → ((b : ℕ) → b ∈ xs → (g b).quantity ≡ (h b).quantity)
    → quantity_sum g xs ≡ quantity_sum h xs
quantity_sum_frame h g [] same = refl
quantity_sum_frame h g (x ∷ xs) same =
    omega (arith, same x (ground arith), quantity_sum_frame h g xs (λ b i. same b (ground arith)))

pub quantity_sum-append_one :
    (h : Heap) (xs : List ℕ) (a : ℕ)
    → quantity_sum h (xs ++ (a ∷ [])) ≡ quantity_sum h xs + (h a).quantity
quantity_sum-append_one h [] a = omega arith
quantity_sum-append_one h (x ∷ xs) a = omega (arith, quantity_sum-append_one h xs a)

pub quantity_sum-erase :
    (h : Heap) (xs : List ℕ) (a : ℕ)
    → a ∈ xs
    → quantity_sum h xs ≡ quantity_sum h (erase a xs) + (h a).quantity
quantity_sum-erase h [] a i = ground arith
quantity_sum-erase h (x ∷ xs) a i = elim (ℕ_discrete a x) [
  | yes hit ↦ rw (==_true a x hit) (omega (arith, ap (λ k. (h k).quantity) hit))
  | no miss ↦
      rw (==_false a x miss)
        (omega (arith, quantity_sum-erase h xs a (rw (==_false a x miss) at i)))
]

pub head?-erase :
    (h : Heap) (xs : List ℕ) (a : ℕ)
    → Links h none xs
    → a ∈ xs
    → head? (erase a xs) ≡ end_after_unlink (head? xs) (h a).prev (h a).next
head?-erase h [] a l i = ground arith
head?-erase h (x ∷ xs) a l i = elim (ℕ_discrete a x) [
  | yes hit ↦
      rw (==_true a x hit)
        (sym (rw (ap (λ k. (h k).prev) hit ∙ l.0) (ap (λ k. (h k).next) hit ∙ l.1)))
  | no miss ↦ rw (==_false a x miss) (elim (Links-prev h none (x ∷ xs) a l i) [
    | inl (e, q) ↦ absurd (miss (ground arith))
    | inr (b, j, q) ↦ rw q
  ])
]

pub last_or-erase :
    (h : Heap) (p : Option ℕ) (xs : List ℕ) (a : ℕ)
    → Links h p xs
    → a ∈ xs
    → last_or p (erase a xs) ≡ end_after_unlink (last_or p xs) (h a).next (h a).prev
last_or-erase h p [] a l i = ground arith
last_or-erase h p (x ∷ []) a l i = ground arith
last_or-erase h p (x ∷ (y ∷ r)) a l i = elim (ℕ_discrete a x) [
  | yes hit ↦ rw (==_true a x hit) (sym (rw (ap (λ k. (h k).next) hit ∙ l.1)))
  | no miss ↦
      rw (==_false a x miss) (last_or-erase h (some x) (y ∷ r) a l.2 (rw (==_false a x miss) at i))
]

pub IsQueue-frame :
    (h g : Heap) (l : PriceLevel) (xs : List ℕ)
    → IsQueue h l xs
    → ((b : ℕ) → b ∈ xs → ((g b).next ≡ (h b).next) × ((g b).prev ≡ (h b).prev))
    → ((b : ℕ) → b ∈ xs → (g b).quantity ≡ (h b).quantity)
    → IsQueue g l xs
IsQueue-frame h g l xs v s q = record {
  links = Links-frame h g none xs v.links s;
  distinct = v.distinct;
  head = v.head;
  tail = v.tail;
  total = rw (quantity_sum_frame h g xs q) v.total;
  count = v.count;
}

pub data-quantity : (h g : Heap) (b : ℕ) → SameData h g → (g b).quantity ≡ (h b).quantity
data-quantity h g b s = ap (λ o. o.quantity) (s b)

pub last?-ne : (xs : List ℕ) (a : ℕ) → a ∉ xs → points_at (last? xs) a ≡ false
last?-ne [] a out = refl
last?-ne (x ∷ xs) a out = points_at-last_or a x xs out

pub ne_of_points_at : (p : Option ℕ) (a : ℕ) → points_at p a ≡ false → p ≢ some a
ne_of_points_at none a e = λ q. cc
ne_of_points_at (some b) a e = λ q. ground arith

pub prev-ne :
    (h : Heap) (p : Option ℕ) (xs : List ℕ) (a : ℕ)
    → Links h p xs
    → Distinct xs
    → a ∈ xs
    → points_at p a ≡ false
    → points_at (h a).prev a ≡ false
prev-ne h p [] a l d i out = ground arith
prev-ne h p (x ∷ xs) a l d i out = elim (ℕ_discrete a x) [
  | yes hit ↦ rw (ap (λ k. (h k).prev) hit ∙ l.0) out
  | no miss ↦ prev-ne h (some x) xs a l.2 d.1 (rw (==_false a x miss) at i) (ground arith)
]

head?-ne : (xs : List ℕ) (a : ℕ) → a ∉ xs → points_at (head? xs) a ≡ false
head?-ne [] a out = refl
head?-ne (x ∷ xs) a out = ground arith

pub next-ne :
    (h : Heap) (p : Option ℕ) (xs : List ℕ) (a : ℕ)
    → Links h p xs
    → Distinct xs
    → a ∈ xs
    → points_at (h a).next a ≡ false
next-ne h p [] a l d i = ground arith
next-ne h p (x ∷ xs) a l d i = elim (ℕ_discrete a x) [
  | yes hit ↦
      rw (ap (λ k. (h k).next) hit ∙ l.1) (head?-ne xs a (subst (λ k. k ∉ xs) (sym hit) d.0))
  | no miss ↦ next-ne h (some x) xs a l.2 d.1 (rw (==_false a x miss) at i)
]
