-- ===== src/Prelude/Maps.antt =====
-- Memory as a function of the address, pointers as options, and lists of addresses.
use Prim.Native.Nat.{ℕ, ◌+◌}
use mathlib.Core.Path.{◌≡◌, refl}
use mathlib.Core.Logic.{◌≢◌}
use mathlib.Core.Bool.{Bool, true, false, ◌||◌}
use mathlib.Core.Option.{Option, none, some}
use mathlib.Core.List.{List, [], ◌∷◌, ◌++◌}
use native.Mathlib.Omega.{arith}
use ultra_low_latency_orderb.Prelude.Lists.{length}
use ultra_low_latency_orderb.Prelude.Tests.{◌==◌, if◌then◌else◌}

-- One cell of a map rewritten.
abbrev pub write {ℓ} : {A : Type ℓ} → (ℕ → A) → ℕ → A → ℕ → A
write f i v = λ j. if j == i then v else f j

-- The pointer `p` is the address `a`.
abbrev pub points_at : Option ℕ → ℕ → Bool
points_at none a = false
points_at (some b) a = b == a

abbrev pub is_none {ℓ} : {A : Type ℓ} → Option A → Bool
is_none none = true
is_none (some a) = false

abbrev pub has : ℕ → List ℕ → Bool
has a [] = false
has a (x ∷ xs) = (a == x) || has a xs

infix 40 ◌∈◌ ◌∉◌
abbrev pub ◌∈◌ : ℕ → List ℕ → Type 0
a ∈ xs = has a xs ≡ true

abbrev pub ◌∉◌ : ℕ → List ℕ → Type 0
a ∉ xs = has a xs ≡ false

abbrev pub Distinct : List ℕ → Type 0
Distinct [] = Unit {0}
Distinct (x ∷ xs) = (x ∉ xs) × Distinct xs

abbrev pub head? {ℓ} : {A : Type ℓ} → List A → Option A
head? [] = none
head? (x ∷ xs) = some x

-- The last element, or `d` for the empty list.
abbrev pub last_or {ℓ} : {A : Type ℓ} → Option A → List A → Option A
last_or d [] = d
last_or d (x ∷ xs) = last_or (some x) xs

abbrev pub last? {ℓ} : {A : Type ℓ} → List A → Option A
last? xs = last_or none xs

-- The list without the first occurrence of `a`.
abbrev pub erase : ℕ → List ℕ → List ℕ
erase a [] = []
erase a (x ∷ xs) = if a == x then xs else x ∷ erase a xs

pub has-append : (a : ℕ) (xs ys : List ℕ) → has a (xs ++ ys) ≡ (has a xs || has a ys)
has-append a [] ys = refl
has-append a (x ∷ xs) ys = ground (arith, has-append a xs ys)

pub Distinct-append_one : (xs : List ℕ) (a : ℕ) → Distinct xs → a ∉ xs → Distinct (xs ++ (a ∷ []))
Distinct-append_one [] a d out = (refl, tt)
Distinct-append_one (x ∷ xs) a d out =
    (ground (arith, has-append x xs (a ∷ [])), Distinct-append_one xs a d.1 (ground arith))

pub has-erase_of_not : (b a : ℕ) (xs : List ℕ) → b ∉ xs → b ∉ erase a xs
has-erase_of_not b a [] out = refl
has-erase_of_not b a (x ∷ xs) out = ground (arith, has-erase_of_not b a xs)

pub has-erase_ne : (b a : ℕ) (xs : List ℕ) → b ≢ a → has b (erase a xs) ≡ has b xs
has-erase_ne b a [] ne = refl
has-erase_ne b a (x ∷ xs) ne = ground (arith, has-erase_ne b a xs ne)

pub has-erase_self : (a : ℕ) (xs : List ℕ) → Distinct xs → a ∉ erase a xs
has-erase_self a [] d = refl
has-erase_self a (x ∷ xs) d = ground (arith, has-erase_self a xs d.1)

pub Distinct-erase : (a : ℕ) (xs : List ℕ) → Distinct xs → Distinct (erase a xs)
Distinct-erase a [] d = tt
Distinct-erase a (x ∷ xs) d = ground (arith, Distinct-erase a xs d.1, has-erase_of_not x a xs d.0)

pub last_or-append_one : (d : Option ℕ) (xs : List ℕ) (a : ℕ) → last_or d (xs ++ (a ∷ [])) ≡ some a
last_or-append_one d [] a = refl
last_or-append_one d (x ∷ xs) a = last_or-append_one (some x) xs a

pub points_at-last_or :
    (x y : ℕ) (r : List ℕ) → x ∉ (y ∷ r) → points_at (last_or (some y) r) x ≡ false
points_at-last_or x y [] out = ground arith
points_at-last_or x y (z ∷ r) out = points_at-last_or x z r (ground arith)

pub head?-append_one :
    (xs : List ℕ) (a : ℕ)
    → head? (xs ++ (a ∷ [])) ≡ (if is_none (head? xs) then some a else head? xs)
head?-append_one [] a = refl
head?-append_one (x ∷ xs) a = refl

pub length-erase : (xs : List ℕ) (a : ℕ) → a ∈ xs → length xs ≡ length (erase a xs) + 1
length-erase [] a i = ground arith
length-erase (x ∷ xs) a i = ground (arith, length-erase xs a)
