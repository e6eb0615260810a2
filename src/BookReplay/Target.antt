-- ===== src/BookReplay/Target.antt =====
-- Comparing two symbols as one integer is comparing them byte by byte.
use ultra_low_latency_orderb.Prelude.{◌<◌, ◌≡◌, refl, arith, [], ◌∷◌, length}
use ultra_low_latency_orderb.ItchParser.{Bytes}
use ultra_low_latency_orderb.BookReplay.{pack}

-- Every byte is below 256.
abbrev pub AreBytes : Bytes → Type 0
AreBytes [] = Unit {0}
AreBytes (x ∷ xs) = (x < 256) × AreBytes xs

-- Packed bytes of one length are equal only where the bytes are.
pub pack_inj :
    (xs ys : Bytes)
    → AreBytes xs
    → AreBytes ys
    → length xs ≡ length ys
    → pack xs ≡ pack ys
    → xs ≡ ys
unfolding pack
pack_inj [] [] a b l e = refl
pack_inj [] (y ∷ ys) a b l e = absurd (omega arith)
pack_inj (x ∷ xs) [] a b l e = absurd (omega arith)
pack_inj (x ∷ xs) (y ∷ ys) a b l e =
    let head : x ≡ y = omega (arith, a.0, b.0) in
    let rest : xs ≡ ys = pack_inj xs ys a.1 b.1 (omega arith) (omega (arith, a.0, b.0)) in
    rw (head, rest) refl
