-- ===== src/BookReplay/Tests.antt =====
-- A replay of the book with one offer, driven by a reduction.
use ultra_low_latency_orderb.Prelude.{◌-◌, ◌<◌, ◌≤◌, ◌≡◌, arith, none, some, [], ◌∷◌, add64}
use ultra_low_latency_orderb.ItchParser.{Bytes, Message, blank_message}
use ultra_low_latency_orderb.OrderBook.Examples.{one_offer, one_valid, one_mapped, offer}
use ultra_low_latency_orderb.BookReplay.{BookReplay, on_message, on_reduce}
use ultra_low_latency_orderb.BookReplay.Replayed.{IsSound, on_message-IsSound, on_reduce_lem}

abbrev replay : BookReplay
replay = record {
  book = one_offer;
  target = 0;
  seen = 0;
  added = 0;
  deleted = 0;
  reduced = 0;
  replaced = 0;
}

-- An execution of 3 shares of the order 7.
abbrev execution : Message
execution = record blank_message { kind = b'E'; order_ref = 7; shares = 3 }

sound : IsSound replay.book
sound = record { queues = _; free = _; live = _; book = one_valid }

abbrev symbol : Bytes
symbol = b'A' ∷ b' ' ∷ []

on_message-IsSound_example :
    (r' : BookReplay) × (on_message replay execution ≡ some r')
    × IsSound r'.book
    × (r'.target ≡ 0)
    × (r'.seen ≡ add64 0 1)
on_message-IsSound_example =
    on_message-IsSound replay execution sound (λ e. ground arith) (λ e. ground arith) (omega arith)

on_reduce_lem_example :
    let r' = on_reduce replay 7 3 in
    (3 < (one_offer.heap offer).quantity
      → (r'.book.orders 7 ≡ some offer)
        × ((r'.book.heap offer).quantity ≡ (one_offer.heap offer).quantity - 3))
    × ((one_offer.heap offer).quantity ≤ 3 → r'.book.orders 7 ≡ none)
    × (r'.reduced ≡ add64 0 1)
on_reduce_lem_example = on_reduce_lem replay 7 offer 3 sound one_mapped
