-- ===== src/Metrics/Json.antt =====
-- The serializer of metrics/include/metrics_snapshot.hpp. The buffer is memory, a function of the
-- index; the text of each call is what its format prints.
pub mod Bounded
use ultra_low_latency_orderb.Prelude.{
  ℕ, zero, suc, ◌+◌, ◌-◌, Bool, true, false, Option, none, some, add64, List, [], ◌∷◌, ◌++◌, length,
  leb, ltb, ◌==◌, if◌then◌else◌, write,
}
use ultra_low_latency_orderb.Prelude.Int.{ℤ, ◌-ℤ◌}
use ultra_low_latency_orderb.Metrics.{
  Bytes, codes, Double, Printer, OpStat, Alert, DepthLevel, TradeRec, MetricsSnapshot,
}

abbrev pub Memory : Type 0
Memory = ℕ → ℕ

-- `vsnprintf(buf + pos, room, ..)`: the text as far as it fits before a null.
unfoldable pub put_text : Memory → ℕ → ℕ → Bytes → Memory
put_text buf pos zero text = buf
put_text buf pos (suc zero) text = write buf pos 0
put_text buf pos (suc (suc room)) [] = write buf pos 0
put_text buf pos (suc (suc room)) (c ∷ text) = put_text (write buf pos c) (pos + 1) (suc room) text

-- `jappend`: the memory and `n`, for a format that prints `text`.
unfoldable pub jappend : ℕ → Memory × ℕ → Bytes → Memory × ℕ
jappend cap (buf, n) text =
    let n' = n + length text in
    if leb cap n
    then (buf, n)
    else (put_text buf n (cap - n) text, if leb cap n' then cap - 1 else n')

-- One call after the other.
unfoldable pub append_all : ℕ → Memory × ℕ → List Bytes → Memory × ℕ
append_all cap out [] = out
append_all cap out (text ∷ texts) = append_all cap (jappend cap out text) texts

-- The texts of a loop `for (i = 0; ..; ++i)`, with `i ? "," : ""` before each.
abbrev pub separated : {A : Type 0} → (A → Bytes) → Bytes → List A → List Bytes
separated show comma [] = []
separated show comma (x ∷ xs) = (comma ++ show x) ∷ separated show (codes ",") xs

unfoldable pub alert_text : Alert → Bytes
alert_text a =
    codes "{\"level\":\""
    ++ a.level
    ++ codes "\",\"code\":\""
    ++ a.code_name
    ++ codes "\",\"text\":\""
    ++ a.text
    ++ codes "\"}"

unfoldable pub level_text : {W : Type 0} → Printer W → DepthLevel → Bytes
level_text p l = codes "[" ++ p.signed l.px ++ codes "," ++ p.signed l.qty ++ codes "]"

unfoldable pub trade_text : {W : Type 0} → Printer W → TradeRec → Bytes
trade_text p t =
    codes "["
    ++ p.signed t.px
    ++ codes ","
    ++ p.signed t.qty
    ++ codes ","
    ++ p.unsigned t.maker
    ++ codes "]"

module _ {W : Type 0} ⦃p : Printer W⦄ where
  unfoldable pub head_text : MetricsSnapshot W → Bytes
  head_text s =
      codes "{\"t\":"
      ++ p.fixed 2 s.uptime_s
      ++ codes ",\"final\":"
      ++ (if s.final then codes "true" else codes "false")
      ++ codes ",\"events\":"
      ++ p.unsigned s.events
      ++ codes ",\"trades\":"
      ++ p.unsigned s.trades
      ++ codes ",\"snaps\":"
      ++ p.unsigned s.snaps
      ++ codes ",\"drops\":"
      ++ p.unsigned s.drops
      ++ codes ",\"unit\":\""
      ++ s.latency_unit
      ++ codes "\""

  unfoldable pub book_text : MetricsSnapshot W → Bytes
  book_text s =
      if s.have_book
      then codes ",\"book\":{\"bid\":"
        ++ p.signed s.best_bid
        ++ codes ",\"ask\":"
        ++ p.signed s.best_ask
        ++ codes ",\"spread\":"
        ++ p.signed (s.best_ask -ℤ s.best_bid)
        ++ codes ",\"last\":"
        ++ p.signed s.last_px
        ++ codes ",\"vol\":"
        ++ p.unsigned s.volume
        ++ codes "}"
      else codes ",\"book\":null"

  unfoldable pub op_text : OpStat W → Bytes
  op_text o =
      codes "{\"op\":\""
      ++ o.name
      ++ codes "\",\"ops_s\":"
      ++ p.fixed 0 o.ops_per_s
      ++ codes ",\"count\":"
      ++ p.unsigned o.count
      ++ codes ",\"p50\":"
      ++ p.fixed 1 o.p50
      ++ codes ",\"p99\":"
      ++ p.fixed 1 o.p99
      ++ codes ",\"p999\":"
      ++ p.fixed 1 o.p999
      ++ codes ",\"max\":"
      ++ p.fixed 1 o.max_ns
      ++ codes "}"

  -- What `writeJson` appends, call by call.
  unfoldable pub json_texts : MetricsSnapshot W → List Bytes
  json_texts s =
      head_text s
      ∷ book_text s
      ∷ codes ",\"ops\":["
      ∷ (separated op_text [] s.ops
          ++ codes "],\"alerts\":["
            ∷ (separated alert_text [] s.alerts
                ++ codes "],\"bids\":["
                  ∷ (separated (level_text p) [] s.bids
                      ++ codes "],\"asks\":["
                        ∷ (separated (level_text p) [] s.asks
                            ++ codes "],\"tape\":["
                              ∷ (separated (trade_text p) [] s.tape ++ (codes "]}" ∷ []))))))

  -- `writeJson(s, buf, cap)`: the memory afterwards and the result.
  unfoldable pub write_json : MetricsSnapshot W → Memory → ℕ → Memory × ℕ
  write_json s buf cap = append_all cap (buf, 0) (json_texts s)

-- `UdpPublisher` of metrics/include/udp_publisher.hpp, its socket left out.
pub record UdpPublisher : Type 0 where
  pub ok : Bool
  pub sent : ℕ
  pub errors : ℕ

abbrev pub is_some_of : Option ℕ → ℕ → Bool
is_some_of none n = false
is_some_of (some w) n = w == n

-- `send`: `sent_bytes n` is what `sendto` returns for `n` bytes, `none` being -1.
unfoldable pub send :
    {W : Type 0} ⦃p : Printer W⦄
    → UdpPublisher
    → MetricsSnapshot W
    → Memory
    → (ℕ → Option ℕ)
    → UdpPublisher
unfolding write_json
send u s buf sent_bytes =
    let (_, n) = write_json s buf 4096 in
    if u.ok
    then (if is_some_of (sent_bytes n) n
        then record u { sent = add64 u.sent 1 }
        else record u { errors = add64 u.errors 1 })
    else u
