-- ===== src/BookReplay/Replayed.antt =====
-- Driving a book by messages keeps it right, and what a reduction does.
use ultra_low_latency_orderb.Prelude.{
  ℕ, ◌-◌, ◌^◌, ◌<◌, ◌≤◌, ◌≡◌, ◌∙◌, refl, ap, arith, Bool, true, false, ◌||◌, Option, none, some,
  List, ltb, ◌==◌, if◌then◌else◌, add64, inl, inr, ◌⊎◌, Bool-cases, Option-cases, lt→ltb, ltb-false,
  ==_true,
}
use ultra_low_latency_orderb.Prelude.Int.{ℤ}
use ultra_low_latency_orderb.Types.{Side}
use ultra_low_latency_orderb.ItchParser.{Message}
use ultra_low_latency_orderb.OrderBook.{OrderBook, in_range, add_order_with_id, cancel_order}
use ultra_low_latency_orderb.OrderBook.Shape.{Queues, IsBook}
use ultra_low_latency_orderb.OrderBook.Add.{
  add_order_with_id-IsAdded, add_order_with_id_out_of_range,
}
use ultra_low_latency_orderb.OrderBook.Cancel.{cancel_order-IsCancelled, here}
use ultra_low_latency_orderb.PriceLevel.Quantity.{quantity-with_quantity_self}
use ultra_low_latency_orderb.OrderBook.Modify.{modify_order-IsModified}
use ultra_low_latency_orderb.BookReplay.{
  BookReplay, to_cents, is_target, counted, side_of_message, on_add, on_delete, reduced_book,
  on_reduce, on_replace, on_kind, on_message,
}

-- Some queues and slots for which the book is right.
pub record IsSound (b : OrderBook) : Type 0 where
  pub queues : Queues
  pub free : List ℕ
  pub live : List ℕ
  pub book : IsBook b queues free live

add_order_with_id-IsSound :
    (b : OrderBook) (s : Side) (price : ℤ) (quantity id : ℕ)
    → IsSound b
    → b.orders id ≡ none
    → quantity < 2 ^ 64
    → (given : ℕ) × (b' : OrderBook) × (add_order_with_id b s price quantity id ≡ some (given, b'))
      × IsSound b'
add_order_with_id-IsSound b s price quantity id v fresh word =
    elim (Bool-cases (in_range b price)) [
      | inl inside ↦
          let (b', e, x) =
            add_order_with_id-IsAdded b v.queues v.free v.live s price quantity id v.book inside
              fresh word in
          (id, b', e, record { queues = _; free = _; live = _; book = x.book })
      | inr outside ↦ (0, b, add_order_with_id_out_of_range b s price quantity id outside, v)
    ]

cancel_order-IsSound :
    (b : OrderBook) (id slot : ℕ)
    → IsSound b
    → b.orders id ≡ some slot
    → IsSound (cancel_order b id).1
cancel_order-IsSound b id slot v hit =
    let (e, x) = cancel_order-IsCancelled b v.queues v.free v.live id slot v.book hit in
    record { queues = _; free = _; live = _; book = x.book }

-- What one handler leaves.
record KindRun (r : BookReplay) (result : Option BookReplay) : Type 0 where
  after : BookReplay
  runs : result ≡ some after
  sound : IsSound after.book
  target : after.target ≡ r.target
  seen : after.seen ≡ r.seen

unchanged :
    (r : BookReplay) (result : Option BookReplay)
    → IsSound r.book
    → result ≡ some r
    → KindRun r result
unchanged r result v e = record { after = r; runs = e; sound = v; target = refl; seen = refl }

on_add-KindRun :
    (r : BookReplay) (m : Message)
    → IsSound r.book
    → r.book.orders m.order_ref ≡ none
    → m.shares < 2 ^ 64
    → KindRun r (on_add r m)
unfolding on_add
on_add-KindRun r m v fresh word = elim (Bool-cases (is_target r m)) [
  | inl ours ↦
      let (id, b, e, x) =
        add_order_with_id-IsSound r.book (side_of_message m) (to_cents m.price) m.shares m.order_ref
          v fresh word in
      record {
        after = record r { book = b; added = counted id r.added };
        runs = rw ours (rw e refl);
        sound = x;
        target = refl;
        seen = refl;
      }
  | inr other ↦ unchanged r _ v (rw other refl)
]

on_delete-KindRun : (r : BookReplay) (ref : ℕ) → IsSound r.book → KindRun r (some (on_delete r ref))
unfolding on_delete
on_delete-KindRun r ref v = elim (Option-cases (r.book.orders ref)) [
  | inl e ↦ unchanged r _ v (rw (e, on_delete) refl)
  | inr (slot, e) ↦ record {
    after = record r { book = (cancel_order r.book ref).1; deleted = add64 r.deleted 1 };
    runs = rw (e, on_delete) refl;
    sound = cancel_order-IsSound r.book ref slot v e;
    target = refl;
    seen = refl;
  }
]

reduced_book-IsSound :
    (b : OrderBook) (ref slot shares : ℕ)
    → IsSound b
    → b.orders ref ≡ some slot
    → IsSound (reduced_book b ref (b.heap slot) shares)
unfolding reduced_book
reduced_book-IsSound b ref slot shares v e = elim (Bool-cases (ltb shares (b.heap slot).quantity)) [
  | inl part ↦
      let word = (here b v.queues v.free v.live v.book ref slot e).word in
      let (_, x) =
        modify_order-IsModified b v.queues v.free v.live ref slot ((b.heap slot).quantity - shares)
          v.book e (omega (arith, word)) in
      rw part (record { queues = _; free = _; live = _; book = x.book })
  | inr whole ↦ rw whole (cancel_order-IsSound b ref slot v e)
]

on_reduce-KindRun :
    (r : BookReplay) (ref shares : ℕ) → IsSound r.book → KindRun r (some (on_reduce r ref shares))
unfolding on_reduce
on_reduce-KindRun r ref shares v = elim (Option-cases (r.book.orders ref)) [
  | inl e ↦ unchanged r _ v (rw (e, on_reduce) refl)
  | inr (slot, e) ↦ record {
    after = record r {
      book = reduced_book r.book ref (r.book.heap slot) shares;
      reduced = add64 r.reduced 1;
    };
    runs = rw (e, on_reduce) refl;
    sound = reduced_book-IsSound r.book ref slot shares v e;
    target = refl;
    seen = refl;
  }
]

-- The new id of a replacement is not that of another order.
abbrev pub IsNewId : OrderBook → ℕ → ℕ → Type 0
IsNewId b ref id = (b.orders id ≡ none) ⊎ (id ≡ ref)

free_after_cancel :
    (b : OrderBook) (ref id slot : ℕ)
    → IsSound b
    → b.orders ref ≡ some slot
    → IsNewId b ref id
    → (cancel_order b ref).1.orders id ≡ none
free_after_cancel b ref id slot v e new =
    let (_, x) = cancel_order-IsCancelled b v.queues v.free v.live ref slot v.book e in
    x.orders id ∙ free new
  where
    free : IsNewId b ref id → (if id == ref then none else b.orders id) ≡ none
    free (inl f) = same (id == ref)
      where
        same : (t : Bool) → (if t then none else b.orders id) ≡ none
        same true = refl
        same false = f
    free (inr f) = rw (==_true id ref f) refl

on_replace-KindRun :
    (r : BookReplay) (m : Message)
    → IsSound r.book
    → IsNewId r.book m.order_ref m.new_order_ref
    → m.shares < 2 ^ 64
    → KindRun r (on_replace r m)
unfolding on_replace
on_replace-KindRun r m v new word = elim (Option-cases (r.book.orders m.order_ref)) [
  | inl e ↦ unchanged r _ v (rw (e, on_replace) refl)
  | inr (slot, e) ↦
      let (id, b, f, x) =
        add_order_with_id-IsSound (cancel_order r.book m.order_ref).1 (r.book.heap slot).side
          (to_cents m.price) m.shares m.new_order_ref
          (cancel_order-IsSound r.book m.order_ref slot v e)
          (free_after_cancel r.book m.order_ref m.new_order_ref slot v e new) word in
      record {
        after = record r { book = b; replaced = counted id r.replaced };
        runs = rw (e, on_replace) (rw (f, on_replace) refl);
        sound = x;
        target = refl;
        seen = refl;
      }
]

on_kind-KindRun :
    (r : BookReplay) (m : Message)
    → IsSound r.book
    → (((m.kind == b'A') || (m.kind == b'F')) ≡ true → r.book.orders m.order_ref ≡ none)
    → (m.kind ≡ b'U' → IsNewId r.book m.order_ref m.new_order_ref)
    → m.shares < 2 ^ 64
    → KindRun r (on_kind r m)
unfolding on_kind
on_kind-KindRun r m v fresh new word = elim (Bool-cases (m.kind == b'A')) [
  | inl k ↦ rw k (on_add-KindRun r m v (fresh (rw k refl)) word)
  | inr a ↦ rw a (elim (Bool-cases (m.kind == b'F')) [
    | inl k ↦ rw k (on_add-KindRun r m v (fresh (rw (a, k) refl)) word)
    | inr f ↦ rw f (by_kind (m.kind == b'D') (m.kind == b'X') (m.kind == b'E') (m.kind == b'C'))
  ])
]
  where
    replace_or_nothing : KindRun r (if m.kind == b'U' then on_replace r m else some r)
    replace_or_nothing = elim (Bool-cases (m.kind == b'U')) [
      | inl k ↦ rw k (on_replace-KindRun r m v (new (ground arith)) word)
      | inr u ↦ rw u (unchanged r (some r) v refl)
    ]

    by_kind :
        (d x e c : Bool)
        → KindRun r (
            if d
            then some (on_delete r m.order_ref)
            else if x
            then some (on_reduce r m.order_ref m.shares)
            else if e
            then some (on_reduce r m.order_ref m.shares)
            else if c
            then some (on_reduce r m.order_ref m.shares)
            else if m.kind == b'U'
            then on_replace r m
            else some r)
    by_kind true x e c = on_delete-KindRun r m.order_ref v
    by_kind false true e c = on_reduce-KindRun r m.order_ref m.shares v
    by_kind false false true c = on_reduce-KindRun r m.order_ref m.shares v
    by_kind false false false true = on_reduce-KindRun r m.order_ref m.shares v
    by_kind false false false false = replace_or_nothing

-- On a right book, where an add brings an id that is not in the map, and a replacement a new one
-- or its own, a message of any type with 64-bit shares keeps the book right, leaves the target as it is and is counted as seen.
pub on_message-IsSound :
    (r : BookReplay) (m : Message)
    → IsSound r.book
    → (((m.kind == b'A') || (m.kind == b'F')) ≡ true → r.book.orders m.order_ref ≡ none)
    → (m.kind ≡ b'U' → IsNewId r.book m.order_ref m.new_order_ref)
    → m.shares < 2 ^ 64
    → (r' : BookReplay) × (on_message r m ≡ some r')
      × IsSound r'.book
      × (r'.target ≡ r.target)
      × (r'.seen ≡ add64 r.seen 1)
unfolding on_message
on_message-IsSound r m v fresh new word =
    let run = on_kind-KindRun r m v fresh new word in
    (
      record run.after { seen = add64 run.after.seen 1 },
      rw (run.runs, on_message) refl,
      run.sound,
      run.target,
      ap (λ k. add64 k 1) run.seen,
    )

-- Reducing an order that is in a right book by fewer shares than it has takes those shares off it
-- and leaves it in the map; by as many or more takes it out of the map. Either way one more is
-- counted as reduced.
pub on_reduce_lem :
    (r : BookReplay) (ref slot shares : ℕ)
    → IsSound r.book
    → r.book.orders ref ≡ some slot
    → let r' = on_reduce r ref shares in
      (shares < (r.book.heap slot).quantity
        → (r'.book.orders ref ≡ some slot)
          × ((r'.book.heap slot).quantity ≡ (r.book.heap slot).quantity - shares))
      × ((r.book.heap slot).quantity ≤ shares → r'.book.orders ref ≡ none)
      × (r'.reduced ≡ add64 r.reduced 1)
unfolding on_reduce reduced_book
on_reduce_lem r ref slot shares v e = (
  λ less.
      let o = r.book.heap slot in
      let word = (here r.book v.queues v.free v.live v.book ref slot e).word in
      let (_, x) =
        modify_order-IsModified r.book v.queues v.free v.live ref slot (o.quantity - shares) v.book
          e (omega (arith, word)) in
      rw (e, on_reduce)
        (rw (lt→ltb shares o.quantity less, reduced_book)
          (
            ap (λ f. f ref) x.orders ∙ e,
            ap (λ h. (h slot).quantity) x.heap
                ∙ quantity-with_quantity_self r.book.heap slot (o.quantity - shares),
          )),
  λ le.
      let (_, x) = cancel_order-IsCancelled r.book v.queues v.free v.live ref slot v.book e in
      rw (e, on_reduce)
        (rw (ltb-false shares (r.book.heap slot).quantity le, reduced_book)
          (x.orders ref ∙ rw (==_true ref ref refl) refl)),
  rw (e, on_reduce) refl,
)
