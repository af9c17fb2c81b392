-- ===== src/Trade/Orderly.antt =====
-- The invariant of the order books: each side sorted best price first, every order on it live.
pub mod Calls
pub mod History
use astraport_contracts.Base.{
  ℕ, ◌<◌, ◌≡◌, refl, sym, Bool, true, false, ◌⊎◌, inl, inr, Option, none, some, List, [], ◌∷◌, ◌++◌,
  arith, if◌then◌else◌, All, Bool-cases, unwrap_or, ◌==◌, Option-cases,
}
use astraport_contracts.Base.Int.{ℤ, pos, ◌≤ℤ◌, ◌<ℤ◌, leb_ℤ}
use astraport_contracts.Base.Dict.{lookup, insert, insert_inv, number_key}
use astraport_contracts.Machine.{InI128}
use astraport_contracts.Trade.Types.{
  Address, Symbol, OrderSide, buy, sell, Order, OrderBook, Fill, Store,
}
use astraport_contracts.Trade.Orderbook.{
  load_book, save_book, insert_sorted, remove_order, side_of, with_side, goes_before,
}
use astraport_contracts.Trade.Matching.{
  Taker, Matched, match_orders, match_order, opposite, put_orders, pair_fee_bps,
}
use astraport_contracts.Trade.Matching.Quantities.{IsLive, match_orders-Balances}
use astraport_contracts.Trade.Matching.Priority.{
  IsSorted, NotWorse, Placed, insert_sorted-Placed, All-imp, left-IsSorted, not_before-NotWorse,
}

pub record IsBook (book : OrderBook) : Type 0 where
  pub sorted_bids : IsSorted buy book.bids
  pub sorted_asks : IsSorted sell book.asks
  pub live_bids : All IsLive book.bids
  pub live_asks : All IsLive book.asks

pub record IsOrderly (w : Store) : Type 0 where
  pub books : (pair : Symbol) (book : OrderBook) → lookup pair w.books ≡ some book → IsBook book

abbrev pub empty_book : Symbol → OrderBook
empty_book pair = record { pair_id = pair; bids = []; asks = [] }

pub load_book-IsBook : (pair : Symbol) (w : Store) → IsOrderly w → IsBook (load_book pair w)
unfolding load_book
load_book-IsBook pair w o = elim (Option-cases (lookup pair w.books)) [
  | inl missing ↦
      rw missing (record { sorted_bids = tt; sorted_asks = tt; live_bids = tt; live_asks = tt })
  | inr (book, found) ↦ rw found (o.books pair book found)
]

pub save_book-IsOrderly :
    (book : OrderBook) (w : Store) → IsBook book → IsOrderly w → IsOrderly (save_book book w)
unfolding save_book
save_book-IsOrderly book w b o = record {
  books = insert_inv (λ k x. IsBook x) book.pair_id book w.books b o.books;
}

-- A side of a book.
pub side-IsSorted :
    (side : OrderSide) (book : OrderBook) → IsBook book → IsSorted side (side_of side book)
side-IsSorted buy book b = b.sorted_bids
side-IsSorted sell book b = b.sorted_asks

pub side-IsLive :
    (side : OrderSide) (book : OrderBook) → IsBook book → All IsLive (side_of side book)
side-IsLive buy book b = b.live_bids
side-IsLive sell book b = b.live_asks

pub with_side-IsBook :
    (side : OrderSide) (orders : List Order) (book : OrderBook)
    → IsSorted side orders
    → All IsLive orders
    → IsBook book
    → IsBook (with_side side orders book)
with_side-IsBook buy orders book s l b = record {
  sorted_bids = s;
  sorted_asks = b.sorted_asks;
  live_bids = l;
  live_asks = b.live_asks;
}
with_side-IsBook sell orders book s l b = record {
  sorted_bids = b.sorted_bids;
  sorted_asks = s;
  live_bids = b.live_bids;
  live_asks = l;
}

Worse-NotWorse_self : (side : OrderSide) (a b : ℤ) → goes_before side a b ≡ true → NotWorse side a b
Worse-NotWorse_self buy a b h = ground arith
Worse-NotWorse_self sell a b h = ground arith

NotWorse-through :
    (side : OrderSide) (a b c : ℤ)
    → goes_before side a b ≡ true
    → NotWorse side b c
    → NotWorse side a c
NotWorse-through buy a b c h n = ground arith
NotWorse-through sell a b c h n = ground arith

module _ (side : OrderSide) (order : Order) where
  insert_sorted-All {ℓ} :
      (P : Order → Type ℓ) (xs : List Order)
      → P order
      → All P xs
      → All P (insert_sorted side order xs)
  unfolding insert_sorted
  insert_sorted-All P [] p h = (p, tt)
  insert_sorted-All P (x ∷ xs) p h = elim (Bool-cases (goes_before side order.price x.price)) [
    | inl first ↦ rw first (p, h)
    | inr later ↦ rw later (h.0, insert_sorted-All P xs p h.1)
  ]

  -- Inserting keeps a side sorted.
  pub insert_sorted-IsSorted :
      (xs : List Order) → IsSorted side xs → IsSorted side (insert_sorted side order xs)
  unfolding insert_sorted
  insert_sorted-IsSorted [] s = (tt, tt)
  insert_sorted-IsSorted (x ∷ xs) s = elim (Bool-cases (goes_before side order.price x.price)) [
    | inl first ↦ rw first (
      (
        Worse-NotWorse_self side order.price x.price first,
        All-imp xs (λ o. NotWorse-through side order.price x.price o.price first) s.0,
      ),
      s,
    )
    | inr later ↦ rw later (
      insert_sorted-All (λ y. NotWorse side x.price y.price) xs
          (not_before-NotWorse side order.price x.price later) s.0,
      insert_sorted-IsSorted xs s.1,
    )
  ]

  pub insert_sorted-IsLive :
      (xs : List Order) → IsLive order → All IsLive xs → All IsLive (insert_sorted side order xs)
  insert_sorted-IsLive xs p h = insert_sorted-All IsLive xs p h

module _ (id : ℕ) where
  pub remove_order-All {ℓ} :
      (P : Order → Type ℓ) (xs : List Order) → All P xs → All P (remove_order id xs)
  unfolding remove_order
  remove_order-All P [] h = tt
  remove_order-All P (x ∷ xs) h = elim (Bool-cases (x.order_id == id)) [
    | inl found ↦ rw found h.1
    | inr other ↦ rw other (h.0, remove_order-All P xs h.1)
  ]

  pub remove_order-IsSorted :
      (side : OrderSide) (xs : List Order) → IsSorted side xs → IsSorted side (remove_order id xs)
  unfolding remove_order
  remove_order-IsSorted side [] s = tt
  remove_order-IsSorted side (x ∷ xs) s = elim (Bool-cases (x.order_id == id)) [
    | inl found ↦ rw found s.1
    | inr other ↦ rw other (
      remove_order-All (λ y. NotWorse side x.price y.price) xs s.0,
      remove_order-IsSorted side xs s.1,
    )
  ]

put_orders-IsOrderly :
    (pair : Symbol) (os : List Order) (w : Store) → IsOrderly w → IsOrderly (put_orders pair os w)
unfolding put_orders
put_orders-IsOrderly pair [] w o = o
put_orders-IsOrderly pair (x ∷ xs) w o = put_orders-IsOrderly pair xs _ (record { books = o.books })

-- A match keeps every book orderly.
pub match_order-IsOrderly :
    (pair : Symbol) (user : Address) (side : OrderSide) (amount limit : ℤ) (w : Store)
    → pos 0 ≤ℤ amount
    → InI128 amount
    → IsOrderly w
    → IsOrderly (match_order pair user side amount limit w).2
unfolding match_order
match_order-IsOrderly pair user side amount limit w p r o =
    let t : Taker = record {
      pair = pair;
      address = user;
      side = side;
      limit = limit;
      fee_bps = pair_fee_bps pair w;
    } in
    let book = load_book pair w in
    let b = load_book-IsBook pair w o in
    let makers = side_of (opposite side) book in
    let m = match_orders t amount makers in
    save_book-IsOrderly (with_side (opposite side) m.left book) (put_orders pair m.updated w)
      (with_side-IsBook (opposite side) m.left book
        (left-IsSorted t (opposite side) amount makers (side-IsSorted (opposite side) book b))
        (match_orders-Balances t amount makers p r (side-IsLive (opposite side) book b)).live b)
      (put_orders-IsOrderly pair m.updated w o)
