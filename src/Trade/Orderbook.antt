-- ===== src/Trade/Orderbook.antt =====
-- contracts/trade/src/orderbook.rs: the order book.
use astraport_contracts.Base.{
  ℕ, Bool, true, false, not, ◌&&◌, List, [], ◌∷◌, leb, ◌==◌, if◌then◌else◌, unwrap_or, length,
}
use astraport_contracts.Base.Int.{ℤ, pos, ltb_ℤ, leb_ℤ}
use astraport_contracts.Base.Dict.{lookup, insert, number_key, pair_key}
use astraport_contracts.Machine.{wrapping_sub, wrapping_add_u64}
use astraport_contracts.Host.{◌>>=◌, ◌>>◌, pure, gets, or_fail, fail_if, modify}
use astraport_contracts.Trade.Types.{
  Address, Symbol, OrderSide, buy, sell, OrderStatus, active, partially_filled, cancelled, Order,
  OrderBook, OrderBookSnapshot, Store, Env, Call, invalid_order_amount, order_not_found,
  not_order_owner, max_orders_reached, max_orders_per_pair,
}

unfoldable pub load_book : Symbol → Store → OrderBook
load_book pair w = unwrap_or (lookup pair w.books) (record { pair_id = pair; bids = []; asks = [] })

unfoldable pub save_book : OrderBook → Store → Store
save_book book w = record w { books = insert book.pair_id book w.books }

-- The id that is taken; `advance_order_id` writes the next one.
unfoldable pub next_order_id : Symbol → Store → ℕ
next_order_id pair w = unwrap_or (lookup pair w.order_id_counters) 1

unfoldable pub advance_order_id : Symbol → Store → Store
unfolding next_order_id
advance_order_id pair w = record w {
  order_id_counters = insert pair (wrapping_add_u64 (next_order_id pair w) 1) w.order_id_counters;
}

-- An incoming order goes before the first one that is worse: a lower bid, or a higher ask.
abbrev pub goes_before : OrderSide → ℤ → ℤ → Bool
goes_before buy price existing = ltb_ℤ existing price
goes_before sell price existing = ltb_ℤ price existing

unfoldable pub insert_sorted : OrderSide → Order → List Order → List Order
insert_sorted side order [] = order ∷ []
insert_sorted side order (x ∷ xs) =
    if goes_before side order.price x.price then order ∷ x ∷ xs else x ∷ insert_sorted side order xs

abbrev pub side_of : OrderSide → OrderBook → List Order
side_of buy book = book.bids
side_of sell book = book.asks

abbrev pub with_side : OrderSide → List Order → OrderBook → OrderBook
with_side buy orders book = record book { bids = orders }
with_side sell orders book = record book { asks = orders }

unfoldable pub insert_order_sorted : OrderBook → Order → Call OrderBook
insert_order_sorted book order = do
  fail_if (leb max_orders_per_pair (length (side_of order.side book))) max_orders_reached
  pure (with_side order.side (insert_sorted order.side order (side_of order.side book)) book)

unfoldable pub put_order : Symbol → ℕ → Order → Store → Store
put_order pair id order w = record w { orders = insert (pair, id) order w.orders }

unfoldable pub place_order : Env → Symbol → Address → OrderSide → ℤ → ℤ → Call ℕ
unfolding load_book next_order_id advance_order_id insert_order_sorted save_book put_order
place_order env pair owner side price amount = do
  fail_if (leb_ℤ amount (pos 0)) invalid_order_amount
  fail_if (leb_ℤ price (pos 0)) invalid_order_amount
  book ← gets (load_book pair)
  order_id ← gets (next_order_id pair)
  modify (advance_order_id pair)
  let order : Order = record {
    order_id = order_id;
    pair_id = pair;
    owner = owner;
    side = side;
    price = price;
    amount = amount;
    remaining = amount;
    status = active;
    created_at = env.timestamp;
  }
  updated ← insert_order_sorted book order
  modify (save_book updated)
  modify (put_order pair order_id order)
  pure order_id

-- `remove_order_from_book`, on the side of the order
unfoldable pub remove_order : ℕ → List Order → List Order
remove_order id [] = []
remove_order id (x ∷ xs) = if x.order_id == id then xs else x ∷ remove_order id xs

unfoldable pub remove_order_from_book : OrderBook → Order → OrderBook
unfolding remove_order
remove_order_from_book book order =
    with_side order.side (remove_order order.order_id (side_of order.side book)) book

abbrev pub is_open : OrderStatus → Bool
is_open active = true
is_open partially_filled = true
is_open _ = false

-- The order is stored back under the ids that it was found by.
unfoldable pub cancel_order : Symbol → ℕ → Address → Bool → Call (Unit {0})
unfolding load_book remove_order_from_book save_book put_order
cancel_order pair id caller is_admin = do
  order ← or_fail (← gets (λ w. lookup (pair, id) w.orders)) order_not_found
  fail_if (not (is_open order.status)) order_not_found
  fail_if (not is_admin && not (order.owner == caller)) not_order_owner
  book ← gets (load_book pair)
  modify (save_book (remove_order_from_book book order))
  modify (put_order pair id (record order { status = cancelled; remaining = pos 0 }))

abbrev pub best_price : List Order → ℤ
best_price [] = pos 0
best_price (o ∷ os) = o.price

unfoldable pub get_book_snapshot : Symbol → Store → OrderBookSnapshot
unfolding load_book
get_book_snapshot pair w =
    let book = load_book pair w in
    let best_bid = best_price book.bids in
    let best_ask = best_price book.asks in
    record {
      pair_id = pair;
      bid_count = length book.bids;
      ask_count = length book.asks;
      best_bid = best_bid;
      best_ask = best_ask;
      spread =
          if ltb_ℤ (pos 0) best_bid && ltb_ℤ (pos 0) best_ask
          then wrapping_sub best_ask best_bid
          else pos 0;
    }
