-- ===== src/Trade/Matching.antt =====
-- contracts/trade/src/orderbook.rs: the matching engine. The source walks a vector by an index that
-- stays after a removal and moves on after an update; the list that is matched here is the vector from
-- that index on, so the recursion is on the orders that are left. The source writes the loop twice, for
-- the asks and for the bids, which differ in the price test alone.
pub mod Quantities
pub mod Priority
pub mod Fills
use astraport_contracts.Base.{
  Bool, true, false, ◌&&◌, Option, none, some, List, [], ◌∷◌, ◌==◌, if◌then◌else◌, unwrap_or,
}
use astraport_contracts.Base.Int.{ℤ, pos, ltb_ℤ, leb_ℤ, eqb_ℤ}
use astraport_contracts.Machine.{i128_max, checked_mul, wrapping_sub, quotient}
use astraport_contracts.Trade.Types.{
  Address, Symbol, OrderSide, buy, sell, OrderStatus, partially_filled, filled, TradePair, Order,
  OrderBook, Fill, Store, bps_denom,
}
use astraport_contracts.Trade.Orderbook.{load_book, save_book, put_order, side_of, with_side}

-- `calculate_fee`
unfoldable pub calculate_fee : ℤ → ℤ → ℤ → ℤ
calculate_fee fill_qty price fee_bps =
    if leb_ℤ fee_bps (pos 0)
    then pos 0
    else let notional = unwrap_or (checked_mul fill_qty price) i128_max in
      quotient (unwrap_or (checked_mul notional fee_bps) i128_max) bps_denom

unfoldable pub find_pair : Symbol → List TradePair → Option TradePair
find_pair pair [] = none
find_pair pair (p ∷ ps) = if p.pair_id == pair then some p else find_pair pair ps

-- The fee that `get_pair_config` gives, 0 for a pair that is not registered.
unfoldable pub pair_fee_bps : Symbol → Store → ℤ
unfolding find_pair
pair_fee_bps pair w = elim (find_pair pair (unwrap_or w.pairs [])) [
  | none ↦ pos 0
  | some p ↦ p.fee_bps
]

-- A buyer matches the asks, a seller the bids.
abbrev pub opposite : OrderSide → OrderSide
opposite buy = sell
opposite sell = buy

-- The maker's price is beyond the taker's limit.
abbrev pub beyond : OrderSide → ℤ → ℤ → Bool
beyond buy limit price = ltb_ℤ limit price
beyond sell limit price = ltb_ℤ price limit

-- The taker's part of the match.
pub record Taker : Type 0 where
  pub pair : Symbol
  pub address : Address
  pub side : OrderSide
  pub limit : ℤ
  pub fee_bps : ℤ

pub record Matched : Type 0 where
  pub left : List Order
  pub fills : List Fill
  pub updated : List Order
  pub remaining : ℤ

abbrev pub fill_quantity : ℤ → Order → ℤ
fill_quantity remaining maker =
    if leb_ℤ remaining maker.remaining then remaining else maker.remaining

abbrev pub fill_of : Taker → ℤ → Order → Fill
fill_of t qty maker = record {
  order_id = maker.order_id;
  pair_id = t.pair;
  taker = t.address;
  maker = maker.owner;
  side = t.side;
  price = maker.price;
  amount = qty;
  fee = calculate_fee qty maker.price t.fee_bps;
}

-- The maker's order after the fill.
abbrev pub updated_order : ℤ → Order → Order
updated_order qty maker =
    let rest = wrapping_sub maker.remaining qty in
    record maker {
      remaining = rest;
      status = if eqb_ℤ rest (pos 0) then filled else partially_filled;
    }

abbrev pub keep_unfilled : Order → List Order → List Order
keep_unfilled order rest = if eqb_ℤ order.remaining (pos 0) then rest else order ∷ rest

unfoldable pub match_orders : Taker → ℤ → List Order → Matched
match_orders t remaining [] = record { left = []; fills = []; updated = []; remaining = remaining }
match_orders t remaining (maker ∷ makers) =
    let qty = fill_quantity remaining maker in
    let order = updated_order qty maker in
    let rest = match_orders t (wrapping_sub remaining qty) makers in
    let stopped : Matched = record {
      left = maker ∷ makers;
      fills = [];
      updated = [];
      remaining = remaining;
    } in
    if leb_ℤ remaining (pos 0)
    then stopped
    else if beyond t.side t.limit maker.price
    then stopped
    else record {
      left = keep_unfilled order rest.left;
      fills = fill_of t qty maker ∷ rest.fills;
      updated = order ∷ rest.updated;
      remaining = rest.remaining;
    }

-- The writes of the updated orders, in the order of the fills.
unfoldable pub put_orders : Symbol → List Order → Store → Store
unfolding put_order
put_orders pair [] w = w
put_orders pair (o ∷ os) w = put_orders pair os (put_order pair o.order_id o w)

-- The fills and the filled amount, with the store after the match.
unfoldable pub match_order : Symbol → Address → OrderSide → ℤ → ℤ → Store → List Fill × ℤ × Store
unfolding load_book pair_fee_bps save_book put_orders
match_order pair address side amount limit w =
    let t : Taker = record {
      pair = pair;
      address = address;
      side = side;
      limit = limit;
      fee_bps = pair_fee_bps pair w;
    } in
    let book = load_book pair w in
    let m = match_orders t amount (side_of (opposite side) book) in
    (
      m.fills,
      wrapping_sub amount m.remaining,
      save_book (with_side (opposite side) m.left book) (put_orders pair m.updated w),
    )
