-- ===== src/Trade/Orderly/Calls.antt =====
-- contracts/trade/src/orderbook.rs and engine.rs: the order books after a placement, a cancellation and
-- a batch.
use astraport_contracts.Base.{
  ℕ, ◌≡◌, inl, inr, Bool, some, List, [], ◌∷◌, arith, All, Option-cases, ◌%◌, ◌+◌, ◌^◌, length,
}
use astraport_contracts.Base.Int.{ℤ, pos, ◌≤ℤ◌, ◌<ℤ◌}
use astraport_contracts.Base.Dict.{lookup, number_key, pair_key}
use astraport_contracts.Machine.{InI128}
use astraport_contracts.Host.{ok, Outcome-cases}
use astraport_contracts.Trade.Types.{
  Address, Symbol, OrderSide, Order, OrderBook, active, Store, Env, TradePair, TradeLeg, LegResult,
}
use astraport_contracts.Trade.Orderbook
use astraport_contracts.Trade.Orderbook.{
  load_book, save_book, insert_sorted, remove_order, side_of, with_side, next_order_id,
}
use astraport_contracts.Trade.Matching.{match_order}
use astraport_contracts.Trade.Engine.{execute_leg, execute_legs}
use astraport_contracts.Trade.Orderly.{
  IsOrderly, load_book-IsBook, save_book-IsOrderly, side-IsSorted, side-IsLive, with_side-IsBook,
  insert_sorted-IsSorted, insert_sorted-IsLive, remove_order-IsSorted, remove_order-All,
  match_order-IsOrderly,
}

-- The invariant looks at the books alone.
pub IsOrderly-books : (w w' : Store) → w'.books ≡ w.books → IsOrderly w → IsOrderly w'
IsOrderly-books w w' e o = record { books = rw e o.books }

-- The order that `place_order` makes.
abbrev pub new_order : Env → Symbol → Address → OrderSide → ℤ → ℤ → ℕ → Order
new_order env pair owner side price amount id = record {
  order_id = id;
  pair_id = pair;
  owner = owner;
  side = side;
  price = price;
  amount = amount;
  remaining = amount;
  status = active;
  created_at = env.timestamp;
}

abbrev pub with_order : Env → Symbol → Address → OrderSide → ℤ → ℤ → Store → OrderBook
with_order env pair owner side price amount w =
    let book = load_book pair w in
    with_side side
      (insert_sorted side (new_order env pair owner side price amount (next_order_id pair w))
        (side_of side book))
      book

pub place_order-ok :
    (env : Env) (pair : Symbol) (owner : Address) (side : OrderSide) (price amount : ℤ) (w : Store)
    (id : ℕ) (w' : Store)
    → Orderbook.place_order env pair owner side price amount w ≡ ok id w'
    → (pos 0 <ℤ amount)
      × (w'.books ≡ (save_book (with_order env pair owner side price amount w) w).books)
unfolding Orderbook.place_order Orderbook.insert_order_sorted Orderbook.advance_order_id
    Orderbook.put_order save_book
place_order-ok env pair owner side price amount w id w' h = (ground arith, ground arith)

pub place_order-IsOrderly :
    (env : Env) (pair : Symbol) (owner : Address) (side : OrderSide) (price amount : ℤ) (w : Store)
    (id : ℕ) (w' : Store)
    → InI128 amount
    → IsOrderly w
    → Orderbook.place_order env pair owner side price amount w ≡ ok id w'
    → IsOrderly w'
place_order-IsOrderly env pair owner side price amount w id w' r o h =
    let (positive, left) = place_order-ok env pair owner side price amount w id w' h in
    let book = load_book pair w in
    let b = load_book-IsBook pair w o in
    let order = new_order env pair owner side price amount (next_order_id pair w) in
    let sides = side_of side book in
    IsOrderly-books (save_book (with_order env pair owner side price amount w) w) w' left (
      save_book-IsOrderly _ w
        (with_side-IsBook side (insert_sorted side order sides) book
          (insert_sorted-IsSorted side order sides (side-IsSorted side book b))
          (insert_sorted-IsLive side order sides (positive, r) (side-IsLive side book b)) b)
        o)

pub cancel_order-ok :
    (pair : Symbol) (id : ℕ) (caller : Address) (is_admin : Bool) (w w' : Store) (order : Order)
    → lookup (pair, id) w.orders ≡ some order
    → Orderbook.cancel_order pair id caller is_admin w ≡ ok tt w'
    → w'.books ≡ (save_book (Orderbook.remove_order_from_book (load_book pair w) order) w).books
unfolding Orderbook.cancel_order save_book Orderbook.put_order
cancel_order-ok pair id caller is_admin w w' order e h = ground arith

pub cancel_order-IsOrderly :
    (pair : Symbol) (id : ℕ) (caller : Address) (is_admin : Bool) (w w' : Store)
    → IsOrderly w
    → Orderbook.cancel_order pair id caller is_admin w ≡ ok tt w'
    → IsOrderly w'
unfolding Orderbook.cancel_order Orderbook.remove_order_from_book
cancel_order-IsOrderly pair id caller is_admin w w' o h =
    elim (Option-cases (lookup (pair, id) w.orders)) [
      | inl missing ↦ ground arith
      | inr (order, e) ↦
          let book = load_book pair w in
          let b = load_book-IsBook pair w o in
          let sides = side_of order.side book in
          IsOrderly-books _ w' (cancel_order-ok pair id caller is_admin w w' order e h) (
            save_book-IsOrderly _ w
              (with_side-IsBook order.side (remove_order order.order_id sides) book
                (remove_order-IsSorted order.order_id order.side sides
                  (side-IsSorted order.side book b))
                (remove_order-All order.order_id _ sides (side-IsLive order.side book b)) b)
              o)
    ]

-- A leg that is executed leaves the books as the match does.
pub execute_leg-ok :
    (user : Address) (pairs : List TradePair) (leg : TradeLeg) (w : Store) (r : LegResult)
    (w' : Store)
    → execute_leg user pairs leg w ≡ ok r w'
    → (pos 0 ≤ℤ leg.amount)
      × (w'.books ≡ (match_order leg.pair_id user leg.side leg.amount leg.price w).2.books)
unfolding execute_leg
execute_leg-ok user pairs leg w r w' h = (ground arith, ground arith)

pub execute_legs-IsOrderly :
    (user : Address) (pairs : List TradePair) (total : ℕ) (legs : List TradeLeg) (w : Store)
    (rs : List LegResult × ℕ) (w' : Store)
    → All (λ leg. InI128 leg.amount) legs
    → IsOrderly w
    → execute_legs user pairs total legs w ≡ ok rs w'
    → IsOrderly w'
unfolding execute_legs
execute_legs-IsOrderly user pairs total [] w rs w' a o h = IsOrderly-books w w' (ground arith) o
execute_legs-IsOrderly user pairs total (leg ∷ legs) w rs w' a o h =
    elim (Outcome-cases (execute_leg user pairs leg w)) [
      | inr failed ↦ ground arith
      | inl (r, w₁, e) ↦
          let total' = (total + length r.fills) % 2 ^ 32 in
          elim (Outcome-cases (execute_legs user pairs total' legs w₁)) [
            | inr failed ↦ ground arith
            | inl (rs', w₂, e') ↦
                let k = execute_leg-ok user pairs leg w r w₁ e in
                let m =
                  match_order-IsOrderly leg.pair_id user leg.side leg.amount leg.price w k.0 a.0
                    o in
                let o₁ = IsOrderly-books _ w₁ k.1 m in
                IsOrderly-books w₂ w' (ground arith)
                  (execute_legs-IsOrderly user pairs total' legs w₁ rs' w₂ a.1 o₁ e')
          ]
    ]
