-- ===== src/Tests/Trade.antt =====
-- The trade engine at concrete inputs.
use astraport_contracts.Base.{
  ◌*◌, ◌/◌, leb, ℕ, ◌≡◌, refl, true, false, ◌⊎◌, some, none, List, [], ◌∷◌, arith, All,
}
use astraport_contracts.Base.Int.{ℤ, pos, ◌-ℤ◌, ◌<ℤ◌}
use astraport_contracts.Base.Dict.{lookup, insert, number_key, pair_key}
use astraport_contracts.Machine.{wrap_i128, wrapping_sub}
use astraport_contracts.Host.{ok}
use astraport_contracts.Trade.Types.{
  buy, sell, Order, active, cancelled, TradePair, TradeLeg, Store, Env, deployed,
}
use astraport_contracts.Trade.Orderbook
use astraport_contracts.Trade.Orderbook.{insert_sorted, load_book}
use astraport_contracts.Trade.Matching.{Taker, match_orders, find_pair, beyond}
use astraport_contracts.Trade.Matching.Quantities.{IsLive, Balances, match_orders-Balances}
use astraport_contracts.Trade.Matching.Priority.{IsSorted, Placed, insert_sorted-Placed}
use astraport_contracts.Trade.Matching.Fills.{InOrder, match_orders-InOrder, match_orders_exhausts}
use astraport_contracts.Trade.Slippage
use astraport_contracts.Trade.Slippage.Criterion.{shortfall, check_slippage_exact}
use astraport_contracts.Trade.Contract
use astraport_contracts.Trade.Contract.Access.{cancel_allowed}
use astraport_contracts.Trade.Trace.{Invocation, perform, step, Reach, start, after}
use astraport_contracts.Trade.Orderly.{IsBook}
use astraport_contracts.Trade.Orderly.History.{books_orderly}

abbrev ask : ℕ → ℤ → ℤ → Order
ask id price amount = record {
  order_id = id;
  pair_id = 5;
  owner = 8;
  side = sell;
  price = price;
  amount = amount;
  remaining = amount;
  status = active;
  created_at = 1;
}

abbrev asks : List Order
asks = ask 1 (pos 100) (pos 10) ∷ ask 2 (pos 101) (pos 20) ∷ ask 3 (pos 105) (pos 30) ∷ []

abbrev taker : Taker
taker = record { pair = 5; address = 9; side = buy; limit = pos 102; fee_bps = pos 30 }

asks-IsLive : All IsLive asks
asks-IsLive = (
  (omega arith, (omega arith, omega arith)),
  ((omega arith, (omega arith, omega arith)), ((omega arith, (omega arith, omega arith)), tt)),
)

asks_IsSorted : IsSorted sell asks
asks_IsSorted = ((omega arith, (omega arith, tt)), ((omega arith, tt), (tt, tt)))

match_orders-Balances_example : Balances taker (pos 50) asks (match_orders taker (pos 50) asks)
match_orders-Balances_example =
    match_orders-Balances taker (pos 50) asks (omega arith) (omega arith, omega arith) asks-IsLive

match_orders-InOrder_example : InOrder (match_orders taker (pos 50) asks).fills asks
match_orders-InOrder_example =
    match_orders-InOrder taker (pos 50) asks (omega arith) (omega arith, omega arith) asks-IsLive

some_left : pos 0 <ℤ (match_orders taker (pos 50) asks).remaining
unfolding match_orders wrapping_sub wrap_i128 ◌-ℤ◌
some_left = omega arith

match_orders_exhausts_example :
    All (λ o. beyond buy (pos 102) o.price ≡ true) (match_orders taker (pos 50) asks).left
match_orders_exhausts_example =
    match_orders_exhausts taker (pos 50) asks (omega arith) (omega arith, omega arith) asks-IsLive
      asks_IsSorted some_left

insert_sorted-Placed_example :
    Placed sell (ask 4 (pos 101) (pos 7)) asks (insert_sorted sell (ask 4 (pos 101) (pos 7)) asks)
insert_sorted-Placed_example =
    insert_sorted-Placed sell (ask 4 (pos 101) (pos 7)) asks asks_IsSorted

-- Everybody authorises the calls, and the audit contract takes all.
abbrev env : Env
env = record { timestamp = 9; authorized = λ a. true; audited = λ calls c. true }

abbrev pair : TradePair
pair = record {
  pair_id = 5;
  base_asset = 6;
  quote_asset = 7;
  is_active = true;
  min_order_size = pos 1;
  max_order_size = pos 1000;
  fee_bps = pos 30;
}

abbrev opened : Store
opened = step env (Invocation.initialize 1) deployed

abbrev listed : Store
listed = step env (Invocation.register_pair 1 pair) opened

abbrev ordered : Store
ordered = step env (Invocation.place_order 8 5 sell (pos 100) (pos 10)) listed

abbrev leg : TradeLeg
leg = record { pair_id = 5; side = buy; price = pos 101; amount = pos 4; max_slippage_bps = none }

abbrev traded : Store
traded = step env (Invocation.execute_batch 9 (leg ∷ [])) ordered

reached : Reach traded
reached =
    after env (Invocation.execute_batch 9 (leg ∷ [])) ordered ((omega arith, omega arith), tt)
      (after env (Invocation.place_order 8 5 sell (pos 100) (pos 10)) listed
        (omega arith, omega arith)
        (after env (Invocation.register_pair 1 pair) opened tt
          (after env (Invocation.initialize 1) deployed tt start)))

books_orderly_example : IsBook (load_book 5 traded)
books_orderly_example = books_orderly traded 5 reached

registered : perform env (Invocation.register_pair 1 pair) opened ≡ ok tt listed
unfolding perform Contract.initialize Contract.register_pair Slippage.set_slippage_config insert
    find_pair
registered = refl

-- One order in the store, without the contract's checks.
abbrev with_ask : Store
with_ask = record deployed { orders = insert (5, 1) (ask 1 (pos 100) (pos 10)) [] }

abbrev without_ask : Store
without_ask =
    Orderbook.put_order 5 1
      (record (ask 1 (pos 100) (pos 10)) { status = cancelled; remaining = pos 0 })
      (Orderbook.save_book
        (Orderbook.remove_order_from_book (load_book 5 with_ask) (ask 1 (pos 100) (pos 10)))
        with_ask)

ask_cancelled : Orderbook.cancel_order 5 1 8 false with_ask ≡ ok tt without_ask
unfolding Orderbook.cancel_order lookup insert
ask_cancelled = refl

abbrev after_cancel : Store
after_cancel = step env (Invocation.cancel_order 8 5 1) with_ask

cancel_succeeds : Contract.cancel_order env 8 5 1 with_ask ≡ ok tt after_cancel
unfolding perform Contract.cancel_order Contract.log_audit Orderbook.cancel_order lookup insert
cancel_succeeds = refl

cancel_allowed_example :
    (old : Order) × (lookup (5, 1) with_ask.orders ≡ some old)
    × (env.authorized 8 ≡ true)
    × ((8 ≡ old.owner) ⊎ (with_ask.admin ≡ some 8))
    × (Orderbook.is_open old.status ≡ true)
    × (lookup (5, 1) after_cancel.orders
        ≡ some (record old { status = cancelled; remaining = pos 0 }))
cancel_allowed_example = cancel_allowed env 8 5 1 with_ask after_cancel cancel_succeeds

check_slippage_exact_example :
    Slippage.check_slippage
      (pos 100)
      (pos 104)
      buy
      (record { max_slippage_bps = pos 500; enabled = true })
    ≡ leb (shortfall buy 100 104 * 10_000 / 100) 500
check_slippage_exact_example =
    check_slippage_exact buy 100 104 500 (omega arith) (omega arith) (omega arith) (omega arith)
      (omega arith) (omega arith)
