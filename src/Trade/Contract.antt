-- ===== src/Trade/Contract.antt =====
-- contracts/trade/src/lib.rs: the entry points of the trade engine.
pub mod Access
use astraport_contracts.Base.{
  ℕ, ◌-◌, Bool, true, false, not, ◌||◌, Option, none, some, List, [], ◌∷◌, ◌++◌, ltb, ◌==◌,
  if◌then◌else◌, unwrap_or, is_some, length,
}
use astraport_contracts.Base.Int.{ℤ, pos, ltb_ℤ}
use astraport_contracts.Base.Dict.{lookup, insert, number_key, pair_key}
use astraport_contracts.Host.{
  Outcome, ok, err, trap, ◌>>=◌, ◌>>◌, pure, gets, or_fail, fail_if, require, modify,
}
use astraport_contracts.Trade.Types.{
  Address, Symbol, TradePair, Order, OrderSide, OrderBookSnapshot, SlippageConfig, TradeLeg,
  LegResult, AtomicBatchResult, PairStats, Event, pair_added, order_cancelled, leg_filled,
  batch_executed, AuditEventType, order_placed_audit, order_cancelled_audit, trade_execution_audit,
  AuditCall, Store, Env, Call, already_initialized, unauthorized, pair_already_registered,
  pair_not_found, pair_inactive, invalid_order_amount, empty_batch, default_slippage,
}
use astraport_contracts.Trade.Orderbook
use astraport_contracts.Trade.Matching.{find_pair}
use astraport_contracts.Trade.Slippage.{set_slippage_config}
use astraport_contracts.Trade.Engine.{execute_atomic_batch, is_empty}

unfoldable pub publish : Event → Store → Store
publish e w = record w { events = e ∷ w.events }

unfoldable pub initialize : Address → Call (Unit {0})
initialize admin = do
  fail_if (is_some (← gets (λ w. w.admin))) already_initialized
  modify (λ w. record w { admin = some admin })

unfoldable pub assert_admin : Address → Call (Unit {0})
assert_admin caller = do
  stored ← or_fail (← gets (λ w. w.admin)) unauthorized
  fail_if (not (stored == caller)) unauthorized

-- `Self::assert_admin(..).is_ok()`
abbrev pub is_admin : Address → Store → Bool
is_admin caller w = elim w.admin [ none ↦ false | some a ↦ a == caller ]

unfoldable pub get_all_pairs : Store → List TradePair
get_all_pairs w = unwrap_or w.pairs []

unfoldable pub get_pair : Symbol → Store → Option TradePair
unfolding get_all_pairs find_pair
get_pair pair w = find_pair pair (get_all_pairs w)

unfoldable pub register_pair : Env → Address → TradePair → Call (Unit {0})
unfolding assert_admin get_all_pairs set_slippage_config publish
register_pair env admin pair = do
  require (env.authorized admin)
  assert_admin admin
  pairs ← gets get_all_pairs
  fail_if (is_some (find_pair pair.pair_id pairs)) pair_already_registered
  modify (λ w. record w { pairs = some (pairs ++ pair ∷ []) })
  modify (set_slippage_config pair.pair_id default_slippage)
  modify (publish (pair_added pair.pair_id pair.base_asset))

-- The first pair of that id is replaced.
unfoldable pub replace_pair : TradePair → List TradePair → List TradePair
replace_pair pair [] = []
replace_pair pair (p ∷ ps) =
    if p.pair_id == pair.pair_id then pair ∷ ps else p ∷ replace_pair pair ps

unfoldable pub update_pair : Env → Address → TradePair → Call (Unit {0})
unfolding assert_admin get_all_pairs
update_pair env admin pair = do
  require (env.authorized admin)
  assert_admin admin
  pairs ← gets get_all_pairs
  fail_if (not (is_some (find_pair pair.pair_id pairs))) pair_not_found
  modify (λ w. record w { pairs = some (replace_pair pair pairs) })

-- The audit call traps if the audit contract fails; there is none without a sink.
unfoldable pub log_audit : Env → Address → AuditEventType → Option Symbol → ℤ → Call (Unit {0})
log_audit env actor kind subject after = λ w. elim w.audit_sink [
  | none ↦ ok tt w
  | some sink ↦
      let call : AuditCall = record {
        sink = sink;
        actor = actor;
        event_type = kind;
        subject = subject;
        before = pos 0;
        after = after;
      } in
      if env.audited w.audits call then ok tt (record w { audits = call ∷ w.audits }) else trap
]

unfoldable pub place_order : Env → Address → Symbol → OrderSide → ℤ → ℤ → Call ℕ
unfolding get_pair
place_order env owner pair_id side price amount = do
  require (env.authorized owner)
  pair ← or_fail (← gets (get_pair pair_id)) pair_not_found
  fail_if (not pair.is_active) pair_inactive
  fail_if (ltb_ℤ amount pair.min_order_size || ltb_ℤ pair.max_order_size amount)
      invalid_order_amount
  order_id ← Orderbook.place_order env pair_id owner side price amount
  log_audit env owner order_placed_audit (some pair_id) amount
  pure order_id

unfoldable pub cancel_order : Env → Address → Symbol → ℕ → Call (Unit {0})
unfolding publish
cancel_order env caller pair_id order_id = do
  require (env.authorized caller)
  as_admin ← gets (is_admin caller)
  Orderbook.cancel_order pair_id order_id caller as_admin
  log_audit env caller order_cancelled_audit (some pair_id) (pos 0)
  modify (publish (order_cancelled pair_id order_id caller))

unfoldable pub get_order : Symbol → ℕ → Store → Option Order
get_order pair_id order_id w = lookup (pair_id, order_id) w.orders

unfoldable pub get_order_book : Symbol → Store → OrderBookSnapshot
get_order_book pair_id w = Orderbook.get_book_snapshot pair_id w

unfoldable pub set_slippage : Env → Address → Symbol → ℤ → Bool → Call (Unit {0})
unfolding assert_admin set_slippage_config
set_slippage env admin pair_id max_bps enabled = do
  require (env.authorized admin)
  assert_admin admin
  modify (set_slippage_config pair_id (record { max_slippage_bps = max_bps; enabled = enabled }))

unfoldable pub publish_legs : List LegResult → Store → Store
unfolding publish
publish_legs [] w = w
publish_legs (r ∷ rs) w =
    publish_legs rs (publish (leg_filled r.pair_id r.filled_amount r.avg_price r.total_fees) w)

unfoldable pub execute_batch : Env → Address → List TradeLeg → Call AtomicBatchResult
unfolding get_all_pairs publish
execute_batch env user legs = do
  require (env.authorized user)
  fail_if (is_empty legs) empty_batch
  pairs ← gets get_all_pairs
  result ← execute_atomic_batch env user legs pairs
  modify (publish_legs result.legs)
  log_audit env user trade_execution_audit none (pos result.total_fills)
  modify (publish (batch_executed user result.total_fills (length result.legs)))
  pure result

unfoldable pub get_pair_volume : Symbol → Store → ℤ
get_pair_volume pair_id w = unwrap_or (lookup pair_id w.pair_volumes) (pos 0)

unfoldable pub get_pair_stats : Symbol → Store → PairStats
unfolding get_pair_volume
get_pair_stats pair_id w =
    let snapshot = Orderbook.get_book_snapshot pair_id w in
    let counter = unwrap_or (lookup pair_id w.order_id_counters) 0 in
    record {
      total_volume = get_pair_volume pair_id w;
      total_orders = counter - 1;
      best_bid = snapshot.best_bid;
      best_ask = snapshot.best_ask;
      spread = snapshot.spread;
    }

unfoldable pub set_audit_sink : Env → Address → Address → Call (Unit {0})
unfolding assert_admin
set_audit_sink env admin sink = do
  require (env.authorized admin)
  assert_admin admin
  modify (λ w. record w { audit_sink = some sink })
