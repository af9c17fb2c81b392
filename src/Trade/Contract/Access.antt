-- ===== src/Trade/Contract/Access.antt =====
-- contracts/trade/src/lib.rs: who may call what on the trade engine.
use astraport_contracts.Base.{ℕ, ◌≡◌, refl, ◌⊎◌, inl, inr, Bool, true, some, arith, Option-cases}
use astraport_contracts.Base.Int.{ℤ, pos}
use astraport_contracts.Base.Dict.{lookup, lookup-insert_self, pair_key, number_key}
use astraport_contracts.Host.{ok, err, Outcome-cases}
use astraport_contracts.Trade.Types.{
  Address, Symbol, TradePair, Order, cancelled, Store, Env, order_not_found,
}
use astraport_contracts.Trade.Orderbook
use astraport_contracts.Trade.Contract
use astraport_contracts.Trade.Trace.{Invocation, perform}

-- The calls that are the admin's, with the address that makes them.
pub data AdminCall : Invocation → Address → Type 0 where
  registers : (a : Address) (pair : TradePair) → AdminCall (Invocation.register_pair a pair) a
  updates : (a : Address) (pair : TradePair) → AdminCall (Invocation.update_pair a pair) a
  limits :
      (a : Address) (pair : Symbol) (bps : ℤ) (enabled : Bool)
      → AdminCall (Invocation.set_slippage a pair bps enabled) a
  audits : (a sink : Address) → AdminCall (Invocation.set_audit_sink a sink) a

-- Registering or updating a pair, setting a slippage limit and setting the audit contract succeed only
-- for the stored admin, who authorised the call, and leave the admin as it was.
pub trade_admin_only :
    (env : Env) (i : Invocation) (caller : Address) (w w' : Store)
    → AdminCall i caller
    → perform env i w ≡ ok tt w'
    → (w.admin ≡ some caller) × (env.authorized caller ≡ true) × (w'.admin ≡ some caller)
unfolding perform Contract.register_pair Contract.update_pair Contract.set_slippage
    Contract.set_audit_sink Contract.assert_admin Contract.publish
trade_admin_only env i caller w w' (registers _ pair) h = ground arith
trade_admin_only env i caller w w' (updates _ pair) h = ground arith
trade_admin_only env i caller w w' (limits _ pair bps enabled) h = ground arith
trade_admin_only env i caller w w' (audits _ sink) h = ground arith

-- A cancellation as the contract makes it, without the audit call and the event.
pub record Cancelled (pair : Symbol) (id : ℕ) (caller : Address) (is_admin : Bool) (w w' : Store)
    : Type 0 where
  pub old : Order
  pub found : lookup (pair, id) w.orders ≡ some old
  pub was_open : Orderbook.is_open old.status ≡ true
  pub allowed : (is_admin ≡ true) ⊎ (caller ≡ old.owner)
  pub stored :
      lookup (pair, id) w'.orders ≡ some (record old { status = cancelled; remaining = pos 0 })
  pub others : w'.pair_volumes ≡ w.pair_volumes

pub cancel_order-Cancelled :
    (pair : Symbol) (id : ℕ) (caller : Address) (is_admin : Bool) (w w' : Store)
    → Orderbook.cancel_order pair id caller is_admin w ≡ ok tt w'
    → Cancelled pair id caller is_admin w w'
unfolding Orderbook.cancel_order Orderbook.put_order Orderbook.save_book
cancel_order-Cancelled pair id caller is_admin w w' h =
    elim (Option-cases (lookup (pair, id) w.orders)) [
      | inl missing ↦ ground arith
      | inr (order, e) ↦ record {
        old = order;
        found = e;
        was_open = ground arith;
        allowed = ground arith;
        stored = ground (
          arith,
          lookup-insert_self (pair, id) (record order { status = cancelled; remaining = pos 0 })
              w.orders,
        );
        others = ground arith;
      }
    ]

-- An order that is cancelled stays cancelled: any later cancellation of it reports that there is no
-- such order.
pub cancelled_once :
    (pair : Symbol) (id : ℕ) (caller other : Address) (is_admin again : Bool) (w w' : Store)
    → Orderbook.cancel_order pair id caller is_admin w ≡ ok tt w'
    → Orderbook.cancel_order pair id other again w' ≡ err order_not_found
unfolding Orderbook.cancel_order
cancelled_once pair id caller other is_admin again w w' h =
    rw (cancel_order-Cancelled pair id caller is_admin w w' h).stored refl

-- A cancellation that succeeds was authorised by the caller, who is the order's owner or the admin; the
-- order was open, and is stored as cancelled with nothing remaining.
pub cancel_allowed :
    (env : Env) (caller : Address) (pair : Symbol) (id : ℕ) (w w' : Store)
    → Contract.cancel_order env caller pair id w ≡ ok tt w'
    → (old : Order) × (lookup (pair, id) w.orders ≡ some old)
      × (env.authorized caller ≡ true)
      × ((caller ≡ old.owner) ⊎ (w.admin ≡ some caller))
      × (Orderbook.is_open old.status ≡ true)
      × (lookup (pair, id) w'.orders ≡ some (record old { status = cancelled; remaining = pos 0 }))
unfolding Contract.cancel_order Contract.log_audit Contract.publish
cancel_allowed env caller pair id w w' h =
    let as_admin = Contract.is_admin caller w in
    elim (Outcome-cases (Orderbook.cancel_order pair id caller as_admin w)) [
      | inr failed ↦ ground arith
      | inl (_, w₁, e) ↦
          let c = cancel_order-Cancelled pair id caller as_admin w w₁ e in
          let same : w'.orders ≡ w₁.orders = ground arith in
          (c.old, c.found, ground arith, ground (arith, c.allowed), c.was_open, rw same c.stored)
    ]
