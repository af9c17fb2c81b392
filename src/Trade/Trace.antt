-- ===== src/Trade/Trace.antt =====
-- contracts/trade/src/lib.rs: one invocation of the trade engine, and the stores that are reached by
-- invocations one after another.
use astraport_contracts.Base.{ℕ, Bool, List, All}
use astraport_contracts.Base.Int.{ℤ}
use astraport_contracts.Machine.{InI128}
use astraport_contracts.Host.{◌>>◌, pure, committed}
use astraport_contracts.Trade.Types.{
  Address, Symbol, TradePair, OrderSide, TradeLeg, Store, Env, Call, deployed,
}
use astraport_contracts.Trade.Contract

-- An entry point that writes, with its arguments.
pub data Invocation : Type 0 where
  initialize : Address → Invocation
  register_pair : Address → TradePair → Invocation
  update_pair : Address → TradePair → Invocation
  place_order : Address → Symbol → OrderSide → ℤ → ℤ → Invocation
  cancel_order : Address → Symbol → ℕ → Invocation
  set_slippage : Address → Symbol → ℤ → Bool → Invocation
  execute_batch : Address → List TradeLeg → Invocation
  set_audit_sink : Address → Address → Invocation

unfoldable pub perform : Env → Invocation → Call (Unit {0})
perform env (initialize admin) = Contract.initialize admin
perform env (register_pair admin pair) = Contract.register_pair env admin pair
perform env (update_pair admin pair) = Contract.update_pair env admin pair
perform env (place_order owner pair side price amount) =
    Contract.place_order env owner pair side price amount >> pure tt
perform env (cancel_order caller pair id) = Contract.cancel_order env caller pair id
perform env (set_slippage admin pair bps enabled) = Contract.set_slippage env admin pair bps enabled
perform env (execute_batch user legs) = Contract.execute_batch env user legs >> pure tt
perform env (set_audit_sink admin sink) = Contract.set_audit_sink env admin sink

-- The amounts of an invocation are 128-bit integers, as the host decodes them.
abbrev pub IsTyped : Invocation → Type 0
IsTyped (initialize _) = Unit
IsTyped (register_pair _ _) = Unit
IsTyped (update_pair _ _) = Unit
IsTyped (place_order _ _ _ _ amount) = InI128 amount
IsTyped (cancel_order _ _ _) = Unit
IsTyped (set_slippage _ _ _ _) = Unit
IsTyped (execute_batch _ legs) = All (λ leg. InI128 leg.amount) legs
IsTyped (set_audit_sink _ _) = Unit

-- The store that the host keeps.
abbrev pub step : Env → Invocation → Store → Store
step env i w = committed w (perform env i w)

pub data Reach : Store → Type 0 where
  start : Reach deployed
  after : (env : Env) (i : Invocation) (w : Store) → IsTyped i → Reach w → Reach (step env i w)
