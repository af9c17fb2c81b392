-- ===== src/Payments/Changes.antt =====
-- How one successful call changes the escrows of the payments contract: not at all, by a new one, or
-- by settling one.
use astraport_contracts.Base.{ℕ, ◌≡◌, Bool, true, false, inl, inr, arith}
use astraport_contracts.Base.Int.{ℤ}
use astraport_contracts.Base.Dict.{number_key}
use astraport_contracts.Host.{ok, Outcome-cases}
use astraport_contracts.Payments.State.{Address, Symbol, Ledger, Env}
use astraport_contracts.Payments.Helpers.{put_balance, publish}
use astraport_contracts.Payments.Calls
use astraport_contracts.Payments.Escrow
use astraport_contracts.Payments.Outcomes.{deposit-ok, withdraw-ok, transfer-ok}
use astraport_contracts.Payments.EscrowOutcomes.{
  Created, Settled, create_escrow-ok, settle_escrow-ok,
}
use astraport_contracts.Payments.Trace.{Invocation, perform}

pub record Kept (w w' : Ledger) : Type 0 where
  pub escrows : w'.escrows ≡ w.escrows
  pub counter : w'.escrow_id_counter ≡ w.escrow_id_counter
  pub count : w'.escrow_count ≡ w.escrow_count

pub data Change (env : Env) (w w' : Ledger) : Type 0 where
  kept : Kept w w' → Change env w w'
  created :
      (depositor receiver : Address) (asset : Symbol) (amount : ℤ) (id : ℕ)
      → Created env depositor receiver asset amount w id w'
      → Change env w w'
  settled :
      (id : ℕ) (caller : Address) (is_release : Bool)
      → Settled env id caller is_release w w'
      → Change env w w'

pub perform-Change :
    (env : Env) (i : Invocation) (w w' : Ledger) → perform env i w ≡ ok tt w' → Change env w w'
unfolding perform Calls.initialize Calls.transfer_admin Calls.set_token Calls.set_global_cap
    Calls.set_asset_cap Escrow.release_escrow Escrow.refund_escrow put_balance publish
perform-Change env (Invocation.initialize admin) w w' h = kept (ground arith)
perform-Change env (Invocation.transfer_admin caller new_admin) w w' h = kept (ground arith)
perform-Change env (Invocation.set_token admin asset token) w w' h = kept (ground arith)
perform-Change env (Invocation.set_global_cap admin limit) w w' h = kept (ground arith)
perform-Change env (Invocation.set_asset_cap admin asset limit) w w' h = kept (ground arith)
perform-Change env (Invocation.deposit sender asset amount) w w' h =
    let d = deposit-ok env sender asset amount w w' h in
    kept (record { escrows = rw d.left; counter = rw d.left; count = rw d.left })
perform-Change env (Invocation.withdraw recipient asset amount) w w' h =
    let d = withdraw-ok env recipient asset amount w w' h in
    kept (record { escrows = rw d.left; counter = rw d.left; count = rw d.left })
perform-Change env (Invocation.transfer sender recipient asset amount) w w' h =
    let d = transfer-ok env sender recipient asset amount w w' h in
    kept (record { escrows = rw d.left; counter = rw d.left; count = rw d.left })
perform-Change env (Invocation.create_escrow depositor receiver asset amount) w w' h =
    elim (Outcome-cases (Escrow.create_escrow env depositor receiver asset amount w)) [
      | inl (id, w₁, e) ↦
          created depositor receiver asset amount id
            (create_escrow-ok env depositor receiver asset amount w id w' (ground arith))
      | inr failed ↦ ground arith
    ]
perform-Change env (Invocation.release_escrow id caller) w w' h =
    settled id caller true (settle_escrow-ok env id caller true w w' (ground arith))
perform-Change env (Invocation.refund_escrow id caller) w w' h =
    settled id caller false (settle_escrow-ok env id caller false w w' (ground arith))
