-- ===== src/Governance/Funds.antt =====
-- contracts/governance/src/treasury.rs: what a call does to the balances and the requests.
use astraport_contracts.Base.{
  ℕ, ◌≡◌, refl, true, false, some, arith, Option-cases, [], ◌∷◌, ◌++◌, contains, length, unwrap_or,
  ◌≤◌, inl, inr,
}
use astraport_contracts.Base.Int.{ℤ, pos, ◌+ℤ◌, ◌<ℤ◌, ◌≤ℤ◌}
use astraport_contracts.Base.Dict.{lookup, insert, number_key, pair_key}
use astraport_contracts.Machine.{InI128, wrapping_sub}
use astraport_contracts.Host.{ok}
use astraport_contracts.Governance.Types.{Address, Symbol, Dao, Env, TreasuryRequest}
use astraport_contracts.Governance.Helpers.{get_config}
use astraport_contracts.Governance.Setup
use astraport_contracts.Governance.Proposals
use astraport_contracts.Governance.Decision
use astraport_contracts.Governance.Treasury
use astraport_contracts.Governance.Treasury.{balance_of, get_signers}
use astraport_contracts.Governance.Emergency
use astraport_contracts.Governance.Trace.{Invocation, perform}

pub data FundsChange (w w' : Dao) : Type 0 where
  kept :
      w'.treasury_balances ≡ w.treasury_balances
      → w'.treasury_requests ≡ w.treasury_requests
      → FundsChange w w'
  deposited :
      (asset : Symbol) (amount : ℤ)
      → pos 0 <ℤ amount
      → InI128 (balance_of asset w +ℤ amount)
      → w'.treasury_balances ≡ insert asset (balance_of asset w +ℤ amount) w.treasury_balances
      → w'.treasury_requests ≡ w.treasury_requests
      → FundsChange w w'
  requested :
      (id : ℕ) (r : TreasuryRequest)
      → (pos 0 <ℤ r.amount) × (r.approvals ≡ []) × (r.executed ≡ false)
      → w'.treasury_balances ≡ w.treasury_balances
      → w'.treasury_requests ≡ insert id r w.treasury_requests
      → FundsChange w w'
  approved :
      (id : ℕ) (signer : Address) (r : TreasuryRequest)
      → lookup id w.treasury_requests ≡ some r
      → contains signer r.approvals ≡ false
      → w'.treasury_balances ≡ w.treasury_balances
      → w'.treasury_requests
        ≡ insert id (record r { approvals = r.approvals ++ signer ∷ [] }) w.treasury_requests
      → FundsChange w w'
  spent :
      (id : ℕ) (r : TreasuryRequest)
      → lookup id w.treasury_requests ≡ some r
      → r.executed ≡ false
      → (get_config w).treasury_multisig_threshold ≤ length r.approvals
      → r.amount ≤ℤ balance_of r.asset w
      → w'.treasury_balances
        ≡ insert r.asset (wrapping_sub (balance_of r.asset w) r.amount) w.treasury_balances
      → w'.treasury_requests ≡ insert id (record r { executed = true }) w.treasury_requests
      → FundsChange w w'

pub perform-FundsChange :
    (env : Env) (i : Invocation) (w w' : Dao) → perform env i w ≡ ok tt w' → FundsChange w w'
unfolding perform Setup.initialize Setup.set_config Setup.set_total_supply Setup.set_audit_sink
    Setup.deposit_voting_power Setup.withdraw_voting_power Setup.delegate_power
    Setup.revoke_delegation Proposals.submit_proposal Proposals.cancel_proposal
    Proposals.record_vote Proposals.cast_vote Proposals.cast_delegated_vote
    Decision.finalize_proposal Decision.queue_timelock Decision.execute_proposal Treasury.deposit
    Treasury.create_request Treasury.approve_request Treasury.execute_request Treasury.add_signer
    Treasury.remove_signer Emergency.emergency_pause Emergency.emergency_unpause
    Emergency.emergency_execute Emergency.claim_rewards
perform-FundsChange env (Invocation.initialize admin guardian) w w' h =
    kept (ground arith) (ground arith)
perform-FundsChange env (Invocation.set_config admin c) w w' h = kept (ground arith) (ground arith)
perform-FundsChange env (Invocation.set_total_supply admin supply) w w' h =
    kept (ground arith) (ground arith)
perform-FundsChange env (Invocation.set_audit_sink admin sink) w w' h =
    kept (ground arith) (ground arith)
perform-FundsChange env (Invocation.deposit_voting_power holder amount) w w' h =
    kept (ground arith) (ground arith)
perform-FundsChange env (Invocation.withdraw_voting_power holder amount) w w' h =
    kept (ground arith) (ground arith)
perform-FundsChange env (Invocation.submit_proposal proposer title d at p) w w' h =
    kept (ground arith) (ground arith)
perform-FundsChange env (Invocation.cancel_proposal caller id) w w' h =
    kept (ground arith) (ground arith)
perform-FundsChange env (Invocation.cast_vote voter id dir) w w' h =
    kept (ground arith) (ground arith)
perform-FundsChange env (Invocation.cast_delegated_vote proxy holder id dir) w w' h =
    kept (ground arith) (ground arith)
perform-FundsChange env (Invocation.finalize_proposal id) w w' h =
    kept (ground arith) (ground arith)
perform-FundsChange env (Invocation.queue_timelock id) w w' h = kept (ground arith) (ground arith)
perform-FundsChange env (Invocation.execute_proposal id e) w w' h =
    kept (ground arith) (ground arith)
perform-FundsChange env (Invocation.delegate delegator to) w w' h =
    kept (ground arith) (ground arith)
perform-FundsChange env (Invocation.revoke_delegation delegator) w w' h =
    kept (ground arith) (ground arith)
perform-FundsChange env (Invocation.treasury_deposit depositor asset amount) w w' h =
    deposited asset amount (ground arith) (ground arith) (ground arith) (ground arith)
perform-FundsChange env (Invocation.treasury_create_request requester recipient amount asset reason)
      w w' h =
    requested (unwrap_or w.next_treasury_request_id 1)
      (record {
        request_id = unwrap_or w.next_treasury_request_id 1;
        recipient = recipient;
        amount = amount;
        asset = asset;
        reason = reason;
        approvals = [];
        executed = false;
        created_at = env.timestamp;
      })
      (ground arith, refl, refl) (ground arith) (ground arith)
perform-FundsChange env (Invocation.treasury_approve_request signer id) w w' h =
    elim (Option-cases (lookup id w.treasury_requests)) [
      | inl e ↦ ground arith
      | inr (r, e) ↦ approved id signer r e (ground arith) (ground arith) (ground arith)
    ]
perform-FundsChange env (Invocation.treasury_execute_request id) w w' h =
    elim (Option-cases (lookup id w.treasury_requests)) [
      | inl e ↦ ground arith
      | inr (r, e) ↦
          spent id r e (ground arith) (ground arith) (ground arith) (ground arith) (ground arith)
    ]
perform-FundsChange env (Invocation.treasury_add_signer admin signer) w w' h =
    kept (ground arith) (ground arith)
perform-FundsChange env (Invocation.treasury_remove_signer admin signer) w w' h =
    kept (ground arith) (ground arith)
perform-FundsChange env (Invocation.emergency_pause caller) w w' h =
    kept (ground arith) (ground arith)
perform-FundsChange env (Invocation.emergency_unpause admin) w w' h =
    kept (ground arith) (ground arith)
perform-FundsChange env (Invocation.emergency_execute caller id) w w' h =
    kept (ground arith) (ground arith)
perform-FundsChange env (Invocation.claim_rewards voter id) w w' h =
    kept (ground arith) (ground arith)
