-- ===== src/Governance/Power.antt =====
-- contracts/governance/src/lib.rs: what a call does to the voting power of the holders.
use astraport_contracts.Base.{◌≡◌, some, none, arith}
use astraport_contracts.Base.Int.{ℤ, pos, ◌+ℤ◌, ◌-ℤ◌, ◌≤ℤ◌, ◌<ℤ◌}
use astraport_contracts.Base.Dict.{insert, number_key, pair_key}
use astraport_contracts.Machine.{InI128, wrapping_sub}
use astraport_contracts.Host.{ok}
use astraport_contracts.Governance.Types.{Address, Dao, Env}
use astraport_contracts.Governance.Helpers.{get_voting_power, get_total_voting_power}
use astraport_contracts.Governance.Setup
use astraport_contracts.Governance.Setup.{put_power}
use astraport_contracts.Governance.Proposals
use astraport_contracts.Governance.Decision
use astraport_contracts.Governance.Treasury
use astraport_contracts.Governance.Emergency
use astraport_contracts.Governance.Trace.{Invocation, perform}

-- How a call changes the voting power.
pub data PowerChange (w w' : Dao) : Type 0 where
  reset :
      w.admin ≡ none
      → w'.voting_power ≡ w.voting_power
      → get_total_voting_power w' ≡ pos 0
      → PowerChange w w'
  kept :
      w'.voting_power ≡ w.voting_power
      → get_total_voting_power w' ≡ get_total_voting_power w
      → PowerChange w w'
  deposited :
      (holder : Address) (amount : ℤ)
      → pos 0 <ℤ amount
      → InI128 (get_voting_power holder w +ℤ amount)
      → w'.voting_power ≡ insert holder (get_voting_power holder w +ℤ amount) w.voting_power
      → get_total_voting_power w' ≡ get_total_voting_power w +ℤ amount
      → PowerChange w w'
  withdrawn :
      (holder : Address) (amount : ℤ)
      → pos 0 <ℤ amount
      → amount ≤ℤ get_voting_power holder w
      → w'.voting_power
        ≡ put_power holder (wrapping_sub (get_voting_power holder w) amount) w.voting_power
      → get_total_voting_power w' ≡ get_total_voting_power w -ℤ amount
      → PowerChange w w'

pub perform-PowerChange :
    (env : Env) (i : Invocation) (w w' : Dao) → perform env i w ≡ ok tt w' → PowerChange w w'
unfolding perform get_total_voting_power Setup.initialize Setup.set_config Setup.set_total_supply
    Setup.set_audit_sink Setup.deposit_voting_power Setup.withdraw_voting_power Setup.delegate_power
    Setup.revoke_delegation Proposals.submit_proposal Proposals.cancel_proposal
    Proposals.record_vote Proposals.cast_vote Proposals.cast_delegated_vote
    Decision.finalize_proposal Decision.queue_timelock Decision.execute_proposal Treasury.deposit
    Treasury.create_request Treasury.approve_request Treasury.execute_request Treasury.add_signer
    Treasury.remove_signer Emergency.emergency_pause Emergency.emergency_unpause
    Emergency.emergency_execute Emergency.claim_rewards
perform-PowerChange env (Invocation.initialize admin guardian) w w' h =
    reset (ground arith) (ground arith) (ground arith)
perform-PowerChange env (Invocation.set_config admin c) w w' h = kept (ground arith) (ground arith)
perform-PowerChange env (Invocation.set_total_supply admin supply) w w' h =
    kept (ground arith) (ground arith)
perform-PowerChange env (Invocation.set_audit_sink admin sink) w w' h =
    kept (ground arith) (ground arith)
perform-PowerChange env (Invocation.deposit_voting_power holder amount) w w' h =
    deposited holder amount (ground arith) (ground arith) (ground arith) (ground arith)
perform-PowerChange env (Invocation.withdraw_voting_power holder amount) w w' h =
    withdrawn holder amount (ground arith) (ground arith) (ground arith) (ground arith)
perform-PowerChange env (Invocation.submit_proposal proposer title d at p) w w' h =
    kept (ground arith) (ground arith)
perform-PowerChange env (Invocation.cancel_proposal caller id) w w' h =
    kept (ground arith) (ground arith)
perform-PowerChange env (Invocation.cast_vote voter id dir) w w' h =
    kept (ground arith) (ground arith)
perform-PowerChange env (Invocation.cast_delegated_vote proxy holder id dir) w w' h =
    kept (ground arith) (ground arith)
perform-PowerChange env (Invocation.finalize_proposal id) w w' h =
    kept (ground arith) (ground arith)
perform-PowerChange env (Invocation.queue_timelock id) w w' h = kept (ground arith) (ground arith)
perform-PowerChange env (Invocation.execute_proposal id e) w w' h =
    kept (ground arith) (ground arith)
perform-PowerChange env (Invocation.delegate delegator to) w w' h =
    kept (ground arith) (ground arith)
perform-PowerChange env (Invocation.revoke_delegation delegator) w w' h =
    kept (ground arith) (ground arith)
perform-PowerChange env (Invocation.treasury_deposit depositor asset amount) w w' h =
    kept (ground arith) (ground arith)
perform-PowerChange env (Invocation.treasury_create_request requester recipient amount asset reason)
      w w' h =
    kept (ground arith) (ground arith)
perform-PowerChange env (Invocation.treasury_approve_request signer id) w w' h =
    kept (ground arith) (ground arith)
perform-PowerChange env (Invocation.treasury_execute_request id) w w' h =
    kept (ground arith) (ground arith)
perform-PowerChange env (Invocation.treasury_add_signer admin signer) w w' h =
    kept (ground arith) (ground arith)
perform-PowerChange env (Invocation.treasury_remove_signer admin signer) w w' h =
    kept (ground arith) (ground arith)
perform-PowerChange env (Invocation.emergency_pause caller) w w' h =
    kept (ground arith) (ground arith)
perform-PowerChange env (Invocation.emergency_unpause admin) w w' h =
    kept (ground arith) (ground arith)
perform-PowerChange env (Invocation.emergency_execute caller id) w w' h =
    kept (ground arith) (ground arith)
perform-PowerChange env (Invocation.claim_rewards voter id) w w' h =
    kept (ground arith) (ground arith)

-- The administrator is set once.
pub perform-admin :
    (env : Env) (i : Invocation) (w w' : Dao) (a : Address)
    → w.admin ≡ some a
    → perform env i w ≡ ok tt w'
    → w'.admin ≡ some a
unfolding perform get_total_voting_power Setup.initialize Setup.set_config Setup.set_total_supply
    Setup.set_audit_sink Setup.deposit_voting_power Setup.withdraw_voting_power Setup.delegate_power
    Setup.revoke_delegation Proposals.submit_proposal Proposals.cancel_proposal
    Proposals.record_vote Proposals.cast_vote Proposals.cast_delegated_vote
    Decision.finalize_proposal Decision.queue_timelock Decision.execute_proposal Treasury.deposit
    Treasury.create_request Treasury.approve_request Treasury.execute_request Treasury.add_signer
    Treasury.remove_signer Emergency.emergency_pause Emergency.emergency_unpause
    Emergency.emergency_execute Emergency.claim_rewards
perform-admin env (Invocation.initialize admin guardian) w w' a set h = ground arith
perform-admin env (Invocation.set_config admin c) w w' a set h = ground arith
perform-admin env (Invocation.set_total_supply admin supply) w w' a set h = ground arith
perform-admin env (Invocation.set_audit_sink admin sink) w w' a set h = ground arith
perform-admin env (Invocation.deposit_voting_power holder amount) w w' a set h = ground arith
perform-admin env (Invocation.withdraw_voting_power holder amount) w w' a set h = ground arith
perform-admin env (Invocation.submit_proposal proposer title d at p) w w' a set h = ground arith
perform-admin env (Invocation.cancel_proposal caller id) w w' a set h = ground arith
perform-admin env (Invocation.cast_vote voter id dir) w w' a set h = ground arith
perform-admin env (Invocation.cast_delegated_vote proxy holder id dir) w w' a set h = ground arith
perform-admin env (Invocation.finalize_proposal id) w w' a set h = ground arith
perform-admin env (Invocation.queue_timelock id) w w' a set h = ground arith
perform-admin env (Invocation.execute_proposal id e) w w' a set h = ground arith
perform-admin env (Invocation.delegate delegator to) w w' a set h = ground arith
perform-admin env (Invocation.revoke_delegation delegator) w w' a set h = ground arith
perform-admin env (Invocation.treasury_deposit depositor asset amount) w w' a set h = ground arith
perform-admin env (Invocation.treasury_create_request requester recipient amount asset reason) w w'
      a set h =
    ground arith
perform-admin env (Invocation.treasury_approve_request signer id) w w' a set h = ground arith
perform-admin env (Invocation.treasury_execute_request id) w w' a set h = ground arith
perform-admin env (Invocation.treasury_add_signer admin signer) w w' a set h = ground arith
perform-admin env (Invocation.treasury_remove_signer admin signer) w w' a set h = ground arith
perform-admin env (Invocation.emergency_pause caller) w w' a set h = ground arith
perform-admin env (Invocation.emergency_unpause admin) w w' a set h = ground arith
perform-admin env (Invocation.emergency_execute caller id) w w' a set h = ground arith
perform-admin env (Invocation.claim_rewards voter id) w w' a set h = ground arith
