-- ===== src/Governance/Pause.antt =====
-- contracts/governance/src/lib.rs: what the emergency pause stops.
use astraport_contracts.Base.{ℕ, Bool, true, false, ◌≡◌, some, arith}
use astraport_contracts.Host.{ok}
use astraport_contracts.Governance.Types.{Dao, Env, Address, Symbol, ProposalActionType}
use astraport_contracts.Governance.Setup
use astraport_contracts.Governance.Proposals
use astraport_contracts.Governance.Decision
use astraport_contracts.Governance.Treasury
use astraport_contracts.Governance.Emergency
use astraport_contracts.Governance.Trace.{Invocation, perform, contract, ignored_ok, ok_ignored}

abbrev pub with_pause : Dao → Dao
with_pause w = record w { emergency_paused = some true }

-- The calls that are about the pause itself, or that start it.
abbrev pub sets_pause : Invocation → Bool
sets_pause (Invocation.initialize admin guardian) = true
sets_pause (Invocation.emergency_pause caller) = true
sets_pause (Invocation.emergency_unpause admin) = true
sets_pause _ = false

submit_under_pause :
    (env : Env) (proposer : Address) (title d : Symbol) (at : ProposalActionType) (p : Symbol)
    (n : ℕ) (w w' : Dao)
    → Proposals.submit_proposal env proposer title d at p w ≡ ok n w'
    → Proposals.submit_proposal env proposer title d at p (with_pause w) ≡ ok n (with_pause w')
unfolding Proposals.submit_proposal
submit_under_pause env proposer title d at p n w w' h = ground arith

perform_submit :
    (env : Env) (proposer : Address) (title d : Symbol) (at : ProposalActionType) (p : Symbol)
    (w w' : Dao)
    → perform env (Invocation.submit_proposal proposer title d at p) w ≡ ok tt w'
    → perform env (Invocation.submit_proposal proposer title d at p) (with_pause w)
      ≡ ok tt (with_pause w')
unfolding perform
perform_submit env proposer title d at p w w' h =
    let ran : (n : ℕ) × (Proposals.submit_proposal env proposer title d at p w ≡ ok n w') =
      ignored_ok contract (Proposals.submit_proposal env proposer title d at p) h in
    ok_ignored contract (Proposals.submit_proposal env proposer title d at p)
      (submit_under_pause env proposer title d at p ran.0 w w' ran.1)

-- The emergency pause stops nothing: every other call that succeeds also succeeds under the pause, with
-- the same effect.
pub pause_stops_nothing :
    (env : Env) (i : Invocation) (w w' : Dao)
    → sets_pause i ≡ false
    → perform env i w ≡ ok tt w'
    → perform env i (with_pause w) ≡ ok tt (with_pause w')
unfolding perform Setup.initialize Setup.set_config Setup.set_total_supply Setup.set_audit_sink
    Setup.deposit_voting_power Setup.withdraw_voting_power Setup.delegate_power
    Setup.revoke_delegation Proposals.submit_proposal Proposals.cancel_proposal
    Proposals.record_vote Proposals.cast_vote Proposals.cast_delegated_vote
    Decision.finalize_proposal Decision.queue_timelock Decision.execute_proposal Treasury.deposit
    Treasury.create_request Treasury.approve_request Treasury.execute_request Treasury.add_signer
    Treasury.remove_signer Emergency.emergency_pause Emergency.emergency_unpause
    Emergency.emergency_execute Emergency.claim_rewards
pause_stops_nothing env (Invocation.initialize admin guardian) w w' other h = ground arith
pause_stops_nothing env (Invocation.set_config admin c) w w' other h = ground arith
pause_stops_nothing env (Invocation.set_total_supply admin supply) w w' other h = ground arith
pause_stops_nothing env (Invocation.set_audit_sink admin sink) w w' other h = ground arith
pause_stops_nothing env (Invocation.deposit_voting_power holder amount) w w' other h = ground arith
pause_stops_nothing env (Invocation.withdraw_voting_power holder amount) w w' other h = ground arith
pause_stops_nothing env (Invocation.submit_proposal proposer title d at p) w w' other h =
    perform_submit env proposer title d at p w w' h
pause_stops_nothing env (Invocation.cancel_proposal caller id) w w' other h = ground arith
pause_stops_nothing env (Invocation.cast_vote voter id dir) w w' other h = ground arith
pause_stops_nothing env (Invocation.cast_delegated_vote proxy holder id dir) w w' other h =
    ground arith
pause_stops_nothing env (Invocation.finalize_proposal id) w w' other h = ground arith
pause_stops_nothing env (Invocation.queue_timelock id) w w' other h = ground arith
pause_stops_nothing env (Invocation.execute_proposal id e) w w' other h = ground arith
pause_stops_nothing env (Invocation.delegate delegator to) w w' other h = ground arith
pause_stops_nothing env (Invocation.revoke_delegation delegator) w w' other h = ground arith
pause_stops_nothing env (Invocation.treasury_deposit depositor asset amount) w w' other h =
    ground arith
pause_stops_nothing env (Invocation.treasury_create_request requester recipient amount asset reason)
      w w' other h =
    ground arith
pause_stops_nothing env (Invocation.treasury_approve_request signer id) w w' other h = ground arith
pause_stops_nothing env (Invocation.treasury_execute_request id) w w' other h = ground arith
pause_stops_nothing env (Invocation.treasury_add_signer admin signer) w w' other h = ground arith
pause_stops_nothing env (Invocation.treasury_remove_signer admin signer) w w' other h = ground arith
pause_stops_nothing env (Invocation.emergency_pause caller) w w' other h = ground arith
pause_stops_nothing env (Invocation.emergency_unpause admin) w w' other h = ground arith
pause_stops_nothing env (Invocation.emergency_execute caller id) w w' other h = ground arith
pause_stops_nothing env (Invocation.claim_rewards voter id) w w' other h = ground arith
