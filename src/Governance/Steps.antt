-- ===== src/Governance/Steps.antt =====
-- contracts/governance/src/lib.rs: what a call does to the proposals, the votes and the timelock.
use astraport_contracts.Base.{◌≡◌, arith}
use astraport_contracts.Base.Dict.{number_key, pair_key}
use astraport_contracts.Host.{ok}
use astraport_contracts.Governance.Types.{Dao, Env}
use astraport_contracts.Governance.Setup
use astraport_contracts.Governance.Treasury
use astraport_contracts.Governance.Emergency
use astraport_contracts.Governance.Emergency.{is_closed}
use astraport_contracts.Governance.Trace.{Invocation, perform}
use astraport_contracts.Governance.Changes.{next_id, ProposalChange, reset, kept}
use astraport_contracts.Base.{ap}
use astraport_contracts.Base.Dict.{Dict}
use astraport_contracts.Base.{ℕ}
use astraport_contracts.Governance.Types.{Address, Proposal, VoteRecord, TimelockEntry}
use astraport_contracts.Governance.Voting.{
  submitted-ProposalChange, cancelled-ProposalChange, cast-ProposalChange, delegated-ProposalChange,
  timelocked-ProposalChange, overridden-ProposalChange, finalized-ProposalChange,
  released-ProposalChange,
}

-- What the changes are about.
abbrev View : Type 0
View = Dict ℕ Proposal × Dict (ℕ × Address) VoteRecord × ℕ × Dict ℕ TimelockEntry

abbrev view : Dao → View
view w = (w.proposals, w.vote_records, next_id w, w.timelock_entries)

kept_view : {env : Env} {w w' : Dao} → view w' ≡ view w → ProposalChange env w w'
kept_view h = kept (ap (λ v. v.0) h) (ap (λ v. v.1) h, ap (λ v. v.2) h) (ap (λ v. v.3) h)

pub perform-ProposalChange :
    (env : Env) (i : Invocation) (w w' : Dao) → perform env i w ≡ ok tt w' → ProposalChange env w w'
unfolding perform Setup.initialize Setup.set_config Setup.set_total_supply Setup.set_audit_sink
    Setup.deposit_voting_power Setup.withdraw_voting_power Setup.delegate_power
    Setup.revoke_delegation Treasury.deposit Treasury.create_request Treasury.approve_request
    Treasury.execute_request Treasury.add_signer Treasury.remove_signer Emergency.emergency_pause
    Emergency.emergency_unpause Emergency.claim_rewards
perform-ProposalChange env (Invocation.initialize admin guardian) w w' h =
    reset (ground arith) (ground arith)
perform-ProposalChange env (Invocation.set_config admin c) w w' h = kept_view (ground arith)
perform-ProposalChange env (Invocation.set_total_supply admin supply) w w' h =
    kept_view (ground arith)
perform-ProposalChange env (Invocation.set_audit_sink admin sink) w w' h = kept_view (ground arith)
perform-ProposalChange env (Invocation.deposit_voting_power holder amount) w w' h =
    kept_view (ground arith)
perform-ProposalChange env (Invocation.withdraw_voting_power holder amount) w w' h =
    kept_view (ground arith)
perform-ProposalChange env (Invocation.submit_proposal proposer title d at p) w w' h =
    submitted-ProposalChange env proposer title d at p w w' h
perform-ProposalChange env (Invocation.cancel_proposal caller id) w w' h =
    cancelled-ProposalChange env caller id w w' h
perform-ProposalChange env (Invocation.cast_vote voter id dir) w w' h =
    cast-ProposalChange env voter id dir w w' h
perform-ProposalChange env (Invocation.cast_delegated_vote proxy holder id dir) w w' h =
    delegated-ProposalChange env proxy holder id dir w w' h
perform-ProposalChange env (Invocation.finalize_proposal id) w w' h =
    finalized-ProposalChange env id w w' h
perform-ProposalChange env (Invocation.queue_timelock id) w w' h =
    timelocked-ProposalChange env id w w' h
perform-ProposalChange env (Invocation.execute_proposal id ex) w w' h =
    released-ProposalChange env id ex w w' h
perform-ProposalChange env (Invocation.delegate delegator to) w w' h = kept_view (ground arith)
perform-ProposalChange env (Invocation.revoke_delegation delegator) w w' h =
    kept_view (ground arith)
perform-ProposalChange env (Invocation.treasury_deposit depositor asset amount) w w' h =
    kept_view (ground arith)
perform-ProposalChange env (Invocation.treasury_approve_request signer id) w w' h =
    kept_view (ground arith)
perform-ProposalChange env (Invocation.treasury_execute_request id) w w' h =
    kept_view (ground arith)
perform-ProposalChange env (Invocation.treasury_add_signer admin signer) w w' h =
    kept_view (ground arith)
perform-ProposalChange env (Invocation.treasury_remove_signer admin signer) w w' h =
    kept_view (ground arith)
perform-ProposalChange env (Invocation.emergency_pause caller) w w' h = kept_view (ground arith)
perform-ProposalChange env (Invocation.emergency_unpause admin) w w' h = kept_view (ground arith)
perform-ProposalChange env (Invocation.emergency_execute caller id) w w' h =
    overridden-ProposalChange env caller id w w' h
perform-ProposalChange env (Invocation.claim_rewards voter id) w w' h = kept_view (ground arith)
perform-ProposalChange env
      (Invocation.treasury_create_request requester recipient amount asset reason) w w' h =
    kept_view (ground arith)
