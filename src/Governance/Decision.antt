-- ===== src/Governance/Decision.antt =====
-- contracts/governance/src/lib.rs: finalizing, queueing and executing proposals.
use astraport_contracts.Base.{ℕ, Bool, true, false, not, Option, none, some, ltb, if◌then◌else◌}
use astraport_contracts.Base.Int.{ℤ, pos, leb_ℤ, ltb_ℤ, eqb_ℤ}
use astraport_contracts.Base.Dict.{number_key}
use astraport_contracts.Machine.{checked_mul, wrapping_add, quotient}
use astraport_contracts.Host.{◌>>=◌, ◌>>◌, pure, gets, or_fail, fail_if, require, modify, map_err}
use astraport_contracts.Governance.Types.{
  Address, ProposalStatus, passed, defeated, timelock, executed, ProposalActionType,
  emergency_action, Proposal, GovernanceConfig, Env, Call, Word, quorum, approval, pass, tl_queue,
  queued, execute, proposal_passed, proposal_executed, voting_already_ended, voting_not_ended,
  invalid_config, cannot_timelock, timelock_not_expired, cannot_execute,
}
use astraport_contracts.Governance.Helpers.{
  publish, get_config, get_total_voting_power, get_proposal, append_audit,
}
use astraport_contracts.Governance.Proposals.{put_proposal, is_voting}
use astraport_contracts.Governance.Timelock.{schedule, check_ready, mark_executed, effective_delay}

unfoldable pub total_votes : Proposal → ℤ
total_votes p = wrapping_add (wrapping_add p.votes_for p.votes_against) p.votes_abstain

-- `x.checked_mul(bps)? / 10_000`
unfoldable pub share : ℤ → ℕ → Call ℤ
share x bps = do
  product ← or_fail (checked_mul x (pos bps)) invalid_config
  pure (quotient product (pos 10_000))

-- The proposal's status becomes `defeated`, with an entry in the audit trail if there is a reason.
unfoldable pub defeat : Env → ℕ → Proposal → Option Word → Call ProposalStatus
unfolding append_audit put_proposal
defeat env proposal_id p none = do
  modify (put_proposal proposal_id (record p { status = defeated }))
  pure defeated
defeat env proposal_id p (some reason) = do
  modify (put_proposal proposal_id (record p { status = defeated }))
  modify (append_audit env Word.defeat proposal_id p.proposer reason)
  pure defeated

unfoldable pub pass_proposal : Env → ℕ → Proposal → Call ProposalStatus
unfolding append_audit put_proposal publish total_votes
pass_proposal env proposal_id p = do
  modify (put_proposal proposal_id (record p { status = passed }))
  modify (append_audit env pass proposal_id p.proposer Word.passed)
  modify (publish (proposal_passed proposal_id p.votes_for p.votes_against (total_votes p)))
  pure passed

-- The test of the approval threshold.
unfoldable pub decide_approval : Env → ℕ → Proposal → GovernanceConfig → Call ProposalStatus
unfolding share defeat pass_proposal
decide_approval env proposal_id p config =
    let net_votes = wrapping_add p.votes_for p.votes_against in
    if eqb_ℤ net_votes (pos 0) then defeat env proposal_id p none else do
      approval_required ← share net_votes config.approval_threshold_bps
      if leb_ℤ p.votes_for approval_required
          then defeat env proposal_id p (some approval)
          else pass_proposal env proposal_id p

unfoldable pub finalize_proposal : Env → ℕ → Call ProposalStatus
unfolding get_proposal get_config get_total_voting_power share total_votes defeat decide_approval
finalize_proposal env proposal_id = do
  proposal ← get_proposal proposal_id
  fail_if (not (is_voting proposal.status)) voting_already_ended
  fail_if (not (ltb proposal.voting_ends env.timestamp)) voting_not_ended
  config ← gets get_config
  total_power ← gets get_total_voting_power
  quorum_required ← share total_power config.quorum_threshold_bps
  if ltb_ℤ (total_votes proposal) quorum_required
      then defeat env proposal_id proposal (some quorum)
      else decide_approval env proposal_id proposal config

abbrev pub is_passed : ProposalStatus → Bool
is_passed passed = true
is_passed _ = false

abbrev pub is_emergency : ProposalActionType → Bool
is_emergency emergency_action = true
is_emergency _ = false

unfoldable pub queue_timelock : Env → ℕ → Call (Unit {0})
unfolding get_proposal get_config effective_delay schedule append_audit put_proposal
queue_timelock env proposal_id = do
  proposal ← get_proposal proposal_id
  fail_if (not (is_passed proposal.status)) cannot_timelock
  config ← gets get_config
  let delay : ℕ = effective_delay (is_emergency proposal.action_type) config
  entry ← map_err (λ e. cannot_timelock) (schedule env proposal_id delay)
  modify (
      put_proposal proposal_id
        (record proposal { status = timelock; timelock_expiry = entry.execute_after }))
  modify (append_audit env tl_queue proposal_id proposal.proposer queued)

abbrev pub is_timelocked : ProposalStatus → Bool
is_timelocked timelock = true
is_timelocked _ = false

unfoldable pub execute_proposal : Env → ℕ → Address → Call (Unit {0})
unfolding get_proposal check_ready mark_executed append_audit put_proposal publish
execute_proposal env proposal_id executor = do
  require (env.authorized executor)
  proposal ← get_proposal proposal_id
  fail_if (not (is_timelocked proposal.status)) cannot_execute
  checked ← map_err (λ e. timelock_not_expired) (check_ready env proposal_id)
  marked ← map_err (λ e. cannot_execute) (mark_executed proposal_id)
  modify (
      put_proposal proposal_id (record proposal { status = executed; executed_at = env.timestamp }))
  modify (append_audit env execute proposal_id executor Word.executed)
  modify (publish (proposal_executed proposal_id executor env.timestamp))
