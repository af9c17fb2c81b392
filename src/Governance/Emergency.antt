-- ===== src/Governance/Emergency.antt =====
-- contracts/governance/src/lib.rs: the pause, the emergency execution, the rewards and the queries.
use astraport_contracts.Base.{
  ℕ, Bool, true, false, not, ◌&&◌, some, List, [], ◌∷◌, ◌==◌, if◌then◌else◌, unwrap_or, is_some,
  length,
}
use astraport_contracts.Base.Int.{ℤ, pos, leb_ℤ}
use astraport_contracts.Base.Dict.{lookup, insert, number_key, pair_key}
use astraport_contracts.Machine.{wrapping_add, wrapping_mul, quotient}
use astraport_contracts.Host.{◌>>=◌, ◌>>◌, pure, gets, or_fail, fail_if, require, modify}
use astraport_contracts.Governance.Types.{
  Address, Symbol, ProposalStatus, executed, cancelled, execution_failed, GovernanceAuditEntry,
  GovernanceSummary, Dao, Env, Call, em_pause, paused, em_unpse, unpaused, em_exec, emergency,
  reward, claimed, pause_set, emergency_executed, reward_claimed_event, not_initialized,
  guardian_required, already_paused, not_paused, cannot_execute, reward_already_claimed,
  no_voting_power,
}
use astraport_contracts.Governance.Helpers.{
  publish, get_config, get_total_voting_power, get_proposal, assert_admin, count_active_proposals,
  count_active_delegations, append_audit, log_audit_if_configured,
}
use astraport_contracts.Governance.Proposals.{put_proposal}
use astraport_contracts.Governance.Decision.{total_votes}
use astraport_contracts.Governance.Treasury.{balance_of}

unfoldable pub is_emergency_paused : Dao → Bool
is_emergency_paused w = unwrap_or w.emergency_paused false

unfoldable pub emergency_pause : Env → Address → Call (Unit {0})
unfolding is_emergency_paused append_audit log_audit_if_configured publish
emergency_pause env caller = do
  require (env.authorized caller)
  admin ← or_fail (← gets (λ w. w.admin)) not_initialized
  guardian ← or_fail (← gets (λ w. w.guardian)) not_initialized
  fail_if (not (caller == admin) && not (caller == guardian)) guardian_required
  fail_if (← gets is_emergency_paused) already_paused
  modify (λ w. record w { emergency_paused = some true })
  modify (append_audit env em_pause 0 caller paused)
  log_audit_if_configured env caller 0
  modify (publish (pause_set caller true))

unfoldable pub emergency_unpause : Env → Address → Call (Unit {0})
unfolding assert_admin is_emergency_paused append_audit publish
emergency_unpause env admin = do
  require (env.authorized admin)
  assert_admin env admin
  fail_if (not (← gets is_emergency_paused)) not_paused
  modify (λ w. record w { emergency_paused = some false })
  modify (append_audit env em_unpse 0 admin unpaused)
  modify (publish (pause_set admin false))

abbrev pub is_closed : ProposalStatus → Bool
is_closed executed = true
is_closed cancelled = true
is_closed execution_failed = true
is_closed _ = false

unfoldable pub emergency_execute : Env → Address → ℕ → Call (Unit {0})
unfolding get_proposal append_audit put_proposal publish
emergency_execute env caller proposal_id = do
  require (env.authorized caller)
  admin ← or_fail (← gets (λ w. w.admin)) not_initialized
  guardian ← or_fail (← gets (λ w. w.guardian)) not_initialized
  fail_if (not (caller == admin) && not (caller == guardian)) guardian_required
  require (env.authorized (if caller == admin then guardian else admin))
  proposal ← get_proposal proposal_id
  fail_if (is_closed proposal.status) cannot_execute
  modify (
      put_proposal proposal_id (record proposal { status = executed; executed_at = env.timestamp }))
  modify (append_audit env em_exec proposal_id caller emergency)
  modify (publish (emergency_executed caller proposal_id env.timestamp))

unfoldable pub has_claimed_reward : ℕ → Address → Dao → Bool
has_claimed_reward proposal_id voter w =
    unwrap_or (lookup (proposal_id, voter) w.reward_claimed) false

unfoldable pub total_rewards_distributed : Dao → ℤ
total_rewards_distributed w = unwrap_or w.total_rewards_distributed (pos 0)

unfoldable pub claim_rewards : Env → Address → ℕ → Call ℤ
unfolding get_config has_claimed_reward total_rewards_distributed append_audit publish
claim_rewards env voter proposal_id = do
  require (env.authorized voter)
  fail_if (← gets (has_claimed_reward proposal_id voter)) reward_already_claimed
  ballot ← gets (λ w. lookup (proposal_id, voter) w.vote_records)
  fail_if (not (is_some ballot)) no_voting_power
  config ← gets get_config
  let amount : ℤ = config.reward_per_participation
  modify (λ w. record w { reward_claimed = insert (proposal_id, voter) true w.reward_claimed })
  modify (λ w. record w {
    total_rewards_distributed = some (wrapping_add (total_rewards_distributed w) amount);
  })
  modify (append_audit env reward proposal_id voter claimed)
  modify (publish (reward_claimed_event voter proposal_id amount))
  pure amount

-- The total of the votes, the quorum required and whether it is met.
unfoldable pub get_quorum_info : ℕ → Call (ℤ × ℤ × Bool)
unfolding get_proposal get_config get_total_voting_power total_votes
get_quorum_info proposal_id = do
  proposal ← get_proposal proposal_id
  config ← gets get_config
  total_power ← gets get_total_voting_power
  let required : ℤ =
      quotient (wrapping_mul total_power (pos config.quorum_threshold_bps)) (pos 10_000)
  pure (total_votes proposal, required, leb_ℤ required (total_votes proposal))

unfoldable pub sum_balances : Dao → ℤ → List Symbol → ℤ
unfolding balance_of
sum_balances w total [] = total
sum_balances w total (asset ∷ assets) =
    sum_balances w (wrapping_add total (balance_of asset w)) assets

unfoldable pub get_governance_summary : Dao → GovernanceSummary
unfolding count_active_proposals count_active_delegations get_total_voting_power sum_balances
    is_emergency_paused
get_governance_summary w =
    let ids = unwrap_or w.all_proposal_ids [] in
    record {
      total_proposals = length ids;
      active_proposals = count_active_proposals w.proposals 0 ids;
      total_voting_power = get_total_voting_power w;
      active_delegations = count_active_delegations w.delegations 0 (unwrap_or w.all_delegators []);
      treasury_balance = sum_balances w (pos 0) (unwrap_or w.treasury_assets []);
      emergency_paused = is_emergency_paused w;
    }

abbrev pub entries_for : ℕ → List GovernanceAuditEntry → List GovernanceAuditEntry
entries_for proposal_id [] = []
entries_for proposal_id (e ∷ es) =
    if e.proposal_id == proposal_id
    then e ∷ entries_for proposal_id es
    else entries_for proposal_id es

unfoldable pub get_audit_trail_for_proposal : ℕ → Dao → List GovernanceAuditEntry
get_audit_trail_for_proposal proposal_id w = entries_for proposal_id (unwrap_or w.audit_trail [])
