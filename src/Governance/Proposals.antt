-- ===== src/Governance/Proposals.antt =====
-- contracts/governance/src/lib.rs: submitting and cancelling proposals, and voting.
use astraport_contracts.Base.{
  ℕ, ◌+◌, ◌%◌, ◌^◌, Bool, true, false, not, ◌&&◌, some, [], ◌∷◌, ◌++◌, leb, ltb, ◌==◌, unwrap_or,
  is_some,
}
use astraport_contracts.Base.Int.{ℤ, pos, leb_ℤ, ltb_ℤ}
use astraport_contracts.Base.Dict.{lookup, insert, number_key, pair_key}
use astraport_contracts.Machine.{wrapping_add, wrapping_add_u64}
use astraport_contracts.Host.{◌>>=◌, ◌>>◌, pure, gets, or_fail, fail_if, require, modify}
use astraport_contracts.Governance.Types.{
  Address, Symbol, ProposalStatus, submitted, voting, cancelled, ProposalActionType, Proposal,
  VoteDirection, in_favour, against, abstain, VoteRecord, Dao, Env, Call, Word, submit, cancel,
  vote, cast, del_vote, given, proposal_made, vote_cast, delegated_vote_cast, not_initialized,
  insufficient_voting_power, max_proposals_reached, cannot_cancel, not_votable,
  voting_already_ended, already_voted, no_voting_power, delegation_not_found,
}
use astraport_contracts.Governance.Helpers.{
  publish, get_config, get_voting_power, get_proposal, count_active_proposals, append_audit,
  log_audit_if_configured,
}

unfoldable pub put_proposal : ℕ → Proposal → Dao → Dao
put_proposal id p w = record w { proposals = insert id p w.proposals }

unfoldable pub submit_proposal :
    Env → Address → Symbol → Symbol → ProposalActionType → Symbol → Call ℕ
unfolding publish get_config get_voting_power append_audit log_audit_if_configured put_proposal
submit_proposal env proposer title description action_type action_payload = do
  require (env.authorized proposer)
  config ← gets get_config
  power ← gets (get_voting_power proposer)
  fail_if (ltb_ℤ power config.proposal_threshold) insufficient_voting_power
  all_ids ← gets (λ w. unwrap_or w.all_proposal_ids [])
  active_count ← gets (λ w. count_active_proposals w.proposals 0 all_ids)
  fail_if (leb config.max_active_proposals active_count) max_proposals_reached
  proposal_id ← gets (λ w. unwrap_or w.next_proposal_id 1)
  let proposal : Proposal = record {
    proposal_id = proposal_id;
    proposer = proposer;
    title = title;
    description = description;
    action_type = action_type;
    action_payload = action_payload;
    status = voting;
    votes_for = pos 0;
    votes_against = pos 0;
    votes_abstain = pos 0;
    voter_count = 0;
    created_at = env.timestamp;
    voting_starts = env.timestamp;
    voting_ends = wrapping_add_u64 env.timestamp config.voting_period;
    timelock_expiry = 0;
    executed_at = 0;
  }
  modify (put_proposal proposal_id proposal)
  modify (λ w. record w { next_proposal_id = some (wrapping_add_u64 proposal_id 1) })
  modify (λ w. record w { all_proposal_ids = some (all_ids ++ proposal_id ∷ []) })
  modify (append_audit env submit proposal_id proposer (given title))
  log_audit_if_configured env proposer proposal_id
  modify (publish (proposal_made proposal_id proposer title action_type))
  pure proposal_id

abbrev pub is_open : ProposalStatus → Bool
is_open submitted = true
is_open voting = true
is_open _ = false

unfoldable pub cancel_proposal : Env → Address → ℕ → Call (Unit {0})
unfolding get_proposal append_audit put_proposal
cancel_proposal env caller proposal_id = do
  require (env.authorized caller)
  proposal ← get_proposal proposal_id
  admin ← or_fail (← gets (λ w. w.admin)) not_initialized
  fail_if (not (caller == proposal.proposer) && not (caller == admin)) cannot_cancel
  fail_if (not (is_open proposal.status)) cannot_cancel
  modify (put_proposal proposal_id (record proposal { status = cancelled }))
  modify (append_audit env cancel proposal_id caller Word.cancelled)

abbrev pub is_voting : ProposalStatus → Bool
is_voting voting = true
is_voting _ = false

-- `votes_* += weight; voter_count += 1`
abbrev pub add_votes : VoteDirection → ℤ → Proposal → Proposal
add_votes in_favour weight p = record p {
  votes_for = wrapping_add p.votes_for weight;
  voter_count = (p.voter_count + 1) % 2 ^ 32;
}
add_votes against weight p = record p {
  votes_against = wrapping_add p.votes_against weight;
  voter_count = (p.voter_count + 1) % 2 ^ 32;
}
add_votes abstain weight p = record p {
  votes_abstain = wrapping_add p.votes_abstain weight;
  voter_count = (p.voter_count + 1) % 2 ^ 32;
}

-- What both ways to vote share, from the check of the proposal to the new tallies: `holder` is whose
-- power votes, `voter` who votes.
unfoldable pub record_vote : Env → Address → Address → ℕ → VoteDirection → Bool → Call ℤ
unfolding get_proposal get_voting_power put_proposal
record_vote env voter holder proposal_id direction is_delegated = do
  proposal ← get_proposal proposal_id
  fail_if (not (is_voting proposal.status)) not_votable
  fail_if (ltb proposal.voting_ends env.timestamp) voting_already_ended
  existing ← gets (λ w. lookup (proposal_id, holder) w.vote_records)
  fail_if (is_some existing) already_voted
  weight ← gets (get_voting_power holder)
  fail_if (leb_ℤ weight (pos 0)) no_voting_power
  let ballot : VoteRecord = record {
    proposal_id = proposal_id;
    voter = voter;
    token_holder = holder;
    weight = weight;
    direction = direction;
    timestamp = env.timestamp;
    is_delegated = is_delegated;
  }
  modify (λ w. record w { vote_records = insert (proposal_id, holder) ballot w.vote_records })
  modify (put_proposal proposal_id (add_votes direction weight proposal))
  pure weight

-- The three cases of the source on the voter's own delegation all vote with the voter's own power.
unfoldable pub cast_vote : Env → Address → ℕ → VoteDirection → Call (Unit {0})
unfolding append_audit log_audit_if_configured publish
cast_vote env voter proposal_id direction = do
  require (env.authorized voter)
  weight ← record_vote env voter voter proposal_id direction false
  modify (append_audit env vote proposal_id voter cast)
  log_audit_if_configured env voter proposal_id
  modify (publish (vote_cast voter proposal_id voter direction weight))

unfoldable pub cast_delegated_vote : Env → Address → Address → ℕ → VoteDirection → Call (Unit {0})
unfolding append_audit publish
cast_delegated_vote env delegate token_holder proposal_id direction = do
  require (env.authorized delegate)
  delegation ← or_fail (← gets (λ w. lookup token_holder w.delegations)) delegation_not_found
  fail_if (not (delegation.active && (delegation.delegate == delegate))) delegation_not_found
  weight ← record_vote env delegate token_holder proposal_id direction true
  modify (append_audit env del_vote proposal_id delegate del_vote)
  modify (publish (delegated_vote_cast delegate proposal_id token_holder direction weight))
