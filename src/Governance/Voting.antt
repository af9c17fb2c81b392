-- ===== src/Governance/Voting.antt =====
-- contracts/governance/src/lib.rs: the calls that change a proposal.
use astraport_contracts.Base.{◌≡◌, refl, true, false, inl, inr, arith, Option-cases}
use astraport_contracts.Base.Int.{pos}
use astraport_contracts.Base.Dict.{lookup, number_key, pair_key}
use astraport_contracts.Machine.{wrapping_add_u64}
use astraport_contracts.Host.{ok, Outcome-cases}
use astraport_contracts.Governance.Types.{Dao, Env, ProposalStatus, voting, cancelled, pending}
use astraport_contracts.Governance.Helpers.{get_voting_power, get_config}
use astraport_contracts.Governance.Proposals
use astraport_contracts.Governance.Proposals.{is_open, add_votes}
use astraport_contracts.Governance.Decision
use astraport_contracts.Governance.Timelock
use astraport_contracts.Governance.Timelock.{is_done, is_stopped}
use astraport_contracts.Governance.Emergency
use astraport_contracts.Governance.Emergency.{is_closed}
use astraport_contracts.Governance.Trace.{Invocation, perform}
use astraport_contracts.Governance.Changes.{
  next_id, Move, ProposalChange, created, voted, moved, queued,
}
use astraport_contracts.Governance.Closing.{finalize-ProposalChange, execute-ProposalChange}
use astraport_contracts.Base.{ℕ}
use astraport_contracts.Governance.Types.{Address, Symbol, VoteDirection, ProposalActionType}

pub submitted-ProposalChange :
    (env : Env) (proposer : Address) (title d : Symbol) (at : ProposalActionType) (p : Symbol)
    (w w' : Dao)
    → perform env (Invocation.submit_proposal proposer title d at p) w ≡ ok tt w'
    → ProposalChange env w w'
unfolding perform Proposals.submit_proposal
submitted-ProposalChange env proposer title d at p w w' h =
    created
      (record {
        proposal_id = next_id w;
        proposer = proposer;
        title = title;
        description = d;
        action_type = at;
        action_payload = p;
        status = voting;
        votes_for = pos 0;
        votes_against = pos 0;
        votes_abstain = pos 0;
        voter_count = 0;
        created_at = env.timestamp;
        voting_starts = env.timestamp;
        voting_ends = wrapping_add_u64 env.timestamp (get_config w).voting_period;
        timelock_expiry = 0;
        executed_at = 0;
      })
      (refl, refl, refl, refl) (ground arith) (ground arith) (ground arith) (ground arith)

pub cancelled-ProposalChange :
    (env : Env) (caller : Address) (id : ℕ) (w w' : Dao)
    → perform env (Invocation.cancel_proposal caller id) w ≡ ok tt w'
    → ProposalChange env w w'
unfolding perform Proposals.cancel_proposal
cancelled-ProposalChange env caller id w w' h = elim (Option-cases (lookup id w.proposals)) [
  | inl e ↦ ground arith
  | inr (p, e) ↦
      moved id p (record p { status = cancelled }) e (Move.cancel (ground arith)) (ground arith)
        (ground arith) (ground arith)
]

pub cast-ProposalChange :
    (env : Env) (voter : Address) (id : ℕ) (dir : VoteDirection) (w w' : Dao)
    → perform env (Invocation.cast_vote voter id dir) w ≡ ok tt w'
    → ProposalChange env w w'
unfolding perform Proposals.record_vote Proposals.cast_vote
cast-ProposalChange env voter id dir w w' h = elim (Option-cases (lookup id w.proposals)) [
  | inl e ↦ ground arith
  | inr (p, e) ↦
      voted id voter
        (record {
          proposal_id = id;
          voter = voter;
          token_holder = voter;
          weight = get_voting_power voter w;
          direction = dir;
          timestamp = env.timestamp;
          is_delegated = false;
        })
        p e (ground arith) (ground arith) (ground arith) (ground arith, refl) (ground arith)
        (ground arith) (ground arith) (ground arith)
]

pub delegated-ProposalChange :
    (env : Env) (proxy holder : Address) (id : ℕ) (dir : VoteDirection) (w w' : Dao)
    → perform env (Invocation.cast_delegated_vote proxy holder id dir) w ≡ ok tt w'
    → ProposalChange env w w'
unfolding perform Proposals.record_vote Proposals.cast_delegated_vote
delegated-ProposalChange env proxy holder id dir w w' h =
    elim (Option-cases (lookup id w.proposals)) [
      | inl e ↦ ground arith
      | inr (p, e) ↦
          voted id holder
            (record {
              proposal_id = id;
              voter = proxy;
              token_holder = holder;
              weight = get_voting_power holder w;
              direction = dir;
              timestamp = env.timestamp;
              is_delegated = true;
            })
            p e (ground arith) (ground arith) (ground arith) (ground arith, refl) (ground arith)
            (ground arith) (ground arith) (ground arith)
    ]

pub finalized-ProposalChange :
    (env : Env) (id : ℕ) (w w' : Dao)
    → perform env (Invocation.finalize_proposal id) w ≡ ok tt w'
    → ProposalChange env w w'
unfolding perform Decision.finalize_proposal
finalized-ProposalChange env id w w' h =
    elim (Outcome-cases (Decision.finalize_proposal env id w)) [
      | inl (s, w1, e) ↦ finalize-ProposalChange env id w w' s (ground arith)
      | inr (inl (x, e)) ↦ ground arith
      | inr (inr e) ↦ ground arith
    ]

pub timelocked-ProposalChange :
    (env : Env) (id : ℕ) (w w' : Dao)
    → perform env (Invocation.queue_timelock id) w ≡ ok tt w'
    → ProposalChange env w w'
unfolding perform Decision.queue_timelock Timelock.schedule
timelocked-ProposalChange env id w w' h = elim (Option-cases (lookup id w.proposals)) [
  | inl e ↦ ground arith
  | inr (p, e) ↦
      queued id p
        (record {
          proposal_id = id;
          scheduled_at = env.timestamp;
          execute_after =
              wrapping_add_u64 env.timestamp
                (Timelock.effective_delay (Decision.is_emergency p.action_type) (get_config w));
          status = pending;
        })
        e (ground arith) refl (ground arith) (ground arith) (ground arith)
]

pub released-ProposalChange :
    (env : Env) (id : ℕ) (ex : Address) (w w' : Dao)
    → perform env (Invocation.execute_proposal id ex) w ≡ ok tt w'
    → ProposalChange env w w'
unfolding perform Decision.execute_proposal Timelock.live_entry Timelock.check_ready
    Timelock.mark_executed
released-ProposalChange env id ex w w' h = elim (Option-cases (lookup id w.proposals)) [
  | inl e ↦ ground arith
  | inr (p, e) ↦ elim (Option-cases (lookup id w.timelock_entries)) [
    | inl e2 ↦ ground arith
    | inr (entry, e2) ↦ execute-ProposalChange env id ex w w' p entry e e2 (ground arith)
  ]
]

pub overridden-ProposalChange :
    (env : Env) (caller : Address) (id : ℕ) (w w' : Dao)
    → perform env (Invocation.emergency_execute caller id) w ≡ ok tt w'
    → ProposalChange env w w'
unfolding perform Emergency.emergency_execute
overridden-ProposalChange env caller id w w' h = elim (Option-cases (lookup id w.proposals)) [
  | inl e ↦ ground arith
  | inr (p, e) ↦
      moved id p (record p { status = ProposalStatus.executed; executed_at = env.timestamp }) e
        (Move.override (ground arith)) (ground arith) (ground arith) (ground arith)
]
