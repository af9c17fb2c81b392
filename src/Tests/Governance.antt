-- ===== src/Tests/Governance.antt =====
-- The DAO on a concrete history: a proposal from its submission to its execution, and its theorems
-- applied to it.
use astraport_contracts.Base.{ℕ, ◌<◌, ◌≤◌, ◌≡◌, refl, inl, true, false, some, arith}
use astraport_contracts.Base.Int.{pos, ◌+ℤ◌, ◌*ℤ◌}
use astraport_contracts.Base.Dict.{lookup, insert, number_key, pair_key}
use astraport_contracts.Base.Dict.Total.{total}
use astraport_contracts.Machine.{wrap_i128, wrapping_add, wrapping_add_u64, quotient}
use astraport_contracts.Host.{ok, err, Returns}
use astraport_contracts.Governance.Types.{
  Dao, Env, Proposal, ProposalStatus, voting, passed, timelock, executed, custom, in_favour,
  VoteRecord, timelock_not_expired,
}
use astraport_contracts.Governance.Helpers.{
  get_total_voting_power, get_voting_power, get_config, count_active_proposals,
}
use astraport_contracts.Governance.Setup
use astraport_contracts.Governance.Proposals
use astraport_contracts.Governance.Decision
use astraport_contracts.Governance.Decision.{execute_proposal, queue_timelock, finalize_proposal}
use astraport_contracts.Governance.Timelock
use astraport_contracts.Governance.Trace.{Invocation, perform, step, Reach, start, next}
use astraport_contracts.Governance.Numbering.{opened}
use astraport_contracts.Governance.Holdings.{power_of, total_voting_power_is_sum}
use astraport_contracts.Governance.Counting.{tally_of, counted}
use astraport_contracts.Governance.Tallies.{tallies_are_recorded_votes}
use astraport_contracts.Governance.Evolution.{SameTerms, Transition}
use astraport_contracts.Governance.Lifecycle.{proposal_lifecycle, closed_proposal_is_final}
use astraport_contracts.Governance.Execution.{
  IsExecuted, execution_waits_for_timelock, passed_proposal_runs,
}
use astraport_contracts.Governance.Ballots.{CannotVote, recorded_vote_is_final}
use astraport_contracts.Governance.Pause.{with_pause, pause_stops_nothing}

-- Everybody authorizes the calls.
abbrev at : ℕ → Env
at now = record { timestamp = now; authorized = λ a. true; audited = λ past call. true }

abbrev founded : Dao
founded = opened (at 0) 1 2

abbrev powered : Dao
powered = step (at 10) (Invocation.deposit_voting_power 3 (pos 5_000)) founded

abbrev submitted : Dao
submitted = step (at 20) (Invocation.submit_proposal 3 7 8 custom 9) powered

abbrev voted : Dao
voted = step (at 30) (Invocation.cast_vote 3 1 in_favour) submitted

abbrev decided : Dao
decided = step (at 700_000) (Invocation.finalize_proposal 1) voted

abbrev queued : Dao
queued = step (at 700_010) (Invocation.queue_timelock 1) decided

abbrev done : Dao
done = step (at 900_000) (Invocation.execute_proposal 1 4) queued

abbrev proposal : ProposalStatus → ℕ → ℕ → Proposal
proposal s expiry run = record {
  proposal_id = 1;
  proposer = 3;
  title = 7;
  description = 8;
  action_type = custom;
  action_payload = 9;
  status = s;
  votes_for = pos 5_000;
  votes_against = pos 0;
  votes_abstain = pos 0;
  voter_count = 1;
  created_at = 20;
  voting_starts = 20;
  voting_ends = 604_820;
  timelock_expiry = expiry;
  executed_at = run;
}

abbrev ballot : VoteRecord
ballot = record {
  proposal_id = 1;
  voter = 3;
  token_holder = 3;
  weight = pos 5_000;
  direction = in_favour;
  timestamp = 30;
  is_delegated = false;
}

to_powered : Reach founded 1 powered
to_powered = next (at 10) (Invocation.deposit_voting_power 3 (pos 5_000)) start

to_voted : Reach founded 3 voted
to_voted =
    next (at 30) (Invocation.cast_vote 3 1 in_favour)
      (next (at 20) (Invocation.submit_proposal 3 7 8 custom 9) to_powered)

to_queued : Reach founded 5 queued
to_queued =
    next (at 700_010) (Invocation.queue_timelock 1)
      (next (at 700_000) (Invocation.finalize_proposal 1) to_voted)

voted_proposal : lookup 1 voted.proposals ≡ some (proposal voting 0 0)
unfolding perform lookup insert get_total_voting_power get_voting_power get_config
    count_active_proposals Setup.initialize Setup.deposit_voting_power Proposals.submit_proposal
    Proposals.record_vote Proposals.cast_vote Decision.finalize_proposal Decision.share
    Decision.total_votes Decision.decide_approval Decision.pass_proposal Decision.defeat
    Decision.queue_timelock Decision.execute_proposal Timelock.schedule Timelock.effective_delay
    Timelock.live_entry Timelock.check_ready Timelock.mark_executed ◌+ℤ◌ ◌*ℤ◌ wrapping_add wrap_i128
    wrapping_add_u64 quotient
voted_proposal = refl

decided_proposal : lookup 1 decided.proposals ≡ some (proposal passed 0 0)
unfolding perform lookup insert get_total_voting_power get_voting_power get_config
    count_active_proposals Setup.initialize Setup.deposit_voting_power Proposals.submit_proposal
    Proposals.record_vote Proposals.cast_vote Decision.finalize_proposal Decision.share
    Decision.total_votes Decision.decide_approval Decision.pass_proposal Decision.defeat
    Decision.queue_timelock Decision.execute_proposal Timelock.schedule Timelock.effective_delay
    Timelock.live_entry Timelock.check_ready Timelock.mark_executed ◌+ℤ◌ ◌*ℤ◌ wrapping_add wrap_i128
    wrapping_add_u64 quotient
decided_proposal = refl

queued_proposal : lookup 1 queued.proposals ≡ some (proposal timelock 872_810 0)
unfolding perform lookup insert get_total_voting_power get_voting_power get_config
    count_active_proposals Setup.initialize Setup.deposit_voting_power Proposals.submit_proposal
    Proposals.record_vote Proposals.cast_vote Decision.finalize_proposal Decision.share
    Decision.total_votes Decision.decide_approval Decision.pass_proposal Decision.defeat
    Decision.queue_timelock Decision.execute_proposal Timelock.schedule Timelock.effective_delay
    Timelock.live_entry Timelock.check_ready Timelock.mark_executed ◌+ℤ◌ ◌*ℤ◌ wrapping_add wrap_i128
    wrapping_add_u64 quotient
queued_proposal = refl

done_proposal : lookup 1 done.proposals ≡ some (proposal executed 872_810 900_000)
unfolding perform lookup insert get_total_voting_power get_voting_power get_config
    count_active_proposals Setup.initialize Setup.deposit_voting_power Proposals.submit_proposal
    Proposals.record_vote Proposals.cast_vote Decision.finalize_proposal Decision.share
    Decision.total_votes Decision.decide_approval Decision.pass_proposal Decision.defeat
    Decision.queue_timelock Decision.execute_proposal Timelock.schedule Timelock.effective_delay
    Timelock.live_entry Timelock.check_ready Timelock.mark_executed ◌+ℤ◌ ◌*ℤ◌ wrapping_add wrap_i128
    wrapping_add_u64 quotient
done_proposal = refl

cast : lookup (1, 3) voted.vote_records ≡ some ballot
unfolding perform lookup insert get_total_voting_power get_voting_power get_config
    count_active_proposals Setup.initialize Setup.deposit_voting_power Proposals.submit_proposal
    Proposals.record_vote Proposals.cast_vote Decision.finalize_proposal Decision.share
    Decision.total_votes Decision.decide_approval Decision.pass_proposal Decision.defeat
    Decision.queue_timelock Decision.execute_proposal Timelock.schedule Timelock.effective_delay
    Timelock.live_entry Timelock.check_ready Timelock.mark_executed ◌+ℤ◌ ◌*ℤ◌ wrapping_add wrap_i128
    wrapping_add_u64 quotient
cast = refl

executes : perform (at 900_000) (Invocation.execute_proposal 1 4) queued ≡ ok tt done
unfolding perform lookup insert get_total_voting_power get_voting_power get_config
    count_active_proposals Setup.initialize Setup.deposit_voting_power Proposals.submit_proposal
    Proposals.record_vote Proposals.cast_vote Decision.finalize_proposal Decision.share
    Decision.total_votes Decision.decide_approval Decision.pass_proposal Decision.defeat
    Decision.queue_timelock Decision.execute_proposal Timelock.schedule Timelock.effective_delay
    Timelock.live_entry Timelock.check_ready Timelock.mark_executed ◌+ℤ◌ ◌*ℤ◌ wrapping_add wrap_i128
    wrapping_add_u64 quotient
executes = refl

total_voting_power_is_sum_example :
    get_total_voting_power powered ≡ total power_of powered.voting_power
total_voting_power_is_sum_example = total_voting_power_is_sum (at 0) 1 2 to_powered

tallies_are_recorded_votes_example :
    tally_of in_favour (proposal voting 0 0)
    ≡ wrap_i128 (total (counted 1 in_favour) voted.vote_records)
tallies_are_recorded_votes_example =
    tallies_are_recorded_votes (at 0) 1 2 1 (proposal voting 0 0) in_favour to_voted (omega arith)
      voted_proposal

proposal_lifecycle_example :
    (p : Proposal) × (lookup 1 done.proposals ≡ some p)
    × SameTerms (proposal timelock 872_810 0) p
    × Transition timelock p.status
proposal_lifecycle_example =
    proposal_lifecycle (at 0) 1 2 to_queued (omega arith) (at 900_000)
      (Invocation.execute_proposal 1 4) done 1 (proposal timelock 872_810 0) queued_proposal
      executes

to_done : Reach founded 6 done
to_done = next (at 900_000) (Invocation.execute_proposal 1 4) to_queued

closed_proposal_is_final_example :
    lookup 1 (step (at 900_001) (Invocation.emergency_execute 1 1) done).proposals
    ≡ some (proposal executed 872_810 900_000)
closed_proposal_is_final_example =
    closed_proposal_is_final (at 0) 1 2 1 (proposal executed 872_810 900_000) to_done done_proposal
      (inl refl) (next (at 900_001) (Invocation.emergency_execute 1 1) start) (omega arith)

execution_waits_for_timelock_example :
    (872_809 < 872_810 → execute_proposal (at 872_809) 1 4 queued ≡ err timelock_not_expired)
    × (872_810 ≤ 872_809
        → Returns
            (λ _. IsExecuted (at 872_809) 1 (proposal timelock 872_810 0))
            (execute_proposal (at 872_809) 1 4 queued))
execution_waits_for_timelock_example =
    execution_waits_for_timelock (at 0) 1 2 (at 872_809) 1 4 queued (proposal timelock 872_810 0)
      to_queued (omega arith) queued_proposal refl refl

passed_proposal_runs_example :
    Returns
      (λ _ w1.
        Returns
          (λ _. IsExecuted (at 900_000) 1 (proposal passed 872_810 0))
          (execute_proposal (at 900_000) 1 4 w1))
      (queue_timelock (at 700_010) 1 decided)
unfolding perform lookup insert get_total_voting_power get_voting_power get_config
    count_active_proposals Setup.initialize Setup.deposit_voting_power Proposals.submit_proposal
    Proposals.record_vote Proposals.cast_vote Decision.finalize_proposal Decision.share
    Decision.total_votes Decision.decide_approval Decision.pass_proposal Decision.defeat
    Decision.queue_timelock Decision.execute_proposal Timelock.schedule Timelock.effective_delay
    Timelock.live_entry Timelock.check_ready Timelock.mark_executed ◌+ℤ◌ ◌*ℤ◌ wrapping_add wrap_i128
    wrapping_add_u64 quotient
passed_proposal_runs_example =
    passed_proposal_runs (at 700_010) (at 900_000) 1 4 decided (proposal passed 0 0)
      decided_proposal refl (omega arith) (omega arith) (omega arith) refl

recorded_vote_is_final_example :
    (lookup (1, 3) (step (at 40) (Invocation.delegate 3 5) voted).vote_records ≡ some ballot)
    × CannotVote 1 3 (step (at 40) (Invocation.delegate 3 5) voted)
recorded_vote_is_final_example =
    recorded_vote_is_final 1 3 ballot cast (next (at 40) (Invocation.delegate 3 5) start)

pause_stops_nothing_example :
    perform (at 900_000) (Invocation.execute_proposal 1 4) (with_pause queued)
    ≡ ok tt (with_pause done)
pause_stops_nothing_example =
    pause_stops_nothing (at 900_000) (Invocation.execute_proposal 1 4) queued done refl executes
