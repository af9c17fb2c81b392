-- ===== src/Tests/Quorum.antt =====
-- The quorum of the DAO where the total supply is far above the power that is deposited: the input of
-- `test_finalize_defeated_quorum` in contracts/governance/src/tests.rs, with the configuration of
-- `setup_with_config`, under which its proposer may submit.
use astraport_contracts.Base.{ℕ, ◌≡◌, refl, true, some, arith}
use astraport_contracts.Base.Int.{pos, ◌+ℤ◌, ◌*ℤ◌}
use astraport_contracts.Base.Dict.{lookup, insert, number_key, pair_key}
use astraport_contracts.Machine.{wrap_i128, wrapping_add, wrapping_add_u64, quotient}
use astraport_contracts.Host.{Returns}
use astraport_contracts.Governance.Types.{
  Dao, Env, GovernanceConfig, default_config, Proposal, voting, passed, parameter_change, in_favour,
}
use astraport_contracts.Governance.Helpers.{
  get_total_voting_power, get_voting_power, get_config, count_active_proposals, assert_admin,
}
use astraport_contracts.Governance.Setup
use astraport_contracts.Governance.Proposals
use astraport_contracts.Governance.Decision
use astraport_contracts.Governance.Decision.{finalize_proposal}
use astraport_contracts.Governance.Trace.{Invocation, perform, step}
use astraport_contracts.Governance.Numbering.{opened}
use astraport_contracts.Governance.Outcome.{Decides, with_supply, finalize-Decides}

-- Everybody authorizes the calls.
abbrev at : ℕ → Env
at now = record { timestamp = now; authorized = λ a. true; audited = λ past call. true }

abbrev config : GovernanceConfig
config = record default_config { proposal_threshold = pos 100 }

abbrev submitted : Dao
submitted = step (at 0) (Invocation.submit_proposal 3 7 8 parameter_change 9) (
    step (at 0) (Invocation.deposit_voting_power 3 (pos 200))
      (step (at 0) (Invocation.set_config 1 config) (opened (at 0) 1 2)))

abbrev voted : Dao
voted =
    step (at 0) (Invocation.cast_vote 4 1 in_favour)
      (step (at 0) (Invocation.deposit_voting_power 4 (pos 100)) submitted)

abbrev proposal : Proposal
proposal = record {
  proposal_id = 1;
  proposer = 3;
  title = 7;
  description = 8;
  action_type = parameter_change;
  action_payload = 9;
  status = voting;
  votes_for = pos 100;
  votes_against = pos 0;
  votes_abstain = pos 0;
  voter_count = 1;
  created_at = 0;
  voting_starts = 0;
  voting_ends = 604_800;
  timelock_expiry = 0;
  executed_at = 0;
}

voted_proposal : lookup 1 voted.proposals ≡ some proposal
unfolding perform lookup insert get_total_voting_power get_voting_power get_config assert_admin
    count_active_proposals Setup.initialize Setup.set_config Setup.deposit_voting_power
    Proposals.submit_proposal Proposals.record_vote Proposals.cast_vote Decision.finalize_proposal
    Decision.share Decision.total_votes Decision.decide_approval Decision.pass_proposal
    Decision.defeat ◌+ℤ◌ ◌*ℤ◌ wrapping_add wrap_i128 wrapping_add_u64 quotient
voted_proposal = refl

-- 100 votes of 1_000_000 pass.
passes_under_supply :
    Returns
      (λ s w'. s ≡ passed)
      (finalize_proposal (at 604_801) 1 (with_supply (some (pos 1_000_000)) voted))
unfolding perform lookup insert get_total_voting_power get_voting_power get_config assert_admin
    count_active_proposals Setup.initialize Setup.set_config Setup.deposit_voting_power
    Proposals.submit_proposal Proposals.record_vote Proposals.cast_vote Decision.finalize_proposal
    Decision.share Decision.total_votes Decision.decide_approval Decision.pass_proposal
    Decision.defeat ◌+ℤ◌ ◌*ℤ◌ wrapping_add wrap_i128 wrapping_add_u64 quotient
passes_under_supply = refl

finalize-Decides_example :
    Returns
      (Decides 1 voted proposal 300 100 0 0)
      (finalize_proposal (at 604_801) 1 (with_supply (some (pos 1_000_000)) voted))
unfolding perform lookup insert get_total_voting_power get_voting_power get_config assert_admin
    count_active_proposals Setup.initialize Setup.set_config Setup.deposit_voting_power
    Proposals.submit_proposal Proposals.record_vote Proposals.cast_vote Decision.finalize_proposal
    Decision.share Decision.total_votes Decision.decide_approval Decision.pass_proposal
    Decision.defeat ◌+ℤ◌ ◌*ℤ◌ wrapping_add wrap_i128 wrapping_add_u64 quotient
finalize-Decides_example =
    finalize-Decides (at 604_801) 1 voted proposal 300 100 0 0 (some (pos 1_000_000)) voted_proposal
      refl (omega arith) refl refl refl refl (omega arith) (omega arith) (omega arith)
