-- ===== src/Governance/Types.antt =====
-- contracts/governance/src/records.rs and the errors of lib.rs, treasury.rs and timelock.rs: the records
-- of the DAO, and its storage.
use astraport_contracts.Base.{ℕ, Bool, Option, none, List, []}
use astraport_contracts.Base.Int.{ℤ, pos}
use astraport_contracts.Base.Dict.{Dict}
use astraport_contracts.Host.{Action}

abbrev pub Address : Type 0
Address = ℕ

abbrev pub Symbol : Type 0
Symbol = ℕ

pub data ProposalStatus : Type 0 where
  submitted voting passed defeated timelock executed cancelled execution_failed : ProposalStatus

pub data ProposalActionType : Type 0 where
  parameter_change treasury_spend protocol_upgrade : ProposalActionType
  emergency_action reward_distribution custom : ProposalActionType

pub record Proposal : Type 0 where
  pub proposal_id : ℕ
  pub proposer : Address
  pub title : Symbol
  pub description : Symbol
  pub action_type : ProposalActionType
  pub action_payload : Symbol
  pub status : ProposalStatus
  pub votes_for : ℤ
  pub votes_against : ℤ
  pub votes_abstain : ℤ
  pub voter_count : ℕ
  pub created_at : ℕ
  pub voting_starts : ℕ
  pub voting_ends : ℕ
  pub timelock_expiry : ℕ
  pub executed_at : ℕ

pub data VoteDirection : Type 0 where
  in_favour against abstain : VoteDirection

pub record VoteRecord : Type 0 where
  pub proposal_id : ℕ
  pub voter : Address
  pub token_holder : Address
  pub weight : ℤ
  pub direction : VoteDirection
  pub timestamp : ℕ
  pub is_delegated : Bool

pub record Delegation : Type 0 where
  pub delegator : Address
  pub delegate : Address
  pub created_at : ℕ
  pub active : Bool

pub record TreasuryRequest : Type 0 where
  pub request_id : ℕ
  pub recipient : Address
  pub amount : ℤ
  pub asset : Symbol
  pub reason : Symbol
  pub approvals : List Address
  pub executed : Bool
  pub created_at : ℕ

pub data TimelockStatus : Type 0 where
  pending ready done stopped : TimelockStatus

pub record TimelockEntry : Type 0 where
  pub proposal_id : ℕ
  pub scheduled_at : ℕ
  pub execute_after : ℕ
  pub status : TimelockStatus

pub record GovernanceConfig : Type 0 where
  pub proposal_threshold : ℤ
  pub voting_period : ℕ
  pub quorum_threshold_bps : ℕ
  pub approval_threshold_bps : ℕ
  pub timelock_delay : ℕ
  pub emergency_timelock_delay : ℕ
  pub max_treasury_spend_bps : ℕ
  pub treasury_multisig_threshold : ℕ
  pub reward_per_participation : ℤ
  pub max_active_proposals : ℕ

-- The DEFAULT_* constants of lib.rs
abbrev pub default_config : GovernanceConfig
default_config = record {
  proposal_threshold = pos 1_000;
  voting_period = 604_800;
  quorum_threshold_bps = 400;
  approval_threshold_bps = 5_001;
  timelock_delay = 172_800;
  emergency_timelock_delay = 3_600;
  max_treasury_spend_bps = 1_000;
  treasury_multisig_threshold = 2;
  reward_per_participation = pos 10;
  max_active_proposals = 10;
}

-- MAX_AUDIT_TRAIL
abbrev pub max_audit_trail : ℕ
max_audit_trail = 5_000

pub record GovernanceSummary : Type 0 where
  pub total_proposals : ℕ
  pub active_proposals : ℕ
  pub total_voting_power : ℤ
  pub active_delegations : ℕ
  pub treasury_balance : ℤ
  pub emergency_paused : Bool

pub data Error : Type 0 where
  not_initialized unauthorized already_initialized insufficient_voting_power : Error
  proposal_not_found not_votable already_voted invalid_vote_direction voting_not_ended : Error
  voting_already_ended quorum_not_reached approval_not_reached cannot_timelock : Error
  timelock_not_expired cannot_execute cannot_cancel delegation_not_found : Error
  cannot_delegate_to_self no_voting_power reward_already_claimed invalid_config : Error
  max_proposals_reached guardian_required not_paused already_paused : Error

pub data TreasuryError : Type 0 where
  insufficient_balance request_not_found already_executed not_a_signer : TreasuryError
  already_approved insufficient_approvals exceeds_spend_limit invalid_amount : TreasuryError
  request_cancelled : TreasuryError

pub data TimelockError : Type 0 where
  entry_not_found delay_not_expired entry_executed entry_cancelled invalid_delay : TimelockError

-- The symbols that the audit trail is given: those that the code names, and those of a caller.
pub data Word : Type 0 where
  set_cfg config submit cancel cancelled vote cast del_vote defeat quorum approval pass passed :
      Word
  tl_queue queued execute executed delegate rvk_del em_pause paused em_unpse unpaused : Word
  em_exec emergency reward claimed : Word
  given : Symbol → Word

pub record GovernanceAuditEntry : Type 0 where
  pub seq : ℕ
  pub timestamp : ℕ
  pub action : Word
  pub proposal_id : ℕ
  pub actor : Address
  pub detail : Word

-- What `env.events().publish` is given.
pub data Event : Type 0 where
  initialized : Address → Address → Event
  power_deposited power_withdrawn : Address → ℤ → ℤ → Event
  proposal_made : ℕ → Address → Symbol → ProposalActionType → Event
  vote_cast delegated_vote_cast : Address → ℕ → Address → VoteDirection → ℤ → Event
  proposal_passed : ℕ → ℤ → ℤ → ℤ → Event
  timelock_scheduled : ℕ → ℕ → ℕ → Event
  timelock_executed timelock_cancelled : ℕ → Event
  proposal_executed : ℕ → Address → ℕ → Event
  delegation_changed : Address → Address → Bool → Event
  treasury_deposited : Address → Symbol → ℤ → Event
  treasury_requested : Address → Symbol → ℕ → ℤ → Address → Event
  treasury_approved : Address → ℕ → ℕ → Event
  treasury_executed : Address → ℕ → ℤ → Symbol → Event
  treasury_cancelled : Address → ℕ → Event
  pause_set : Address → Bool → Event
  emergency_executed : Address → ℕ → ℕ → Event
  reward_claimed_event : Address → ℕ → ℤ → Event

-- A call of the audit contract: its address, the actor, the proposal.
pub record AuditCall : Type 0 where
  pub sink : Address
  pub actor : Address
  pub proposal_id : ℕ

-- The storage, one field for each StorageKey, with the events and audit calls so far, newest first.
pub record Dao : Type 0 where
  pub admin : Option Address
  pub guardian : Option Address
  pub config : Option GovernanceConfig
  pub total_supply : Option ℤ
  pub proposals : Dict ℕ Proposal
  pub next_proposal_id : Option ℕ
  pub all_proposal_ids : Option (List ℕ)
  pub vote_records : Dict (ℕ × Address) VoteRecord
  pub delegations : Dict Address Delegation
  pub all_delegators : Option (List Address)
  pub voting_power : Dict Address ℤ
  pub total_voting_power : Option ℤ
  pub treasury_balances : Dict Symbol ℤ
  pub treasury_assets : Option (List Symbol)
  pub treasury_requests : Dict ℕ TreasuryRequest
  pub next_treasury_request_id : Option ℕ
  pub treasury_signers : Option (List Address)
  pub timelock_entries : Dict ℕ TimelockEntry
  pub audit_trail : Option (List GovernanceAuditEntry)
  pub next_audit_seq : Option ℕ
  pub emergency_paused : Option Bool
  pub reward_claimed : Dict (ℕ × Address) Bool
  pub total_rewards_distributed : Option ℤ
  pub audit_sink : Option Address
  pub events : List Event
  pub audits : List AuditCall

-- What the invocation takes from outside. `audited` tells whether the audit contract takes a call
-- after those sent so far; if it does not, the invocation traps.
pub record Env : Type 0 where
  pub timestamp : ℕ
  pub authorized : Address → Bool
  pub audited : List AuditCall → AuditCall → Bool

abbrev pub Call : Type 0 → Type 0
Call A = Action Dao Error A

abbrev pub TreasuryCall : Type 0 → Type 0
TreasuryCall A = Action Dao TreasuryError A

abbrev pub TimelockCall : Type 0 → Type 0
TimelockCall A = Action Dao TimelockError A

abbrev pub deployed : Dao
deployed = record {
  admin = none;
  guardian = none;
  config = none;
  total_supply = none;
  proposals = [];
  next_proposal_id = none;
  all_proposal_ids = none;
  vote_records = [];
  delegations = [];
  all_delegators = none;
  voting_power = [];
  total_voting_power = none;
  treasury_balances = [];
  treasury_assets = none;
  treasury_requests = [];
  next_treasury_request_id = none;
  treasury_signers = none;
  timelock_entries = [];
  audit_trail = none;
  next_audit_seq = none;
  emergency_paused = none;
  reward_claimed = [];
  total_rewards_distributed = none;
  audit_sink = none;
  events = [];
  audits = [];
}
