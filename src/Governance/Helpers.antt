-- ===== src/Governance/Helpers.antt =====
-- contracts/governance/src/lib.rs: the internal helpers, and the reads that the entry points share.
use astraport_contracts.Base.{
  ℕ, ◌+◌, ◌%◌, ◌^◌, Bool, true, false, not, Option, none, some, List, [], ◌∷◌, ◌++◌, ◌==◌, leb,
  if◌then◌else◌, unwrap_or, length,
}
use astraport_contracts.Base.Int.{ℤ, pos}
use astraport_contracts.Base.Dict.{Dict, lookup, number_key}
use astraport_contracts.Machine.{wrapping_add_u64}
use astraport_contracts.Host.{ok, trap, ◌>>=◌, ◌>>◌, gets, or_fail, fail_if, require}
use astraport_contracts.Governance.Types.{
  Address, Proposal, ProposalStatus, voting, timelock, passed, Delegation, GovernanceConfig,
  default_config, max_audit_trail, Word, GovernanceAuditEntry, Event, AuditCall, Dao, Env, Call,
  not_initialized, unauthorized, proposal_not_found,
}

unfoldable pub publish : Event → Dao → Dao
publish e w = record w { events = e ∷ w.events }

unfoldable pub get_config : Dao → GovernanceConfig
get_config w = unwrap_or w.config default_config

unfoldable pub get_voting_power : Address → Dao → ℤ
get_voting_power holder w = unwrap_or (lookup holder w.voting_power) (pos 0)

unfoldable pub get_total_voting_power : Dao → ℤ
get_total_voting_power w = unwrap_or w.total_voting_power (pos 0)

unfoldable pub get_proposal : ℕ → Call Proposal
get_proposal id = do or_fail (← gets (λ w. lookup id w.proposals)) proposal_not_found

unfoldable pub assert_admin : Env → Address → Call (Unit {0})
assert_admin env admin = do
  stored ← or_fail (← gets (λ w. w.admin)) not_initialized
  fail_if (not (admin == stored)) unauthorized
  require (env.authorized admin)

abbrev pub is_counted : ProposalStatus → Bool
is_counted voting = true
is_counted timelock = true
is_counted passed = true
is_counted _ = false

abbrev pub counts : Option Proposal → Bool
counts none = false
counts (some p) = is_counted p.status

-- `count_active_proposals`, a `u32`
unfoldable pub count_active_proposals : Dict ℕ Proposal → ℕ → List ℕ → ℕ
count_active_proposals proposals count [] = count
count_active_proposals proposals count (id ∷ ids) =
    count_active_proposals proposals
      (if counts (lookup id proposals) then (count + 1) % 2 ^ 32 else count) ids

abbrev pub delegates : Option Delegation → Bool
delegates none = false
delegates (some d) = d.active

unfoldable pub count_active_delegations : Dict Address Delegation → ℕ → List Address → ℕ
count_active_delegations delegations count [] = count
count_active_delegations delegations count (a ∷ rest) =
    count_active_delegations delegations
      (if delegates (lookup a delegations) then (count + 1) % 2 ^ 32 else count) rest

-- `trail.slice(1..)`
abbrev pub drop_first {ℓ} : {A : Type ℓ} → List A → List A
drop_first [] = []
drop_first (x ∷ xs) = xs

abbrev pub bounded {ℓ} : {A : Type ℓ} → List A → List A
bounded trail = if leb max_audit_trail (length trail) then drop_first trail else trail

unfoldable pub append_audit : Env → Word → ℕ → Address → Word → Dao → Dao
append_audit env action proposal_id actor detail w =
    let seq = unwrap_or w.next_audit_seq 1 in
    let entry : GovernanceAuditEntry = record {
      seq = seq;
      timestamp = env.timestamp;
      action = action;
      proposal_id = proposal_id;
      actor = actor;
      detail = detail;
    } in
    record w {
      audit_trail = some (bounded (unwrap_or w.audit_trail []) ++ entry ∷ []);
      next_audit_seq = some (wrapping_add_u64 seq 1);
    }

-- The audit call traps if the audit contract fails; there is none without a sink.
unfoldable pub log_audit_if_configured : Env → Address → ℕ → Call (Unit {0})
log_audit_if_configured env actor proposal_id = λ w. elim w.audit_sink [
  | none ↦ ok tt w
  | some sink ↦
      let call : AuditCall = record { sink = sink; actor = actor; proposal_id = proposal_id } in
      if env.audited w.audits call then ok tt (record w { audits = call ∷ w.audits }) else trap
]
