-- ===== src/Governance/Changes.antt =====
-- contracts/governance/src/lib.rs: the changes that a call makes to the proposals, the votes and the
-- timelock.
use astraport_contracts.Base.{ℕ, ◌≡◌, true, false, some, none, unwrap_or, ◌≤◌, ◌<◌, ◌≢◌}
use astraport_contracts.Base.Int.{pos, ◌<ℤ◌}
use astraport_contracts.Base.Dict.{lookup, insert, number_key, pair_key}
use astraport_contracts.Machine.{wrapping_add_u64}
use astraport_contracts.Governance.Types.{
  Address, Dao, Env, Proposal, ProposalStatus, voting, passed, defeated, cancelled, timelock,
  TimelockEntry, pending, VoteRecord,
}
use astraport_contracts.Governance.Helpers.{get_voting_power}
use astraport_contracts.Governance.Proposals.{is_open, add_votes}
use astraport_contracts.Governance.Emergency.{is_closed}

abbrev pub next_id : Dao → ℕ
next_id w = unwrap_or w.next_proposal_id 1

-- A new proposal: open to votes, of which it has none.
abbrev pub IsFresh : Proposal → Type 0
IsFresh p =
    (p.status ≡ voting)
    × (p.votes_for ≡ pos 0)
    × (p.votes_against ≡ pos 0)
    × (p.votes_abstain ≡ pos 0)

-- A change of status that leaves the timelock alone.
pub data Move (now : ℕ) (p : Proposal) : Proposal → Type 0 where
  cancel : is_open p.status ≡ true → Move now p (record p { status = cancelled })
  defeat : p.status ≡ voting → p.voting_ends < now → Move now p (record p { status = defeated })
  pass : p.status ≡ voting → p.voting_ends < now → Move now p (record p { status = passed })
  override :
      is_closed p.status ≡ false
      → Move now p (record p { status = ProposalStatus.executed; executed_at = now })

abbrev pub SameVotes : Dao → Dao → Type 0
SameVotes w w' = (w'.vote_records ≡ w.vote_records) × (next_id w' ≡ next_id w)

abbrev pub SameEntries : Dao → Dao → Type 0
SameEntries w w' = w'.timelock_entries ≡ w.timelock_entries

pub data ProposalChange (env : Env) (w w' : Dao) : Type 0 where
  reset : w.admin ≡ none → w'.vote_records ≡ w.vote_records → ProposalChange env w w'
  kept : w'.proposals ≡ w.proposals → SameVotes w w' → SameEntries w w' → ProposalChange env w w'
  created :
      (p : Proposal)
      → IsFresh p
      → w'.proposals ≡ insert (next_id w) p w.proposals
      → w'.vote_records ≡ w.vote_records
      → next_id w' ≡ wrapping_add_u64 (next_id w) 1
      → SameEntries w w'
      → ProposalChange env w w'
  voted :
      (id : ℕ) (holder : Address) (ballot : VoteRecord) (p : Proposal)
      → lookup id w.proposals ≡ some p
      → p.status ≡ voting
      → env.timestamp ≤ p.voting_ends
      → lookup (id, holder) w.vote_records ≡ none
      → (pos 0 <ℤ ballot.weight) × (ballot.weight ≡ get_voting_power holder w)
      → w'.proposals ≡ insert id (add_votes ballot.direction ballot.weight p) w.proposals
      → w'.vote_records ≡ insert (id, holder) ballot w.vote_records
      → next_id w' ≡ next_id w
      → SameEntries w w'
      → ProposalChange env w w'
  moved :
      (id : ℕ) (p p' : Proposal)
      → lookup id w.proposals ≡ some p
      → Move env.timestamp p p'
      → w'.proposals ≡ insert id p' w.proposals
      → SameVotes w w'
      → SameEntries w w'
      → ProposalChange env w w'
  queued :
      (id : ℕ) (p : Proposal) (entry : TimelockEntry)
      → lookup id w.proposals ≡ some p
      → p.status ≡ passed
      → entry.status ≡ pending
      → w'.proposals
        ≡ insert id
            (record p { status = timelock; timelock_expiry = entry.execute_after })
            w.proposals
      → SameVotes w w'
      → w'.timelock_entries ≡ insert id entry w.timelock_entries
      → ProposalChange env w w'
  executed :
      (id : ℕ) (p : Proposal) (entry : TimelockEntry)
      → lookup id w.proposals ≡ some p
      → p.status ≡ timelock
      → lookup id w.timelock_entries ≡ some entry
      → entry.execute_after ≤ env.timestamp
      → w'.proposals
        ≡ insert id
            (record p { status = ProposalStatus.executed; executed_at = env.timestamp })
            w.proposals
      → SameVotes w w'
      → ((j : ℕ) → j ≢ id → lookup j w'.timelock_entries ≡ lookup j w.timelock_entries)
      → ProposalChange env w w'
