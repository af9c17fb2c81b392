-- ===== src/Governance/Tallies.antt =====
-- contracts/governance/src/lib.rs: the tallies of a proposal and the votes that are recorded.
use astraport_contracts.Base.{ℕ, ◌+◌, ◌<◌, ◌≡◌, refl, ap, sym, ◌∙◌, some, arith}
use astraport_contracts.Base.Int.{pos}
use astraport_contracts.Base.Dict.{lookup, insert, number_key, pair_key}
use astraport_contracts.Base.Dict.Total.{total}
use astraport_contracts.Machine.{u64_modulus, wrap_i128, wrap_i128_exact}
use astraport_contracts.Governance.Types.{
  Address, Dao, Env, Proposal, timelock, executed, VoteDirection, in_favour, against, abstain,
}
use astraport_contracts.Governance.Setup
use astraport_contracts.Governance.Trace.{perform, Reach}
use astraport_contracts.Governance.Changes.{ProposalChange, Move, IsFresh, next_id}
use astraport_contracts.Governance.Numbering.{Numbered, unused, opened, reached_inv}
use astraport_contracts.Governance.Counting.{
  tally_of, tally, counted, Tallied, written-Tallied, voted-Tallied,
}

Move-tally :
    {now : ℕ} {p p' : Proposal} (d : VoteDirection) → Move now p p' → tally_of d p' ≡ tally_of d p
Move-tally in_favour (Move.cancel o) = refl
Move-tally against (Move.cancel o) = refl
Move-tally abstain (Move.cancel o) = refl
Move-tally in_favour (Move.defeat v e) = refl
Move-tally against (Move.defeat v e) = refl
Move-tally abstain (Move.defeat v e) = refl
Move-tally in_favour (Move.pass v e) = refl
Move-tally against (Move.pass v e) = refl
Move-tally abstain (Move.pass v e) = refl
Move-tally in_favour (Move.override o) = refl
Move-tally against (Move.override o) = refl
Move-tally abstain (Move.override o) = refl

fresh_tally : (d : VoteDirection) (p : Proposal) → IsFresh p → tally_of d p ≡ pos 0
fresh_tally in_favour p f = f.1
fresh_tally against p f = f.2
fresh_tally abstain p f = f.3

abbrev TalliedDao : Dao → Type 0
TalliedDao w = Tallied w.proposals w.vote_records

-- A write at a stored proposal that leaves its tallies as they were.
kept-Tallied :
    (w w' : Dao) (id : ℕ) (p new : Proposal)
    → lookup id w.proposals ≡ some p
    → ((d : VoteDirection) → tally_of d new ≡ tally_of d p)
    → w'.proposals ≡ insert id new w.proposals
    → w'.vote_records ≡ w.vote_records
    → TalliedDao w
    → TalliedDao w'
kept-Tallied w w' id p new found keeps same records c =
    rw (same, records)
      (written-Tallied w.proposals w.vote_records id new (λ d. rw found (keeps d)) c)

queued_tally :
    (d : VoteDirection) (p : Proposal) (t : ℕ)
    → tally_of d (record p { status = timelock; timelock_expiry = t }) ≡ tally_of d p
queued_tally in_favour p t = refl
queued_tally against p t = refl
queued_tally abstain p t = refl

executed_tally :
    (d : VoteDirection) (p : Proposal) (t : ℕ)
    → tally_of d (record p { status = executed; executed_at = t }) ≡ tally_of d p
executed_tally in_favour p t = refl
executed_tally against p t = refl
executed_tally abstain p t = refl

ProposalChange-Tallied :
    {n : ℕ} (env : Env) (w w' : Dao)
    → Numbered n w
    → ProposalChange env w w'
    → TalliedDao w
    → TalliedDao w'
ProposalChange-Tallied env w w' k change c = elim change [
  | ProposalChange.reset fresh records ↦ ground (arith, fresh, k.started.1)
  | ProposalChange.kept same votes entries ↦ rw (same, votes.0) c
  | ProposalChange.created p fresh same records next entries ↦
      rw (same, records)
        (written-Tallied w.proposals w.vote_records (next_id w) p
          (λ d. rw (unused k) (fresh_tally d p fresh)) c)
  | ProposalChange.voted id holder ballot p found vote soon new weighed same records next entries ↦
      rw (same, records) (voted-Tallied w.proposals w.vote_records id holder ballot p found new c)
  | ProposalChange.moved id p p' found move same votes entries ↦
      kept-Tallied w w' id p p' found (λ d. Move-tally d move) same votes.0 c
  | ProposalChange.queued id p entry found good waits same votes entries ↦
      kept-Tallied w w' id p _ found (λ d. queued_tally d p entry.execute_after) same votes.0 c
  | ProposalChange.executed id p entry found locked scheduled late same votes others ↦
      kept-Tallied w w' id p _ found (λ d. executed_tally d p env.timestamp) same votes.0 c
]

opened-Tallied : (env : Env) (admin guardian : Address) → TalliedDao (opened env admin guardian)
unfolding perform Setup.initialize lookup total
opened-Tallied env admin guardian id d = sym (wrap_i128_exact (pos 0) (omega arith))

-- The tally of each direction of a stored proposal is the sum of the weights of the votes recorded for
-- it, wrapped to an `i128`, in every state that fewer than 2 ^ 64 - 1 calls reach from the
-- initialization.
pub tallies_are_recorded_votes :
    (env : Env) (admin guardian : Address) {n : ℕ} {w : Dao} (id : ℕ) (p : Proposal)
    (d : VoteDirection)
    → Reach (opened env admin guardian) n w
    → n + 1 < u64_modulus
    → lookup id w.proposals ≡ some p
    → tally_of d p ≡ wrap_i128 (total (counted id d) w.vote_records)
tallies_are_recorded_votes env admin guardian id p d r few at =
    ap (tally d) (sym at)
    ∙ reached_inv TalliedDao env admin guardian (opened-Tallied env admin guardian)
        (λ n. ProposalChange-Tallied) r few id d
