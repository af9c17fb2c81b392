-- ===== src/Governance/Ballots.antt =====
-- contracts/governance/src/lib.rs: the votes that are recorded.
use astraport_contracts.Base.{ℕ, ◌≡◌, ◌∙◌, ap, some, arith}
use astraport_contracts.Base.Dict.{lookup, lookup-insert_other, number_key, pair_key}
use astraport_contracts.Host.{ok}
use astraport_contracts.Governance.Types.{Address, Dao, Env, VoteRecord, VoteDirection}
use astraport_contracts.Governance.Proposals
use astraport_contracts.Governance.Trace.{Invocation, perform, Reach, Reach_inv}
use astraport_contracts.Governance.Changes.{ProposalChange}
use astraport_contracts.Governance.Steps.{perform-ProposalChange}

perform_ballot :
    (id : ℕ) (holder : Address) (ballot : VoteRecord) (env : Env) (i : Invocation) (w w' : Dao)
    → lookup (id, holder) w.vote_records ≡ some ballot
    → perform env i w ≡ ok tt w'
    → lookup (id, holder) w'.vote_records ≡ some ballot
perform_ballot j h b env i w w' at run = elim (perform-ProposalChange env i w w' run) [
  | ProposalChange.reset fresh records ↦ ap (lookup (j, h)) records ∙ at
  | ProposalChange.kept same votes entries ↦ ap (lookup (j, h)) votes.0 ∙ at
  | ProposalChange.created p fresh same records next entries ↦ ap (lookup (j, h)) records ∙ at
  | ProposalChange.voted id holder ballot p found vote soon new weighed same records next entries ↦
      ap (lookup (j, h)) records
      ∙ (lookup-insert_other (id, holder) (j, h) ballot w.vote_records
            (λ e. ground (arith, at, new, ap (λ k. lookup k w.vote_records) e))
          ∙ at)
  | ProposalChange.moved id p p' found move same votes entries ↦ ap (lookup (j, h)) votes.0 ∙ at
  | ProposalChange.queued id p entry found good waits same votes entries ↦
      ap (lookup (j, h)) votes.0 ∙ at
  | ProposalChange.executed id p entry found locked scheduled late same votes others ↦
      ap (lookup (j, h)) votes.0 ∙ at
]

-- No vote with the power of the holder on the proposal succeeds, neither the holder's own nor a
-- delegate's.
abbrev pub CannotVote : ℕ → Address → Dao → Type 0
CannotVote id holder w =
    (env : Env) (direction : VoteDirection) (x : Dao)
    → (¬ (perform env (Invocation.cast_vote holder id direction) w ≡ ok tt x))
      × ((delegate : Address)
          → ¬ (
              perform env (Invocation.cast_delegated_vote delegate holder id direction) w
              ≡ ok tt x))

recorded-CannotVote :
    (id : ℕ) (holder : Address) (ballot : VoteRecord) (w : Dao)
    → lookup (id, holder) w.vote_records ≡ some ballot
    → CannotVote id holder w
unfolding perform Proposals.cast_vote Proposals.cast_delegated_vote Proposals.record_vote
recorded-CannotVote id holder ballot w at env direction x =
    (λ h. ground (arith, at, h), λ proxy h. ground (arith, at, h))

-- Once a vote is recorded for a holder on a proposal, in any state and whatever is called afterwards: the
-- record stays as it is, and no vote with the holder's power on the proposal succeeds any more, be it
-- cast by the holder or by a delegate.
pub recorded_vote_is_final :
    {n : ℕ} {w w' : Dao} (id : ℕ) (holder : Address) (ballot : VoteRecord)
    → lookup (id, holder) w.vote_records ≡ some ballot
    → Reach w n w'
    → (lookup (id, holder) w'.vote_records ≡ some ballot) × CannotVote id holder w'
recorded_vote_is_final {w' = w'} id holder ballot at r =
    let kept : lookup (id, holder) w'.vote_records ≡ some ballot =
      Reach_inv (λ x. lookup (id, holder) x.vote_records ≡ some ballot) at
        (perform_ballot id holder ballot) r in
    (kept, recorded-CannotVote id holder ballot w' kept)
