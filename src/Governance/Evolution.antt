-- ===== src/Governance/Evolution.antt =====
-- contracts/governance/src/lib.rs: what one call does to a stored proposal.
use astraport_contracts.Base.{
  ℕ, ◌≡◌, refl, sym, ◌∙◌, true, some, arith, inl, inr, Bool-cases, ◌==◌, ==_iff, ◌≢◌, ◌⊎◌,
}
use astraport_contracts.Base.Dict.{
  Dict, lookup, insert, lookup-insert_self, lookup-insert_other, number_key,
}
use astraport_contracts.Base.Int.{ℤ}
use mathlib.Core.Path.{subst}
use mathlib.Core.Option.{some-injective}
use astraport_contracts.Host.{ok}
use astraport_contracts.Governance.Types.{
  Dao, Env, Proposal, ProposalStatus, voting, passed, defeated, cancelled, timelock, executed,
  submitted, execution_failed, VoteDirection, in_favour, against, abstain,
}
use astraport_contracts.Governance.Proposals.{is_open, add_votes}
use astraport_contracts.Governance.Emergency.{is_closed}
use astraport_contracts.Governance.Trace.{Invocation, perform}
use astraport_contracts.Governance.Changes.{ProposalChange, Move, next_id}
use astraport_contracts.Governance.Steps.{perform-ProposalChange}
use astraport_contracts.Governance.Numbering.{Numbered}

-- The statuses that a proposal may be cancelled in, and those that nothing leads out of.
abbrev pub Revocable : ProposalStatus → Type 0
Revocable s = (s ≡ submitted) ⊎ (s ≡ voting)

abbrev pub Terminal : ProposalStatus → Type 0
Terminal s = (s ≡ executed) ⊎ (s ≡ cancelled) ⊎ (s ≡ execution_failed)

is_open-Revocable : (s : ProposalStatus) → is_open s ≡ true → Revocable s
is_open-Revocable s h = ground arith

Terminal-is_closed : (s : ProposalStatus) → Terminal s → is_closed s ≡ true
Terminal-is_closed s h = ground arith

-- The changes of status that one call makes.
pub data Transition : ProposalStatus → ProposalStatus → Type 0 where
  stays : {s : ProposalStatus} → Transition s s
  cancels : {s : ProposalStatus} → Revocable s → Transition s cancelled
  defeats : Transition voting defeated
  passes : Transition voting passed
  queues : Transition passed timelock
  executes : {s : ProposalStatus} → ¬ (Terminal s) → Transition s executed

-- What no call changes in a proposal.
abbrev pub SameTerms : Proposal → Proposal → Type 0
SameTerms p p' =
    (p'.proposal_id ≡ p.proposal_id)
    × (p'.proposer ≡ p.proposer)
    × (p'.title ≡ p.title)
    × (p'.description ≡ p.description)
    × (p'.action_type ≡ p.action_type)
    × (p'.action_payload ≡ p.action_payload)
    × (p'.created_at ≡ p.created_at)
    × (p'.voting_starts ≡ p.voting_starts)
    × (p'.voting_ends ≡ p.voting_ends)

pub record Evolves (p p' : Proposal) : Type 0 where
  pub terms : SameTerms p p'
  pub change : Transition p.status p'.status
  pub finished : Terminal p.status → p' ≡ p

stays-Evolves : (p : Proposal) → Evolves p p
stays-Evolves p = record {
  terms = (refl, refl, refl, refl, refl, refl, refl, refl, refl);
  change = Transition.stays;
  finished = λ c. refl;
}

add_votes-Evolves :
    (d : VoteDirection) (x : ℤ) (p : Proposal) → p.status ≡ voting → Evolves p (add_votes d x p)
add_votes-Evolves in_favour x p v = record {
  terms = (refl, refl, refl, refl, refl, refl, refl, refl, refl);
  change = Transition.stays;
  finished = λ c. ground arith;
}
add_votes-Evolves against x p v = record {
  terms = (refl, refl, refl, refl, refl, refl, refl, refl, refl);
  change = Transition.stays;
  finished = λ c. ground arith;
}
add_votes-Evolves abstain x p v = record {
  terms = (refl, refl, refl, refl, refl, refl, refl, refl, refl);
  change = Transition.stays;
  finished = λ c. ground arith;
}

Move-Evolves : {now : ℕ} {p p' : Proposal} → Move now p p' → Evolves p p'
Move-Evolves {p = p} (Move.cancel o) = record {
  terms = (refl, refl, refl, refl, refl, refl, refl, refl, refl);
  change = Transition.cancels (is_open-Revocable p.status o);
  finished = λ c. ground arith;
}
Move-Evolves (Move.defeat v e) = record {
  terms = (refl, refl, refl, refl, refl, refl, refl, refl, refl);
  change = rw v Transition.defeats;
  finished = λ c. ground arith;
}
Move-Evolves (Move.pass v e) = record {
  terms = (refl, refl, refl, refl, refl, refl, refl, refl, refl);
  change = rw v Transition.passes;
  finished = λ c. ground arith;
}
Move-Evolves {p = p} (Move.override o) = record {
  terms = (refl, refl, refl, refl, refl, refl, refl, refl, refl);
  change = Transition.executes (λ c. ground (arith, o, Terminal-is_closed p.status c));
  finished = λ c. ground arith;
}

queue-Evolves :
    (p : Proposal) (t : ℕ)
    → p.status ≡ passed
    → Evolves p (record p { status = timelock; timelock_expiry = t })
queue-Evolves p t s = record {
  terms = (refl, refl, refl, refl, refl, refl, refl, refl, refl);
  change = rw s Transition.queues;
  finished = λ c. ground arith;
}

execute-Evolves :
    (p : Proposal) (t : ℕ)
    → p.status ≡ timelock
    → Evolves p (record p { status = executed; executed_at = t })
execute-Evolves p t s = record {
  terms = (refl, refl, refl, refl, refl, refl, refl, refl, refl);
  change = Transition.executes (λ c. ground (arith, s, c));
  finished = λ c. ground arith;
}

found_unused :
    {n : ℕ} (w : Dao) (id : ℕ) (p : Proposal)
    → Numbered n w
    → lookup id w.proposals ≡ some p
    → id ≢ next_id w
found_unused w id p c at = ground (arith, c.below id p at)

here-Evolves :
    (m : Dict ℕ Proposal) (id : ℕ) (p old new : Proposal)
    → lookup id m ≡ some old
    → Evolves old new
    → lookup id m ≡ some p
    → (p' : Proposal) × (lookup id (insert id new m) ≡ some p') × Evolves p p'
here-Evolves m id p old new found e at = (
  new,
  lookup-insert_self id new m,
  subst (λ q. Evolves q new) (some-injective old p (sym found ∙ at)) e,
)

-- One write at a proposal that is stored.
write-Evolves :
    (m : Dict ℕ Proposal) (id j : ℕ) (p old new : Proposal)
    → lookup id m ≡ some old
    → Evolves old new
    → lookup j m ≡ some p
    → (p' : Proposal) × (lookup j (insert id new m) ≡ some p') × Evolves p p'
write-Evolves m id j p old new found e at = elim (Bool-cases (id == j)) [
  | inl same ↦
      rw (← (==_iff id j).0 same)
        (here-Evolves m id p old new found e (rw ((==_iff id j).0 same) at))
  | inr other ↦ (p, lookup-insert_other id j new m (ground (arith, other)) ∙ at, stays-Evolves p)
]

-- What a call leaves of a stored proposal.
pub perform-Evolves :
    {n : ℕ} (env : Env) (i : Invocation) (w w' : Dao) (id : ℕ) (p : Proposal)
    → Numbered n w
    → lookup id w.proposals ≡ some p
    → perform env i w ≡ ok tt w'
    → (p' : Proposal) × (lookup id w'.proposals ≡ some p') × Evolves p p'
perform-Evolves env i w w' j x c at h = elim (perform-ProposalChange env i w w' h) [
  | ProposalChange.reset fresh records ↦ ground (arith, fresh, c.started.1)
  | ProposalChange.kept same votes entries ↦ (x, rw same at, stays-Evolves x)
  | ProposalChange.created p fresh same records next entries ↦ (
    x,
    rw same (lookup-insert_other (next_id w) j p w.proposals (found_unused w j x c at) ∙ at),
    stays-Evolves x,
  )
  | ProposalChange.voted id holder ballot p found vote soon new weighed same records next entries ↦
      rw same (
        write-Evolves w.proposals id j x p (add_votes ballot.direction ballot.weight p) found
          (add_votes-Evolves ballot.direction ballot.weight p vote) at)
  | ProposalChange.moved id p p' found move same votes entries ↦
      rw same (write-Evolves w.proposals id j x p p' found (Move-Evolves move) at)
  | ProposalChange.queued id p entry found good waits same votes entries ↦
      rw same
        (write-Evolves w.proposals id j x p _ found (queue-Evolves p entry.execute_after good) at)
  | ProposalChange.executed id p entry found locked scheduled late same votes others ↦
      rw same
        (write-Evolves w.proposals id j x p _ found (execute-Evolves p env.timestamp locked) at)
]
