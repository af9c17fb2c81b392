-- ===== src/Governance/Locks.antt =====
-- contracts/governance/src/lib.rs and timelock.rs: the proposals that wait for their timelock.
use astraport_contracts.Base.Int.{ℤ}
use astraport_contracts.Base.{
  ℕ, ◌+◌, ◌<◌, ◌≡◌, refl, ap, sym, ◌∙◌, false, some, arith, inl, inr, ◌≢◌,
}
use astraport_contracts.Base.Dict.{
  lookup, insert, lookup-insert_self, lookup-insert_other, lookup-insert_cases, number_key,
}
use astraport_contracts.Machine.{u64_modulus}
use astraport_contracts.Governance.Types.{
  Address, Dao, Env, Proposal, voting, timelock, TimelockEntry, pending, VoteDirection, in_favour,
  against, abstain,
}
use astraport_contracts.Governance.Setup
use astraport_contracts.Governance.Proposals.{add_votes}
use astraport_contracts.Governance.Decision.{is_timelocked}
use astraport_contracts.Governance.Trace.{perform, Reach}
use astraport_contracts.Governance.Changes.{ProposalChange, Move, next_id}
use astraport_contracts.Governance.Numbering.{Numbered, opened, reached_inv}

-- The entry of a proposal that waits.
abbrev pub Locked : Dao → ℕ → Proposal → Type 0
Locked w id p =
    (e : TimelockEntry) × (lookup id w.timelock_entries ≡ some e)
    × (e.status ≡ pending)
    × (e.execute_after ≡ p.timelock_expiry)

abbrev AllLocked : Dao → Type 0
AllLocked w =
    (id : ℕ) (p : Proposal) → lookup id w.proposals ≡ some p → p.status ≡ timelock → Locked w id p

-- The entries of the other proposals are kept.
abbrev KeepOthers : ℕ → Dao → Dao → Type 0
KeepOthers id w w' = (j : ℕ) → j ≢ id → lookup j w'.timelock_entries ≡ lookup j w.timelock_entries

keep_entries : (id : ℕ) (w w' : Dao) → w'.timelock_entries ≡ w.timelock_entries → KeepOthers id w w'
keep_entries id w w' same j other = ap (lookup j) same

kept-Locked :
    (id j : ℕ) (p : Proposal) (w w' : Dao)
    → KeepOthers id w w'
    → j ≢ id
    → Locked w j p
    → Locked w' j p
kept-Locked id j p w w' keeps other (e, at, waits, time) = (e, keeps j other ∙ at, waits, time)

-- A write of a proposal that does not wait.
written-AllLocked :
    (w w' : Dao) (id : ℕ) (new : Proposal)
    → is_timelocked new.status ≡ false
    → w'.proposals ≡ insert id new w.proposals
    → KeepOthers id w w'
    → AllLocked w
    → AllLocked w'
written-AllLocked w w' id new free same keeps c j p at waits =
    elim (lookup-insert_cases id j new w.proposals (ap (lookup j) (sym same) ∙ at)) [
      | inl (here, val) ↦
          ground (arith, free, ap (λ q. is_timelocked q.status) val, ap is_timelocked waits)
      | inr (other, found) ↦ kept-Locked id j p w w' keeps (λ e. other (sym e)) (c j p found waits)
    ]

queued-AllLocked :
    (w w' : Dao) (id : ℕ) (p : Proposal) (entry : TimelockEntry)
    → entry.status ≡ pending
    → w'.proposals
      ≡ insert id
          (record p { status = timelock; timelock_expiry = entry.execute_after })
          w.proposals
    → w'.timelock_entries ≡ insert id entry w.timelock_entries
    → AllLocked w
    → AllLocked w'
queued-AllLocked w w' id q entry waiting same entries c j p at waits =
    elim (lookup-insert_cases id j
      (record q { status = timelock; timelock_expiry = entry.execute_after }) w.proposals
      (ap (lookup j) (sym same) ∙ at)) [
        | inl (here, val) ↦ (
          entry,
          ap (λ k. lookup k w'.timelock_entries) (sym here)
              ∙ (ap (lookup id) entries ∙ lookup-insert_self id entry w.timelock_entries),
          waiting,
          ap (λ x. x.timelock_expiry) val,
        )
        | inr (other, found) ↦
            kept-Locked id j p w w'
              (λ k away.
                ap (lookup k) entries ∙ lookup-insert_other id k entry w.timelock_entries away)
              (λ e. other (sym e)) (c j p found waits)
      ]

voted_unlocked :
    (d : VoteDirection) (x : ℤ) (p : Proposal)
    → p.status ≡ voting
    → is_timelocked (add_votes d x p).status ≡ false
voted_unlocked in_favour x p v = rw v refl
voted_unlocked against x p v = rw v refl
voted_unlocked abstain x p v = rw v refl

moved_unlocked : {now : ℕ} {p p' : Proposal} → Move now p p' → is_timelocked p'.status ≡ false
moved_unlocked (Move.cancel o) = refl
moved_unlocked (Move.defeat v e) = refl
moved_unlocked (Move.pass v e) = refl
moved_unlocked (Move.override o) = refl

ProposalChange-AllLocked :
    (n : ℕ) (env : Env) (w w' : Dao)
    → Numbered n w
    → ProposalChange env w w'
    → AllLocked w
    → AllLocked w'
ProposalChange-AllLocked n env w w' k change c = elim change [
  | ProposalChange.reset fresh records ↦ ground (arith, fresh, k.started.1)
  | ProposalChange.kept same votes entries ↦
      λ j p at waits. rw entries (c j p (ap (lookup j) (sym same) ∙ at) waits)
  | ProposalChange.created p fresh same records next entries ↦
      written-AllLocked w w' (next_id w) p (rw (fresh.0) refl) same
        (keep_entries (next_id w) w w' entries) c
  | ProposalChange.voted id holder ballot p found vote soon new weighed same records next entries ↦
      written-AllLocked w w' id _ (voted_unlocked ballot.direction ballot.weight p vote) same
        (keep_entries id w w' entries) c
  | ProposalChange.moved id p p' found move same votes entries ↦
      written-AllLocked w w' id p' (moved_unlocked move) same (keep_entries id w w' entries) c
  | ProposalChange.queued id p entry found good waits same votes entries ↦
      queued-AllLocked w w' id p entry waits same entries c
  | ProposalChange.executed id p entry found locked scheduled late same votes others ↦
      written-AllLocked w w' id _ refl same others c
]

opened-AllLocked : (env : Env) (admin guardian : Address) → AllLocked (opened env admin guardian)
unfolding perform Setup.initialize lookup
opened-AllLocked env admin guardian id p at = ground arith

-- In a state that is reached, a proposal in the timelock has a pending entry for its expiry.
pub reached-Locked :
    (env : Env) (admin guardian : Address) {n : ℕ} {w : Dao} (id : ℕ) (p : Proposal)
    → Reach (opened env admin guardian) n w
    → n + 1 < u64_modulus
    → lookup id w.proposals ≡ some p
    → p.status ≡ timelock
    → Locked w id p
reached-Locked env admin guardian id p r few =
    reached_inv AllLocked env admin guardian (opened-AllLocked env admin guardian)
      ProposalChange-AllLocked r few id p
