-- ===== src/Governance/Closing.antt =====
-- contracts/governance/src/lib.rs: what finalizing and executing a proposal change.
use astraport_contracts.Base.{ℕ, ◌≡◌, refl, ◌⊎◌, inl, inr, some, arith, Option-cases, ◌<◌, ◌≢◌}
use astraport_contracts.Base.Dict.{
  lookup, insert, lookup-insert_self, lookup-insert_other, number_key, pair_key,
}
use astraport_contracts.Host.{ok}
use astraport_contracts.Governance.Types.{
  Address, Dao, Env, Proposal, ProposalStatus, voting, passed, defeated, TimelockEntry, ready, done,
}
use astraport_contracts.Governance.Decision
use astraport_contracts.Governance.Timelock
use astraport_contracts.Governance.Timelock.{is_done, is_stopped}
use astraport_contracts.Governance.Changes.{
  Move, SameVotes, SameEntries, ProposalChange, moved, executed,
}

module _ (env : Env) (id : ℕ) (w w' : Dao) (s : ProposalStatus)
    (h : Decision.finalize_proposal env id w ≡ ok s w') where
  finalize_ended :
      (p : Proposal)
      → lookup id w.proposals ≡ some p
      → (p.status ≡ voting) × (p.voting_ends < env.timestamp)
  unfolding Decision.finalize_proposal
  finalize_ended p found = ground arith

  finalize_decision : (s ≡ passed) ⊎ (s ≡ defeated)
  unfolding Decision.finalize_proposal
  finalize_decision = ground arith

  finalize_writes :
      (p : Proposal)
      → lookup id w.proposals ≡ some p
      → w'.proposals ≡ insert id (record p { status = s }) w.proposals
  unfolding Decision.finalize_proposal
  finalize_writes p found = ground arith

  finalize_frame : SameVotes w w' × SameEntries w w'
  unfolding Decision.finalize_proposal
  finalize_frame = ((ground arith, ground arith), ground arith)

  finalize-Move :
      (p : Proposal)
      → lookup id w.proposals ≡ some p
      → Move env.timestamp p (record p { status = s })
  finalize-Move p found = elim finalize_decision [
    | inl good ↦ rw good (Move.pass (finalize_ended p found).0 (finalize_ended p found).1)
    | inr bad ↦ rw bad (Move.defeat (finalize_ended p found).0 (finalize_ended p found).1)
  ]

  finalize_found : (p : Proposal) × (lookup id w.proposals ≡ some p)
  unfolding Decision.finalize_proposal
  finalize_found = elim (Option-cases (lookup id w.proposals)) [
    | inl e ↦ ground arith
    | inr found ↦ found
  ]

  pub finalize-ProposalChange : ProposalChange env w w'
  finalize-ProposalChange =
      let p : Proposal = finalize_found.0 in
      let e : lookup id w.proposals ≡ some p = finalize_found.1 in
      moved id p (record p { status = s }) e (finalize-Move p e) (finalize_writes p e)
        finalize_frame.0 finalize_frame.1

module _ (env : Env) (id : ℕ) (ex : Address) (w w' : Dao) (p : Proposal) (entry : TimelockEntry)
    (found : lookup id w.proposals ≡ some p) (scheduled : lookup id w.timelock_entries ≡ some entry)
    (h : Decision.execute_proposal env id ex w ≡ ok tt w') where
  execute_entries :
      (w'.timelock_entries ≡ insert id (record entry { status = done }) w.timelock_entries)
      ⊎ (w'.timelock_entries
          ≡ insert id
              (record entry { status = done })
              (insert id (record entry { status = ready }) w.timelock_entries))
  unfolding Decision.execute_proposal Timelock.live_entry Timelock.check_ready
      Timelock.mark_executed
  execute_entries =
      ground (arith, lookup-insert_self id (record entry { status = ready }) w.timelock_entries)

  execute_others : (j : ℕ) → j ≢ id → lookup j w'.timelock_entries ≡ lookup j w.timelock_entries
  execute_others j other = elim execute_entries [
    | inl e ↦
        rw (e, lookup-insert_other id j (record entry { status = done }) w.timelock_entries other)
          refl
    | inr e ↦
        rw
          (
            e,
            lookup-insert_other id j (record entry { status = done })
                (insert id (record entry { status = ready }) w.timelock_entries) other,
            lookup-insert_other id j (record entry { status = ready }) w.timelock_entries other,
          )
          refl
  ]

  pub execute-ProposalChange : ProposalChange env w w'
  unfolding Decision.execute_proposal Timelock.live_entry Timelock.check_ready
      Timelock.mark_executed
  execute-ProposalChange =
      executed id p entry found (ground arith) scheduled (ground arith) (ground arith)
        (ground arith, ground arith) execute_others
