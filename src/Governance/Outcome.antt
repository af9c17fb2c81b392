-- ===== src/Governance/Outcome.antt =====
-- contracts/governance/src/lib.rs: the outcome of a vote.
use astraport_contracts.Base.{
  ℕ, ◌+◌, ◌*◌, ◌/◌, ◌^◌, ◌<◌, ◌≤◌, ◌≡◌, ◌⊎◌, inl, inr, refl, Bool-cases, ltb, some, none, Option,
  arith,
}
use astraport_contracts.Base.Int.{ℤ, pos, ◌*ℤ◌, ◌+ℤ◌}
use astraport_contracts.Base.Dict.{lookup, insert, lookup-insert_self, number_key}
use astraport_contracts.Machine.{wrapping_add, wrapping_add_exact, quotient}
use astraport_contracts.Host.{Returns}
use astraport_contracts.Governance.Types.{
  Dao, Env, Proposal, ProposalStatus, voting, passed, defeated, GovernanceConfig, Word, quorum,
}
use astraport_contracts.Governance.Helpers.{get_config, get_total_voting_power}
use astraport_contracts.Governance.Decision.{
  total_votes, defeat, pass_proposal, decide_approval, finalize_proposal,
}

*ℤ-numbers : (x y : ℕ) → pos x *ℤ pos y ≡ pos (x * y)
unfolding ◌*ℤ◌
*ℤ-numbers x y = ground arith

quotient-pos : (x y : ℕ) → quotient (pos x) (pos y) ≡ pos (x / y)
unfolding quotient
quotient-pos x y = ground arith

wrapping_add-pos : (x y : ℕ) → x + y < 2 ^ 127 → wrapping_add (pos x) (pos y) ≡ pos (x + y)
unfolding ◌+ℤ◌
wrapping_add-pos x y fits = ground (arith, wrapping_add_exact (pos x) (pos y))

-- The votes reach the quorum, and more of those that are for or against are for than the approval
-- threshold asks: t is the total voting power, f, g and b are the votes.
abbrev pub Carries : GovernanceConfig → ℕ → ℕ → ℕ → ℕ → Type 0
Carries c t f g b =
    (t * c.quorum_threshold_bps < (f + g + b + 1) * 10_000)
    × ((f + g) * c.approval_threshold_bps < f * 10_000)

-- What the call leaves: the status it returns is stored, and says whether the proposal carries.
abbrev pub Decides : ℕ → Dao → Proposal → ℕ → ℕ → ℕ → ℕ → ProposalStatus → Dao → Type 0
Decides id w p t f g b s w' =
    (lookup id w'.proposals ≡ some (record p { status = s }))
    × (((s ≡ passed) × Carries (get_config w) t f g b)
        ⊎ ((s ≡ defeated) × ¬ (Carries (get_config w) t f g b)))

module _ (env : Env) (id : ℕ) (w : Dao) (p : Proposal) (t f g b : ℕ)
    (found : lookup id w.proposals ≡ some p) (good : p.status ≡ voting)
    (ended : p.voting_ends < env.timestamp) (power : get_total_voting_power w ≡ pos t)
    (for : p.votes_for ≡ pos f) (against : p.votes_against ≡ pos g)
    (abstain : p.votes_abstain ≡ pos b) (total_fits : f + g + b < 2 ^ 127)
    (quorum_fits : t * (get_config w).quorum_threshold_bps < 2 ^ 127)
    (approval_fits : (f + g) * (get_config w).approval_threshold_bps < 2 ^ 127) where
  net : wrapping_add p.votes_for p.votes_against ≡ pos (f + g)
  net = rw (for, against) (wrapping_add-pos f g (omega arith))

  all : total_votes p ≡ pos (f + g + b)
  unfolding total_votes
  all = rw (net, abstain) (wrapping_add-pos (f + g) b total_fits)

  quorum_product :
      get_total_voting_power w *ℤ pos (get_config w).quorum_threshold_bps
      ≡ pos (t * (get_config w).quorum_threshold_bps)
  quorum_product = rw power (*ℤ-numbers t (get_config w).quorum_threshold_bps)

  approval_product :
      wrapping_add p.votes_for p.votes_against *ℤ pos (get_config w).approval_threshold_bps
      ≡ pos ((f + g) * (get_config w).approval_threshold_bps)
  approval_product = rw net (*ℤ-numbers (f + g) (get_config w).approval_threshold_bps)

  stored :
      (s : ProposalStatus)
      → lookup id (insert id (record p { status = s }) w.proposals) ≡ some (record p { status = s })
  stored s = lookup-insert_self id (record p { status = s }) w.proposals

  defeat-Decides :
      (reason : Option Word)
      → ¬ (Carries (get_config w) t f g b)
      → Returns (Decides id w p t f g b) (defeat env id p reason w)
  unfolding defeat
  defeat-Decides none fails = (stored defeated, inr (refl, fails))
  defeat-Decides (some reason) fails = (stored defeated, inr (refl, fails))

  pass-Decides :
      Carries (get_config w) t f g b → Returns (Decides id w p t f g b) (pass_proposal env id p w)
  unfolding pass_proposal
  pass-Decides carries = (stored passed, inl (refl, carries))

  approval-Decides :
      t * (get_config w).quorum_threshold_bps < (f + g + b + 1) * 10_000
      → Returns (Decides id w p t f g b) (decide_approval env id p (get_config w) w)
  unfolding decide_approval
  approval-Decides enough = ground (
    arith,
    net,
    approval_product,
    quotient-pos ((f + g) * (get_config w).approval_threshold_bps) 10_000,
    stored passed,
    stored defeated,
  )

  finalize_short :
      (f + g + b + 1) * 10_000 ≤ t * (get_config w).quorum_threshold_bps
      → finalize_proposal env id w ≡ defeat env id p (some quorum) w
  unfolding finalize_proposal
  finalize_short short =
      ground
        (arith, all, quorum_product, quotient-pos (t * (get_config w).quorum_threshold_bps) 10_000)

  finalize_quorate :
      t * (get_config w).quorum_threshold_bps < (f + g + b + 1) * 10_000
      → finalize_proposal env id w ≡ decide_approval env id p (get_config w) w
  unfolding finalize_proposal
  finalize_quorate enough =
      ground
        (arith, all, quorum_product, quotient-pos (t * (get_config w).quorum_threshold_bps) 10_000)

  vote_end-Decides : Returns (Decides id w p t f g b) (finalize_proposal env id w)
  vote_end-Decides =
      elim (Bool-cases (ltb (t * (get_config w).quorum_threshold_bps) ((f + g + b + 1) * 10_000))) [
        | inl enough ↦ rw (finalize_quorate (ground arith)) (approval-Decides (ground arith))
        | inr short ↦
            rw (finalize_short (ground arith))
              (defeat-Decides (some quorum) (λ carries. ground (arith, carries.0, short)))
      ]

-- The state with another snapshot of the total supply.
abbrev pub with_supply : Option ℤ → Dao → Dao
with_supply supply w = record w { total_supply = supply }

-- After the end of the vote on a proposal that is open to votes, `finalize_proposal` succeeds: the
-- proposal passes if it carries and is defeated otherwise, where the quorum is a share of the voting power
-- that is deposited (TotalVotingPower), whatever the total supply is set to. The total power and the
-- tallies are not negative; the sum of the tallies and the products with the thresholds are in the range
-- of an `i128`.
pub finalize-Decides :
    (env : Env) (id : ℕ) (w : Dao) (p : Proposal) (t f g b : ℕ) (supply : Option ℤ)
    → lookup id w.proposals ≡ some p
    → p.status ≡ voting
    → p.voting_ends < env.timestamp
    → get_total_voting_power w ≡ pos t
    → p.votes_for ≡ pos f
    → p.votes_against ≡ pos g
    → p.votes_abstain ≡ pos b
    → f + g + b < 2 ^ 127
    → t * (get_config w).quorum_threshold_bps < 2 ^ 127
    → (f + g) * (get_config w).approval_threshold_bps < 2 ^ 127
    → Returns (Decides id w p t f g b) (finalize_proposal env id (with_supply supply w))
unfolding get_config get_total_voting_power
finalize-Decides env id w p t f g b supply found is_voting ended power for against abstain
      total_fits quorum_fits approval_fits =
    vote_end-Decides env id (with_supply supply w) p t f g b found is_voting ended power for against
      abstain total_fits quorum_fits approval_fits
