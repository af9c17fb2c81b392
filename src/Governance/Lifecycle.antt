-- ===== src/Governance/Lifecycle.antt =====
-- contracts/governance/src/lib.rs: the life of a proposal.
use astraport_contracts.Base.{ℕ, ◌+◌, ◌<◌, ◌≡◌, ap, ◌∙◌, some, arith}
use astraport_contracts.Base.Dict.{lookup, number_key}
use astraport_contracts.Machine.{u64_modulus}
use astraport_contracts.Host.{ok}
use astraport_contracts.Governance.Types.{Address, Dao, Env, Proposal}
use astraport_contracts.Governance.Trace.{Invocation, perform, Reach, Reach_count}
use astraport_contracts.Governance.Steps.{perform-ProposalChange}
use astraport_contracts.Governance.Numbering.{
  Numbered, later-Numbered, reached-Numbered, ProposalChange-Numbered, opened,
}
use astraport_contracts.Governance.Evolution.{
  Terminal, SameTerms, Transition, Evolves, perform-Evolves,
}

-- In a state that fewer than 2 ^ 64 - 1 calls reach from the initialization, a call that succeeds keeps
-- every stored proposal and its terms, and leaves its status or moves it along an edge of
-- `Transition`: cancelled from submitted or voting, defeated or passed from voting, queued from passed,
-- executed from any status but executed, cancelled and failed.
pub proposal_lifecycle :
    (env0 : Env) (admin guardian : Address) {n : ℕ} {w : Dao}
    → Reach (opened env0 admin guardian) n w
    → n + 1 < u64_modulus
    → (env : Env) (i : Invocation) (w' : Dao) (id : ℕ) (p : Proposal)
    → lookup id w.proposals ≡ some p
    → perform env i w ≡ ok tt w'
    → (p' : Proposal) × (lookup id w'.proposals ≡ some p')
      × SameTerms p p'
      × Transition p.status p'.status
proposal_lifecycle env0 admin guardian {w = w} r few env i w' id p at h =
    let e : (p' : Proposal) × (lookup id w'.proposals ≡ some p') × Evolves p p' =
      perform-Evolves env i w w' id p (reached-Numbered env0 admin guardian r few) at h in
    (e.0, e.1, e.2.terms, e.2.change)

-- The proposal is stored as it was, m calls after n.
abbrev Holds : ℕ → ℕ → Proposal → ℕ → Dao → Type 0
Holds n id p m x = (k : ℕ) × (k ≡ m + n) × Numbered k x × (lookup id x.proposals ≡ some p)

module _ (n id m : ℕ) (p : Proposal) (x : Dao) where
  held_later : Holds n id p m x → Holds n id p (m + 1) x
  held_later (k, e, c, at) = (k + 1, omega arith, later-Numbered x c, at)

  held_on :
      (env : Env) (i : Invocation) (x' : Dao)
      → Terminal p.status
      → m + 1 + n + 1 < u64_modulus
      → perform env i x ≡ ok tt x'
      → Holds n id p m x
      → Holds n id p (m + 1) x'
  held_on env i x' closed few h (k, e, c, at) =
      let later : (p' : Proposal) × (lookup id x'.proposals ≡ some p') × Evolves p p' =
        perform-Evolves env i x x' id p c at h in
      (
        k + 1,
        omega arith,
        ProposalChange-Numbered env i (omega arith) h (perform-ProposalChange env i x x' h) c,
        later.1 ∙ ap some (later.2.finished closed),
      )

-- A proposal that is executed, cancelled or failed is never changed again, whatever is called, while
-- fewer than 2 ^ 64 - 1 calls are made since the initialization.
pub closed_proposal_is_final :
    (env : Env) (admin guardian : Address) {n m : ℕ} {w w' : Dao} (id : ℕ) (p : Proposal)
    → Reach (opened env admin guardian) n w
    → lookup id w.proposals ≡ some p
    → Terminal p.status
    → Reach w m w'
    → m + n + 1 < u64_modulus
    → lookup id w'.proposals ≡ some p
closed_proposal_is_final env admin guardian {n = n} {w = w} id p r at closed r' few =
    (Reach_count (λ m x. m + n + 1 < u64_modulus → Holds n id p m x)
      (λ few. (n, omega arith, reached-Numbered env admin guardian r (omega arith), at))
      (λ m x c few. held_later n id m p x (c (omega arith)))
      (λ m env i x x' c h few. held_on n id m p x env i x' closed few h (c (omega arith))) r' few).3
