-- ===== src/Governance/Numbering.antt =====
-- contracts/governance/src/lib.rs: the numbers of the proposals. They are not given twice before the
-- `u64` counter wraps.
use astraport_contracts.Base.{
  ℕ, ◌+◌, ◌<◌, ◌≤◌, ◌≡◌, refl, ◌∙◌, none, some, arith, inl, inr, Option-cases,
}
use astraport_contracts.Base.Dict.{Dict, lookup, insert, insert_inv, number_key}
use astraport_contracts.Machine.{u64_modulus, wrapping_add_u64, wrapping_add_u64_exact}
use astraport_contracts.Host.{ok}
use astraport_contracts.Governance.Types.{Address, Dao, Env, Proposal, deployed}
use astraport_contracts.Governance.Setup
use astraport_contracts.Governance.Trace.{Invocation, perform, step, Reach, Reach_count}
use astraport_contracts.Governance.Power.{perform-admin}
use astraport_contracts.Governance.Changes.{ProposalChange, next_id}
use astraport_contracts.Governance.Steps.{perform-ProposalChange}

-- The state that the initialization of a deployed contract leaves.
abbrev pub opened : Env → Address → Address → Dao
opened env admin guardian = step env (Invocation.initialize admin guardian) deployed

abbrev pub AreBelow : ℕ → Dict ℕ Proposal → Type 0
AreBelow next m = (id : ℕ) (p : Proposal) → lookup id m ≡ some p → id < next

pub record Numbered (n : ℕ) (w : Dao) : Type 0 where
  pub started : (a : Address) × (w.admin ≡ some a)
  pub low : next_id w ≤ n + 1
  pub below : AreBelow (next_id w) w.proposals

pub unused : {n : ℕ} {w : Dao} → Numbered n w → lookup (next_id w) w.proposals ≡ none
unused {w = w} c = elim (Option-cases (lookup (next_id w) w.proposals)) [
  | inl e ↦ e
  | inr (p, e) ↦ ground (arith, c.below (next_id w) p e)
]

found_below :
    {n : ℕ} (w w' : Dao) (id : ℕ) (p p' : Proposal)
    → lookup id w.proposals ≡ some p
    → w'.proposals ≡ insert id p' w.proposals
    → Numbered n w
    → AreBelow (next_id w) w'.proposals
found_below w w' id p p' found same c =
    rw same (insert_inv (λ j x. j < next_id w) id p' w.proposals (c.below id p found) c.below)

-- A call that gives no number keeps the bounds.
kept-Numbered :
    {n : ℕ} {w w' : Dao}
    → (a : Address) × (w'.admin ≡ some a)
    → next_id w' ≡ next_id w
    → AreBelow (next_id w) w'.proposals
    → Numbered n w
    → Numbered (n + 1) w'
kept-Numbered {n = n} started same below c = record {
  started = started;
  low = ground (arith, same, c.low);
  below = λ id p e. ground (arith, same, below id p e);
}

created-Numbered :
    {n : ℕ} {w w' : Dao} (p : Proposal)
    → n + 2 < u64_modulus
    → (a : Address) × (w'.admin ≡ some a)
    → w'.proposals ≡ insert (next_id w) p w.proposals
    → next_id w' ≡ wrapping_add_u64 (next_id w) 1
    → Numbered n w
    → Numbered (n + 1) w'
created-Numbered {n = n} {w = w} {w' = w'} p few started same next c =
    let bumped : next_id w' ≡ next_id w + 1 =
      next ∙ wrapping_add_u64_exact (next_id w) 1 (ground (arith, c.low, few)) in
    record {
      started = started;
      low = ground (arith, bumped, c.low);
      below =
          rw (bumped, same)
            (insert_inv (λ j x. j < next_id w + 1) (next_id w) p w.proposals (omega arith)
              (λ j x e. ground (arith, c.below j x e)));
    }

pub ProposalChange-Numbered :
    {n : ℕ} (env : Env) (i : Invocation) {w w' : Dao}
    → n + 2 < u64_modulus
    → perform env i w ≡ ok tt w'
    → ProposalChange env w w'
    → Numbered n w
    → Numbered (n + 1) w'
ProposalChange-Numbered env i {w = w} {w' = w'} few h change c =
    let started : (a : Address) × (w'.admin ≡ some a) =
      (c.started.0, perform-admin env i w w' c.started.0 c.started.1 h) in
    elim change [
      | ProposalChange.reset fresh records ↦ ground (arith, fresh, c.started.1)
      | ProposalChange.kept same votes entries ↦ kept-Numbered started votes.1 (rw same c.below) c
      | ProposalChange.created p fresh same records next entries ↦
          created-Numbered p few started same next c
      | ProposalChange.voted id holder ballot p found vote soon new weighed same records next
            entries ↦
          kept-Numbered started next (found_below w w' id p _ found same c) c
      | ProposalChange.moved id p p' found move same votes entries ↦
          kept-Numbered started votes.1 (found_below w w' id p p' found same c) c
      | ProposalChange.queued id p entry found good waits same votes entries ↦
          kept-Numbered started votes.1 (found_below w w' id p _ found same c) c
      | ProposalChange.executed id p entry found locked scheduled late same votes others ↦
          kept-Numbered started votes.1 (found_below w w' id p _ found same c) c
    ]

pub later-Numbered : {n : ℕ} (w : Dao) → Numbered n w → Numbered (n + 1) w
later-Numbered w c = record { started = c.started; low = ground (arith, c.low); below = c.below }

pub opened-Numbered :
    (env : Env) (admin guardian : Address) → Numbered 0 (opened env admin guardian)
unfolding perform Setup.initialize lookup
opened-Numbered env admin guardian = record {
  started = (admin, refl);
  low = omega arith;
  below = λ id p e. ground arith;
}

pub reached-Numbered :
    (env : Env) (admin guardian : Address) {n : ℕ} {w : Dao}
    → Reach (opened env admin guardian) n w
    → n + 1 < u64_modulus
    → Numbered n w
reached-Numbered env admin guardian =
    Reach_count (λ n w. n + 1 < u64_modulus → Numbered n w)
      (λ few. opened-Numbered env admin guardian) (λ n w c few. later-Numbered w (c (omega arith)))
      (λ n env i w w' c h few.
        ProposalChange-Numbered env i (omega arith) h (perform-ProposalChange env i w w' h)
          (c (omega arith)))

-- An invariant of the changes from numbered states holds of every state that is reached.
pub reached_inv :
    (P : Dao → Type 0) (env : Env) (admin guardian : Address)
    → P (opened env admin guardian)
    → ((n : ℕ) (env : Env) (w w' : Dao) → Numbered n w → ProposalChange env w w' → P w → P w')
    → {n : ℕ} {w : Dao} → Reach (opened env admin guardian) n w
    → n + 1 < u64_modulus
    → P w
reached_inv P env admin guardian first keep r few =
    (Reach_count (λ n w. n + 1 < u64_modulus → Numbered n w × P w)
      (λ few. (opened-Numbered env admin guardian, first))
      (λ n w c few. (later-Numbered w (c (omega arith)).0, (c (omega arith)).1))
      (λ n env i w w' c h few. perform_kept n env i w w' few h (c (omega arith))) r few).1
  where
    perform_kept :
        (n : ℕ) (env : Env) (i : Invocation) (w w' : Dao)
        → n + 1 + 1 < u64_modulus
        → perform env i w ≡ ok tt w'
        → Numbered n w × P w
        → Numbered (n + 1) w' × P w'
    perform_kept n env i w w' few h (k, c) =
        let change : ProposalChange env w w' = perform-ProposalChange env i w w' h in
        (ProposalChange-Numbered env i (omega arith) h change k, keep n env w w' k change c)
