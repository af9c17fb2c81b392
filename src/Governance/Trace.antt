-- ===== src/Governance/Trace.antt =====
-- contracts/governance/src/lib.rs: one invocation of the DAO, and the states that invocations lead to.
use astraport_contracts.Base.{ℕ, ◌+◌, ◌≡◌, arith, inl, inr}
use astraport_contracts.Base.Int.{ℤ}
use astraport_contracts.Host.{
  Action, ok, ◌>>=◌, ◌>>◌, pure, gets, map_err, committed, Outcome-cases,
}
use astraport_contracts.Governance.Types.{
  Address, Symbol, ProposalActionType, VoteDirection, GovernanceConfig, Dao, Env, Error,
  TreasuryError,
}
use astraport_contracts.Governance.Helpers.{get_config}
use astraport_contracts.Governance.Setup
use astraport_contracts.Governance.Proposals
use astraport_contracts.Governance.Decision
use astraport_contracts.Governance.Treasury
use astraport_contracts.Governance.Emergency

-- An entry point that writes, with its arguments.
pub data Invocation : Type 0 where
  initialize : Address → Address → Invocation
  set_config : Address → GovernanceConfig → Invocation
  set_total_supply : Address → ℤ → Invocation
  set_audit_sink : Address → Address → Invocation
  deposit_voting_power withdraw_voting_power : Address → ℤ → Invocation
  submit_proposal : Address → Symbol → Symbol → ProposalActionType → Symbol → Invocation
  cancel_proposal : Address → ℕ → Invocation
  cast_vote : Address → ℕ → VoteDirection → Invocation
  cast_delegated_vote : Address → Address → ℕ → VoteDirection → Invocation
  finalize_proposal queue_timelock : ℕ → Invocation
  execute_proposal : ℕ → Address → Invocation
  delegate : Address → Address → Invocation
  revoke_delegation : Address → Invocation
  treasury_deposit : Address → Symbol → ℤ → Invocation
  treasury_create_request : Address → Address → ℤ → Symbol → Symbol → Invocation
  treasury_approve_request : Address → ℕ → Invocation
  treasury_execute_request : ℕ → Invocation
  treasury_add_signer treasury_remove_signer : Address → Address → Invocation
  emergency_pause emergency_unpause : Address → Invocation
  emergency_execute claim_rewards : Address → ℕ → Invocation

-- An entry point returns the errors of the contract or of its treasury.
pub data Failure : Type 0 where
  contract : Error → Failure
  treasury : TreasuryError → Failure

abbrev pub Run : Type 0
Run = Action Dao Failure (Unit {0})

-- The result of a call is left out.
abbrev pub ignore : {E A : Type 0} → Action Dao E A → Action Dao E (Unit {0})
ignore m = m >> pure tt

pub ignored_ok :
    {E F A : Type 0} (f : E → F) (m : Action Dao E A) {w w' : Dao}
    → map_err f (ignore m) w ≡ ok tt w'
    → (a : A) × (m w ≡ ok a w')
ignored_ok f m {w = w} {w' = w'} h = elim (Outcome-cases (m w)) [
  | inl (a, w1, e) ↦ (a, ground (arith, h, e))
  | inr (inl (x, e)) ↦ ground (arith, h, e)
  | inr (inr e) ↦ ground (arith, h, e)
]

pub ok_ignored :
    {E F A : Type 0} (f : E → F) (m : Action Dao E A) {w w' : Dao} {a : A}
    → m w ≡ ok a w'
    → map_err f (ignore m) w ≡ ok tt w'
ok_ignored f m e = ground (arith, e)

unfoldable pub perform : Env → Invocation → Run
unfolding get_config
perform env (initialize admin guardian) = map_err contract (Setup.initialize admin guardian)
perform env (set_config admin c) = map_err contract (Setup.set_config env admin c)
perform env (set_total_supply admin supply) =
    map_err contract (Setup.set_total_supply env admin supply)
perform env (set_audit_sink admin sink) = map_err contract (Setup.set_audit_sink env admin sink)
perform env (deposit_voting_power holder amount) =
    map_err contract (ignore (Setup.deposit_voting_power env holder amount))
perform env (withdraw_voting_power holder amount) =
    map_err contract (ignore (Setup.withdraw_voting_power env holder amount))
perform env (submit_proposal proposer title description action_type payload) =
    map_err contract
      (ignore (Proposals.submit_proposal env proposer title description action_type payload))
perform env (cancel_proposal caller id) = map_err contract (Proposals.cancel_proposal env caller id)
perform env (cast_vote voter id direction) =
    map_err contract (Proposals.cast_vote env voter id direction)
perform env (cast_delegated_vote proxy holder id direction) =
    map_err contract (Proposals.cast_delegated_vote env proxy holder id direction)
perform env (finalize_proposal id) = map_err contract (ignore (Decision.finalize_proposal env id))
perform env (queue_timelock id) = map_err contract (Decision.queue_timelock env id)
perform env (execute_proposal id executor) =
    map_err contract (Decision.execute_proposal env id executor)
perform env (delegate delegator to) = map_err contract (Setup.delegate_power env delegator to)
perform env (revoke_delegation delegator) = map_err contract (Setup.revoke_delegation env delegator)
perform env (treasury_deposit depositor asset amount) =
    map_err treasury (ignore (Treasury.deposit env depositor asset amount))
perform env (treasury_create_request requester recipient amount asset reason) = map_err treasury (
    ignore (do
      config ← gets get_config
      Treasury.create_request env requester recipient amount asset reason config))
perform env (treasury_approve_request signer id) =
    map_err treasury (ignore (Treasury.approve_request env signer id))
perform env (treasury_execute_request id) =
    map_err treasury (ignore (do config ← gets get_config; Treasury.execute_request env id config))
perform env (treasury_add_signer admin signer) =
    map_err treasury (Treasury.add_signer env admin signer)
perform env (treasury_remove_signer admin signer) =
    map_err treasury (Treasury.remove_signer env admin signer)
perform env (emergency_pause caller) = map_err contract (Emergency.emergency_pause env caller)
perform env (emergency_unpause admin) = map_err contract (Emergency.emergency_unpause env admin)
perform env (emergency_execute caller id) =
    map_err contract (Emergency.emergency_execute env caller id)
perform env (claim_rewards voter id) =
    map_err contract (ignore (Emergency.claim_rewards env voter id))

-- The state that the host keeps.
abbrev pub step : Env → Invocation → Dao → Dao
step env i w = committed w (perform env i w)

-- The states that n invocations lead to from a state.
pub data Reach (origin : Dao) : ℕ → Dao → Type 0 where
  start : Reach origin 0 origin
  next :
      {n : ℕ} {w : Dao} (env : Env) (i : Invocation)
      → Reach origin n w
      → Reach origin (n + 1) (step env i w)

-- An invariant that failed invocations and successful calls keep holds of every state that is reached.
pub Reach_count :
    (P : ℕ → Dao → Type 0) {origin : Dao}
    → P 0 origin
    → ((n : ℕ) (w : Dao) → P n w → P (n + 1) w)
    → ((n : ℕ) (env : Env) (i : Invocation) (w w' : Dao)
        → P n w
        → perform env i w ≡ ok tt w'
        → P (n + 1) w')
    → {n : ℕ} {w : Dao} → Reach origin n w
    → P n w
Reach_count P first stay keep start = first
Reach_count P first stay keep (next {n = n} {w = w} env i r) =
    elim (Outcome-cases (perform env i w)) [
      | inl (_, w', e) ↦ rw e (keep n env i w w' (Reach_count P first stay keep r) e)
      | inr (inl (_, e)) ↦ rw e (stay n w (Reach_count P first stay keep r))
      | inr (inr e) ↦ rw e (stay n w (Reach_count P first stay keep r))
    ]

pub Reach_inv :
    (P : Dao → Type 0) {origin : Dao}
    → P origin
    → ((env : Env) (i : Invocation) (w w' : Dao) → P w → perform env i w ≡ ok tt w' → P w')
    → {n : ℕ} {w : Dao} → Reach origin n w
    → P w
Reach_inv P first keep = Reach_count (λ n w. P w) first (λ n w p. p) (λ n. keep)
