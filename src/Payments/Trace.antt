-- ===== src/Payments/Trace.antt =====
-- Invocations of the payments contract, one after the other: each commits its writes or none.
use astraport_contracts.Base.{ℕ, ◌≡◌, inl, inr}
use astraport_contracts.Base.Int.{ℤ}
use astraport_contracts.Host.{ok, ◌>>◌, pure, committed, Outcome-cases}
use astraport_contracts.Payments.State.{Address, Symbol, Ledger, Env, Call, deployed}
use astraport_contracts.Payments.Calls
use astraport_contracts.Payments.Escrow

-- The entry points that write.
pub data Invocation : Type 0 where
  initialize : Address → Invocation
  transfer_admin : Address → Address → Invocation
  set_token : Address → Symbol → Address → Invocation
  set_global_cap : Address → ℤ → Invocation
  set_asset_cap : Address → Symbol → ℤ → Invocation
  deposit : Address → Symbol → ℤ → Invocation
  withdraw : Address → Symbol → ℤ → Invocation
  transfer : Address → Address → Symbol → ℤ → Invocation
  create_escrow : Address → Address → Symbol → ℤ → Invocation
  release_escrow : ℕ → Address → Invocation
  refund_escrow : ℕ → Address → Invocation

unfoldable pub perform : Env → Invocation → Call (Unit {0})
perform env (initialize admin) = Calls.initialize admin
perform env (transfer_admin caller new_admin) = Calls.transfer_admin env caller new_admin
perform env (set_token admin asset token) = Calls.set_token env admin asset token
perform env (set_global_cap admin limit) = Calls.set_global_cap env admin limit
perform env (set_asset_cap admin asset limit) = Calls.set_asset_cap env admin asset limit
perform env (deposit sender asset amount) = Calls.deposit env sender asset amount
perform env (withdraw recipient asset amount) = Calls.withdraw env recipient asset amount
perform env (transfer sender recipient asset amount) =
    Calls.transfer env sender recipient asset amount
perform env (create_escrow depositor receiver asset amount) =
    Escrow.create_escrow env depositor receiver asset amount >> pure tt
perform env (release_escrow id caller) = Escrow.release_escrow env id caller
perform env (refund_escrow id caller) = Escrow.refund_escrow env id caller

-- The storage after an invocation.
abbrev pub step : Env → Invocation → Ledger → Ledger
step env i w = committed w (perform env i w)

-- The states that invocations lead to, from a contract that has just been deployed at `self`.
-- `Allowed` restricts the invocations.
pub data Reach (self : Address) (Allowed : Env → Invocation → Ledger → Type 0)
    : Ledger → Type 0 where
  start : Reach self Allowed deployed
  next :
      {w : Ledger} (env : Env) (i : Invocation)
      → Reach self Allowed w
      → env.self ≡ self
      → Allowed env i w
      → Reach self Allowed (step env i w)

-- An invariant that holds after every successful call holds of every state that is reached.
pub Reach_inv :
    {self : Address} {Allowed : Env → Invocation → Ledger → Type 0} (P : Ledger → Type 0)
    → P deployed
    → ((env : Env) (i : Invocation) (w w' : Ledger)
        → env.self ≡ self
        → Allowed env i w
        → P w
        → perform env i w ≡ ok tt w'
        → P w')
    → {w : Ledger} → Reach self Allowed w
    → P w
Reach_inv P first keep start = first
Reach_inv P first keep (next {w = w} env i r same allowed) =
    elim (Outcome-cases (perform env i w)) [
      | inl (_, w', e) ↦ rw e (keep env i w w' same allowed (Reach_inv P first keep r) e)
      | inr (inl (_, e)) ↦ rw e (Reach_inv P first keep r)
      | inr (inr e) ↦ rw e (Reach_inv P first keep r)
    ]

-- The states that invocations lead to from a state.
pub data Later (w : Ledger) : Ledger → Type 0 where
  now : Later w w
  then_invoked : {x : Ledger} (env : Env) (i : Invocation) → Later w x → Later w (step env i x)
