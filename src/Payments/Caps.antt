-- ===== src/Payments/Caps.antt =====
-- The spending caps: which calls they bound, what a cap of 0 does, and which calls they do not bound.
use astraport_contracts.Base.{ℕ, ◌≡◌, ◌≢◌, ◌⊎◌, inl, inr, Bool, Option, some, none, arith}
use astraport_contracts.Base.Int.{ℤ, pos, ◌≤ℤ◌}
use astraport_contracts.Base.Dict.{Dict, lookup, number_key}
use astraport_contracts.Host.{Outcome, ok, err, trap, Outcome-cases}
use astraport_contracts.Payments.State.{Address, Symbol, Ledger, Env}
use astraport_contracts.Payments.Helpers.{effective_cap, publish}
use astraport_contracts.Payments.Calls
use astraport_contracts.Payments.Escrow.{settle_escrow, create_escrow}
use astraport_contracts.Payments.Outcomes.{CapPassed, withdraw-ok, transfer-ok}
use astraport_contracts.Payments.EscrowOutcomes.{create_escrow-ok}
use astraport_contracts.Payments.Trace.{Invocation, perform}

-- The calls that check the cap, with the asset and the amount that they move.
pub data Outflow : Invocation → Symbol → ℤ → Type 0 where
  withdrawal :
      (recipient : Address) (asset : Symbol) (amount : ℤ)
      → Outflow (Invocation.withdraw recipient asset amount) asset amount
  internal :
      (sender recipient : Address) (asset : Symbol) (amount : ℤ)
      → Outflow (Invocation.transfer sender recipient asset amount) asset amount
  escrow :
      (depositor receiver : Address) (asset : Symbol) (amount : ℤ)
      → Outflow (Invocation.create_escrow depositor receiver asset amount) asset amount

-- A cap is set globally or for the asset.
abbrev pub CapSet : Symbol → ℤ → Ledger → Type 0
CapSet asset limit w =
    (w.global_cap ≡ some (some limit)) ⊎ (lookup asset w.asset_caps ≡ some (some limit))

Outflow-CapPassed :
    {i : Invocation} {asset : Symbol} {amount : ℤ} (env : Env) (w w' : Ledger)
    → Outflow i asset amount
    → perform env i w ≡ ok tt w'
    → CapPassed env asset amount w
unfolding perform
Outflow-CapPassed env w w' (withdrawal recipient asset amount) h =
    (withdraw-ok env recipient asset amount w w' h).capped
Outflow-CapPassed env w w' (internal sender recipient asset amount) h =
    (transfer-ok env sender recipient asset amount w w' h).capped
Outflow-CapPassed env w w' (escrow depositor receiver asset amount) h =
    elim (Outcome-cases (create_escrow env depositor receiver asset amount w)) [
      | inl (id, w₁, e) ↦
          (create_escrow-ok env depositor receiver asset amount w id w' (ground arith)).capped
      | inr failed ↦ ground arith
    ]

CapPassed-le :
    (env : Env) (asset : Symbol) (amount limit : ℤ) (w : Ledger)
    → CapSet asset limit w
    → CapPassed env asset amount w
    → amount ≤ℤ limit
unfolding effective_cap
CapPassed-le env asset amount limit w (inl set) c = ground (arith, c.read, c.within)
CapPassed-le env asset amount limit w (inr set) c = ground (arith, c.read, c.within)

-- No withdrawal, internal transfer or new escrow that succeeds exceeds a cap that is set, be it global
-- or of the asset.
pub outflow_capped :
    (env : Env) (i : Invocation) (asset : Symbol) (amount limit : ℤ) (w w' : Ledger)
    → Outflow i asset amount
    → CapSet asset limit w
    → perform env i w ≡ ok tt w'
    → amount ≤ℤ limit
outflow_capped env i asset amount limit w w' o set h =
    CapPassed-le env asset amount limit w set (Outflow-CapPassed env w w' o h)

void_cap-fails :
    (env : Env) (asset : Symbol) (amount : ℤ) (w : Ledger)
    → env.void_cap ≡ none
    → w.global_cap ≡ some none
    → ¬ (CapPassed env asset amount w)
unfolding effective_cap
void_cap-fails env asset amount w v g c = ground (arith, c.read)

-- Where the SDK traps on reading a stored void as an `i128`, setting the global cap to 0 blocks every
-- withdrawal, internal transfer and new escrow, instead of lifting the cap.
pub zero_cap_blocks :
    (env env' : Env) (admin : Address) (i : Invocation) (asset : Symbol) (amount : ℤ)
    (w w₁ w₂ : Ledger)
    → Calls.set_global_cap env admin (pos 0) w ≡ ok tt w₁
    → env'.void_cap ≡ none
    → Outflow i asset amount
    → perform env' i w₁ ≢ ok tt w₂
unfolding Calls.set_global_cap publish
zero_cap_blocks env env' admin i asset amount w w₁ w₂ h v o k =
    void_cap-fails env' asset amount w₁ v (ground arith) (Outflow-CapPassed env' w₁ w₂ o k)

-- The ledger with other caps.
abbrev pub with_caps : Option (Option ℤ) → Dict Symbol (Option ℤ) → Ledger → Ledger
with_caps global per_asset w = record w { global_cap = global; asset_caps = per_asset }

-- The outcome of a settlement with other caps in its state.
abbrev pub outcome_with_caps :
    {E A : Type 0}
    → Option (Option ℤ)
    → Dict Symbol (Option ℤ)
    → Outcome Ledger E A
    → Outcome Ledger E A
outcome_with_caps global per_asset (ok a w) = ok a (with_caps global per_asset w)
outcome_with_caps global per_asset (err e) = err e
outcome_with_caps global per_asset trap = trap

-- No cap bounds the release or refund of an escrow: with any other caps the call ends the same way.
pub settlement_uncapped :
    (env : Env) (id : ℕ) (caller : Address) (is_release : Bool) (w : Ledger)
    (global : Option (Option ℤ)) (per_asset : Dict Symbol (Option ℤ))
    → settle_escrow env id caller is_release (with_caps global per_asset w)
      ≡ outcome_with_caps global per_asset (settle_escrow env id caller is_release w)
unfolding settle_escrow
settlement_uncapped env id caller is_release w global per_asset = ground arith
