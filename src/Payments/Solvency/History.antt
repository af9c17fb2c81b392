-- ===== src/Payments/Solvency/History.antt =====
-- The solvency of the payments contract over histories of invocations.
use mathlib.Core.Logic.{◌≢◌}
use mathlib.Core.Path.{subst}
use astraport_contracts.Base.{◌≡◌, refl, sym, inl, inr, true, false, some, none, arith}
use astraport_contracts.Base.Int.{◌+ℤ◌, ◌≤ℤ◌}
use astraport_contracts.Base.Dict.{lookup, insert, lookup-insert, lookup-insert_cases, number_key}
use astraport_contracts.Base.Dict.Total.{total}
use astraport_contracts.Host.{ok, Outcome-cases}
use astraport_contracts.Payments.State.{Address, Symbol, Ledger, Env, deployed}
use astraport_contracts.Payments.Helpers.{publish}
use astraport_contracts.Payments.Calls
use astraport_contracts.Payments.Escrow
use astraport_contracts.Payments.Outcomes.{deposit-ok, withdraw-ok, transfer-ok}
use astraport_contracts.Payments.EscrowOutcomes.{create_escrow-ok, settle_escrow-ok}
use astraport_contracts.Payments.Liabilities.{liabilities, held, owed, net_inflow}
use astraport_contracts.Payments.Trace.{Invocation, perform, Reach, Reach_inv}
use astraport_contracts.Payments.Changes.{perform-Change}
use astraport_contracts.Payments.Numbering.{
  IsNumbered, deployed-IsNumbered, Change-IsNumbered, fresh_id,
}
use astraport_contracts.Payments.Solvency.{IsSolvent, Neutral-IsSolvent}
use astraport_contracts.Payments.Solvency.Calls.{
  deposit-IsSolvent, withdraw-IsSolvent, transfer-IsSolvent,
}
use astraport_contracts.Payments.Solvency.Escrows.{create-IsSolvent, settle-IsSolvent}

-- A token is registered for an asset that had none, and backs no other asset.
abbrev pub RegistersAnew : Invocation → Ledger → Type 0
RegistersAnew (Invocation.set_token admin asset token) w =
    (lookup asset w.tokens ≡ none) × ((a : Symbol) → lookup a w.tokens ≢ some token)
RegistersAnew _ w = Unit

-- The contract does not authorise a call of itself, and tokens are registered anew only.
abbrev pub Regular : Env → Invocation → Ledger → Type 0
Regular env i w = (env.authorized env.self ≡ false) × RegistersAnew i w

pub deployed-IsSolvent : (self : Address) → IsSolvent self deployed
unfolding lookup owed total net_inflow ◌+ℤ◌
deployed-IsSolvent self = record {
  amounts = λ id r h. cc;
  distinct = λ a b t h k. cc;
  backed = λ a t h. cc;
  idle = λ a h. refl;
  untouched = λ t h. omega arith;
}

-- The state after a token is registered.
abbrev registered : Symbol → Address → Ledger → Ledger
registered asset token w = record w { tokens = insert asset token w.tokens }

module _ {self : Address} {w : Ledger} (s : IsSolvent self w) (asset : Symbol) (token : Address)
    (free : lookup asset w.tokens ≡ none)
    (unused : (a : Symbol) → lookup a w.tokens ≢ some token) where
  registered-distinct :
      (a b : Symbol) (t : Address)
      → lookup a (insert asset token w.tokens) ≡ some t
      → lookup b (insert asset token w.tokens) ≡ some t
      → a ≡ b
  registered-distinct a b t p q = ground (
    arith,
    lookup-insert_cases asset a token w.tokens p,
    lookup-insert_cases asset b token w.tokens q,
    s.distinct a b t,
    unused a,
    unused b,
  )

  registered-backed :
      (a : Symbol) (t : Address)
      → lookup a (insert asset token w.tokens) ≡ some t
      → liabilities a w ≤ℤ held self t w
  registered-backed a t p = elim (lookup-insert_cases asset a token w.tokens p) [
    | inl (same, val) ↦ rw (← same, ← val, s.idle asset free) (s.untouched token unused)
    | inr (other, old) ↦ s.backed a t old
  ]

  registered-IsSolvent : IsSolvent self (registered asset token w)
  registered-IsSolvent = record {
    amounts = s.amounts;
    distinct = registered-distinct;
    backed = registered-backed;
    idle = λ a p. s.idle a (ground (arith, lookup-insert asset a token w.tokens));
    untouched = λ t fresh.
        s.untouched t (λ a q. fresh a (ground (arith, lookup-insert asset a token w.tokens)));
  }

-- A call that writes neither tokens, balances, escrows nor transfers.
elsewhere-IsSolvent :
    {self : Address} (w w' : Ledger)
    → IsSolvent self w
    → (w'.tokens ≡ w.tokens)
      × (w'.transfers ≡ w.transfers)
      × (w'.balances ≡ w.balances)
      × (w'.escrows ≡ w.escrows)
    → IsSolvent self w'
elsewhere-IsSolvent w w' s (tokens, transfers, balances, escrows) =
    Neutral-IsSolvent
      (record { tokens = tokens; transfers = transfers; same = λ a. rw (balances, escrows) }) s
      (rw escrows s.amounts)

-- One successful call.
pub perform-IsSolvent :
    (env : Env) (i : Invocation) (w w' : Ledger)
    → Regular env i w
    → IsNumbered w
    → IsSolvent env.self w
    → perform env i w ≡ ok tt w'
    → IsSolvent env.self w'
unfolding perform Calls.initialize Calls.transfer_admin Calls.set_token Calls.set_global_cap
    Calls.set_asset_cap Escrow.release_escrow Escrow.refund_escrow publish
perform-IsSolvent env (Invocation.initialize admin) w w' g n s h =
    elsewhere-IsSolvent w w' s (ground arith)
perform-IsSolvent env (Invocation.transfer_admin caller new_admin) w w' g n s h =
    elsewhere-IsSolvent w w' s (ground arith)
perform-IsSolvent env (Invocation.set_token admin asset token) w w' g n s h =
    let left : w' ≡ registered asset token w = ground arith in
    rw left (registered-IsSolvent s asset token g.1.0 g.1.1)
perform-IsSolvent env (Invocation.set_global_cap admin limit) w w' g n s h =
    elsewhere-IsSolvent w w' s (ground arith)
perform-IsSolvent env (Invocation.set_asset_cap admin asset limit) w w' g n s h =
    elsewhere-IsSolvent w w' s (ground arith)
perform-IsSolvent env (Invocation.deposit sender asset amount) w w' g n s h =
    deposit-IsSolvent env sender asset amount w g.0 s (deposit-ok env sender asset amount w w' h)
perform-IsSolvent env (Invocation.withdraw recipient asset amount) w w' g n s h =
    withdraw-IsSolvent env recipient asset amount w g.0 s
      (withdraw-ok env recipient asset amount w w' h)
perform-IsSolvent env (Invocation.transfer sender recipient asset amount) w w' g n s h =
    transfer-IsSolvent env sender recipient asset amount w s
      (transfer-ok env sender recipient asset amount w w' h)
perform-IsSolvent env (Invocation.create_escrow depositor receiver asset amount) w w' g n s h =
    elim (Outcome-cases (Escrow.create_escrow env depositor receiver asset amount w)) [
      | inl (id, w₁, e) ↦
          let d = create_escrow-ok env depositor receiver asset amount w id w' (ground arith) in
          create-IsSolvent env depositor receiver asset amount w id (rw d.next_id (fresh_id n)) s d
      | inr failed ↦ ground arith
    ]
perform-IsSolvent env (Invocation.release_escrow id caller) w w' g n s h =
    settle-IsSolvent env id caller true w s
      (settle_escrow-ok env id caller true w w' (ground arith))
perform-IsSolvent env (Invocation.refund_escrow id caller) w w' g n s h =
    settle-IsSolvent env id caller false w s
      (settle_escrow-ok env id caller false w w' (ground arith))

Reach-IsSolvent :
    {self : Address} {w : Ledger} → Reach self Regular w → IsNumbered w × IsSolvent self w
Reach-IsSolvent {self} r =
    Reach_inv (λ w. IsNumbered w × IsSolvent self w) (deployed-IsNumbered, deployed-IsSolvent self)
      (λ env i w w' same regular inv h. (
        Change-IsNumbered inv.0 (perform-Change env i w w' h),
        subst (λ a. IsSolvent a w') (same)
            (perform-IsSolvent env i w w' regular inv.0
              (subst (λ a. IsSolvent a w) (sym same) inv.1) h),
      ))
      r

-- In every state that is reached by invocations of which none is authorised by the contract itself and
-- each registration of a token is for an asset that had none, with a token that backs no other asset:
-- of the token that an asset is registered with, the contract has received at least its liabilities in
-- that asset (the internal balances and the active escrows) more than it has sent.
pub solvency :
    (self : Address) (w : Ledger) (asset : Symbol) (token : Address)
    → Reach self Regular w
    → lookup asset w.tokens ≡ some token
    → liabilities asset w ≤ℤ held self token w
solvency self w asset token r found = (Reach-IsSolvent r).1.backed asset token found
