-- ===== src/Payments/Balances.antt =====
-- The internal balances and their range.
use astraport_contracts.Base.{◌≡◌, inl, inr, true, false, some, arith, Option-cases}
use astraport_contracts.Base.Int.{ℤ, pos, ◌+ℤ◌, ◌-ℤ◌, ◌≤ℤ◌, ◌<ℤ◌, int_laws}
use astraport_contracts.Base.Dict.{Dict, lookup, insert, insert_inv, pair_key, number_key}
use astraport_contracts.Machine.{InI128, i128_max}
use astraport_contracts.Host.{ok, Outcome-cases}
use astraport_contracts.Payments.State.{Address, Symbol, Ledger, Env, deployed}
use astraport_contracts.Payments.Helpers.{get_balance, put_balance, publish}
use astraport_contracts.Payments.Calls
use astraport_contracts.Payments.Escrow.{release_escrow, refund_escrow, create_escrow}
use astraport_contracts.Payments.Outcomes.{deposit-ok, withdraw-ok, transfer-ok}
use astraport_contracts.Payments.EscrowOutcomes.{create_escrow-ok, settle_escrow-ok}
use astraport_contracts.Payments.Trace.{Invocation, perform, Reach, Reach_inv}

abbrev pub InBalance : ℤ → Type 0
InBalance v = (pos 0 ≤ℤ v) × (v ≤ℤ i128_max)

pub InBalance-InI128 : (v : ℤ) → InBalance v → InI128 v
InBalance-InI128 v h = ground arith

-- Every stored balance is an amount from 0 to i128::MAX.
pub record IsFunded (w : Ledger) : Type 0 where
  pub stored : (k : Address × Symbol) (v : ℤ) → lookup k w.balances ≡ some v → InBalance v

pub get_balance-InBalance :
    (owner : Address) (asset : Symbol) (w : Ledger)
    → IsFunded w
    → InBalance (get_balance owner asset w)
unfolding get_balance
get_balance-InBalance owner asset w f = elim (Option-cases (lookup (owner, asset) w.balances)) [
  | inl missing ↦ rw missing (omega arith)
  | inr (v, found) ↦ rw found (f.stored (owner, asset) v found)
]

-- One write of a balance in range.
put-IsFunded :
    (owner : Address) (asset : Symbol) (v : ℤ) (balances : Dict (Address × Symbol) ℤ)
    → InBalance v
    → ((k : Address × Symbol) (x : ℤ) → lookup k balances ≡ some x → InBalance x)
    → (k : Address × Symbol) (x : ℤ) → lookup k (insert (owner, asset) v balances) ≡ some x
    → InBalance x
put-IsFunded owner asset v balances new old =
    insert_inv (λ k x. InBalance x) (owner, asset) v balances new old

module _ (a b : ℤ) where
  sum-InBalance : InBalance a → pos 0 <ℤ b → InI128 (a +ℤ b) → InBalance (a +ℤ b)
  sum-InBalance p q r = grind int_laws

  difference-InBalance : InBalance a → pos 0 <ℤ b → b ≤ℤ a → InBalance (a -ℤ b)
  difference-InBalance p q r = grind int_laws

perform-IsFunded :
    (env : Env) (i : Invocation) (w w' : Ledger)
    → IsFunded w
    → perform env i w ≡ ok tt w'
    → IsFunded w'
unfolding perform Calls.initialize Calls.transfer_admin Calls.set_token Calls.set_global_cap
    Calls.set_asset_cap release_escrow refund_escrow put_balance publish
perform-IsFunded env (Invocation.initialize a) w w' f h =
    let same : w'.balances ≡ w.balances = ground arith in record { stored = rw same f.stored }
perform-IsFunded env (Invocation.transfer_admin caller b) w w' f h =
    let same : w'.balances ≡ w.balances = ground arith in record { stored = rw same f.stored }
perform-IsFunded env (Invocation.set_token a asset token) w w' f h =
    let same : w'.balances ≡ w.balances = ground arith in record { stored = rw same f.stored }
perform-IsFunded env (Invocation.set_global_cap a limit) w w' f h =
    let same : w'.balances ≡ w.balances = ground arith in record { stored = rw same f.stored }
perform-IsFunded env (Invocation.set_asset_cap a asset limit) w w' f h =
    let same : w'.balances ≡ w.balances = ground arith in record { stored = rw same f.stored }
perform-IsFunded env (Invocation.deposit sender asset amount) w w' f h =
    let d = deposit-ok env sender asset amount w w' h in
    record {
      stored = rw d.left (
          put-IsFunded sender asset (get_balance sender asset w +ℤ amount) w.balances
            (sum-InBalance (get_balance sender asset w) amount
              (get_balance-InBalance sender asset w f) d.positive d.in_range)
            f.stored);
    }
perform-IsFunded env (Invocation.withdraw recipient asset amount) w w' f h =
    let d = withdraw-ok env recipient asset amount w w' h in
    record {
      stored = rw d.left (
          put-IsFunded recipient asset (get_balance recipient asset w -ℤ amount) w.balances
            (difference-InBalance (get_balance recipient asset w) amount
              (get_balance-InBalance recipient asset w f) d.positive d.covered)
            f.stored);
    }
perform-IsFunded env (Invocation.transfer sender recipient asset amount) w w' f h =
    let d = transfer-ok env sender recipient asset amount w w' h in
    record {
      stored = rw d.left (
          put-IsFunded recipient asset (get_balance recipient asset w +ℤ amount)
            (insert (sender, asset) (get_balance sender asset w -ℤ amount) w.balances)
            (sum-InBalance (get_balance recipient asset w) amount
              (get_balance-InBalance recipient asset w f) d.positive d.in_range)
            (put-IsFunded sender asset (get_balance sender asset w -ℤ amount) w.balances
              (difference-InBalance (get_balance sender asset w) amount
                (get_balance-InBalance sender asset w f) d.positive d.covered)
              f.stored));
    }
perform-IsFunded env (Invocation.create_escrow depositor receiver asset amount) w w' f h =
    elim (Outcome-cases (create_escrow env depositor receiver asset amount w)) [
      | inl (id, w₁, e) ↦
          let d = create_escrow-ok env depositor receiver asset amount w id w' (ground arith) in
          record {
            stored = rw d.left (
                put-IsFunded depositor asset (get_balance depositor asset w -ℤ amount) w.balances
                  (difference-InBalance (get_balance depositor asset w) amount
                    (get_balance-InBalance depositor asset w f) d.positive d.covered)
                  f.stored);
          }
      | inr failed ↦ ground arith
    ]
perform-IsFunded env (Invocation.release_escrow id caller) w w' f h = record {
  stored = rw (settle_escrow-ok env id caller true w w' (ground arith)).left f.stored;
}
perform-IsFunded env (Invocation.refund_escrow id caller) w w' f h = record {
  stored = rw (settle_escrow-ok env id caller false w w' (ground arith)).left f.stored;
}

deployed-IsFunded : IsFunded deployed
unfolding lookup
deployed-IsFunded = record { stored = λ k v h. cc }

-- In every reachable state every balance that is read lies between 0 and i128::MAX.
pub balance_range :
    (self : Address) (Allowed : Env → Invocation → Ledger → Type 0) (w : Ledger) (owner : Address)
    (asset : Symbol)
    → Reach self Allowed w
    → InBalance (get_balance owner asset w)
balance_range self Allowed w owner asset r = get_balance-InBalance owner asset w (
    Reach_inv IsFunded deployed-IsFunded
      (λ env i w₁ w₂ same allowed f h. perform-IsFunded env i w₁ w₂ f h) r)
