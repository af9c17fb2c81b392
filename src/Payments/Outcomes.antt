-- ===== src/Payments/Outcomes.antt =====
-- What a successful call of the payments contract has checked, and the state that it leaves.
use astraport_contracts.Base.{
  ◌≡◌, ◌≢◌, inl, inr, true, false, Option, some, ◌∷◌, arith, Option-cases,
}
use astraport_contracts.Base.Int.{ℤ, pos, ◌+ℤ◌, ◌-ℤ◌, ◌≤ℤ◌, ◌<ℤ◌, int_laws}
use astraport_contracts.Base.Dict.{lookup, number_key, pair_key}
use astraport_contracts.Machine.{InI128}
use astraport_contracts.Host.{ok, Outcome-cases}
use astraport_contracts.Payments.State.{
  Address, Symbol, Ledger, Env, deposit_event, withdraw_event, transfer_event,
}
use astraport_contracts.Payments.Helpers.{
  get_balance, put_balance, check_cap, effective_cap, over_cap, publish,
}
use astraport_contracts.Payments.Calls.{deposit, withdraw, transfer}

-- A cap check passes and changes nothing.
pub record CapPassed (env : Env) (asset : Symbol) (amount : ℤ) (w : Ledger) : Type 0 where
  pub limit : Option ℤ
  pub read : effective_cap env asset w ≡ ok limit w
  pub within : over_cap limit amount ≡ false

effective_cap-reads :
    (env : Env) (asset : Symbol) (w : Ledger) {limit : Option ℤ} {w' : Ledger}
    → effective_cap env asset w ≡ ok limit w'
    → w' ≡ w
unfolding effective_cap
effective_cap-reads env asset w h = ground arith

pub check_cap-ok :
    (env : Env) (asset : Symbol) (amount : ℤ) (w : Ledger) {w' : Ledger}
    → check_cap env asset amount w ≡ ok tt w'
    → CapPassed env asset amount w × (w' ≡ w)
unfolding check_cap
check_cap-ok env asset amount w h = elim (Outcome-cases (effective_cap env asset w)) [
  | inl (limit, w₁, e) ↦ (
    record {
      limit = limit;
      read = ground (arith, effective_cap-reads env asset w e);
      within = ground arith;
    },
    ground (arith, effective_cap-reads env asset w e),
  )
  | inr failed ↦ ground arith
]

pub record Deposited (env : Env) (sender : Address) (asset : Symbol) (amount : ℤ) (w w' : Ledger)
    : Type 0 where
  pub token : Address
  pub registered : lookup asset w.tokens ≡ some token
  pub signed : env.authorized sender ≡ true
  pub positive : pos 0 <ℤ amount
  pub in_range : InI128 (get_balance sender asset w +ℤ amount)
  pub left :
      w'
      ≡ publish
          (deposit_event asset sender amount (get_balance sender asset w +ℤ amount))
          (record (put_balance sender asset (get_balance sender asset w +ℤ amount) w) {
            transfers =
                record { token = token; sender = sender; recipient = env.self; amount = amount }
                ∷ w.transfers;
          })

pub deposit-ok :
    (env : Env) (sender : Address) (asset : Symbol) (amount : ℤ) (w w' : Ledger)
    → deposit env sender asset amount w ≡ ok tt w'
    → Deposited env sender asset amount w w'
unfolding deposit
deposit-ok env sender asset amount w w' h = elim (Option-cases (lookup asset w.tokens)) [
  | inl missing ↦ ground arith
  | inr (t, e) ↦ record {
    token = t;
    registered = e;
    signed = ground arith;
    positive = ground arith;
    in_range = ground arith;
    left = ground arith;
  }
]

pub record Withdrawn (env : Env) (recipient : Address) (asset : Symbol) (amount : ℤ) (w w' : Ledger)
    : Type 0 where
  pub token : Address
  pub registered : lookup asset w.tokens ≡ some token
  pub signed : env.authorized recipient ≡ true
  pub positive : pos 0 <ℤ amount
  pub capped : CapPassed env asset amount w
  pub covered : amount ≤ℤ get_balance recipient asset w
  pub left :
      w'
      ≡ publish
          (withdraw_event asset recipient amount (get_balance recipient asset w -ℤ amount))
          (record (put_balance recipient asset (get_balance recipient asset w -ℤ amount) w) {
            transfers =
                record { token = token; sender = env.self; recipient = recipient; amount = amount }
                ∷ w.transfers;
          })

pub withdraw-ok :
    (env : Env) (recipient : Address) (asset : Symbol) (amount : ℤ) (w w' : Ledger)
    → withdraw env recipient asset amount w ≡ ok tt w'
    → Withdrawn env recipient asset amount w w'
unfolding withdraw
withdraw-ok env recipient asset amount w w' h =
    elim (Outcome-cases (check_cap env asset amount w)) [
      | inr failed ↦ ground arith
      | inl (_, w₁, e) ↦ elim (Option-cases (lookup asset w.tokens)) [
        | inl missing ↦ ground (arith, check_cap-ok env asset amount w e)
        | inr (t, e') ↦
            let k = (check_cap-ok env asset amount w e) in
            record {
              token = t;
              registered = e';
              signed = ground arith;
              positive = ground arith;
              capped = k.0;
              covered = grind int_laws;
              left = ground arith;
            }
      ]
    ]

pub record Transferred (env : Env) (sender recipient : Address) (asset : Symbol) (amount : ℤ)
    (w w' : Ledger) : Type 0 where
  pub signed : env.authorized sender ≡ true
  pub positive : pos 0 <ℤ amount
  pub distinct : sender ≢ recipient
  pub capped : CapPassed env asset amount w
  pub covered : amount ≤ℤ get_balance sender asset w
  pub in_range : InI128 (get_balance recipient asset w +ℤ amount)
  pub left :
      w'
      ≡ publish
          (transfer_event asset sender recipient amount
            (get_balance sender asset w -ℤ amount)
            (get_balance recipient asset w +ℤ amount))
          (put_balance recipient asset
            (get_balance recipient asset w +ℤ amount)
            (put_balance sender asset (get_balance sender asset w -ℤ amount) w))

pub transfer-ok :
    (env : Env) (sender recipient : Address) (asset : Symbol) (amount : ℤ) (w w' : Ledger)
    → transfer env sender recipient asset amount w ≡ ok tt w'
    → Transferred env sender recipient asset amount w w'
unfolding transfer
transfer-ok env sender recipient asset amount w w' h =
    elim (Outcome-cases (check_cap env asset amount w)) [
      | inr failed ↦ ground arith
      | inl (_, w₁, e) ↦
          let k = (check_cap-ok env asset amount w e) in
          record {
            signed = ground arith;
            positive = ground arith;
            distinct = ground arith;
            capped = k.0;
            covered = grind int_laws;
            in_range = ground arith;
            left = ground arith;
          }
    ]
