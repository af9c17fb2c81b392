-- ===== src/Payments/Promise.antt =====
-- contracts/payments/src/lib.rs: what `release_escrow` and `refund_escrow` promise.
use astraport_contracts.Base.{ℕ, ◌≡◌, ◌≢◌, ◌⊎◌, true, false, some, none, ◌∷◌}
use astraport_contracts.Base.Dict.{lookup, number_key}
use astraport_contracts.Host.{Outcome, ok, err, trap}
use astraport_contracts.Payments.State.{
  Address, EscrowStatus, active, EscrowRecord, Settlement, Ledger, Env, Error, escrow_not_found,
  escrow_not_active, not_escrow_party, token_not_registered, escrow_settled_event,
}

-- What a settlement leaves: the escrow is stored with its new status and the time, no other escrow
-- changes, the contract pays the escrow's amount out with the token, the event tells it, and the rest of
-- the storage stays.
pub record Settles (env : Env) (id : ℕ) (r : EscrowRecord) (token : Address) (status : EscrowStatus)
    (recipient : Address) (way : Settlement) (w w' : Ledger) : Type 0 where
  pub stored :
      lookup id w'.escrows ≡ some (record r { status = status; settled_at = env.timestamp })
  pub others : (j : ℕ) → j ≢ id → lookup j w'.escrows ≡ lookup j w.escrows
  pub paid :
      w'.transfers
      ≡ record { token = token; sender = env.self; recipient = recipient; amount = r.amount }
        ∷ w.transfers
  pub told : w'.events ≡ escrow_settled_event id way recipient r.amount ∷ w.events
  pub rest : record w' { escrows = w.escrows; transfers = w.transfers; events = w.events } ≡ w

-- Who may settle: the depositor and the receiver.
abbrev pub IsParty : Address → EscrowRecord → Type 0
IsParty caller r = (caller ≡ r.depositor) ⊎ (caller ≡ r.receiver)

-- How a settlement by a caller that leaves a status and pays a party of the record ends, as the contract
-- promises it: the conditions of each case exclude the other cases.
pub data SettlesTo (env : Env) (id : ℕ) (caller : Address) (w : Ledger) (status : EscrowStatus)
    (payee : EscrowRecord → Address) (way : Settlement)
    : Outcome Ledger Error (Unit {0}) → Type 0 where
  unsigned : env.authorized caller ≡ false → SettlesTo env id caller w status payee way trap
  missing :
      env.authorized caller ≡ true
      → lookup id w.escrows ≡ none
      → SettlesTo env id caller w status payee way (err escrow_not_found)
  closed :
      (r : EscrowRecord)
      → env.authorized caller ≡ true
      → lookup id w.escrows ≡ some r
      → r.status ≢ active
      → SettlesTo env id caller w status payee way (err escrow_not_active)
  stranger :
      (r : EscrowRecord)
      → env.authorized caller ≡ true
      → lookup id w.escrows ≡ some r
      → r.status ≡ active
      → ¬ (IsParty caller r)
      → SettlesTo env id caller w status payee way (err not_escrow_party)
  unregistered :
      (r : EscrowRecord)
      → env.authorized caller ≡ true
      → lookup id w.escrows ≡ some r
      → r.status ≡ active
      → IsParty caller r
      → lookup r.asset w.tokens ≡ none
      → SettlesTo env id caller w status payee way (err token_not_registered)
  refused :
      (r : EscrowRecord) (token : Address)
      → env.authorized caller ≡ true
      → lookup id w.escrows ≡ some r
      → r.status ≡ active
      → IsParty caller r
      → lookup r.asset w.tokens ≡ some token
      → env.accepts w.transfers
          (record { token = token; sender = env.self; recipient = payee r; amount = r.amount })
        ≡ false
      → SettlesTo env id caller w status payee way trap
  done :
      (r : EscrowRecord) (token : Address) (w' : Ledger)
      → env.authorized caller ≡ true
      → lookup id w.escrows ≡ some r
      → r.status ≡ active
      → IsParty caller r
      → lookup r.asset w.tokens ≡ some token
      → env.accepts w.transfers
          (record { token = token; sender = env.self; recipient = payee r; amount = r.amount })
        ≡ true
      → Settles env id r token status (payee r) way w w'
      → SettlesTo env id caller w status payee way (ok tt w')
