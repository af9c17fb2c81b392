-- ===== src/Payments/Solvency.antt =====
-- What the payments contract holds and what it owes, in every asset: the invariant.
pub mod Calls
pub mod Escrows
pub mod History
use astraport_contracts.Base.{
  ℕ, ◌≡◌, refl, sym, ◌∙◌, ◌≢◌, ◌⊎◌, inl, inr, Bool, true, false, Option, none, some, List, [], ◌∷◌,
  arith, ◌==◌, if◌then◌else◌, unwrap_or, Bool-cases,
}
use astraport_contracts.Base.Int.{ℤ, pos, ◌+ℤ◌, ◌-ℤ◌, ◌≤ℤ◌, ◌<ℤ◌, int_laws}
use astraport_contracts.Base.Dict.{Dict, lookup, insert, lookup-insert, number_key, pair_key}
use astraport_contracts.Host.{ok}
use native.Mathlib.Decide.{ℕ_discrete}
use mathlib.Core.Option.{some-injective}
use astraport_contracts.Payments.State.{Address, Symbol, EscrowRecord, Ledger, Env}
use astraport_contracts.Payments.Helpers.{get_balance, put_balance, publish}
use astraport_contracts.Payments.Outcomes.{
  Deposited, Withdrawn, Transferred, deposit-ok, withdraw-ok, transfer-ok,
}
use astraport_contracts.Payments.Liabilities.{
  liabilities, held, owed, net_inflow-cons, owed-balance, owed-escrow,
}

pub record IsSolvent (self : Address) (w : Ledger) : Type 0 where
  pub amounts : (id : ℕ) (r : EscrowRecord) → lookup id w.escrows ≡ some r → pos 0 ≤ℤ r.amount
  pub distinct :
      (a b : Symbol) (t : Address) → lookup a w.tokens ≡ some t → lookup b w.tokens ≡ some t → a ≡ b
  pub backed :
      (a : Symbol) (t : Address) → lookup a w.tokens ≡ some t → liabilities a w ≤ℤ held self t w
  pub idle : (a : Symbol) → lookup a w.tokens ≡ none → liabilities a w ≡ pos 0
  pub untouched :
      (t : Address) → ((a : Symbol) → lookup a w.tokens ≢ some t) → pos 0 ≤ℤ held self t w

-- What a call that moves tokens of one asset does.
pub record Backs (self : Address) (asset : Symbol) (token : Address) (w w' : Ledger) : Type 0 where
  pub registered : lookup asset w.tokens ≡ some token
  pub tokens : w'.tokens ≡ w.tokens
  pub others : (a : Symbol) → a ≢ asset → liabilities a w' ≡ liabilities a w
  pub kept : (t : Address) → t ≢ token → held self t w' ≡ held self t w
  pub covered :
      liabilities asset w' +ℤ held self token w ≤ℤ liabilities asset w +ℤ held self token w'

registered_token :
    (tokens : Dict Symbol Address) {a b : Symbol} {t u : Address}
    → a ≡ b
    → lookup a tokens ≡ some t
    → lookup b tokens ≡ some u
    → t ≡ u
registered_token tokens same p q = cc

not_registered :
    (tokens : Dict Symbol Address) {a b : Symbol} {u : Address}
    → lookup a tokens ≡ none
    → lookup b tokens ≡ some u
    → a ≢ b
not_registered tokens p q same = cc

module _ {self : Address} {w w' : Ledger} {asset : Symbol} {token : Address}
    (b : Backs self asset token w w') (s : IsSolvent self w) where
  Backs-backed :
      (a : Symbol) (t : Address) → lookup a w'.tokens ≡ some t → liabilities a w' ≤ℤ held self t w'
  Backs-backed a t e = elim (ℕ_discrete a asset) [
    | yes same ↦
        let key : t ≡ token = registered_token w.tokens same (rw b.tokens at e) b.registered in
        rw (same, key) (grind (int_laws, b.covered, s.backed asset token b.registered))
    | no other ↦
        rw
          (
            b.others a other,
            b.kept t (λ q. other (s.distinct a asset t (rw b.tokens at e) (rw q b.registered))),
          )
          (s.backed a t (rw b.tokens at e))
  ]

  pub Backs-IsSolvent :
      ((id : ℕ) (r : EscrowRecord) → lookup id w'.escrows ≡ some r → pos 0 ≤ℤ r.amount)
      → IsSolvent self w'
  Backs-IsSolvent amounts = record {
    amounts = amounts;
    distinct = rw b.tokens s.distinct;
    backed = Backs-backed;
    idle = λ a e.
        b.others a (not_registered w.tokens (rw b.tokens at e) b.registered)
        ∙ s.idle a (rw b.tokens at e);
    untouched = λ t fresh.
        rw (b.kept t (λ q. fresh asset (rw (b.tokens, q) b.registered)))
          (s.untouched t (rw b.tokens at fresh));
  }

-- What a call that moves no tokens does.
pub record Neutral (w w' : Ledger) : Type 0 where
  pub tokens : w'.tokens ≡ w.tokens
  pub transfers : w'.transfers ≡ w.transfers
  pub same : (a : Symbol) → liabilities a w' ≡ liabilities a w

pub Neutral-IsSolvent :
    {self : Address} {w w' : Ledger}
    → Neutral w w'
    → IsSolvent self w
    → ((id : ℕ) (r : EscrowRecord) → lookup id w'.escrows ≡ some r → pos 0 ≤ℤ r.amount)
    → IsSolvent self w'
Neutral-IsSolvent n s amounts = record {
  amounts = amounts;
  distinct = rw n.tokens s.distinct;
  backed = λ a t e. rw (n.same a, n.transfers) (s.backed a t (rw n.tokens at e));
  idle = λ a e. n.same a ∙ s.idle a (rw n.tokens at e);
  untouched = λ t fresh. rw n.transfers (s.untouched t (rw n.tokens at fresh));
}
