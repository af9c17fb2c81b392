-- ===== src/Payments/EscrowOutcomes.antt =====
-- What a successful escrow call has checked, and the state that it leaves.
use astraport_contracts.Base.{
  ℕ, ◌+◌, ◌<◌, ◌≡◌, refl, ◌≢◌, ◌⊎◌, inl, inr, Bool, true, false, some, ◌∷◌, arith, Option-cases,
  unwrap_or,
}
use astraport_contracts.Base.Int.{ℤ, pos, ◌-ℤ◌, ◌≤ℤ◌, ◌<ℤ◌, int_laws}
use astraport_contracts.Base.Dict.{lookup, insert, number_key, pair_key}
use astraport_contracts.Machine.{u64_modulus}
use astraport_contracts.Host.{ok, Outcome-cases}
use astraport_contracts.Payments.State.{
  Address, Symbol, EscrowRecord, Ledger, Env, escrow_created_event, escrow_settled_event, active,
}
use astraport_contracts.Payments.Helpers.{get_balance, put_balance, check_cap, publish}
use astraport_contracts.Payments.Escrow.{
  create_escrow, settle_escrow, is_active, settled_status, settlement, payee,
}
use astraport_contracts.Payments.Outcomes.{CapPassed, check_cap-ok}

-- The record of a new escrow.
abbrev pub new_escrow : Env → Address → Address → Symbol → ℤ → ℕ → EscrowRecord
new_escrow env depositor receiver asset amount id = record {
  escrow_id = id;
  asset = asset;
  depositor = depositor;
  receiver = receiver;
  amount = amount;
  status = active;
  created_at = env.timestamp;
  settled_at = 0;
}

pub record Created (env : Env) (depositor receiver : Address) (asset : Symbol) (amount : ℤ)
    (w : Ledger) (id : ℕ) (w' : Ledger) : Type 0 where
  pub signed : env.authorized depositor ≡ true
  pub positive : pos 0 <ℤ amount
  pub distinct : depositor ≢ receiver
  pub capped : CapPassed env asset amount w
  pub covered : amount ≤ℤ get_balance depositor asset w
  pub next_id : id ≡ unwrap_or w.escrow_id_counter 0 + 1
  pub id_in_range : id < u64_modulus
  pub left :
      w'
      ≡ publish
          (escrow_created_event id asset depositor receiver amount)
          (record (put_balance depositor asset (get_balance depositor asset w -ℤ amount) w) {
            escrow_id_counter = some id;
            escrow_count = some id;
            escrows = insert id (new_escrow env depositor receiver asset amount id) w.escrows;
          })

pub create_escrow-ok :
    (env : Env) (depositor receiver : Address) (asset : Symbol) (amount : ℤ) (w : Ledger) (id : ℕ)
    (w' : Ledger)
    → create_escrow env depositor receiver asset amount w ≡ ok id w'
    → Created env depositor receiver asset amount w id w'
unfolding create_escrow
create_escrow-ok env depositor receiver asset amount w id w' h =
    elim (Outcome-cases (check_cap env asset amount w)) [
      | inr failed ↦ ground arith
      | inl (_, w₁, e) ↦
          let k = (check_cap-ok env asset amount w e) in
          record {
            signed = ground arith;
            positive = ground arith;
            distinct = ground arith;
            capped = k.0;
            covered = grind int_laws;
            next_id = ground arith;
            id_in_range = ground arith;
            left = ground arith;
          }
    ]

-- The record of an escrow that is settled now.
abbrev pub settled : Env → Bool → EscrowRecord → EscrowRecord
settled env is_release r = record r {
  status = settled_status is_release;
  settled_at = env.timestamp;
}

pub record Settled (env : Env) (id : ℕ) (caller : Address) (is_release : Bool) (w w' : Ledger)
    : Type 0 where
  pub old : EscrowRecord
  pub found : lookup id w.escrows ≡ some old
  pub was_active : old.status ≡ active
  pub by_party : (caller ≡ old.depositor) ⊎ (caller ≡ old.receiver)
  pub token : Address
  pub registered : lookup old.asset w.tokens ≡ some token
  pub left :
      w'
      ≡ publish
          (escrow_settled_event id (settlement is_release) (payee is_release old) old.amount)
          (record w {
            escrows = insert id (settled env is_release old) w.escrows;
            transfers =
                record {
                  token = token;
                  sender = env.self;
                  recipient = payee is_release old;
                  amount = old.amount;
                }
                ∷ w.transfers;
          })

pub settle_escrow-ok :
    (env : Env) (id : ℕ) (caller : Address) (is_release : Bool) (w w' : Ledger)
    → settle_escrow env id caller is_release w ≡ ok tt w'
    → Settled env id caller is_release w w'
unfolding settle_escrow
settle_escrow-ok env id caller is_release w w' h = elim (Option-cases (lookup id w.escrows)) [
  | inl missing ↦ ground arith
  | inr (r, e) ↦ elim (Option-cases (lookup r.asset w.tokens)) [
    | inl unregistered ↦ ground arith
    | inr (t, e') ↦ record {
      old = r;
      found = e;
      was_active = ground arith;
      by_party = ground arith;
      token = t;
      registered = e';
      left = ground arith;
    }
  ]
]

pub settled_not_active : (is_release : Bool) → is_active (settled_status is_release) ≡ false
settled_not_active true = refl
settled_not_active false = refl
