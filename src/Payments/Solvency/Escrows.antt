-- ===== src/Payments/Solvency/Escrows.antt =====
-- contracts/payments/src/lib.rs: solvency through the creation and settlement of escrows.
use astraport_contracts.Base.{ℕ, ◌≡◌, Bool, none, arith}
use astraport_contracts.Base.Int.{ℤ, pos, ◌-ℤ◌, ◌≤ℤ◌, int_laws}
use astraport_contracts.Base.Dict.{lookup, insert, insert_inv, number_key, pair_key}
use astraport_contracts.Payments.Solvency.{
  IsSolvent, Backs, Backs-IsSolvent, Neutral, Neutral-IsSolvent,
}
use astraport_contracts.Payments.State.{Address, Symbol, EscrowRecord, Ledger, Env}
use astraport_contracts.Payments.Helpers.{get_balance, put_balance, publish}
use astraport_contracts.Payments.EscrowOutcomes.{
  Created, Settled, new_escrow, settled, settled_not_active,
}
use astraport_contracts.Payments.Liabilities.{net_inflow-cons, owed-balance, owed-escrow}

module _ (env : Env) (depositor receiver : Address) (asset : Symbol) (amount : ℤ) (w : Ledger)
    (id : ℕ) {w' : Ledger} where
  -- The new id is not in use.
  create-Neutral :
      lookup id w.escrows ≡ none
      → Created env depositor receiver asset amount w id w'
      → Neutral w w'
  unfolding publish put_balance get_balance
  create-Neutral fresh d =
      let rest : ℤ = get_balance depositor asset w -ℤ amount in
      let r : EscrowRecord = new_escrow env depositor receiver asset amount id in
      record {
        tokens = rw d.left;
        transfers = rw d.left;
        same = λ a. rw d.left (
            grind (
              int_laws,
              owed-balance a depositor asset rest w.balances w.escrows,
              owed-escrow a id r (insert (depositor, asset) rest w.balances) w.escrows,
            ));
      }

  pub create-IsSolvent :
      {self : Address}
      → lookup id w.escrows ≡ none
      → IsSolvent self w
      → Created env depositor receiver asset amount w id w'
      → IsSolvent self w'
  unfolding publish put_balance
  create-IsSolvent fresh s d = Neutral-IsSolvent (create-Neutral fresh d) s (
      rw d.left (
        insert_inv (λ j r. pos 0 ≤ℤ r.amount) id (new_escrow env depositor receiver asset amount id)
          w.escrows (omega (arith, d.positive)) s.amounts))

module _ (env : Env) (id : ℕ) (caller : Address) (is_release : Bool) (w : Ledger) {w' : Ledger}
    (s : IsSolvent env.self w) where
  settle-Backs :
      (d : Settled env id caller is_release w w') → Backs env.self d.old.asset d.token w w'
  unfolding publish
  settle-Backs d =
      let change =
        λ (a : Symbol). owed-escrow a id (settled env is_release d.old) w.balances w.escrows in
      let gone = settled_not_active is_release in
      record {
        registered = d.registered;
        tokens = rw (d.left);
        others = λ a ne. rw d.left (grind (int_laws, change a));
        kept = λ t ne. rw (d.left, net_inflow-cons) (grind int_laws);
        covered =
            rw (d.left, net_inflow-cons)
              (grind (int_laws, change d.old.asset, s.amounts id d.old d.found));
      }

  pub settle-IsSolvent : Settled env id caller is_release w w' → IsSolvent env.self w'
  unfolding publish
  settle-IsSolvent d = Backs-IsSolvent (settle-Backs d) s (
      rw d.left (
        insert_inv (λ j r. pos 0 ≤ℤ r.amount) id (settled env is_release d.old) w.escrows
          (s.amounts id d.old d.found) s.amounts))
