-- ===== src/Payments/Solvency/Calls.antt =====
-- contracts/payments/src/lib.rs: solvency through deposits, withdrawals and internal transfers.
use astraport_contracts.Base.{◌≡◌, false}
use astraport_contracts.Base.Int.{ℤ, ◌+ℤ◌, ◌-ℤ◌, int_laws}
use astraport_contracts.Base.Dict.{insert, lookup-insert, number_key, pair_key}
use astraport_contracts.Payments.Solvency.{
  IsSolvent, Backs, Backs-IsSolvent, Neutral, Neutral-IsSolvent,
}
use astraport_contracts.Payments.State.{Address, Symbol, Ledger, Env}
use astraport_contracts.Payments.Helpers.{get_balance, put_balance, publish}
use astraport_contracts.Payments.Outcomes.{Deposited, Withdrawn, Transferred}
use astraport_contracts.Payments.Liabilities.{net_inflow-cons, owed-balance}

module _ (env : Env) (sender : Address) (asset : Symbol) (amount : ℤ) (w : Ledger)
    {w' : Ledger} where
  deposit-Backs :
      env.authorized env.self ≡ false
      → (d : Deposited env sender asset amount w w') → Backs env.self asset d.token w w'
  unfolding publish put_balance get_balance
  deposit-Backs outside d = record {
    registered = d.registered;
    tokens = rw (d.left);
    others = λ a ne. rw d.left (
        grind (
          int_laws,
          owed-balance a sender asset (get_balance sender asset w +ℤ amount) w.balances w.escrows,
        ));
    kept = λ t ne. rw (d.left, net_inflow-cons) (grind int_laws);
    covered =
        rw (d.left, net_inflow-cons)
          (grind (
            int_laws,
            owed-balance asset sender asset (get_balance sender asset w +ℤ amount) w.balances
                w.escrows,
          ));
  }

  pub deposit-IsSolvent :
      env.authorized env.self ≡ false
      → IsSolvent env.self w
      → Deposited env sender asset amount w w'
      → IsSolvent env.self w'
  unfolding publish put_balance
  deposit-IsSolvent outside s d = Backs-IsSolvent (deposit-Backs outside d) s (rw d.left s.amounts)

module _ (env : Env) (recipient : Address) (asset : Symbol) (amount : ℤ) (w : Ledger) {w' : Ledger}
    (outside : env.authorized env.self ≡ false) (s : IsSolvent env.self w) where
  pub withdraw-IsSolvent : Withdrawn env recipient asset amount w w' → IsSolvent env.self w'
  unfolding publish put_balance get_balance
  withdraw-IsSolvent d =
      let paid : ℤ = get_balance recipient asset w -ℤ amount in
      let change = λ (a : Symbol). owed-balance a recipient asset paid w.balances w.escrows in
      Backs-IsSolvent {asset = asset} {token = d.token}
        (record {
          registered = d.registered;
          tokens = rw (d.left);
          others = λ a ne. rw d.left (grind (int_laws, change a));
          kept = λ t ne. rw (d.left, net_inflow-cons) (grind int_laws);
          covered = rw (d.left, net_inflow-cons) (grind (int_laws, change asset));
        })
        s (rw d.left s.amounts)

module _ (env : Env) (sender recipient : Address) (asset : Symbol) (amount : ℤ) (w : Ledger)
    {w' : Ledger} where
  pub transfer-Neutral : Transferred env sender recipient asset amount w w' → Neutral w w'
  unfolding publish put_balance get_balance
  transfer-Neutral d =
      let sent : ℤ = get_balance sender asset w -ℤ amount in
      let received : ℤ = get_balance recipient asset w +ℤ amount in
      record {
        tokens = rw d.left;
        transfers = rw d.left;
        same = λ a. rw d.left (
            grind (
              int_laws,
              owed-balance a sender asset sent w.balances w.escrows,
              owed-balance a recipient asset received (insert (sender, asset) sent w.balances)
                  w.escrows,
              lookup-insert (sender, asset) (recipient, asset) sent w.balances,
            ));
      }

  pub transfer-IsSolvent :
      {self : Address}
      → IsSolvent self w
      → Transferred env sender recipient asset amount w w'
      → IsSolvent self w'
  unfolding publish put_balance
  transfer-IsSolvent s d = Neutral-IsSolvent (transfer-Neutral d) s (rw d.left s.amounts)
