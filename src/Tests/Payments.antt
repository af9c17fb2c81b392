-- ===== src/Tests/Payments.antt =====
-- The payments contract on a concrete history, and its theorems applied to it.
use Prim.Native.Nat.{min}
use astraport_contracts.Base.{
  ◌≡◌, refl, true, not, ◌&&◌, ◌==◌, some, none, map, if◌then◌else◌, ◌-◌, ◌+◌,
}
use astraport_contracts.Base.Int.{pos, ◌+ℤ◌, ◌-ℤ◌, ◌≤ℤ◌}
use astraport_contracts.Base.Dict.{lookup, insert, number_key, pair_key}
use astraport_contracts.Host.{ok, err}
use astraport_contracts.Payments
use astraport_contracts.Payments.{
  Address, Symbol, EscrowRecord, Ledger, Env, active, released, refunded, release, refund, deployed,
  escrow_not_active, get_balance, settle_escrow, sum_escrow_amounts, list_escrows, check_cap,
}
use astraport_contracts.Payments.Trace.{
  Invocation, perform, step, Reach, start, next, now, then_invoked,
}
use astraport_contracts.Payments.Liabilities.{liabilities, held}
use astraport_contracts.Payments.Solvency.History.{Regular, solvency}
use astraport_contracts.Payments.Numbering.{
  IsNumbered, Reach-IsNumbered, newest, ids_from, list_escrows-newest,
}
use astraport_contracts.Payments.Lifecycle.{Continues, escrow_lifecycle}
use astraport_contracts.Payments.Settlement.{settle_outcome, settled_once}
use astraport_contracts.Payments.Promise.{SettlesTo}
use astraport_contracts.Payments.Balances.{InBalance, balance_range}
use astraport_contracts.Payments.Moves.{transfer_moves}

-- The contract is 99; everybody else authorises the calls, and the tokens accept them.
abbrev pub env : Env
env = record {
  self = 99;
  timestamp = 500;
  authorized = λ a. not (a == 99);
  accepts = λ history t. true;
  void_cap = none;
}

abbrev pub ready : Ledger
ready = step env (Invocation.set_token 1 7 70) (step env (Invocation.initialize 1) deployed)

abbrev pub funded : Ledger
funded = step env (Invocation.deposit 2 7 (pos 100)) ready

abbrev pub escrowed : Ledger
escrowed = step env (Invocation.create_escrow 2 3 7 (pos 40)) funded

abbrev settled : Ledger
settled = step env (Invocation.release_escrow 1 2) escrowed

deposited : get_balance 2 7 funded ≡ pos 100
unfolding perform Payments.get_balance Payments.initialize Payments.set_token Payments.deposit ◌+ℤ◌
    lookup insert
deposited = refl

escrowed_balance : get_balance 2 7 escrowed ≡ pos 60
unfolding perform Payments.get_balance Payments.initialize Payments.set_token Payments.deposit
    Payments.check_cap Payments.create_escrow ◌+ℤ◌ ◌-ℤ◌ lookup insert
escrowed_balance = refl

pub reached : Reach 99 Regular settled
unfolding perform Payments.initialize lookup
reached =
    next env (Invocation.release_escrow 1 2)
      (next env (Invocation.create_escrow 2 3 7 (pos 40))
        (next env (Invocation.deposit 2 7 (pos 100))
          (next env (Invocation.set_token 1 7 70)
            (next env (Invocation.initialize 1) start refl (refl, tt)) refl
            (refl, (refl, λ a h. cc)))
          refl (refl, tt))
        refl (refl, tt))
      refl (refl, tt)

settled_token : lookup 7 settled.tokens ≡ some 70
unfolding perform Payments.initialize Payments.set_token Payments.deposit Payments.check_cap
    Payments.create_escrow Payments.release_escrow Payments.settle_escrow ◌+ℤ◌ ◌-ℤ◌ lookup insert
settled_token = refl

solvency_example : liabilities 7 settled ≤ℤ held 99 70 settled
solvency_example = solvency 99 settled 7 70 reached settled_token

balance_range_example : InBalance (get_balance 2 7 settled)
balance_range_example = balance_range 99 Regular settled 2 7 reached

Reach-IsNumbered_example : IsNumbered settled
Reach-IsNumbered_example = Reach-IsNumbered reached

list_escrows-newest_example :
    map some (list_escrows settled)
    ≡ map
        (λ id. lookup id settled.escrows)
        (ids_from (newest settled - 200 + 1) (min 200 (newest settled)))
list_escrows-newest_example = list_escrows-newest settled (Reach-IsNumbered reached)

-- The escrow that is settled in the end.
abbrev pub first_escrow : EscrowRecord
first_escrow = record {
  escrow_id = 1;
  asset = 7;
  depositor = 2;
  receiver = 3;
  amount = pos 40;
  status = active;
  created_at = 500;
  settled_at = 0;
}

escrow_made : lookup 1 escrowed.escrows ≡ some first_escrow
unfolding perform Payments.initialize Payments.set_token Payments.deposit Payments.check_cap
    Payments.create_escrow ◌+ℤ◌ ◌-ℤ◌ lookup insert
escrow_made = refl

reached_escrowed : Reach 99 Regular escrowed
unfolding perform Payments.initialize lookup
reached_escrowed =
    next env (Invocation.create_escrow 2 3 7 (pos 40))
      (next env (Invocation.deposit 2 7 (pos 100))
        (next env (Invocation.set_token 1 7 70)
          (next env (Invocation.initialize 1) start refl (refl, tt)) refl (refl, (refl, λ a h. cc)))
        refl (refl, tt))
      refl (refl, tt)

escrow_lifecycle_example :
    (r' : EscrowRecord) × (lookup 1 settled.escrows ≡ some r') × Continues env first_escrow r'
escrow_lifecycle_example =
    escrow_lifecycle env (Invocation.release_escrow 1 2) escrowed 1 first_escrow
      (Reach-IsNumbered reached_escrowed) escrow_made

settle_outcome_example :
    SettlesTo env 1 2 escrowed released
      (λ r. r.receiver)
      release
      (Payments.release_escrow env 1 2 escrowed)
    × SettlesTo env 1 2 escrowed refunded
        (λ r. r.depositor)
        refund
        (Payments.refund_escrow env 1 2 escrowed)
settle_outcome_example = settle_outcome env 1 2 escrowed

release_succeeds : settle_escrow env 1 2 true escrowed ≡ ok tt settled
unfolding perform Payments.initialize Payments.set_token Payments.deposit Payments.check_cap
    Payments.create_escrow Payments.release_escrow Payments.settle_escrow ◌+ℤ◌ ◌-ℤ◌ lookup insert
release_succeeds = refl

-- After the release, the depositor opens another escrow and tries to have the first one back.
abbrev afterwards : Ledger
afterwards =
    step env (Invocation.refund_escrow 1 2)
      (step env (Invocation.create_escrow 2 3 7 (pos 10)) settled)

settled_once_example :
    (Payments.release_escrow env 1 3 afterwards ≡ err escrow_not_active)
    × (Payments.refund_escrow env 1 3 afterwards ≡ err escrow_not_active)
settled_once_example =
    settled_once env env 1 2 3 true escrowed settled afterwards reached_escrowed release_succeeds
      (then_invoked env (Invocation.refund_escrow 1 2)
        (then_invoked env (Invocation.create_escrow 2 3 7 (pos 10)) now))
      refl

abbrev moved : Ledger
moved = step env (Invocation.transfer 2 3 7 (pos 25)) funded

transfer_succeeds : Payments.transfer env 2 3 7 (pos 25) funded ≡ ok tt moved
unfolding perform Payments.initialize Payments.set_token Payments.deposit Payments.check_cap
    Payments.transfer ◌+ℤ◌ ◌-ℤ◌ lookup insert
transfer_succeeds = refl

transfer_moves_example :
    (get_balance 3 7 moved ≡ (
      if (2 == 3) && (7 == 7)
      then get_balance 3 7 funded -ℤ pos 25
      else if (3 == 3) && (7 == 7)
      then get_balance 3 7 funded +ℤ pos 25
      else get_balance 3 7 funded))
    × (liabilities 7 moved ≡ liabilities 7 funded)
    × (moved.transfers ≡ funded.transfers)
transfer_moves_example = transfer_moves env 2 3 7 (pos 25) funded moved 3 7 transfer_succeeds
