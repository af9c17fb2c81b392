-- ===== src/Tests/PaymentsCaps.antt =====
-- Access, caps and withdrawals of the payments contract at concrete inputs.
use astraport_contracts.Base.{◌≡◌, ◌≢◌, refl, true, inl, some, []}
use astraport_contracts.Base.Int.{pos, ◌+ℤ◌, ◌-ℤ◌, ◌≤ℤ◌}
use astraport_contracts.Base.Dict.{lookup, insert, number_key, pair_key}
use astraport_contracts.Host.{ok}
use astraport_contracts.Payments
use astraport_contracts.Payments.{Ledger, get_balance, settle_escrow, check_cap}
use astraport_contracts.Payments.Trace.{Invocation, perform, step}
use astraport_contracts.Payments.Access.{Administers, admin_only}
use astraport_contracts.Payments.Caps.{
  Outflow, outflow_capped, zero_cap_blocks, with_caps, outcome_with_caps, settlement_uncapped,
}
use astraport_contracts.Payments.Balances.{IsFunded}
use astraport_contracts.Payments.Moves.{withdraw-deposit}
use astraport_contracts.Tests.Payments.{env, ready, funded, escrowed}

abbrev capped : Ledger
capped = step env (Invocation.set_global_cap 1 (pos 50)) funded

abbrev uncapped : Ledger
uncapped = step env (Invocation.set_global_cap 1 (pos 0)) funded

abbrev withdrawn : Ledger
withdrawn = step env (Invocation.withdraw 2 7 (pos 30)) capped

cap_set : perform env (Invocation.set_global_cap 1 (pos 50)) funded ≡ ok tt capped
unfolding perform Payments.initialize Payments.set_token Payments.deposit Payments.set_global_cap
    ◌+ℤ◌ lookup insert
cap_set = refl

cap_lifted : Payments.set_global_cap env 1 (pos 0) funded ≡ ok tt uncapped
unfolding perform Payments.initialize Payments.set_token Payments.deposit Payments.set_global_cap
    ◌+ℤ◌ lookup insert
cap_lifted = refl

cap_stored : capped.global_cap ≡ some (some (pos 50))
unfolding perform Payments.initialize Payments.set_token Payments.deposit Payments.set_global_cap
    ◌+ℤ◌ lookup insert
cap_stored = refl

withdrawal_succeeds : perform env (Invocation.withdraw 2 7 (pos 30)) capped ≡ ok tt withdrawn
unfolding perform Payments.initialize Payments.set_token Payments.deposit Payments.set_global_cap
    Payments.withdraw Payments.check_cap ◌+ℤ◌ ◌-ℤ◌ lookup insert
withdrawal_succeeds = refl

admin_only_example : (funded.admin ≡ some 1) × (env.authorized 1 ≡ true)
admin_only_example =
    admin_only env (Invocation.set_global_cap 1 (pos 50)) 1 funded capped
      (Administers.caps_all 1 (pos 50)) cap_set

funded_admin : funded.admin ≡ some 1
unfolding perform Payments.initialize Payments.set_token Payments.deposit ◌+ℤ◌ lookup insert
funded_admin = refl

outflow_capped_example : pos 30 ≤ℤ pos 50
outflow_capped_example =
    outflow_capped env (Invocation.withdraw 2 7 (pos 30)) 7 (pos 30) (pos 50) capped withdrawn
      (Outflow.withdrawal 2 7 (pos 30)) (inl cap_stored) withdrawal_succeeds

zero_cap_blocks_example : perform env (Invocation.withdraw 2 7 (pos 30)) uncapped ≢ ok tt funded
zero_cap_blocks_example =
    zero_cap_blocks env env 1 (Invocation.withdraw 2 7 (pos 30)) 7 (pos 30) funded uncapped funded
      cap_lifted refl (Outflow.withdrawal 2 7 (pos 30))

settlement_uncapped_example :
    settle_escrow env 1 2 true (with_caps (some (some (pos 1))) [] escrowed)
    ≡ outcome_with_caps (some (some (pos 1))) [] (settle_escrow env 1 2 true escrowed)
settlement_uncapped_example = settlement_uncapped env 1 2 true escrowed (some (some (pos 1))) []

ready-IsFunded : IsFunded ready
unfolding perform Payments.initialize Payments.set_token lookup insert
ready-IsFunded = record { stored = λ k v h. cc }

ready_token : lookup 7 ready.tokens ≡ some 70
unfolding perform Payments.initialize Payments.set_token lookup insert
ready_token = refl

deposit_succeeds : Payments.deposit env 2 7 (pos 100) ready ≡ ok tt funded
unfolding perform Payments.initialize Payments.set_token Payments.deposit ◌+ℤ◌ lookup insert
deposit_succeeds = refl

funded_cap : check_cap env 7 (pos 100) funded ≡ ok tt funded
unfolding perform Payments.initialize Payments.set_token Payments.deposit Payments.check_cap ◌+ℤ◌
    lookup insert
funded_cap = refl

withdraw-deposit_example :
    (w : Ledger) × (Payments.withdraw env 2 7 (pos 100) funded ≡ ok tt w)
    × (get_balance 2 7 w ≡ get_balance 2 7 ready)
withdraw-deposit_example =
    withdraw-deposit env env 2 7 (pos 100) 70 ready funded 2 7 ready-IsFunded ready_token
      deposit_succeeds refl funded_cap refl
