-- ===== src/Payments/Calls.antt =====
-- contracts/payments/src/lib.rs: the entry points on the admin, the tokens, the caps and the balances.
use astraport_contracts.Base.{Option, none, some, ◌==◌, if◌then◌else◌, is_some, unwrap_or}
use astraport_contracts.Base.Int.{ℤ, pos, ltb_ℤ, eqb_ℤ}
use astraport_contracts.Base.Dict.{insert, number_key}
use astraport_contracts.Machine.{checked_add}
use astraport_contracts.Host.{◌>>=◌, ◌>>◌, pure, gets, or_fail, fail_if, require, modify}
use astraport_contracts.Payments.State.{
  Address, Symbol, Env, Call, already_initialized, invalid_amount, arithmetic_overflow,
  deposit_event, withdraw_event, transfer_event, admin_set_event, global_cap_set_event,
  asset_cap_set_event,
}
use astraport_contracts.Payments.Helpers.{
  get_admin, assert_admin, token_address, get_balance, put_balance, effective_cap, check_cap,
  checked_debit, publish, token_transfer, not_positive,
}

unfoldable pub initialize : Address → Call (Unit {0})
initialize admin = do
  fail_if (is_some (← gets (λ w. w.admin))) already_initialized
  modify (λ w. record w { admin = some admin })

unfoldable pub transfer_admin : Env → Address → Address → Call (Unit {0})
unfolding get_admin assert_admin publish
transfer_admin env caller new_admin = do
  require (env.authorized caller)
  old_admin ← get_admin
  assert_admin caller
  modify (λ w. record w { admin = some new_admin })
  modify (publish (admin_set_event old_admin new_admin))

unfoldable pub set_token : Env → Address → Symbol → Address → Call (Unit {0})
unfolding assert_admin
set_token env admin asset token_id = do
  require (env.authorized admin)
  assert_admin admin
  modify (λ w. record w { tokens = insert asset token_id w.tokens })

-- `if cap == 0 { None } else { Some(cap) }`
abbrev pub cap_opt : ℤ → Option ℤ
cap_opt cap = if eqb_ℤ cap (pos 0) then none else some cap

unfoldable pub set_global_cap : Env → Address → ℤ → Call (Unit {0})
unfolding assert_admin publish
set_global_cap env admin cap = do
  require (env.authorized admin)
  assert_admin admin
  fail_if (ltb_ℤ cap (pos 0)) invalid_amount
  modify (λ w. record w { global_cap = some (cap_opt cap) })
  modify (publish (global_cap_set_event cap))

unfoldable pub set_asset_cap : Env → Address → Symbol → ℤ → Call (Unit {0})
unfolding assert_admin publish
set_asset_cap env admin asset cap = do
  require (env.authorized admin)
  assert_admin admin
  fail_if (ltb_ℤ cap (pos 0)) invalid_amount
  modify (λ w. record w { asset_caps = insert asset (cap_opt cap) w.asset_caps })
  modify (publish (asset_cap_set_event asset cap))

unfoldable pub get_effective_cap : Env → Symbol → Call ℤ
unfolding effective_cap
get_effective_cap env asset = do limit ← effective_cap env asset; pure (unwrap_or limit (pos 0))

unfoldable pub deposit : Env → Address → Symbol → ℤ → Call (Unit {0})
unfolding token_address get_balance put_balance token_transfer publish
deposit env sender asset amount = do
  require (env.authorized sender)
  fail_if (not_positive amount) invalid_amount
  token ← token_address asset
  balance ← gets (get_balance sender asset)
  new_balance ← or_fail (checked_add balance amount) arithmetic_overflow
  modify (put_balance sender asset new_balance)
  token_transfer env
      (record { token = token; sender = sender; recipient = env.self; amount = amount })
  modify (publish (deposit_event asset sender amount new_balance))

unfoldable pub withdraw : Env → Address → Symbol → ℤ → Call (Unit {0})
unfolding token_address get_balance checked_debit put_balance token_transfer publish
withdraw env recipient asset amount = do
  require (env.authorized recipient)
  fail_if (not_positive amount) invalid_amount
  check_cap env asset amount
  token ← token_address asset
  balance ← gets (get_balance recipient asset)
  new_balance ← checked_debit balance amount
  modify (put_balance recipient asset new_balance)
  token_transfer env
      (record { token = token; sender = env.self; recipient = recipient; amount = amount })
  modify (publish (withdraw_event asset recipient amount new_balance))

unfoldable pub transfer : Env → Address → Address → Symbol → ℤ → Call (Unit {0})
unfolding get_balance checked_debit put_balance publish
transfer env sender recipient asset amount = do
  require (env.authorized sender)
  fail_if (not_positive amount) invalid_amount
  fail_if (sender == recipient) invalid_amount
  check_cap env asset amount
  from_balance ← gets (get_balance sender asset)
  new_from ← checked_debit from_balance amount
  to_balance ← gets (get_balance recipient asset)
  new_to ← or_fail (checked_add to_balance amount) arithmetic_overflow
  modify (put_balance sender asset new_from)
  modify (put_balance recipient asset new_to)
  modify (publish (transfer_event asset sender recipient amount new_from new_to))
