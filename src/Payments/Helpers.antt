-- ===== src/Payments/Helpers.antt =====
-- contracts/payments/src/lib.rs: the helpers above the contract's `impl`.
use astraport_contracts.Base.{Bool, not, Option, none, some, ◌∷◌, ◌==◌, unwrap_or}
use astraport_contracts.Base.Int.{ℤ, pos, leb_ℤ, ltb_ℤ, min_ℤ}
use astraport_contracts.Base.Dict.{lookup, insert, number_key, pair_key}
use astraport_contracts.Machine.{checked_sub}
use astraport_contracts.Host.{◌>>=◌, ◌>>◌, pure, gets, or_fail, or_panic, fail_if, require, modify}
use astraport_contracts.Payments.State.{
  Address, Symbol, Event, TokenTransfer, Ledger, Env, Call, not_initialized, unauthorized,
  token_not_registered, insufficient_balance, arithmetic_overflow, cap_exceeded,
}

unfoldable pub get_admin : Call Address
get_admin = do or_fail (← gets (λ w. w.admin)) not_initialized

unfoldable pub assert_admin : Address → Call (Unit {0})
unfolding get_admin
assert_admin caller = do admin ← get_admin; fail_if (not (caller == admin)) unauthorized

unfoldable pub token_address : Symbol → Call Address
token_address asset = do or_fail (← gets (λ w. lookup asset w.tokens)) token_not_registered

unfoldable pub get_balance : Address → Symbol → Ledger → ℤ
get_balance owner asset w = unwrap_or (lookup (owner, asset) w.balances) (pos 0)

unfoldable pub put_balance : Address → Symbol → ℤ → Ledger → Ledger
put_balance owner asset amount w = record w { balances = insert (owner, asset) amount w.balances }

-- `storage.get` at type `Option<i128>`
unfoldable pub read_cap : Env → Option (Option ℤ) → Call (Option ℤ)
read_cap env none = pure none
read_cap env (some (some cap)) = pure (some cap)
read_cap env (some none) = or_panic env.void_cap

unfoldable pub smaller_cap : Option ℤ → Option ℤ → Option ℤ
smaller_cap (some g) (some a) = some (min_ℤ g a)
smaller_cap (some g) none = some g
smaller_cap none (some a) = some a
smaller_cap none none = none

unfoldable pub effective_cap : Env → Symbol → Call (Option ℤ)
unfolding read_cap smaller_cap
effective_cap env asset = do
  global ← read_cap env (← gets (λ w. w.global_cap))
  per_asset ← read_cap env (← gets (λ w. lookup asset w.asset_caps))
  pure (smaller_cap global per_asset)

abbrev pub over_cap : Option ℤ → ℤ → Bool
over_cap none amount = Bool.false
over_cap (some cap) amount = ltb_ℤ cap amount

unfoldable pub check_cap : Env → Symbol → ℤ → Call (Unit {0})
unfolding effective_cap
check_cap env asset amount = do
  limit ← effective_cap env asset
  fail_if (over_cap limit amount) cap_exceeded

unfoldable pub checked_debit : ℤ → ℤ → Call ℤ
checked_debit balance amount = do
  new_balance ← or_fail (checked_sub balance amount) arithmetic_overflow
  fail_if (ltb_ℤ new_balance (pos 0)) insufficient_balance
  pure new_balance

unfoldable pub publish : Event → Ledger → Ledger
publish e w = record w { events = e ∷ w.events }

-- `token.transfer`: a refused transfer traps.
unfoldable pub token_transfer : Env → TokenTransfer → Call (Unit {0})
token_transfer env t = do
  require (env.accepts (← gets (λ w. w.transfers)) t)
  modify (λ w. record w { transfers = t ∷ w.transfers })

-- `amount <= 0`
abbrev pub not_positive : ℤ → Bool
not_positive amount = leb_ℤ amount (pos 0)
