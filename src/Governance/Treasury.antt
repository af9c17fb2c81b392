-- ===== src/Governance/Treasury.antt =====
-- contracts/governance/src/treasury.rs: the treasury and its multi-signature requests.
use astraport_contracts.Base.{
  ℕ, true, false, not, ◌&&◌, Option, some, List, [], ◌∷◌, ◌++◌, ltb, ◌==◌, if◌then◌else◌, unwrap_or,
  contains, length,
}
use astraport_contracts.Base.Int.{ℤ, pos, leb_ℤ, ltb_ℤ}
use astraport_contracts.Base.Dict.{lookup, insert, number_key}
use astraport_contracts.Machine.{checked_add, checked_mul, wrapping_sub, wrapping_add_u64, quotient}
use astraport_contracts.Host.{◌>>=◌, ◌>>◌, pure, gets, or_fail, fail_if, require, modify}
use astraport_contracts.Governance.Types.{
  Address, Symbol, TreasuryRequest, GovernanceConfig, Dao, Env, TreasuryCall, treasury_deposited,
  treasury_requested, treasury_approved, treasury_executed, treasury_cancelled,
  insufficient_balance, request_not_found, already_executed, not_a_signer, already_approved,
  insufficient_approvals, exceeds_spend_limit, invalid_amount,
}
use astraport_contracts.Governance.Helpers.{publish}
use astraport_contracts.Governance.Setup.{track_stored}

unfoldable pub balance_of : Symbol → Dao → ℤ
balance_of asset w = unwrap_or (lookup asset w.treasury_balances) (pos 0)

unfoldable pub get_signers : Dao → List Address
get_signers w = unwrap_or w.treasury_signers []

unfoldable pub deposit : Env → Address → Symbol → ℤ → TreasuryCall ℤ
unfolding balance_of publish
deposit env depositor asset amount = do
  require (env.authorized depositor)
  fail_if (leb_ℤ amount (pos 0)) invalid_amount
  current ← gets (balance_of asset)
  new_balance ← or_fail (checked_add current amount) insufficient_balance
  modify (λ w. record w { treasury_balances = insert asset new_balance w.treasury_balances })
  modify (λ w. record w { treasury_assets = track_stored asset w.treasury_assets })
  modify (publish (treasury_deposited depositor asset amount))
  pure new_balance

unfoldable pub put_request : ℕ → TreasuryRequest → Dao → Dao
put_request id r w = record w { treasury_requests = insert id r w.treasury_requests }

unfoldable pub create_request :
    Env → Address → Address → ℤ → Symbol → Symbol → GovernanceConfig → TreasuryCall ℕ
unfolding balance_of put_request publish
create_request env requester recipient amount asset reason config = do
  require (env.authorized requester)
  fail_if (leb_ℤ amount (pos 0)) invalid_amount
  balance ← gets (balance_of asset)
  product ← or_fail (checked_mul balance (pos config.max_treasury_spend_bps)) insufficient_balance
  fail_if (ltb_ℤ (quotient product (pos 10_000)) amount) exceeds_spend_limit
  request_id ← gets (λ w. unwrap_or w.next_treasury_request_id 1)
  let request : TreasuryRequest = record {
    request_id = request_id;
    recipient = recipient;
    amount = amount;
    asset = asset;
    reason = reason;
    approvals = [];
    executed = false;
    created_at = env.timestamp;
  }
  modify (put_request request_id request)
  modify (λ w. record w { next_treasury_request_id = some (wrapping_add_u64 request_id 1) })
  modify (publish (treasury_requested requester asset request_id amount recipient))
  pure request_id

unfoldable pub approve_request : Env → Address → ℕ → TreasuryCall TreasuryRequest
unfolding get_signers put_request publish
approve_request env signer request_id = do
  require (env.authorized signer)
  signers ← gets get_signers
  admin ← or_fail (← gets (λ w. w.admin)) not_a_signer
  fail_if (not (contains signer signers) && not (signer == admin)) not_a_signer
  request ← or_fail (← gets (λ w. lookup request_id w.treasury_requests)) request_not_found
  fail_if request.executed already_executed
  fail_if (contains signer request.approvals) already_approved
  let updated : TreasuryRequest = record request { approvals = request.approvals ++ signer ∷ [] }
  modify (put_request request_id updated)
  modify (publish (treasury_approved signer request_id (length updated.approvals)))
  pure updated

unfoldable pub execute_request : Env → ℕ → GovernanceConfig → TreasuryCall ℤ
unfolding balance_of put_request publish
execute_request env request_id config = do
  request ← or_fail (← gets (λ w. lookup request_id w.treasury_requests)) request_not_found
  fail_if request.executed already_executed
  fail_if (ltb (length request.approvals) config.treasury_multisig_threshold) insufficient_approvals
  balance ← gets (balance_of request.asset)
  fail_if (ltb_ℤ balance request.amount) insufficient_balance
  let new_balance : ℤ = wrapping_sub balance request.amount
  modify
      (λ w. record w { treasury_balances = insert request.asset new_balance w.treasury_balances })
  modify (put_request request_id (record request { executed = true }))
  modify (publish (treasury_executed request.recipient request_id request.amount request.asset))
  pure request.amount

-- Not called by an entry point of lib.rs.
unfoldable pub cancel_request : Env → Address → ℕ → TreasuryCall (Unit {0})
unfolding put_request publish
cancel_request env admin request_id = do
  require (env.authorized admin)
  request ← or_fail (← gets (λ w. lookup request_id w.treasury_requests)) request_not_found
  fail_if request.executed already_executed
  modify (put_request request_id (record request { executed = true }))
  modify (publish (treasury_cancelled admin request_id))

unfoldable pub add_signer : Env → Address → Address → TreasuryCall (Unit {0})
add_signer env admin signer = do
  require (env.authorized admin)
  modify (λ w. record w { treasury_signers = track_stored signer w.treasury_signers })

-- The first occurrence is removed.
abbrev pub remove_first : ℕ → List ℕ → List ℕ
remove_first x [] = []
remove_first x (y ∷ ys) = if y == x then ys else y ∷ remove_first x ys

-- The list is written only when the signer was on it.
abbrev pub untrack_stored : ℕ → Option (List ℕ) → Option (List ℕ)
untrack_stored x stored =
    if contains x (unwrap_or stored []) then some (remove_first x (unwrap_or stored [])) else stored

unfoldable pub remove_signer : Env → Address → Address → TreasuryCall (Unit {0})
remove_signer env admin signer = do
  require (env.authorized admin)
  modify (λ w. record w { treasury_signers = untrack_stored signer w.treasury_signers })
