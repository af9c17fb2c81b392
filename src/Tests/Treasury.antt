-- ===== src/Tests/Treasury.antt =====
-- The treasury of the DAO on a concrete history, and its theorems applied to it.
use astraport_contracts.Base.{ℕ, ◌≡◌, refl, true, false, some, List, [], ◌∷◌}
use astraport_contracts.Base.Int.{pos, ◌+ℤ◌, ◌*ℤ◌, ◌-ℤ◌}
use astraport_contracts.Base.Dict.{lookup, insert, number_key}
use astraport_contracts.Machine.{wrap_i128, wrapping_sub, wrapping_add_u64, quotient}
use astraport_contracts.Host.{ok, Returns, ◌>>◌}
use astraport_contracts.Governance.Types.{Dao, Env, TreasuryRequest, deployed}
use astraport_contracts.Governance.Helpers.{get_config}
use astraport_contracts.Governance.Setup
use astraport_contracts.Governance.Treasury
use astraport_contracts.Governance.Treasury.{balance_of, get_signers, add_signer, approve_request}
use astraport_contracts.Governance.Trace.{Invocation, perform, step, Reach, start, next}
use astraport_contracts.Governance.Spending.{IsSpent, spending_needs_approvals}
use astraport_contracts.Governance.Signers.{anyone_can_approve}

-- Everybody authorizes the calls.
abbrev here : Env
here = record { timestamp = 50; authorized = λ a. true; audited = λ past call. true }

abbrev founded : Dao
founded = step here (Invocation.initialize 1 2) deployed

abbrev funded : Dao
funded = step here (Invocation.treasury_deposit 3 7 (pos 1_000)) founded

abbrev asked : Dao
asked = step here (Invocation.treasury_create_request 3 5 (pos 100) 7 8) funded

abbrev approved_once : Dao
approved_once = step here (Invocation.treasury_approve_request 1 1) asked

abbrev joined : Dao
joined = step here (Invocation.treasury_add_signer 6 6) approved_once

abbrev approved : Dao
approved = step here (Invocation.treasury_approve_request 6 1) joined

abbrev paid : Dao
paid = step here (Invocation.treasury_execute_request 1) approved

abbrev request : List ℕ → TreasuryRequest
request approvals = record {
  request_id = 1;
  recipient = 5;
  amount = pos 100;
  asset = 7;
  reason = 8;
  approvals = approvals;
  executed = false;
  created_at = 50;
}

to_approved : Reach deployed 6 approved
to_approved = next here (Invocation.treasury_approve_request 6 1) (
    next here (Invocation.treasury_add_signer 6 6) (
      next here (Invocation.treasury_approve_request 1 1) (
        next here (Invocation.treasury_create_request 3 5 (pos 100) 7 8) (
          next here (Invocation.treasury_deposit 3 7 (pos 1_000))
            (next here (Invocation.initialize 1 2) start)))))

approved_request : lookup 1 approved.treasury_requests ≡ some (request (1 ∷ 6 ∷ []))
unfolding perform lookup insert balance_of get_signers get_config Setup.initialize Treasury.deposit
    Treasury.create_request Treasury.approve_request Treasury.add_signer Treasury.execute_request
    ◌+ℤ◌ ◌*ℤ◌ ◌-ℤ◌ wrap_i128 wrapping_sub wrapping_add_u64 quotient
approved_request = refl

asked_request : lookup 1 asked.treasury_requests ≡ some (request [])
unfolding perform lookup insert balance_of get_signers get_config Setup.initialize Treasury.deposit
    Treasury.create_request Treasury.approve_request Treasury.add_signer Treasury.execute_request
    ◌+ℤ◌ ◌*ℤ◌ ◌-ℤ◌ wrap_i128 wrapping_sub wrapping_add_u64 quotient
asked_request = refl

asked_admin : asked.admin ≡ some 1
unfolding perform lookup insert balance_of get_signers get_config Setup.initialize Treasury.deposit
    Treasury.create_request Treasury.approve_request Treasury.add_signer Treasury.execute_request
    ◌+ℤ◌ ◌*ℤ◌ ◌-ℤ◌ wrap_i128 wrapping_sub wrapping_add_u64 quotient
asked_admin = refl

pays : perform here (Invocation.treasury_execute_request 1) approved ≡ ok tt paid
unfolding perform lookup insert balance_of get_signers get_config Setup.initialize Treasury.deposit
    Treasury.create_request Treasury.approve_request Treasury.add_signer Treasury.execute_request
    ◌+ℤ◌ ◌*ℤ◌ ◌-ℤ◌ wrap_i128 wrapping_sub wrapping_add_u64 quotient
pays = refl

spending_needs_approvals_example :
    IsSpent (request (1 ∷ 6 ∷ [])) approved paid
    × (lookup 1 paid.treasury_requests ≡ some (record (request (1 ∷ 6 ∷ [])) { executed = true }))
spending_needs_approvals_example =
    spending_needs_approvals here 1 (request (1 ∷ 6 ∷ [])) paid to_approved approved_request pays

anyone_can_approve_example :
    Returns
      (λ updated w'. updated ≡ request (6 ∷ []))
      ((add_signer here 6 6 >> approve_request here 6 1) asked)
anyone_can_approve_example =
    anyone_can_approve here 6 1 1 (request []) asked refl asked_admin asked_request refl refl
