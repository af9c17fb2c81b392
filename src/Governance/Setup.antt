-- ===== src/Governance/Setup.antt =====
-- contracts/governance/src/lib.rs: initialization, configuration, voting power and delegation.
use astraport_contracts.Base.{
  ℕ, Bool, true, false, ◌||◌, Option, some, List, [], ◌∷◌, ◌++◌, ltb, ◌==◌, if◌then◌else◌,
  unwrap_or, is_some, contains,
}
use astraport_contracts.Base.Int.{ℤ, pos, leb_ℤ, ltb_ℤ, eqb_ℤ}
use astraport_contracts.Base.Dict.{Dict, lookup, insert, remove, number_key}
use astraport_contracts.Machine.{checked_add, checked_sub, wrapping_sub}
use astraport_contracts.Host.{◌>>=◌, ◌>>◌, pure, gets, or_fail, fail_if, require, modify}
use astraport_contracts.Governance.Types.{
  Address, Delegation, GovernanceConfig, default_config, Env, Call, initialized, power_deposited,
  power_withdrawn, delegation_changed, set_cfg, config, delegate, rvk_del, already_initialized,
  invalid_config, no_voting_power, cannot_delegate_to_self, delegation_not_found,
}
use astraport_contracts.Governance.Helpers.{
  publish, get_voting_power, get_total_voting_power, assert_admin, append_audit,
}

unfoldable pub initialize : Address → Address → Call (Unit {0})
unfolding publish
initialize admin guardian = do
  fail_if (is_some (← gets (λ w. w.admin))) already_initialized
  modify (λ w. record w {
    admin = some admin;
    guardian = some guardian;
    config = some default_config;
    total_supply = some (pos 0);
    total_voting_power = some (pos 0);
    emergency_paused = some false;
    next_proposal_id = some 1;
    next_treasury_request_id = some 1;
    next_audit_seq = some 1;
    all_proposal_ids = some [];
    all_delegators = some [];
  })
  modify (publish (initialized admin guardian))

abbrev pub is_invalid : GovernanceConfig → Bool
is_invalid c =
    (c.voting_period == 0)
    || (c.quorum_threshold_bps == 0)
    || ltb 10_000 c.quorum_threshold_bps
    || (c.approval_threshold_bps == 0)
    || ltb 10_000 c.approval_threshold_bps
    || (c.treasury_multisig_threshold == 0)
    || (c.max_active_proposals == 0)

unfoldable pub set_config : Env → Address → GovernanceConfig → Call (Unit {0})
unfolding assert_admin append_audit
set_config env admin c = do
  assert_admin env admin
  fail_if (is_invalid c) invalid_config
  modify (λ w. record w { config = some c })
  modify (append_audit env set_cfg 0 admin config)

unfoldable pub set_total_supply : Env → Address → ℤ → Call (Unit {0})
unfolding assert_admin
set_total_supply env admin total_supply = do
  assert_admin env admin
  modify (λ w. record w { total_supply = some total_supply })

unfoldable pub set_audit_sink : Env → Address → Address → Call (Unit {0})
unfolding assert_admin
set_audit_sink env admin sink = do
  assert_admin env admin
  require (env.authorized admin)
  modify (λ w. record w { audit_sink = some sink })

unfoldable pub deposit_voting_power : Env → Address → ℤ → Call ℤ
unfolding get_voting_power get_total_voting_power publish
deposit_voting_power env holder amount = do
  require (env.authorized holder)
  fail_if (leb_ℤ amount (pos 0)) invalid_config
  current ← gets (get_voting_power holder)
  new_power ← or_fail (checked_add current amount) invalid_config
  modify (λ w. record w { voting_power = insert holder new_power w.voting_power })
  total ← gets get_total_voting_power
  new_total ← or_fail (checked_add total amount) invalid_config
  modify (λ w. record w { total_voting_power = some new_total })
  modify (publish (power_deposited holder amount new_power))
  pure new_power

-- A holder without power has no entry.
abbrev pub put_power : Address → ℤ → Dict Address ℤ → Dict Address ℤ
put_power holder power m = if eqb_ℤ power (pos 0) then remove holder m else insert holder power m

unfoldable pub withdraw_voting_power : Env → Address → ℤ → Call ℤ
unfolding get_voting_power get_total_voting_power publish
withdraw_voting_power env holder amount = do
  require (env.authorized holder)
  fail_if (leb_ℤ amount (pos 0)) invalid_config
  current ← gets (get_voting_power holder)
  fail_if (ltb_ℤ current amount) no_voting_power
  let new_power : ℤ = wrapping_sub current amount
  modify (λ w. record w { voting_power = put_power holder new_power w.voting_power })
  total ← gets get_total_voting_power
  new_total ← or_fail (checked_sub total amount) invalid_config
  modify (λ w. record w { total_voting_power = some new_total })
  modify (publish (power_withdrawn holder amount new_power))
  pure new_power

-- A stored list without repetitions is written only when it grows.
abbrev pub track_stored : ℕ → Option (List ℕ) → Option (List ℕ)
track_stored x stored =
    if contains x (unwrap_or stored []) then stored else some (unwrap_or stored [] ++ x ∷ [])

unfoldable pub delegate_power : Env → Address → Address → Call (Unit {0})
unfolding append_audit publish
delegate_power env delegator delegate_addr = do
  require (env.authorized delegator)
  fail_if (delegator == delegate_addr) cannot_delegate_to_self
  let delegation : Delegation = record {
    delegator = delegator;
    delegate = delegate_addr;
    created_at = env.timestamp;
    active = true;
  }
  modify (λ w. record w { delegations = insert delegator delegation w.delegations })
  modify (λ w. record w { all_delegators = track_stored delegator w.all_delegators })
  modify (append_audit env delegate 0 delegator delegate)
  modify (publish (delegation_changed delegator delegate_addr true))

unfoldable pub revoke_delegation : Env → Address → Call (Unit {0})
unfolding append_audit publish
revoke_delegation env delegator = do
  require (env.authorized delegator)
  delegation ← or_fail (← gets (λ w. lookup delegator w.delegations)) delegation_not_found
  let revoked : Delegation = record delegation { active = false }
  modify (λ w. record w { delegations = insert delegator revoked w.delegations })
  modify (append_audit env rvk_del 0 delegator rvk_del)
  modify (publish (delegation_changed delegator delegation.delegate false))
