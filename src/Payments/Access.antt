-- ===== src/Payments/Access.antt =====
-- Who may call the administration, and how the admin changes.
use astraport_contracts.Base.{◌≡◌, ◌⊎◌, inl, inr, true, false, Option, some, arith}
use astraport_contracts.Base.Int.{ℤ}
use astraport_contracts.Host.{ok, Outcome-cases}
use astraport_contracts.Payments.State.{Address, Symbol, Ledger, Env}
use astraport_contracts.Payments.Helpers.{put_balance, publish}
use astraport_contracts.Payments.Calls
use astraport_contracts.Payments.Escrow.{create_escrow, release_escrow, refund_escrow}
use astraport_contracts.Payments.Outcomes.{deposit-ok, withdraw-ok, transfer-ok}
use astraport_contracts.Payments.EscrowOutcomes.{create_escrow-ok, settle_escrow-ok}
use astraport_contracts.Payments.Trace.{Invocation, perform, step}

-- The calls that are the admin's, with the address that makes them.
pub data Administers : Invocation → Address → Type 0 where
  hands_over :
      (caller new_admin : Address) → Administers (Invocation.transfer_admin caller new_admin) caller
  registers :
      (admin : Address) (asset : Symbol) (token : Address)
      → Administers (Invocation.set_token admin asset token) admin
  caps_all :
      (admin : Address) (limit : ℤ) → Administers (Invocation.set_global_cap admin limit) admin
  caps_asset :
      (admin : Address) (asset : Symbol) (limit : ℤ)
      → Administers (Invocation.set_asset_cap admin asset limit) admin

-- A call of the administration that succeeds was made by the stored admin, who authorised it.
pub admin_only :
    (env : Env) (i : Invocation) (caller : Address) (w w' : Ledger)
    → Administers i caller
    → perform env i w ≡ ok tt w'
    → (w.admin ≡ some caller) × (env.authorized caller ≡ true)
unfolding perform Calls.transfer_admin Calls.set_token Calls.set_global_cap Calls.set_asset_cap
admin_only env i caller w w' (hands_over _ new_admin) h = ground arith
admin_only env i caller w w' (registers _ asset token) h = ground arith
admin_only env i caller w w' (caps_all _ limit) h = ground arith
admin_only env i caller w w' (caps_asset _ asset limit) h = ground arith

-- How the admin may change in one invocation, once there is one.
abbrev pub HandsOver : Env → Invocation → Address → Option Address → Type 0
HandsOver env i admin after =
    (after ≡ some admin)
    ⊎ ((b : Address) × (i ≡ Invocation.transfer_admin admin b)
        × (env.authorized admin ≡ true)
        × (after ≡ some b))

perform-HandsOver :
    (env : Env) (i : Invocation) (admin : Address) (w w' : Ledger)
    → w.admin ≡ some admin
    → perform env i w ≡ ok tt w'
    → HandsOver env i admin w'.admin
unfolding perform Calls.initialize Calls.transfer_admin Calls.set_token Calls.set_global_cap
    Calls.set_asset_cap release_escrow refund_escrow put_balance publish
perform-HandsOver env (Invocation.initialize a) admin w w' set h = ground arith
perform-HandsOver env (Invocation.transfer_admin caller b) admin w w' set h =
    inr (b, ground arith, ground arith, ground arith)
perform-HandsOver env (Invocation.set_token a asset token) admin w w' set h = inl (ground arith)
perform-HandsOver env (Invocation.set_global_cap a limit) admin w w' set h = inl (ground arith)
perform-HandsOver env (Invocation.set_asset_cap a asset limit) admin w w' set h = inl (ground arith)
perform-HandsOver env (Invocation.deposit sender asset amount) admin w w' set h =
    inl (rw (deposit-ok env sender asset amount w w' h).left set)
perform-HandsOver env (Invocation.withdraw recipient asset amount) admin w w' set h =
    inl (rw (withdraw-ok env recipient asset amount w w' h).left set)
perform-HandsOver env (Invocation.transfer sender recipient asset amount) admin w w' set h =
    inl (rw (transfer-ok env sender recipient asset amount w w' h).left set)
perform-HandsOver env (Invocation.create_escrow depositor receiver asset amount) admin w w' set h =
    elim (Outcome-cases (create_escrow env depositor receiver asset amount w)) [
      | inl (id, w₁, e) ↦ inl (
          rw (create_escrow-ok env depositor receiver asset amount w id w' (ground arith)).left set)
      | inr failed ↦ ground arith
    ]
perform-HandsOver env (Invocation.release_escrow id caller) admin w w' set h =
    inl (rw (settle_escrow-ok env id caller true w w' (ground arith)).left set)
perform-HandsOver env (Invocation.refund_escrow id caller) admin w w' set h =
    inl (rw (settle_escrow-ok env id caller false w w' (ground arith)).left set)

-- Once set, the admin stays through every invocation, unless the admin authorises the handover.
pub admin_stays :
    (env : Env) (i : Invocation) (admin : Address) (w : Ledger)
    → w.admin ≡ some admin
    → HandsOver env i admin (step env i w).admin
admin_stays env i admin w set = elim (Outcome-cases (perform env i w)) [
  | inl (_, w', e) ↦ rw e (perform-HandsOver env i admin w w' set e)
  | inr (inl (_, e)) ↦ rw e (inl set)
  | inr (inr e) ↦ rw e (inl set)
]
