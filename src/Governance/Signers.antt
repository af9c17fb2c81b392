-- ===== src/Governance/Signers.antt =====
-- contracts/governance/src/treasury.rs: who may approve a request.
use astraport_contracts.Base.{
  ℕ, ◌≡◌, refl, true, false, Option, some, arith, Bool-cases, List, [], ◌∷◌, ◌++◌, contains,
  unwrap_or, inl, inr, ==-self,
}
use astraport_contracts.Base.Dict.{lookup, number_key}
use astraport_contracts.Host.{Returns, ◌>>◌}
use astraport_contracts.Governance.Types.{Address, Dao, Env, TreasuryRequest}
use astraport_contracts.Governance.Setup.{track_stored}
use astraport_contracts.Governance.Treasury.{get_signers, add_signer, approve_request}

appended-contains : (x : ℕ) (xs : List ℕ) → contains x (xs ++ x ∷ []) ≡ true
appended-contains x [] = rw (==-self x) refl
appended-contains x (y ∷ ys) = ground (arith, appended-contains x ys)

tracked-contains :
    (x : ℕ) (stored : Option (List ℕ)) → contains x (unwrap_or (track_stored x stored) []) ≡ true
tracked-contains x stored = elim (Bool-cases (contains x (unwrap_or stored []))) [
  | inl e ↦ rw e e
  | inr e ↦ rw e (appended-contains x (unwrap_or stored []))
]

-- Whoever authorizes a call makes himself a signer and approves a request, whatever the administrator
-- and the signers are, if the contract is initialized, the request is not executed and he has not approved
-- it before.
pub anyone_can_approve :
    (env : Env) (x admin : Address) (id : ℕ) (r : TreasuryRequest) (w : Dao)
    → env.authorized x ≡ true
    → w.admin ≡ some admin
    → lookup id w.treasury_requests ≡ some r
    → r.executed ≡ false
    → contains x r.approvals ≡ false
    → Returns
        (λ updated w'. updated ≡ record r { approvals = r.approvals ++ x ∷ [] })
        ((add_signer env x x >> approve_request env x id) w)
unfolding add_signer approve_request get_signers
anyone_can_approve env x admin id r w auth set found unpaid new =
    ground (arith, tracked-contains x w.treasury_signers)
