-- ===== src/Governance/Spending.antt =====
-- contracts/governance/src/treasury.rs: what is spent, and who approved it.
use astraport_contracts.Base.{
  ℕ, ◌≡◌, refl, ◌∙◌, ap, true, false, some, arith, Option-cases, List, [], ◌∷◌, ◌++◌, contains,
  length, ◌≤◌, inl, inr, ◌==◌,
}
use astraport_contracts.Base.Int.{ℤ, pos, ◌+ℤ◌, ◌-ℤ◌, ◌<ℤ◌, ◌≤ℤ◌, int_laws}
use astraport_contracts.Base.Dict.{
  lookup, insert, insert_inv, lookup-insert_self, number_key, pair_key,
}
use astraport_contracts.Machine.{InI128, wrapping_sub, wrapping_sub_exact}
use astraport_contracts.Host.{ok}
use astraport_contracts.Governance.Types.{Address, Symbol, Dao, Env, TreasuryRequest, deployed}
use astraport_contracts.Governance.Helpers.{get_config}
use astraport_contracts.Governance.Treasury
use astraport_contracts.Governance.Treasury.{balance_of, get_signers, add_signer, approve_request}
use astraport_contracts.Governance.Trace.{Invocation, perform, Reach, Reach_inv}
use astraport_contracts.Governance.Funds.{FundsChange, perform-FundsChange}

-- No address stands twice in the list.
abbrev pub AreDistinct : List Address → Type 0
AreDistinct [] = Unit
AreDistinct (x ∷ xs) = (contains x xs ≡ false) × AreDistinct xs

contains-++ :
    (x y : Address) (xs : List Address)
    → contains x xs ≡ false
    → (x == y) ≡ false
    → contains x (xs ++ y ∷ []) ≡ false
contains-++ x y [] h other = ground arith
contains-++ x y (z ∷ zs) h other = ground (arith, contains-++ x y zs)

added-AreDistinct :
    (y : Address) (xs : List Address)
    → AreDistinct xs
    → contains y xs ≡ false
    → AreDistinct (xs ++ y ∷ [])
added-AreDistinct y [] d new = (refl, tt)
added-AreDistinct y (z ∷ zs) d new =
    (contains-++ z y zs d.0 (ground arith), added-AreDistinct y zs d.1 (ground arith))

abbrev IsSound : TreasuryRequest → Type 0
IsSound r = (pos 0 <ℤ r.amount) × AreDistinct r.approvals

record Funded (w : Dao) : Type 0 where
  balances :
      (asset : Symbol) (v : ℤ) → lookup asset w.treasury_balances ≡ some v → (pos 0 ≤ℤ v) × InI128 v
  requests : (id : ℕ) (r : TreasuryRequest) → lookup id w.treasury_requests ≡ some r → IsSound r

balance_bounds :
    (w : Dao) (asset : Symbol)
    → Funded w
    → (pos 0 ≤ℤ balance_of asset w) × InI128 (balance_of asset w)
unfolding balance_of
balance_bounds w asset c = elim (Option-cases (lookup asset w.treasury_balances)) [
  | inl e ↦ rw e (omega arith, omega arith)
  | inr (v, e) ↦ rw e (c.balances asset v e)
]

unpaid-Funded :
    (w w' : Dao)
    → w'.treasury_balances ≡ w.treasury_balances
    → ((id : ℕ) (r : TreasuryRequest) → lookup id w'.treasury_requests ≡ some r → IsSound r)
    → Funded w
    → Funded w'
unpaid-Funded w w' same requests c = record { balances = rw same c.balances; requests = requests }

abbrev InStock : Symbol → ℤ → Type 0
InStock asset v = (pos 0 ≤ℤ v) × InI128 v

balanced-Funded :
    (w w' : Dao) (asset : Symbol) (v : ℤ)
    → InStock asset v
    → w'.treasury_balances ≡ insert asset v w.treasury_balances
    → ((id : ℕ) (r : TreasuryRequest) → lookup id w'.treasury_requests ≡ some r → IsSound r)
    → Funded w
    → Funded w'
balanced-Funded w w' asset v fits same requests c = record {
  balances = rw same (insert_inv InStock asset v w.treasury_balances fits c.balances);
  requests = requests;
}

put-IsSound :
    (w w' : Dao) (id : ℕ) (r : TreasuryRequest)
    → IsSound r
    → w'.treasury_requests ≡ insert id r w.treasury_requests
    → Funded w
    → (j : ℕ) (x : TreasuryRequest) → lookup j w'.treasury_requests ≡ some x
    → IsSound x
put-IsSound w w' id r sound same c =
    rw same (insert_inv (λ j x. IsSound x) id r w.treasury_requests sound c.requests)

wrapping_spent :
    (w : Dao) (r : TreasuryRequest)
    → r.amount ≤ℤ balance_of r.asset w
    → pos 0 <ℤ r.amount
    → (pos 0 ≤ℤ balance_of r.asset w) × InI128 (balance_of r.asset w)
    → wrapping_sub (balance_of r.asset w) r.amount ≡ balance_of r.asset w -ℤ r.amount
wrapping_spent w r covered more bounds =
    wrapping_sub_exact (balance_of r.asset w) r.amount (grind (int_laws, covered, more, bounds))

spent-InStock :
    (w : Dao) (r : TreasuryRequest)
    → r.amount ≤ℤ balance_of r.asset w
    → pos 0 <ℤ r.amount
    → (pos 0 ≤ℤ balance_of r.asset w) × InI128 (balance_of r.asset w)
    → InStock r.asset (wrapping_sub (balance_of r.asset w) r.amount)
spent-InStock w r covered more bounds =
    rw (wrapping_spent w r covered more bounds) (grind (int_laws, covered, more, bounds))

perform-Funded :
    (env : Env) (i : Invocation) (w w' : Dao) → Funded w → perform env i w ≡ ok tt w' → Funded w'
perform-Funded env i w w' c h = elim (perform-FundsChange env i w w' h) [
  | FundsChange.kept same requests ↦ unpaid-Funded w w' same (rw requests c.requests) c
  | FundsChange.deposited asset amount more fits same requests ↦
      balanced-Funded w w' asset (balance_of asset w +ℤ amount)
        (grind (int_laws, more, balance_bounds w asset c), fits) same (rw requests c.requests) c
  | FundsChange.requested id r (more, none_yet, unpaid) same requests ↦
      unpaid-Funded w w' same (put-IsSound w w' id r (more, rw none_yet tt) requests c) c
  | FundsChange.approved id signer r found new same requests ↦
      unpaid-Funded w w' same
        (put-IsSound w w' id _
          (
            (c.requests id r found).0,
            added-AreDistinct signer r.approvals (c.requests id r found).1 new,
          )
          requests c)
        c
  | FundsChange.spent id r found unpaid enough covered same requests ↦
      balanced-Funded w w' r.asset (wrapping_sub (balance_of r.asset w) r.amount)
        (spent-InStock w r covered (c.requests id r found).0 (balance_bounds w r.asset c)) same
        (put-IsSound w w' id _ (c.requests id r found) requests c) c
]

deployed-Funded : Funded deployed
unfolding lookup
deployed-Funded = record { balances = λ a v e. ground arith; requests = λ a v e. ground arith }

-- What an execution of a treasury request finds and leaves.
abbrev pub IsSpent : TreasuryRequest → Dao → Dao → Type 0
IsSpent r w w' =
    ((get_config w).treasury_multisig_threshold ≤ length r.approvals)
    × AreDistinct r.approvals
    × (r.executed ≡ false)
    × (pos 0 <ℤ r.amount)
    × (balance_of r.asset w' +ℤ r.amount ≡ balance_of r.asset w)
    × (pos 0 ≤ℤ balance_of r.asset w')

abbrev Spends : ℕ → TreasuryRequest → Dao → Dao → Type 0
Spends id r w w' =
    (r.executed ≡ false)
    × ((get_config w).treasury_multisig_threshold ≤ length r.approvals)
    × (r.amount ≤ℤ balance_of r.asset w)
    × (w'.treasury_balances
        ≡ insert r.asset (wrapping_sub (balance_of r.asset w) r.amount) w.treasury_balances)
    × (w'.treasury_requests ≡ insert id (record r { executed = true }) w.treasury_requests)

execute-Spends :
    (env : Env) (id : ℕ) (r : TreasuryRequest) (w w' : Dao)
    → lookup id w.treasury_requests ≡ some r
    → perform env (Invocation.treasury_execute_request id) w ≡ ok tt w'
    → Spends id r w w'
unfolding perform Treasury.execute_request
execute-Spends env id r w w' found h =
    (ground arith, ground arith, ground arith, ground arith, ground arith)

written_balance :
    (w w' : Dao) (asset : Symbol) (v : ℤ)
    → w'.treasury_balances ≡ insert asset v w.treasury_balances
    → balance_of asset w' ≡ v
unfolding balance_of
written_balance w w' asset v same = rw (same, lookup-insert_self asset v w.treasury_balances) refl

paid-IsSpent :
    (w w' : Dao) (id : ℕ) (r : TreasuryRequest)
    → lookup id w.treasury_requests ≡ some r
    → Funded w
    → Spends id r w w'
    → IsSpent r w w' × (lookup id w'.treasury_requests ≡ some (record r { executed = true }))
paid-IsSpent w w' id r found c (unpaid, enough, covered, same, requests) =
    let sound : IsSound r = c.requests id r found in
    let bounds : (pos 0 ≤ℤ balance_of r.asset w) × InI128 (balance_of r.asset w) =
      balance_bounds w r.asset c in
    let left : balance_of r.asset w' ≡ balance_of r.asset w -ℤ r.amount =
      written_balance w w' r.asset (wrapping_sub (balance_of r.asset w) r.amount) same
      ∙ wrapping_spent w r covered sound.0 bounds in
    (
      (enough, sound.1, unpaid, sound.0, grind (int_laws, left), grind (int_laws, left, covered)),
      ap (lookup id) requests
          ∙ lookup-insert_self id (record r { executed = true }) w.treasury_requests,
    )

-- In every state that is reached, a treasury request that is executed was not executed before and has
-- approvals of as many different addresses as the configuration asks; its amount is positive, and leaves a
-- balance that is less by exactly the amount and not negative.
pub spending_needs_approvals :
    {n : ℕ} {w : Dao} (env : Env) (id : ℕ) (r : TreasuryRequest) (w' : Dao)
    → Reach deployed n w
    → lookup id w.treasury_requests ≡ some r
    → perform env (Invocation.treasury_execute_request id) w ≡ ok tt w'
    → IsSpent r w w' × (lookup id w'.treasury_requests ≡ some (record r { executed = true }))
spending_needs_approvals {w = w} env id r w' reach found h =
    let c : Funded w = Reach_inv Funded deployed-Funded perform-Funded reach in
    paid-IsSpent w w' id r found c (execute-Spends env id r w w' found h)
