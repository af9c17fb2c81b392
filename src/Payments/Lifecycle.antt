-- ===== src/Payments/Lifecycle.antt =====
-- The life of an escrow record.
use astraport_contracts.Base.{
  ℕ, ◌≡◌, refl, ◌⊎◌, inl, inr, Bool, true, false, some, arith, ◌==◌, Bool-cases,
}
use astraport_contracts.Base.Int.{ℤ}
use astraport_contracts.Base.Dict.{lookup, lookup-insert, number_key}
use astraport_contracts.Host.{Outcome-cases}
use astraport_contracts.Payments.State.{Address, Symbol, EscrowRecord, active, Ledger, Env}
use astraport_contracts.Payments.Helpers.{put_balance, publish}
use astraport_contracts.Payments.EscrowOutcomes.{Created, Settled, settled}
use astraport_contracts.Payments.Trace.{Invocation, perform, step}
use astraport_contracts.Payments.Changes.{Change, perform-Change}
use astraport_contracts.Payments.Numbering.{IsNumbered}

-- A record stays as it is, or it was active and is settled now, one way or the other.
abbrev pub Continues : Env → EscrowRecord → EscrowRecord → Type 0
Continues env r r' =
    (r' ≡ r) ⊎ ((r.status ≡ active) × ((r' ≡ settled env true r) ⊎ (r' ≡ settled env false r)))

Continues-settled :
    (env : Env) (is_release : Bool) (r : EscrowRecord)
    → r.status ≡ active
    → Continues env r (settled env is_release r)
Continues-settled env true r h = inr (h, inl refl)
Continues-settled env false r h = inr (h, inr refl)

module _ {env : Env} {w w' : Ledger} (n : IsNumbered w) (id : ℕ) (r : EscrowRecord)
    (found : lookup id w.escrows ≡ some r) where
  -- A new escrow overwrites none.
  Created-keeps :
      (depositor receiver : Address) (asset : Symbol) (amount : ℤ) (j : ℕ)
      → Created env depositor receiver asset amount w j w'
      → lookup id w'.escrows ≡ some r
  unfolding put_balance publish
  Created-keeps depositor receiver asset amount j d =
      rw (d.left, lookup-insert) (ground (arith, d.next_id, n.bound id r found, found))

  Settled-Continues :
      (j : ℕ) (caller : Address) (is_release : Bool)
      → Settled env j caller is_release w w'
      → (r' : EscrowRecord) × (lookup id w'.escrows ≡ some r') × Continues env r r'
  unfolding publish
  Settled-Continues j caller is_release d = elim (Bool-cases (j == id)) [
    | inl same ↦
        let at_id : d.old ≡ r = ground (arith, found, d.found) in
        (
          settled env is_release r,
          rw (d.left, lookup-insert, same, at_id),
          Continues-settled env is_release r (rw (← at_id) d.was_active),
        )
    | inr other ↦ (r, rw (d.left, lookup-insert, other) found, inl refl)
  ]

  Change-Continues :
      Change env w w' → (r' : EscrowRecord) × (lookup id w'.escrows ≡ some r') × Continues env r r'
  Change-Continues (Change.kept k) = (r, rw k.escrows found, inl refl)
  Change-Continues (Change.created depositor receiver asset amount j d) =
      (r, Created-keeps depositor receiver asset amount j d, inl refl)
  Change-Continues (Change.settled j caller is_release d) = Settled-Continues j caller is_release d

-- Where the escrows are numbered from 1 to the counter: whatever is invoked, an escrow that exists goes
-- on to exist, either unchanged, or, if it was active, released or refunded with the same terms.
pub escrow_lifecycle :
    (env : Env) (i : Invocation) (w : Ledger) (id : ℕ) (r : EscrowRecord)
    → IsNumbered w
    → lookup id w.escrows ≡ some r
    → (r' : EscrowRecord) × (lookup id (step env i w).escrows ≡ some r') × Continues env r r'
escrow_lifecycle env i w id r n found = elim (Outcome-cases (perform env i w)) [
  | inl (_, w', e) ↦ rw e (Change-Continues n id r found (perform-Change env i w w' e))
  | inr (inl (_, e)) ↦ rw e (r, found, inl refl)
  | inr (inr e) ↦ rw e (r, found, inl refl)
]
