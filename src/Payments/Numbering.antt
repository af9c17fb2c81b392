-- ===== src/Payments/Numbering.antt =====
-- The numbering of escrows, and what `list_escrows` returns.
use mathlib.Core.Logic.{◌≢◌}
use Prim.Native.Nat.{min}
use astraport_contracts.Base.{
  ℕ, zero, suc, ◌+◌, ◌-◌, ◌≤◌, ◌<◌, ◌≡◌, refl, sym, ◌∙◌, ap, inl, inr, Bool, true, some, none, List,
  [], ◌∷◌, map, arith, Option-cases, unwrap_or, is_some,
}
use astraport_contracts.Base.Int.{ℤ}
use astraport_contracts.Base.Dict.{Dict, lookup, insert, lookup-insert, insert_inv, number_key}
use astraport_contracts.Host.{Outcome-cases}
use astraport_contracts.Payments.State.{Address, Symbol, EscrowRecord, Ledger, Env, deployed}
use astraport_contracts.Payments.Helpers.{put_balance, publish}
use astraport_contracts.Payments.Escrow.{list_escrows, collect_escrows}
use astraport_contracts.Payments.EscrowOutcomes.{Created, Settled, settled, new_escrow}
use astraport_contracts.Payments.Trace.{Invocation, perform, step, Reach, Reach_inv}
use astraport_contracts.Payments.Changes.{Change, perform-Change}

-- The id of the newest escrow, 0 if there is none.
abbrev pub newest : Ledger → ℕ
newest w = unwrap_or w.escrow_id_counter 0

pub record IsNumbered (w : Ledger) : Type 0 where
  pub counts : w.escrow_count ≡ w.escrow_id_counter
  pub bound :
      (id : ℕ) (r : EscrowRecord)
      → lookup id w.escrows ≡ some r
      → (1 ≤ id) × (id ≤ newest w) × (r.escrow_id ≡ id)
  pub complete : (id : ℕ) → 1 ≤ id → id ≤ newest w → is_some (lookup id w.escrows) ≡ true

pub deployed-IsNumbered : IsNumbered deployed
unfolding lookup
deployed-IsNumbered = record {
  counts = refl;
  bound = λ id r h. cc;
  complete = λ id p q. absurd (omega arith);
}

is_some-insert :
    (k j : ℕ) (v : EscrowRecord) (m : Dict ℕ EscrowRecord)
    → ((k ≢ j) → is_some (lookup j m) ≡ true)
    → is_some (lookup j (insert k v m)) ≡ true
is_some-insert k j v m h = ground (arith, lookup-insert k j v m, h)

-- The id that `create_escrow` takes is not in use.
pub fresh_id : {w : Ledger} → IsNumbered w → lookup (newest w + 1) w.escrows ≡ none
fresh_id {w} n = elim (Option-cases (lookup (newest w + 1) w.escrows)) [
  | inl free ↦ free
  | inr (r, taken) ↦ absurd (omega (arith, n.bound (newest w + 1) r taken))
]

module _ {env : Env} {w w' : Ledger} (n : IsNumbered w) where
  Created-IsNumbered :
      (depositor receiver : Address) (asset : Symbol) (amount : ℤ) (id : ℕ)
      → Created env depositor receiver asset amount w id w'
      → IsNumbered w'
  unfolding put_balance publish
  Created-IsNumbered depositor receiver asset amount id d = rw d.left (record {
    counts = refl;
    bound =
        insert_inv (λ j x. (1 ≤ j) × (j ≤ id) × (x.escrow_id ≡ j)) id
          (new_escrow env depositor receiver asset amount id) w.escrows
          (ground (arith, d.next_id), ground arith, refl)
          (λ j x e. omega (arith, n.bound j x e, d.next_id));
    complete = λ j p q.
        is_some-insert id j _ w.escrows (λ other. n.complete j p (omega (arith, d.next_id, other)));
  })

  pub Settled-IsNumbered :
      (id : ℕ) (caller : Address) (is_release : Bool)
      → Settled env id caller is_release w w'
      → IsNumbered w'
  unfolding publish
  Settled-IsNumbered id caller is_release d = rw d.left (record {
    counts = n.counts;
    bound =
        insert_inv (λ j x. (1 ≤ j) × (j ≤ newest w) × (x.escrow_id ≡ j)) id
          (settled env is_release d.old) w.escrows (n.bound id d.old d.found) n.bound;
    complete = λ j p q. is_some-insert id j _ w.escrows (λ other. n.complete j p q);
  })

  pub Change-IsNumbered : Change env w w' → IsNumbered w'
  Change-IsNumbered (Change.kept k) = record {
    counts = k.count ∙ n.counts ∙ sym k.counter;
    bound = rw (k.escrows, k.counter) n.bound;
    complete = rw (k.escrows, k.counter) n.complete;
  }
  Change-IsNumbered (Change.created depositor receiver asset amount id d) =
      Created-IsNumbered depositor receiver asset amount id d
  Change-IsNumbered (Change.settled id caller is_release d) =
      Settled-IsNumbered id caller is_release d

-- Whatever is invoked keeps the numbering.
pub step-IsNumbered :
    (env : Env) (i : Invocation) (w : Ledger) → IsNumbered w → IsNumbered (step env i w)
step-IsNumbered env i w n = elim (Outcome-cases (perform env i w)) [
  | inl (_, w', e) ↦ rw e (Change-IsNumbered n (perform-Change env i w w' e))
  | inr (inl (_, e)) ↦ rw e n
  | inr (inr e) ↦ rw e n
]

-- In every state that the contract can reach, the escrow count is the id counter, and the ids of the
-- stored escrows are exactly the numbers from 1 to it, each record carrying its own id.
pub Reach-IsNumbered :
    {self : Address} {Allowed : Env → Invocation → Ledger → Type 0} {w : Ledger}
    → Reach self Allowed w
    → IsNumbered w
Reach-IsNumbered r =
    Reach_inv IsNumbered deployed-IsNumbered
      (λ env i w w' same allowed n h. Change-IsNumbered n (perform-Change env i w w' h)) r

-- The ids from `id` on.
abbrev pub ids_from : ℕ → ℕ → List ℕ
ids_from id zero = []
ids_from id (suc rounds) = id ∷ ids_from (id + 1) rounds

collect-found :
    (escrows : Dict ℕ EscrowRecord) (id rounds : ℕ)
    → ((j : ℕ) → id ≤ j → j < id + rounds → is_some (lookup j escrows) ≡ true)
    → map some (collect_escrows escrows id rounds)
      ≡ map (λ j. lookup j escrows) (ids_from id rounds)
unfolding collect_escrows
collect-found escrows id zero all = refl
collect-found escrows id (suc rounds) all = elim (Option-cases (lookup id escrows)) [
  | inl missing ↦ ground (arith, all id)
  | inr (r, found) ↦ rw (found) (
      ap (λ l. some r ∷ l)
        (collect-found escrows (id + 1) rounds (λ j p q. all j (omega arith) (omega arith))))
]

-- Where the escrows are numbered from 1 to the counter, `list_escrows` returns the stored records of the newest escrows, at most 200, oldest first.
pub list_escrows-newest :
    (w : Ledger)
    → IsNumbered w
    → map some (list_escrows w)
      ≡ map (λ id. lookup id w.escrows) (ids_from (newest w - 200 + 1) (min 200 (newest w)))
unfolding list_escrows
list_escrows-newest w n =
    let total : ℕ = newest w in
    let rounds : total - (total - 200) ≡ min 200 total = omega arith in
    rw (n.counts, ← rounds)
      (collect-found w.escrows (total - 200 + 1) (total - (total - 200))
        (λ j p q. n.complete j (omega arith) (omega arith)))
