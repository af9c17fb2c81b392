-- ===== src/Base/Dict/Unique.antt =====
-- Maps that bind each key once: what the host's storage is, kept by writes and removals.
use mathlib.Core.Path.{◌≡◌, refl}
use mathlib.Core.Logic.{inl, inr}
use mathlib.Core.Bool.{true, false}
use mathlib.Core.Option.{none}
use mathlib.Core.List.{[], ◌∷◌}
use native.Mathlib.Omega.{arith}
use astraport_contracts.Base.Tests.{Bool-cases}
use astraport_contracts.Base.Int.{ℤ, pos, ◌+ℤ◌, int_laws}
use astraport_contracts.Base.Dict.{Key, Dict, lookup, insert, remove, lookup-insert, lookup-remove}
use astraport_contracts.Base.Dict.Total.{total, weight}

module _ {ℓ κ} {K : Type ℓ} {V : Type κ} ⦃e : Key K⦄ where
  abbrev pub IsMap : Dict K V → Type κ
  IsMap [] = Unit
  IsMap ((k, v) ∷ m) = (lookup k m ≡ none) × IsMap m

  pub insert-IsMap : (k : K) (v : V) (m : Dict K V) → IsMap m → IsMap (insert k v m)
  unfolding insert lookup
  insert-IsMap k v [] h = (refl, tt)
  insert-IsMap k v ((j, x) ∷ m) h = elim (Bool-cases (e.beq j k)) [
    | inl same ↦ rw (same, ← (e.beq_iff j k).0 same) h
    | inr other ↦ rw other (
      ground (arith, h.0, other, lookup-insert k j v m, e.beq_iff k j, e.beq_iff j k),
      insert-IsMap k v m h.1,
    )
  ]

  pub remove-IsMap : (k : K) (m : Dict K V) → IsMap m → IsMap (remove k m)
  unfolding remove lookup
  remove-IsMap k [] h = tt
  remove-IsMap k ((j, x) ∷ m) h = elim (Bool-cases (e.beq j k)) [
    | inl same ↦ rw same (remove-IsMap k m h.1)
    | inr other ↦ rw other (ground (arith, h.0, lookup-remove k j m), remove-IsMap k m h.1)
  ]

  -- Removing an unbound key changes nothing.
  pub remove-unbound : (k : K) (m : Dict K V) → lookup k m ≡ none → remove k m ≡ m
  unfolding remove lookup
  remove-unbound k [] h = refl
  remove-unbound k ((j, x) ∷ m) h = elim (Bool-cases (e.beq j k)) [
    | inl same ↦ ground (arith, same)
    | inr other ↦ rw (other, remove-unbound k m (ground (arith, other))) refl
  ]

  remove-other :
      (k j : K) (x : V) (m : Dict K V)
      → e.beq j k ≡ false
      → remove k ((j, x) ∷ m) ≡ (j, x) ∷ remove k m
  unfolding remove
  remove-other k j x m other = rw other refl

  remove-found :
      (k j : K) (x : V) (m : Dict K V)
      → lookup j m ≡ none
      → e.beq j k ≡ true
      → remove k ((j, x) ∷ m) ≡ m
  unfolding remove
  remove-found k j x m free same =
      let unbound : lookup k m ≡ none = rw (← (e.beq_iff j k).0 same) free in
      rw same (remove-unbound k m unbound)

module _ {ℓ κ} {K : Type ℓ} {V : Type κ} ⦃e : Key K⦄ (f : K → V → ℤ) where
  total-remove_empty : (k : K) → total f (remove k []) +ℤ pos 0 ≡ pos 0
  unfolding total remove
  total-remove_empty k = omega int_laws

  -- A removal takes away what the key contributed.
  pub total-remove :
      (k : K) (m : Dict K V) → IsMap m → total f (remove k m) +ℤ weight f k (lookup k m) ≡ total f m
  unfolding total lookup
  total-remove k [] h = total-remove_empty k
  total-remove k ((j, x) ∷ m) h = elim (Bool-cases (e.beq j k)) [
    | inl same ↦ rw (remove-found k j x m h.0 same, same, ← (e.beq_iff j k).0 same) (omega int_laws)
    | inr other ↦ rw (remove-other k j x m other, other) (grind (int_laws, total-remove k m h.1))
  ]
