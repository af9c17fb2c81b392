-- ===== src/Base/Dict/Total.antt =====
-- The sum of a weight over the entries of a map, and how one write changes it.
use mathlib.Core.Path.{◌≡◌}
use mathlib.Core.Logic.{inl, inr}
use mathlib.Core.Option.{Option, none, some}
use mathlib.Core.List.{[], ◌∷◌}
use astraport_contracts.Base.Tests.{Bool-cases}
use astraport_contracts.Base.Int.{ℤ, pos, ◌+ℤ◌, int_laws}
use astraport_contracts.Base.Dict.{Key, Dict, lookup, insert}

module _ {ℓ κ} {K : Type ℓ} {V : Type κ} where
  -- What a key contributes: nothing if it is not bound.
  abbrev pub weight : (K → V → ℤ) → K → Option V → ℤ
  weight f k none = pos 0
  weight f k (some v) = f k v

  unfoldable pub total : (K → V → ℤ) → Dict K V → ℤ
  total f [] = pos 0
  total f ((k, v) ∷ m) = f k v +ℤ total f m

module _ {ℓ κ} {K : Type ℓ} {V : Type κ} ⦃e : Key K⦄ (f : K → V → ℤ) where
  -- A write replaces what the key contributed.
  pub total-insert :
      (k : K) (v : V) (m : Dict K V)
      → total f (insert k v m) +ℤ weight f k (lookup k m) ≡ total f m +ℤ f k v
  unfolding total insert lookup
  total-insert k v [] = omega int_laws
  total-insert k v ((j, w) ∷ m) = elim (Bool-cases (e.beq j k)) [
    | inl same ↦ rw (same, (e.beq_iff j k).0 same) (omega int_laws)
    | inr other ↦ rw other (grind (int_laws, total-insert k v m))
  ]
