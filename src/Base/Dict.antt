-- ===== src/Base/Dict.antt =====
-- A map of the contract's storage, as an association list with an explicit test on the keys. The
-- host's storage holds one value for each key: `insert` replaces it.
pub mod Total
pub mod Unique
use Prim.Native.Nat.{ℕ}
use mathlib.Core.Path.{◌≡◌, refl, subst₂}
use mathlib.Core.Logic.{◌↔◌, ◌≢◌, ◌⊎◌, inl, inr}
use mathlib.Core.Bool.{Bool, true, false, ◌&&◌}
use mathlib.Core.Option.{Option, none, some}
use mathlib.Core.List.{List, [], ◌∷◌}
use native.Mathlib.Omega.{arith}
use astraport_contracts.Base.Tests.{◌==◌, if◌then◌else◌, ==_iff, Bool-cases}

pub record Key {ℓ} (K : Type ℓ) : Type ℓ where
  pub beq : K → K → Bool
  pub beq_iff : (j k : K) → (beq j k ≡ true) ↔ (j ≡ k)

instance abbrev pub number_key : Key ℕ
number_key = record { beq = ◌==◌; beq_iff = ==_iff }

abbrev pub pair_beq : ℕ × ℕ → ℕ × ℕ → Bool
pair_beq (a, b) (c, d) = (a == c) && (b == d)

pub pair_beq_iff : (j k : ℕ × ℕ) → (pair_beq j k ≡ true) ↔ (j ≡ k)
pair_beq_iff (a, b) (c, d) = ground arith

instance abbrev pub pair_key : Key (ℕ × ℕ)
pair_key = record { beq = pair_beq; beq_iff = pair_beq_iff }

abbrev pub Dict {ℓ κ} : Type ℓ → Type κ → Type (ℓ ⊔ κ)
Dict K V = List (K × V)

module _ {ℓ κ} {K : Type ℓ} {V : Type κ} ⦃e : Key K⦄ where
  unfoldable pub lookup : K → Dict K V → Option V
  lookup k [] = none
  lookup k ((j, v) ∷ m) = if e.beq j k then some v else lookup k m

  unfoldable pub insert : K → V → Dict K V → Dict K V
  insert k v [] = (k, v) ∷ []
  insert k v ((j, w) ∷ m) = if e.beq j k then (k, v) ∷ m else (j, w) ∷ insert k v m

  unfoldable pub remove : K → Dict K V → Dict K V
  remove k [] = []
  remove k ((j, w) ∷ m) = if e.beq j k then remove k m else (j, w) ∷ remove k m

  pub lookup-insert :
      (k j : K) (v : V) (m : Dict K V)
      → lookup j (insert k v m) ≡ (if e.beq k j then some v else lookup j m)
  unfolding lookup insert
  lookup-insert k j v [] = refl
  lookup-insert k j v ((i, w) ∷ m) =
      ground (arith, e.beq_iff k j, e.beq_iff i k, e.beq_iff i j, lookup-insert k j v m)

  pub lookup-insert_self : (k : K) (v : V) (m : Dict K V) → lookup k (insert k v m) ≡ some v
  lookup-insert_self k v m = ground (arith, lookup-insert k k v m, e.beq_iff k k)

  pub lookup-insert_other :
      (k j : K) (v : V) (m : Dict K V) → j ≢ k → lookup j (insert k v m) ≡ lookup j m
  lookup-insert_other k j v m other = ground (arith, lookup-insert k j v m, e.beq_iff k j, other)

  -- What is found after a write is what was written, or what was there.
  pub lookup-insert_cases :
      (k j : K) (v : V) (m : Dict K V) {x : V}
      → lookup j (insert k v m) ≡ some x
      → ((k ≡ j) × (v ≡ x)) ⊎ ((k ≢ j) × (lookup j m ≡ some x))
  lookup-insert_cases k j v m h = ground (arith, lookup-insert k j v m, e.beq_iff k j)

  -- A write keeps a property of every value, if the new value has it.
  pub insert_inv {μ} :
      (P : K → V → Type μ) (k : K) (v : V) (m : Dict K V)
      → P k v
      → ((j : K) (x : V) → lookup j m ≡ some x → P j x)
      → (j : K) (x : V) → lookup j (insert k v m) ≡ some x
      → P j x
  insert_inv P k v m new old j x h = elim (lookup-insert_cases k j v m h) [
    | inl (same, val) ↦ subst₂ P same val new
    | inr (other, found) ↦ old j x found
  ]

  pub lookup-remove :
      (k j : K) (m : Dict K V) → lookup j (remove k m) ≡ (if e.beq k j then none else lookup j m)
  unfolding lookup remove
  lookup-remove k j [] = ground arith
  lookup-remove k j ((i, w) ∷ m) =
      ground (arith, e.beq_iff k j, e.beq_iff i k, e.beq_iff i j, lookup-remove k j m)

  -- What is found after a removal was there.
  pub remove_inv {μ} :
      (P : K → V → Type μ) (k : K) (m : Dict K V)
      → ((j : K) (x : V) → lookup j m ≡ some x → P j x)
      → (j : K) (x : V) → lookup j (remove k m) ≡ some x
      → P j x
  remove_inv P k m old j x h = old j x (ground (arith, lookup-remove k j m))
