-- ===== src/Payments/EscrowSums.antt =====
-- contracts/payments/src/records.rs: the sum of escrow amounts.
use astraport_contracts.Base.{◌≡◌, ap, ◌∙◌, List, [], ◌∷◌, arith, All}
use astraport_contracts.Base.Int.{
  ℤ, pos, ◌+ℤ◌, ◌≤ℤ◌, min_ℤ, int_laws, +ℤ_parts, parts_disjoint, eq_of_parts,
}
use astraport_contracts.Base.Dict.{number_key}
use astraport_contracts.Machine.{i128_max}
use astraport_contracts.Payments.State.{EscrowRecord}
use astraport_contracts.Payments.Escrow.{sum_escrow_amounts, sum_from, saturating_add}

-- The amounts of escrows, summed without bound.
abbrev pub amounts : List EscrowRecord → ℤ
amounts [] = pos 0
amounts (r ∷ rs) = r.amount +ℤ amounts rs

amounts_nonneg : (rs : List EscrowRecord) → All (λ r. pos 0 ≤ℤ r.amount) rs → pos 0 ≤ℤ amounts rs
amounts_nonneg [] a = omega arith
amounts_nonneg (r ∷ rs) a =
    omega (arith, a.0, amounts_nonneg rs a.1, +ℤ_parts r.amount (amounts rs))

saturating_add-min :
    (total a : ℤ)
    → pos 0 ≤ℤ total
    → pos 0 ≤ℤ a
    → saturating_add total a ≡ min_ℤ (total +ℤ a) i128_max
saturating_add-min total a p q =
    ground (arith, +ℤ_parts total a, parts_disjoint (total +ℤ a), eq_of_parts (total +ℤ a) i128_max)

min-min :
    (total a rest : ℤ)
    → pos 0 ≤ℤ rest
    → min_ℤ (min_ℤ (total +ℤ a) i128_max +ℤ rest) i128_max ≡ min_ℤ (total +ℤ (a +ℤ rest)) i128_max
min-min total a rest p = grind int_laws

sum_from-min :
    (total : ℤ) (rs : List EscrowRecord)
    → pos 0 ≤ℤ total
    → total ≤ℤ i128_max
    → All (λ r. pos 0 ≤ℤ r.amount) rs
    → sum_from total rs ≡ min_ℤ (total +ℤ amounts rs) i128_max
unfolding sum_from
sum_from-min total [] p q a = grind int_laws
sum_from-min total (r ∷ rs) p q a = rw (saturating_add-min total r.amount p a.0) (
    sum_from-min (min_ℤ (total +ℤ r.amount) i128_max) rs
      (ground (arith, a.0, +ℤ_parts total r.amount)) (ground arith) a.1
    ∙ min-min total r.amount (amounts rs) (amounts_nonneg rs a.1))

-- For amounts that are not negative, `sum_escrow_amounts` is the exact sum, held down to i128::MAX.
pub sum_escrow_amounts_exact :
    (rs : List EscrowRecord)
    → All (λ r. pos 0 ≤ℤ r.amount) rs
    → sum_escrow_amounts rs ≡ min_ℤ (amounts rs) i128_max
unfolding sum_escrow_amounts
sum_escrow_amounts_exact rs a =
    let start : pos 0 +ℤ amounts rs ≡ amounts rs = omega int_laws in
    sum_from-min (pos 0) rs (omega arith) (omega arith) a ∙ ap (λ x. min_ℤ x i128_max) start
