-- ===== src/Prediction/Rounding.antt =====
-- contracts/prediction/src/cpmm.rs: what a purchase costs the pool.
use native.Mathlib.Nat.{div-mul-le_self, mul-le-mul_left}
use astraport_contracts.Base.{
  ℕ, ◌+◌, ◌-◌, ◌*◌, ◌/◌, ◌≤◌, ◌≡◌, refl, ap, ◌∙◌, some, arith, List, [], ◌∷◌,
}
use astraport_contracts.Base.Int.{ℤ, pos, ◌*ℤ◌, ◌+ℤ◌, ◌-ℤ◌}
use astraport_contracts.Machine.{quotient}
use astraport_contracts.Host.{ok}
use astraport_contracts.Prediction.Types.{LiquidityPool, SwapResult}
use astraport_contracts.Prediction.Pools.{get_elem?, set_elem, buy_outcome_tokens}
use astraport_contracts.Prediction.Product.{exact_fee, IsPaired, buy_settles, settle_swap_writes}

*ℤ-numbers : (x y : ℕ) → pos x *ℤ pos y ≡ pos (x * y)
unfolding ◌*ℤ◌
*ℤ-numbers x y = ground arith

quotient-numbers : (x y : ℕ) → quotient (pos x) (pos y) ≡ pos (x / y)
unfolding quotient
quotient-numbers x y = ground arith

exact_fee-numbers : (x bps : ℕ) → exact_fee (pos x) (pos bps) ≡ pos (x * bps / 10_000)
exact_fee-numbers x bps = rw (*ℤ-numbers x bps, quotient-numbers (x * bps) 10_000) refl

-- What is left of a payment after the fee.
abbrev pub after_fee : ℕ → ℕ → ℕ
after_fee x bps = x - x * bps / 10_000

fee_below : (x bps : ℕ) → bps ≤ 10_000 → x * bps / 10_000 ≤ x
fee_below x bps h = omega (arith, mul-le-mul_left x h)

added : (c x f : ℕ) → f ≤ x → pos c +ℤ (pos x -ℤ pos f) ≡ pos (c + (x - f))
unfolding ◌+ℤ◌ ◌-ℤ◌
added c x f h = ground arith

found_after_set :
    (xs : List ℤ) (i : ℕ) (y z : ℤ)
    → get_elem? xs i ≡ some z
    → get_elem? (set_elem xs i y) i ≡ some y
found_after_set [] i y z h = ground arith
found_after_set (x ∷ xs) i y z h = ground (arith, found_after_set xs (i - 1) y z)

-- A purchase from a pool with a product for each outcome that succeeds, with numbers that are not negative and a fee of at most the payment, adds what
-- is left of the payment after the fee to the collateral and rounds the new reserve down: the product of
-- the two does not exceed the product that was stored for the outcome.
pub purchase_rounds_down :
    (i x bps c k r : ℕ) (low : ℤ) (res : SwapResult) (pool pool' : LiquidityPool)
    → IsPaired pool
    → bps ≤ 10_000
    → pool.collateral_reserve ≡ pos c
    → get_elem? pool.k_per_outcome i ≡ some (pos k)
    → get_elem? pool.outcome_reserves i ≡ some (pos r)
    → buy_outcome_tokens i (pos x) (pos bps) low pool ≡ ok res pool'
    → (pool'.collateral_reserve ≡ pos (c + after_fee x bps))
      × (get_elem? pool'.outcome_reserves i ≡ some (pos (k / (c + after_fee x bps))))
      × (k / (c + after_fee x bps) * (c + after_fee x bps) ≤ k)
purchase_rounds_down i x bps c k r low res pool pool' paired cheap hc hk hr h =
    let charged : exact_fee (pos x) (pos bps) ≡ pos (x * bps / 10_000) = exact_fee-numbers x bps in
    let total : pool.collateral_reserve +ℤ (pos x -ℤ exact_fee (pos x) (pos bps))
        ≡ pos (c + after_fee x bps) =
      rw (hc, charged) (added c x (x * bps / 10_000) (fee_below x bps cheap)) in
    let left : quotient (pos k) (pool.collateral_reserve +ℤ (pos x -ℤ exact_fee (pos x) (pos bps)))
        ≡ pos (k / (c + after_fee x bps)) =
      rw total (quotient-numbers k (c + after_fee x bps)) in
    let writes =
      settle_swap_writes i _ _ _ (pos x) pool pool' paired
        (buy_settles i (pos x) (pos bps) low (pos k) (pos r) res pool pool' hk hr h) in
    (
      writes.0 ∙ total,
      ap (λ xs. get_elem? xs i) writes.1
          ∙ (found_after_set pool.outcome_reserves i _ (pos r) hr ∙ ap some left),
      div-mul-le_self k (c + after_fee x bps),
    )
