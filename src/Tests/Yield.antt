-- ===== src/Tests/Yield.antt =====
-- Powers and yields at concrete inputs.
use astraport_contracts.Base.{ℕ, ◌+◌, ◌/◌, ◌≤◌, ◌^◌, ◌≡◌, refl, arith, [], ◌∷◌}
use astraport_contracts.Base.Int.{ℤ, pos, ◌≤ℤ◌, ◌+ℤ◌, ◌-ℤ◌}
use astraport_contracts.Machine.{InI128, quotient}
use astraport_contracts.FixedPoint
use astraport_contracts.FixedPoint.{Result, ok, pow_uint}
use astraport_contracts.FixedPoint.Rounds.{power_loop-rounds, halve_loop-rounds}
use astraport_contracts.FixedPoint.PowerExact.{whole, pow_uint_exact}
use astraport_contracts.Yield
use astraport_contracts.Yield.{
  Compounding, daily, continuous, growth_factor, compute_yield, compute_balance,
  compute_yield_segments,
}
use astraport_contracts.Yield.Growth.{IsAmount, AtLeastOne}
use astraport_contracts.Yield.Returns.{growth_factor-AtLeastOne}
use astraport_contracts.Yield.Earnings.{compute_balance_grows}

pow_uint_exact_example : pow_uint (whole 3) 13 ≡ ok (whole (3 ^ 13))
pow_uint_exact_example = pow_uint_exact 3 13 (omega arith) (omega arith) (omega arith)

-- A rate of 0.1% for each day.
abbrev rate : ℤ
rate = pos 365_000_000_000_000_000

rate-IsAmount : IsAmount rate
rate-IsAmount = (365_000_000_000_000_000, refl, omega arith)

grown : growth_factor daily rate 86_400 ≡ ok (pos 1_001_000_000_000_000_000)
unfolding growth_factor Yield.daily_growth_factor Yield.partial_day FixedPoint.pow_uint
    FixedPoint.power_loop FixedPoint.mul FixedPoint.mul_div FixedPoint.mul_u128_to_u256
    FixedPoint.div_u256_by_u128 FixedPoint.div quotient ◌+ℤ◌
grown = refl

growth_factor-AtLeastOne_example : AtLeastOne (pos 1_001_000_000_000_000_000)
growth_factor-AtLeastOne_example =
    growth_factor-AtLeastOne daily rate 86_400 (pos 1_001_000_000_000_000_000) rate-IsAmount
      (omega arith) grown

balance : compute_balance daily (pos 5_000_000) rate 86_400 ≡ ok (pos 5_005_000)
unfolding compute_balance FixedPoint.mul FixedPoint.mul_div FixedPoint.mul_u128_to_u256
    FixedPoint.div_u256_by_u128
balance = rw grown refl

earned : compute_yield daily (pos 5_000_000) rate 86_400 ≡ ok (pos 5_000)
unfolding compute_yield FixedPoint.mul FixedPoint.mul_div FixedPoint.mul_u128_to_u256
    FixedPoint.div_u256_by_u128 ◌-ℤ◌
earned = rw grown refl

rolled : compute_yield_segments daily (pos 5_000_000) ((rate, 86_400) ∷ []) ≡ ok (pos 5_000)
unfolding compute_yield_segments Yield.roll_segments ◌-ℤ◌
rolled = rw balance refl

compute_balance_grows_example : (pos 5_000_000 ≤ℤ pos 5_005_000) × InI128 (pos 5_005_000)
compute_balance_grows_example =
    compute_balance_grows daily (pos 5_000_000) rate 86_400 (pos 5_005_000)
      (omega arith, omega arith) rate-IsAmount (omega arith) balance

power_loop-rounds_example :
    FixedPoint.power_loop 5 FixedPoint.one rate 13 ≡ FixedPoint.power_loop 4 FixedPoint.one rate 13
power_loop-rounds_example = power_loop-rounds 4 FixedPoint.one rate 13 (omega arith)

halve_loop-rounds_example :
    (j : ℕ) × (FixedPoint.halve_loop 127 (pos 5_000_000_000_000_000_000) 0
      ≡ (pos (5_000_000_000_000_000_000 / 2 ^ j), 0 + j))
    × (5_000_000_000_000_000_000 / 2 ^ j ≤ FixedPoint.half)
halve_loop-rounds_example = halve_loop-rounds 127 5_000_000_000_000_000_000 0 (omega arith)
