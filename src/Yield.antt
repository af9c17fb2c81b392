-- ===== src/Yield.antt =====
-- contracts/staking/src/compounding.rs: the compounding strategies and the yield calculator.
pub mod Growth
pub mod Returns
pub mod Earnings
use astraport_contracts.Base.{
  ℕ, ◌+◌, ◌/◌, ◌%◌, Bool, not, ◌||◌, List, [], ◌∷◌, ltb, ◌==◌, if◌then◌else◌,
}
use astraport_contracts.Base.Int.{ℤ, pos, leb_ℤ, eqb_ℤ}
use astraport_contracts.Machine.{checked_add, checked_sub, quotient}
use astraport_contracts.FixedPoint.{
  Result, ok, err, ◌>>=◌, one, mul, div, pow_uint, or_overflow, exp,
}

-- SECONDS_PER_YEAR, SECONDS_PER_DAY and DAYS_PER_YEAR
abbrev pub seconds_per_year : ℕ
seconds_per_year = 31_536_000

abbrev pub seconds_per_day : ℕ
seconds_per_day = 86_400

abbrev pub days_per_year : ℕ
days_per_year = 365

pub data Compounding : Type 0 where
  daily continuous : Compounding

-- The factor of the partial trailing day.
unfoldable pub partial_day : ℤ → ℕ → ℤ → Result ℤ
partial_day daily_rate remainder_seconds factor =
    if not (ltb 0 remainder_seconds) then ok factor else do
      frac ← div (pos remainder_seconds) (pos seconds_per_day)
      partial_interest ← mul daily_rate frac
      partial_factor ← or_overflow (checked_add one partial_interest)
      mul factor partial_factor

unfoldable pub daily_growth_factor : ℤ → ℕ → Result ℤ
daily_growth_factor apr duration_seconds = do
  let daily_rate : ℤ = quotient apr (pos days_per_year)
  per_day_factor ← or_overflow (checked_add one daily_rate)
  factor ← pow_uint per_day_factor (duration_seconds / seconds_per_day)
  partial_day daily_rate (duration_seconds % seconds_per_day) factor

unfoldable pub continuous_growth_factor : ℤ → ℕ → Result ℤ
continuous_growth_factor apr duration_seconds = do
  t ← div (pos duration_seconds) (pos seconds_per_year)
  exponent ← mul apr t
  exp exponent

abbrev pub strategy_factor : Compounding → ℤ → ℕ → Result ℤ
strategy_factor daily apr duration_seconds = daily_growth_factor apr duration_seconds
strategy_factor continuous apr duration_seconds = continuous_growth_factor apr duration_seconds

unfoldable pub growth_factor : Compounding → ℤ → ℕ → Result ℤ
growth_factor c apr duration_seconds =
    if eqb_ℤ apr (pos 0) || (duration_seconds == 0)
    then ok one
    else strategy_factor c apr duration_seconds

-- A `YieldCalculator` is its compounding model.
unfoldable pub compute_yield : Compounding → ℤ → ℤ → ℕ → Result ℤ
compute_yield c principal apr duration_seconds = if leb_ℤ principal (pos 0) then ok (pos 0) else do
  factor ← growth_factor c apr duration_seconds
  growth ← or_overflow (checked_sub factor one)
  mul principal growth

unfoldable pub compute_balance : Compounding → ℤ → ℤ → ℕ → Result ℤ
compute_balance c principal apr duration_seconds =
    if leb_ℤ principal (pos 0)
    then ok principal
    else do factor ← growth_factor c apr duration_seconds; mul principal factor

-- The balance after the segments.
unfoldable pub roll_segments : Compounding → ℤ → List (ℤ × ℕ) → Result ℤ
roll_segments c balance [] = ok balance
roll_segments c balance ((apr, duration) ∷ segments) = do
  next ← compute_balance c balance apr duration
  roll_segments c next segments

unfoldable pub compute_yield_segments : Compounding → ℤ → List (ℤ × ℕ) → Result ℤ
compute_yield_segments c principal segments = if leb_ℤ principal (pos 0) then ok (pos 0) else do
  balance ← roll_segments c principal segments
  or_overflow (checked_sub balance principal)
