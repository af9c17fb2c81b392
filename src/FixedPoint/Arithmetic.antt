-- ===== src/FixedPoint/Arithmetic.antt =====
-- contracts/staking/src/fixed_point.rs: signed fixed-point multiplication and division.
use astraport_contracts.Base.{ℕ, ◌^◌, Bool, leb, if◌then◌else◌, xor}
use astraport_contracts.Base.Int.{ℤ, pos, magnitude, is_negative, with_sign, eqb_ℤ}
use astraport_contracts.FixedPoint.Wide.{
  Result, ok, err, ◌>>=◌, overflow, divide_by_zero, mul_u128_to_u256, div_u256_by_u128,
}

-- SCALE
abbrev pub scale : ℤ
scale = pos 1_000_000_000_000_000_000

-- ONE
abbrev pub one : ℤ
one = scale

abbrev signed_result : Bool → ℕ → Result ℤ
signed_result negative q = if leb (2 ^ 127) q then err overflow else ok (with_sign negative q)

unfoldable pub mul_div : ℤ → ℤ → ℤ → Result ℤ
mul_div a b denom = if eqb_ℤ denom (pos 0) then err divide_by_zero else do
  let negative = xor (xor (is_negative a) (is_negative b)) (is_negative denom)
  qr ← div_u256_by_u128 (mul_u128_to_u256 (magnitude a) (magnitude b)) (magnitude denom)
  signed_result negative qr.0

unfoldable pub mul : ℤ → ℤ → Result ℤ
mul a b = mul_div a b scale

unfoldable pub div : ℤ → ℤ → Result ℤ
div a b = if eqb_ℤ b (pos 0) then err divide_by_zero else mul_div a scale b
