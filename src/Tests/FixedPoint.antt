-- ===== src/Tests/FixedPoint.antt =====
-- Fixed-point arithmetic at concrete inputs.
use astraport_contracts.Base.{◌/◌, ◌%◌, ◌^◌, ◌≡◌, leb, if◌then◌else◌, arith}
use astraport_contracts.Base.Int.{pos, negsuc, ◌*ℤ◌, magnitude}
use astraport_contracts.Machine.{quotient}
use astraport_contracts.FixedPoint.{U256, limb, ok, err, overflow, div_u256_by_u128, mul_div}
use astraport_contracts.FixedPoint.Product.{value}
use astraport_contracts.FixedPoint.Exact.{div_u256_exact, mul_div_exact}

abbrev dividend : U256
dividend = record { hi = 3; lo = 12345 }

div_u256_exact_example : div_u256_by_u128 dividend 1000 ≡ (
    if leb limb (value dividend / 1000)
    then err overflow
    else ok (value dividend / 1000, value dividend % 1000))
div_u256_exact_example =
    div_u256_exact dividend 1000 (omega arith) (omega arith) (omega arith) (omega arith)

mul_div_exact_example : mul_div (negsuc 6) (pos 3) (pos 2) ≡ (
    if leb (2 ^ 127) (magnitude (quotient (negsuc 6 *ℤ pos 3) (pos 2)))
    then err overflow
    else ok (quotient (negsuc 6 *ℤ pos 3) (pos 2)))
mul_div_exact_example =
    mul_div_exact (negsuc 6) (pos 3) (pos 2) (omega arith) (omega arith) (omega arith) cc
