-- ===== src/FixedPoint/Power.antt =====
-- contracts/staking/src/fixed_point.rs: powers by squaring.
use astraport_contracts.Base.{ℕ, zero, suc, ◌/◌, ◌%◌, ◌==◌, if◌then◌else◌}
use astraport_contracts.Base.Int.{ℤ}
use astraport_contracts.FixedPoint.Wide.{Result, ok, ◌>>=◌}
use astraport_contracts.FixedPoint.Arithmetic.{one, mul}

-- The two updates of a round: of the result if the bit is set, of the power if bits are left.
abbrev pub take_bit : ℕ → ℤ → ℤ → Result ℤ
take_bit e result acc = if e % 2 == 1 then mul result acc else ok result

abbrev pub square : ℕ → ℤ → Result ℤ
square e acc = if e / 2 == 0 then ok acc else mul acc acc

-- `while e > 0`, with the rounds that are left; an exponent of `n` bits takes at most `n`.
unfoldable pub power_loop : ℕ → ℤ → ℤ → ℕ → Result ℤ
power_loop zero result acc e = ok result
power_loop (suc n) result acc e =
    if e == 0
    then ok result
    else do result' ← take_bit e result acc; acc' ← square e acc; power_loop n result' acc' (e / 2)

-- A `u64` has 64 bits.
unfoldable pub pow_uint : ℤ → ℕ → Result ℤ
pow_uint base e = power_loop 64 one base e
