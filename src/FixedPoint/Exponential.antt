-- ===== src/FixedPoint/Exponential.antt =====
-- contracts/staking/src/fixed_point.rs: the exponential by range reduction and a Taylor series.
use astraport_contracts.Base.{ℕ, zero, suc, ◌+◌, Option, none, some, if◌then◌else◌}
use astraport_contracts.Base.Int.{ℤ, pos, ltb_ℤ, leb_ℤ, eqb_ℤ}
use astraport_contracts.Machine.{checked_add, quotient}
use astraport_contracts.FixedPoint.Wide.{Result, ok, err, ◌>>=◌, overflow, negative_input}
use astraport_contracts.FixedPoint.Arithmetic.{one, mul}

-- `SCALE / 2`
abbrev pub half : ℕ
half = 500_000_000_000_000_000

-- `.ok_or(MathError::Overflow)?`
abbrev pub or_overflow : Option ℤ → Result ℤ
or_overflow none = err overflow
or_overflow (some x) = ok x

-- `while reduced > half`, with the rounds that are left; an `i128` is halved at most 127 times.
unfoldable pub halve_loop : ℕ → ℤ → ℕ → ℤ × ℕ
halve_loop zero reduced k = (reduced, k)
halve_loop (suc n) reduced k =
    let rest = halve_loop n (quotient reduced (pos 2)) (k + 1) in
    if leb_ℤ reduced (pos half) then (reduced, k) else rest

-- The terms from the `n`-th on, with the rounds that are left.
unfoldable pub taylor_loop : ℕ → ℕ → ℤ → ℤ → ℤ → Result ℤ
taylor_loop zero n reduced term sum = ok sum
taylor_loop (suc m) n reduced term sum = do
  product ← mul term reduced
  let next : ℤ = quotient product (pos n)
  sum' ← or_overflow (checked_add sum next)
  if eqb_ℤ next (pos 0) then ok sum' else taylor_loop m (n + 1) reduced next sum'

unfoldable pub square_loop : ℕ → ℤ → Result ℤ
square_loop zero result = ok result
square_loop (suc k) result = do squared ← mul result result; square_loop k squared

unfoldable pub exp : ℤ → Result ℤ
unfolding halve_loop taylor_loop square_loop
exp x = if ltb_ℤ x (pos 0) then err negative_input else if eqb_ℤ x (pos 0) then ok one else do
  let (reduced, k) = halve_loop 127 x 0
  sum ← taylor_loop 20 1 reduced one one
  square_loop k sum
