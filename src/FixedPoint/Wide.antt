-- ===== src/FixedPoint/Wide.antt =====
-- contracts/staking/src/fixed_point.rs: the emulated 256-bit integers. A `u128` is a number below
-- 2 ^ 128: `&` with a mask of 64 ones is `% 2 ^ 64`, and shifts are divisions and products.
use astraport_contracts.Base.{
  ℕ, zero, suc, ◌+◌, ◌-◌, ◌*◌, ◌/◌, ◌%◌, ◌^◌, ◌||◌, leb, ◌==◌, if◌then◌else◌,
}

pub data MathError : Type 0 where
  overflow divide_by_zero negative_input : MathError

pub data Result (A : Type 0) : Type 0 where
  ok : A → Result A
  err : MathError → Result A

infixl 5 ◌>>=◌
abbrev pub ◌>>=◌ : {A B : Type 0} → Result A → (A → Result B) → Result B
ok a >>= f = f a
err e >>= f = err e

pub record U256 : Type 0 where
  pub hi : ℕ
  pub lo : ℕ

abbrev pub limb : ℕ
limb = 2 ^ 128

abbrev pub half_limb : ℕ
half_limb = 2 ^ 64

-- `u128::overflowing_add` in two parts, and the wrapping operators
abbrev pub add_u128 : ℕ → ℕ → ℕ
add_u128 a b = (a + b) % limb

abbrev pub carry_u128 : ℕ → ℕ → ℕ
carry_u128 a b = (a + b) / limb

abbrev pub sub_u128 : ℕ → ℕ → ℕ
sub_u128 a b = (a + limb - b) % limb

abbrev pub shift_left_half : ℕ → ℕ
shift_left_half a = a * half_limb % limb

-- The accumulation of the four partial products.
unfoldable pub accumulate : ℕ → ℕ → ℕ → ℕ → U256
accumulate ll lh hl hh =
    let mid1 = add_u128 ll (shift_left_half lh) in
    let carry1 = carry_u128 ll (shift_left_half lh) in
    let hi1 = add_u128 hh (lh / half_limb + carry1) in
    let mid2 = add_u128 mid1 (shift_left_half hl) in
    let carry2 = carry_u128 mid1 (shift_left_half hl) in
    let hi2 = add_u128 hi1 (hl / half_limb + carry2) in record { hi = hi2; lo = mid2 }

unfoldable pub mul_u128_to_u256 : ℕ → ℕ → U256
unfolding accumulate
mul_u128_to_u256 a b =
    let a_lo = a % half_limb in
    let a_hi = a / half_limb in
    let b_lo = b % half_limb in
    let b_hi = b / half_limb in accumulate (a_lo * b_lo) (a_lo * b_hi) (a_hi * b_lo) (a_hi * b_hi)

-- `q |= 1 << i`
abbrev pub set_bit : ℕ → ℕ → ℕ
set_bit q i = if q / 2 ^ i % 2 == 1 then q else q + 2 ^ i

-- `(n >> i) & 1`
abbrev pub bit_of : ℕ → ℕ → ℕ
bit_of n i = n / 2 ^ i % 2

-- The variables of the division's loop.
pub record Division : Type 0 where
  pub quotient_hi : ℕ
  pub quotient_lo : ℕ
  pub rem : ℕ

-- One round: the bit comes in, and the divisor is subtracted if it fits.
unfoldable pub division_round : U256 → ℕ → ℕ → Division → Division
division_round num den i s =
    let bit = if leb 128 i then bit_of num.hi (i - 128) else bit_of num.lo i in
    let overflow_top = s.rem / 2 ^ 127 in
    let rem = s.rem * 2 % limb + bit in
    if (overflow_top == 1) || leb den rem
    then if leb 128 i
      then record {
        quotient_hi = set_bit s.quotient_hi (i - 128);
        quotient_lo = s.quotient_lo;
        rem = sub_u128 rem den;
      }
      else record {
        quotient_hi = s.quotient_hi;
        quotient_lo = set_bit s.quotient_lo i;
        rem = sub_u128 rem den;
      }
    else record s { rem = rem }

-- The loop `for i in (0..256).rev()`, with `n` rounds left.
unfoldable pub division_loop : U256 → ℕ → ℕ → Division → Division
division_loop num den zero s = s
division_loop num den (suc n) s = division_loop num den n (division_round num den n s)

unfoldable pub div_u256_by_u128 : U256 → ℕ → Result (ℕ × ℕ)
div_u256_by_u128 num den =
    let s = division_loop num den 256 (record { quotient_hi = 0; quotient_lo = 0; rem = 0 }) in
    if den == 0
    then err divide_by_zero
    else if num.hi == 0
    then ok (num.lo / den, num.lo % den)
    else if s.quotient_hi == 0
    then ok (s.quotient_lo, s.rem)
    else err overflow
