-- ===== src/FixedPoint/Exact.antt =====
-- contracts/staking/src/fixed_point.rs: what `div_u256_by_u128` and `mul_div` return.
use astraport_contracts.Base.{
  ℕ, zero, suc, ◌+◌, ◌*◌, ◌/◌, ◌%◌, ◌^◌, ◌≤◌, ◌<◌, ◌≡◌, ◌≢◌, refl, ◌∙◌, ◌⊎◌, inl, inr, Bool, arith,
  leb, ltb, ◌==◌, if◌then◌else◌, Bool-cases, xor,
}
use native.Mathlib.Nat.{
  add-mul-div_right, add-mul-mod_self_right, div-eq_of_lt, mod-eq_of_lt, div-le_self, zero-div,
  mul-le-mul_right,
}
use astraport_contracts.Base.Int.{ℤ, pos, negsuc, magnitude, is_negative, with_sign, ◌*ℤ◌}
use astraport_contracts.Machine.{InI128, quotient}
use astraport_contracts.FixedPoint.Wide.{
  U256, limb, division_loop, div_u256_by_u128, mul_u128_to_u256, ok, err, overflow,
}
use astraport_contracts.FixedPoint.Arithmetic.{mul_div}
use astraport_contracts.FixedPoint.Product.{value, mul_u128-value}
use astraport_contracts.FixedPoint.Division.{limb_loop, limb_loop-exact}
use astraport_contracts.FixedPoint.Division.Limbs.{lo_phase, hi_phase}

-- A quotient and a remainder below the divisor are the quotient and the remainder.
div_unique : (n q d r : ℕ) → r < d → n ≡ q * d + r → (n / d ≡ q) × (n % d ≡ r)
div_unique n q d r h e =
    let turned : n ≡ r + q * d = omega arith in
    let some_d : 0 < d = omega arith in
    (
      rw (turned, add-mul-div_right r q some_d, div-eq_of_lt h) (omega arith),
      rw (turned, add-mul-mod_self_right r q d) (mod-eq_of_lt h),
    )

low_quotient-lt :
    (ql den r rh lo : ℕ) → rh < den → lo < limb → ql * den + r ≡ limb * rh + lo → ql < limb
low_quotient-lt ql den r rh lo p q e = elim (Bool-cases (ltb ql limb)) [
  | inl fits ↦ ground (arith, fits)
  | inr large ↦
      let below : (rh + 1) * limb ≤ den * limb = mul-le-mul_right limb (omega arith) in
      let above : limb * den ≤ ql * den = mul-le-mul_right den (ground (arith, large)) in
      absurd (omega arith)
]

-- Both limbs divided.
pub record LongDivision (num : U256) (den : ℕ) : Type 0 where
  pub high : ℕ
  pub low : ℕ
  pub rest : ℕ
  pub looped :
      division_loop num den 256 (record { quotient_hi = 0; quotient_lo = 0; rem = 0 })
      ≡ record { quotient_hi = high; quotient_lo = low; rem = rest }
  pub low_fits : low < limb
  pub small : rest < den
  pub total : value num ≡ (high * limb + low) * den + rest

long_division :
    (num : U256) (den : ℕ)
    → 0 < den
    → den < limb
    → num.hi < limb
    → num.lo < limb
    → LongDivision num den
long_division num den p wide hi lo =
    let h = limb_loop num.hi den 128 (0, 0) in
    let l = limb_loop num.lo den 128 (0, h.1) in
    let eh = limb_loop-exact num.hi den 128 0 0 p in
    let el = limb_loop-exact num.lo den 128 0 h.1 eh.0 in
    record {
      high = h.0;
      low = l.0;
      rest = l.1;
      looped =
          hi_phase num den wide 128 0 (record { quotient_hi = 0; quotient_lo = 0; rem = 0 }) p refl
          ∙ lo_phase num den wide 128 0 (record { quotient_hi = h.0; quotient_lo = 0; rem = h.1 })
              (omega arith) eh.0 refl;
      low_fits = low_quotient-lt l.0 den l.1 h.1 num.lo eh.0 lo (omega (arith, el.1));
      small = el.0;
      total = omega (arith, eh.1, el.1);
    }

-- For limbs in range and a divisor that is not 0, the long division returns the quotient and the
-- remainder of the 256-bit number, and `overflow` exactly when the quotient needs more than 128 bits.
pub div_u256_exact :
    (num : U256) (den : ℕ)
    → 0 < den
    → den < limb
    → num.hi < limb
    → num.lo < limb
    → div_u256_by_u128 num den
      ≡ (if leb limb (value num / den) then err overflow else ok (value num / den, value num % den))
unfolding div_u256_by_u128
div_u256_exact num den p wide hi lo =
    let d = long_division num den p wide hi lo in
    let u = div_unique (value num) (d.high * limb + d.low) den d.rest d.small d.total in
    elim (Bool-cases (num.hi == 0)) [
      | inl single ↦
          let alone : value num ≡ num.lo = ground (arith, single) in
          rw alone (ground (arith, single, div-le_self num.lo den))
      | inr double ↦ rw (d.looped, u.0, u.1) (ground (arith, double, d.low_fits))
    ]

magnitude-product : (a b : ℤ) → magnitude (a *ℤ b) ≡ magnitude a * magnitude b
unfolding ◌*ℤ◌
magnitude-product (pos m) (pos n) = ground arith
magnitude-product (pos m) (negsuc n) = ground arith
magnitude-product (negsuc m) (pos n) = ground arith
magnitude-product (negsuc m) (negsuc n) = ground arith

-- The sign of a product that is not 0.
sign-product :
    (a b : ℤ)
    → (is_negative (a *ℤ b) ≡ xor (is_negative a) (is_negative b)) ⊎ (magnitude a * magnitude b ≡ 0)
unfolding ◌*ℤ◌
sign-product (pos m) (pos n) = inl (ground arith)
sign-product (pos zero) (negsuc n) = inr (omega arith)
sign-product (pos (suc m)) (negsuc n) = inl (ground arith)
sign-product (negsuc m) (pos zero) = inr (omega arith)
sign-product (negsuc m) (pos (suc n)) = inl (ground arith)
sign-product (negsuc m) (negsuc n) = inl (ground arith)

magnitude-with_sign : (s : Bool) (n : ℕ) → magnitude (with_sign s n) ≡ n
magnitude-with_sign s n = ground arith

with_sign-zero : (s t : Bool) (n : ℕ) → n ≡ 0 → with_sign s n ≡ with_sign t n
with_sign-zero s t n e = ground arith

pub quotient_sign :
    (a b d : ℤ)
    → with_sign
        (xor (xor (is_negative a) (is_negative b)) (is_negative d))
        (magnitude a * magnitude b / magnitude d)
      ≡ quotient (a *ℤ b) d
unfolding quotient
quotient_sign a b d = elim (sign-product a b) [
  | inl same ↦ rw (same, magnitude-product)
  | inr nothing ↦ rw magnitude-product (
      with_sign-zero (xor (xor (is_negative a) (is_negative b)) (is_negative d))
        (xor (is_negative (a *ℤ b)) (is_negative d)) (magnitude a * magnitude b / magnitude d)
        (rw nothing (zero-div (magnitude d))))
]

-- `mul_div(a, b, d)` for `d` not 0 is the product divided by `d`, rounded towards zero, computed
-- without a bound; it is `overflow` exactly when the magnitude of that quotient is above i128::MAX.
pub mul_div_exact :
    (a b d : ℤ)
    → InI128 a
    → InI128 b
    → InI128 d
    → d ≢ pos 0
    → mul_div a b d ≡ (
        if leb (2 ^ 127) (magnitude (quotient (a *ℤ b) d))
        then err overflow
        else ok (quotient (a *ℤ b) d))
unfolding mul_div
mul_div_exact a b d ra rb rd nz =
    let pa = magnitude a in
    let pb = magnitude b in
    let product = mul_u128-value pa pb (omega arith) (omega arith) in
    let division =
      div_u256_exact (mul_u128_to_u256 pa pb) (magnitude d) (ground (arith, nz)) (omega arith)
        product.1 product.2 in
    let q = pa * pb / magnitude d in
    let sized : magnitude (quotient (a *ℤ b) d) ≡ q =
      rw (← quotient_sign a b d) (magnitude-with_sign _ q) in
    rw sized (ground (arith, product.0, division, quotient_sign a b d, nz))
