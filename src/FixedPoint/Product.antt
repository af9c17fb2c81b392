-- ===== src/FixedPoint/Product.antt =====
-- contracts/staking/src/fixed_point.rs: the number that the 256-bit product stands for.
use astraport_contracts.Base.{ℕ, ◌+◌, ◌*◌, ◌/◌, ◌%◌, ◌<◌, ◌≡◌, sym, ◌∙◌, arith}
use mathlib.Core.Path.{ap₂}
use astraport_contracts.FixedPoint.Wide.{U256, limb, half_limb, accumulate, mul_u128_to_u256}

-- The number that two limbs stand for.
abbrev pub value : U256 → ℕ
value n = n.hi * limb + n.lo

accumulate-value :
    (ll lh hl hh : ℕ)
    → ll < limb
    → lh < limb
    → hl < limb
    → ll + lh * half_limb + hl * half_limb + hh * limb < limb * limb
    → (value (accumulate ll lh hl hh) ≡ ll + lh * half_limb + hl * half_limb + hh * limb)
      × ((accumulate ll lh hl hh).hi < limb)
      × ((accumulate ll lh hl hh).lo < limb)
unfolding accumulate
accumulate-value ll lh hl hh p q r s = omega arith

split-product :
    (ah al bh bl : ℕ)
    → (ah * half_limb + al) * (bh * half_limb + bl)
      ≡ al * bl + al * bh * half_limb + ah * bl * half_limb + ah * bh * limb
split-product ah al bh bl = omega arith

half-product : (x y : ℕ) → x < half_limb → y < half_limb → x * y < limb
half-product x y p q = grind arith

limb-product : (x y : ℕ) → x < limb → y < limb → x * y < limb * limb
limb-product x y p q = grind arith

-- For two u128 values the 256-bit product is their exact product, in two u128 limbs.
pub mul_u128-value :
    (a b : ℕ)
    → a < limb
    → b < limb
    → (value (mul_u128_to_u256 a b) ≡ a * b)
      × ((mul_u128_to_u256 a b).hi < limb)
      × ((mul_u128_to_u256 a b).lo < limb)
unfolding mul_u128_to_u256
mul_u128-value a b p q =
    let al = a % half_limb in
    let ah = a / half_limb in
    let bl = b % half_limb in
    let bh = b / half_limb in
    let split : a * b ≡ al * bl + al * bh * half_limb + ah * bl * half_limb + ah * bh * limb =
      ap₂ (λ (x y : ℕ). x * y) (omega arith) (omega arith) ∙ split-product ah al bh bl in
    let exact =
      accumulate-value (al * bl) (al * bh) (ah * bl) (ah * bh)
        (half-product al bl (omega arith) (omega arith))
        (half-product al bh (omega arith) (omega arith))
        (half-product ah bl (omega arith) (omega arith))
        (omega (arith, split, limb-product a b p q)) in
    (exact.0 ∙ sym split, exact.1, exact.2)
