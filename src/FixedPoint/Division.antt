-- ===== src/FixedPoint/Division.antt =====
-- contracts/staking/src/fixed_point.rs: the binary long division as a loop on one limb.
pub mod Limbs
use astraport_contracts.Base.{
  ℕ, zero, suc, ◌+◌, ◌-◌, ◌*◌, ◌/◌, ◌%◌, ◌^◌, ◌≤◌, ◌<◌, ◌≡◌, refl, sym, ◌∙◌, ap, ◌⊎◌, inl, inr,
  Bool, true, false, ◌||◌, arith, ltb, leb, ◌==◌, if◌then◌else◌, Bool-cases,
}
use native.Mathlib.Nat.{pow-suc, div-div-eq-div-mul, div-add-mod, add_assoc}
use astraport_contracts.FixedPoint.Wide.{
  U256, limb, set_bit, bit_of, sub_u128, Division, division_round, division_loop, div_u256_by_u128,
  Result, ok, err, overflow, divide_by_zero,
}
use astraport_contracts.FixedPoint.Product.{value}

-- The remainder and the quotient's new bit of one round.
abbrev pub next_rem : ℕ → ℕ → ℕ → ℕ
next_rem bit den rem = let t = 2 * rem + bit in if leb den t then t - den else t

abbrev pub next_bit : ℕ → ℕ → ℕ → ℕ
next_bit bit den rem = let t = 2 * rem + bit in if leb den t then 1 else 0

-- The code's test and wrapped subtraction do this for any remainder below the divisor.
pub round-step :
    (bit den rem : ℕ)
    → bit < 2
    → rem < den
    → den < limb
    → let r = rem * 2 % limb + bit in
      (if (rem / 2 ^ 127 == 1) || leb den r then sub_u128 r den else r) ≡ next_rem bit den rem
round-step bit den rem p q r = ground arith

-- Dividing one limb, from its `n` lowest bits, where `q` are the quotient's bits so far.
abbrev pub limb_round : ℕ → ℕ → ℕ → ℕ × ℕ → ℕ × ℕ
limb_round num den i (q, rem) =
    (q + next_bit (bit_of num i) den rem * 2 ^ i, next_rem (bit_of num i) den rem)

unfoldable pub limb_loop : ℕ → ℕ → ℕ → ℕ × ℕ → ℕ × ℕ
limb_loop num den zero s = s
limb_loop num den (suc n) s = limb_loop num den n (limb_round num den n s)

mod_double : (num p : ℕ) → 0 < p → num % (2 * p) ≡ num / p % 2 * p + num % p
mod_double num p h =
    let k = num / p in
    let c = num / (2 * p) in
    let half : c ≡ k / 2 =
      ap (λ (t : ℕ). num / t) (omega arith) ∙ sym (div-div-eq-div-mul num p 2) in
    let halves : p * k ≡ p * (2 * c + k % 2) = ap (λ (t : ℕ). p * t) (omega arith) in
    omega (arith, div-add-mod num (2 * p), div-add-mod num p, halves)

pub pow_pos : (n : ℕ) → 0 < 2 ^ n
pow_pos zero = omega arith
pow_pos (suc n) = omega (arith, pow-suc 2 n, pow_pos n)

pub pow_double : (n : ℕ) → 2 ^ suc n ≡ 2 * 2 ^ n
pow_double n = omega (arith, pow-suc 2 n)

-- One round, with the weight `p` of its bit.
next-split : (bit den rem : ℕ) → next_bit bit den rem * den + next_rem bit den rem ≡ 2 * rem + bit
next-split bit den rem = elim (Bool-cases (leb den (2 * rem + bit))) [
  | inl fits ↦ rw fits (ground arith)
  | inr short ↦ rw short (omega arith)
]

scale_split :
    (q b den r rem bit p : ℕ)
    → b * den + r ≡ 2 * rem + bit
    → (q + b * p) * den + p * r ≡ q * den + 2 * p * rem + bit * p
scale_split q b den r rem bit p e = omega (arith, ap (λ (t : ℕ). p * t) e)

round-exact :
    (bit den q rem p : ℕ)
    → (q + next_bit bit den rem * p) * den + p * next_rem bit den rem
      ≡ q * den + 2 * p * rem + bit * p
round-exact bit den q rem p =
    scale_split q (next_bit bit den rem) den (next_rem bit den rem) rem bit p
      (next-split bit den rem)

pub next_rem-lt : (bit den rem : ℕ) → bit < 2 → rem < den → next_rem bit den rem < den
next_rem-lt bit den rem p q = ground arith

-- What the bits from `n` on and the rest amount to is kept.
pub limb_loop-exact :
    (num den n q rem : ℕ)
    → rem < den
    → (let (q', rem') = limb_loop num den n (q, rem) in
        (rem' < den) × (q' * den + rem' ≡ q * den + 2 ^ n * rem + num % 2 ^ n))
unfolding limb_loop
limb_loop-exact num den zero q rem h = (h, omega arith)
limb_loop-exact num den (suc n) q rem h =
    let bit = bit_of num n in
    let small : bit < 2 = omega arith in
    let rest =
      limb_loop-exact num den n (q + next_bit bit den rem * 2 ^ n) (next_rem bit den rem)
        (next_rem-lt bit den rem small h) in
    (
      rest.0,
      rest.1
          ∙ rw (pow_double n, mod_double num (2 ^ n) (pow_pos n))
              (ap (λ (t : ℕ). t + num % 2 ^ n) (round-exact bit den q rem (2 ^ n))
                ∙ add_assoc _ _ _),
    )
