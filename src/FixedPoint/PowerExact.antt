-- ===== src/FixedPoint/PowerExact.antt =====
-- contracts/staking/src/fixed_point.rs: powers of whole numbers.
use native.Mathlib.Nat.{
  pow-suc, pow-zero, mul-le-mul_right, pow-le-pow_right, one-le-pow, one-le-mul,
}
use astraport_contracts.Base.{
  ℕ, zero, suc, ◌+◌, ◌*◌, ◌/◌, ◌%◌, ◌^◌, ◌≤◌, ◌<◌, ◌≡◌, refl, sym, ◌∙◌, ap, inl, inr, Bool, true,
  false, arith, ◌==◌, if◌then◌else◌, Bool-cases,
}
use astraport_contracts.Base.Int.{ℤ, pos, ◌*ℤ◌}
use astraport_contracts.Machine.{quotient}
use astraport_contracts.FixedPoint.Wide.{ok}
use astraport_contracts.FixedPoint.Arithmetic.{mul, scale}
use astraport_contracts.FixedPoint.Exact.{mul_div_exact, quotient_sign}
use astraport_contracts.FixedPoint.Power.{power_loop, pow_uint, take_bit, square}

abbrev pub unit : ℕ
unit = 1_000_000_000_000_000_000

-- A whole number in fixed point.
abbrev pub whole : ℕ → ℤ
whole n = pos (n * unit)

padded-quotient : (a b : ℕ) → (a * unit + 0) * (b * unit + 0) / (unit + 0) ≡ a * b * unit
padded-quotient a b = omega arith

whole_quotient : (a b : ℕ) → quotient (whole a *ℤ whole b) scale ≡ whole (a * b)
whole_quotient a b = sym (quotient_sign (whole a) (whole b) scale) ∙ ap pos (padded-quotient a b)

-- A product of whole numbers that fits is exact.
pub mul-whole :
    (a b : ℕ)
    → a * unit < 2 ^ 127
    → b * unit < 2 ^ 127
    → a * b * unit < 2 ^ 127
    → mul (whole a) (whole b) ≡ ok (whole (a * b))
unfolding mul
mul-whole a b p q r =
    rw
      (
        mul_div_exact (whole a) (whole b) scale (omega arith, p) (omega arith, q)
            (omega arith, omega arith) cc,
        whole_quotient a b,
      )
      (ground (arith, r))

same_power : (a i j : ℕ) → i ≡ j → a ^ i ≡ a ^ j
same_power a i j e = ap (λ (k : ℕ). a ^ k) e

power-split : (a h : ℕ) → a ^ (h * 2) ≡ (a * a) ^ h
power-split a zero = pow-zero a ∙ sym (pow-zero (a * a))
power-split a (suc h) =
    let step : a ^ (suc h * 2) ≡ a ^ (h * 2) * a * a =
      same_power a (suc h * 2) (suc (suc (h * 2))) (omega arith)
      ∙ pow-suc a (suc (h * 2))
      ∙ ap (λ (k : ℕ). k * a) (pow-suc a (h * 2)) in
    rw (step, power-split a h, pow-suc (a * a) h) (omega arith)

-- The two ways of a round.
power-even : (a e : ℕ) → e % 2 ≡ 0 → a ^ e ≡ (a * a) ^ (e / 2)
power-even a e h = same_power a e (e / 2 * 2) (omega arith) ∙ power-split a (e / 2)

power-odd : (a e : ℕ) → e % 2 ≡ 1 → a ^ e ≡ (a * a) ^ (e / 2) * a
power-odd a e h =
    same_power a e (suc (e / 2 * 2)) (omega arith)
    ∙ pow-suc a (e / 2 * 2)
    ∙ ap (λ (k : ℕ). k * a) (power-split a (e / 2))

-- One round, on whole numbers.
abbrev next_result : ℕ → ℕ → ℕ → ℕ
next_result e r a = if e % 2 == 1 then r * a else r

abbrev next_power : ℕ → ℕ → ℕ
next_power e a = if e / 2 == 0 then a else a * a

last_bit : (e : ℕ) → (e == 0) ≡ false → (e / 2 == 0) ≡ true → e ≡ 1
last_bit e p q = ground arith

power-one : (a : ℕ) → a ^ 1 ≡ a
power-one a =
    pow-suc a 0 ∙ ap (λ (k : ℕ). k * a) (pow-zero a) ∙ (let t : 1 * a ≡ a = omega arith in t)

round-keeps :
    (e r a : ℕ) → (e == 0) ≡ false → next_result e r a * next_power e a ^ (e / 2) ≡ r * a ^ e
round-keeps e r a h = elim (Bool-cases (e / 2 == 0)) [
  | inl last ↦ rw (last_bit e h last, power-one a, pow-zero a) (omega arith)
  | inr more ↦ elim (Bool-cases (e % 2 == 1)) [
    | inl odd ↦ rw (more, odd, power-odd a e (ground (arith, odd))) (omega arith)
    | inr even ↦ rw (more, even, power-even a e (ground (arith, even))) refl
  ]
]

le-times : (x y : ℕ) → 1 ≤ y → x ≤ x * y
le-times x y h = grind arith

le-power : (a k : ℕ) → 0 < a → 1 ≤ k → a ≤ a ^ k
le-power a k p h = let first : a ^ 1 ≤ a ^ k = pow-le-pow_right p h in omega (arith, power-one a)

module _ (e r a : ℕ) (some_e : (e == 0) ≡ false) (some_r : 0 < r) (some_a : 0 < a) where
  next_power-positive : 0 < next_power e a
  next_power-positive = ground (arith, one-le-mul some_a some_a)

  next_result-positive : 0 < next_result e r a
  next_result-positive = ground (arith, one-le-mul some_r some_a)

  result-le : r ≤ r * a ^ e
  result-le = le-times r (a ^ e) (one-le-pow e a some_a)

  power-le : a ≤ r * a ^ e
  power-le =
      let once : a ≤ a ^ e = le-power a e some_a (ground (arith, some_e)) in
      let more : 1 * a ^ e ≤ r * a ^ e = mul-le-mul_right (a ^ e) some_r in omega arith

  next_result-le : next_result e r a ≤ r * a ^ e
  next_result-le = rw (← round-keeps e r a some_e) (
      le-times (next_result e r a) (next_power e a ^ (e / 2))
        (one-le-pow (e / 2) (next_power e a) next_power-positive))

  next_power-le : next_power e a ≤ r * a ^ e
  next_power-le = elim (Bool-cases (e / 2 == 0)) [
    | inl last ↦ rw last power-le
    | inr more ↦
        let b = next_power e a in
        let once : b ≤ b ^ (e / 2) =
          le-power b (e / 2) next_power-positive (ground (arith, more)) in
        let times : 1 * b ^ (e / 2) ≤ next_result e r a * b ^ (e / 2) =
          mul-le-mul_right (b ^ (e / 2)) next_result-positive in
        rw (← round-keeps e r a some_e) (omega arith)
  ]

  module _ (fits : r * a ^ e * unit < 2 ^ 127) where
    take_bit-whole : take_bit e (whole r) (whole a) ≡ ok (whole (next_result e r a))
    take_bit-whole = elim (Bool-cases (e % 2 == 1)) [
      | inr even ↦ rw even refl
      | inl odd ↦
          let small : r * a ≤ r * a ^ e =
            rw (← (ap (λ (b : Bool). if b then r * a else r) odd)) next_result-le in
          rw odd (mul-whole r a (omega (arith, result-le)) (omega (arith, power-le)) (omega arith))
    ]

    square-whole : square e (whole a) ≡ ok (whole (next_power e a))
    square-whole = elim (Bool-cases (e / 2 == 0)) [
      | inl last ↦ rw last refl
      | inr more ↦
          let small : a * a ≤ r * a ^ e =
            rw (← (ap (λ (b : Bool). if b then a else a * a) more)) next_power-le in
          rw more (mul-whole a a (omega (arith, power-le)) (omega (arith, power-le)) (omega arith))
    ]

times-one : (r : ℕ) → r ≡ r * 1
times-one r = omega arith

halved-lt : (n e : ℕ) → e < 2 ^ suc n → e / 2 < 2 ^ n
halved-lt n e h = let twice : 2 ^ suc n ≡ 2 ^ n * 2 = pow-suc 2 n in omega arith

-- `r * a ^ e`, for whole numbers, if the result fits.
power_loop-whole :
    (n r a e : ℕ)
    → 0 < r
    → 0 < a
    → e < 2 ^ n
    → r * a ^ e * unit < 2 ^ 127
    → power_loop n (whole r) (whole a) e ≡ ok (whole (r * a ^ e))
unfolding power_loop
power_loop-whole zero r a e p q h k =
    let none_left : e ≡ 0 = omega arith in
    rw (none_left, pow-zero a) (ap (λ (m : ℕ). ok (whole m)) (times-one r))
power_loop-whole (suc n) r a e p q h k = elim (Bool-cases (e == 0)) [
  | inl done ↦ rw done (
      let none_left : e ≡ 0 = ground (arith, done) in
      rw (none_left, pow-zero a) (ap (λ (m : ℕ). ok (whole m)) (times-one r)))
  | inr more ↦
      rw (more, take_bit-whole e r a more p q k, square-whole e r a more p q k)
        (let keeps = round-keeps e r a more in
          power_loop-whole n (next_result e r a) (next_power e a) (e / 2)
            (next_result-positive e r a more p q) (next_power-positive e r a more p q)
            (halved-lt n e h) (rw keeps k)
          ∙ ap (λ (m : ℕ). ok (whole m)) keeps)
]

-- For a whole number `n` that is not 0 and a `u64` exponent, if `n ^ e` fits in fixed point, `pow_uint`
-- returns it exactly, within its 64 rounds.
pub pow_uint_exact :
    (n e : ℕ)
    → 0 < n
    → e < 2 ^ 64
    → n ^ e * unit < 2 ^ 127
    → pow_uint (whole n) e ≡ ok (whole (n ^ e))
unfolding pow_uint
pow_uint_exact n e p h k =
    let alone : 1 * n ^ e ≡ n ^ e = omega arith in
    power_loop-whole 64 1 n e (omega arith) p h (rw alone k) ∙ ap (λ (m : ℕ). ok (whole m)) alone
