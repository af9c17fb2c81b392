-- ===== src/Yield/Growth.antt =====
-- contracts/staking/src/compounding.rs: arithmetic on amounts and on factors of at least 1.
use mathlib.Core.Path.{subst, subst₂}
use native.Mathlib.Nat.{mul-le-mul, div-le_self}
use astraport_contracts.Base.{
  ℕ, zero, suc, ◌+◌, ◌-◌, ◌*◌, ◌/◌, ◌%◌, ◌^◌, ◌≤◌, ◌<◌, ◌≡◌, refl, sym, ◌∙◌, ap, ◌⊎◌, inl, inr,
  arith, leb, ◌==◌, if◌then◌else◌, Bool-cases,
}
use astraport_contracts.Base.Int.{ℤ, pos, ◌*ℤ◌, ◌≤ℤ◌, ◌<ℤ◌, ◌+ℤ◌, ◌-ℤ◌, magnitude}
use astraport_contracts.Machine.{checked_add, checked_sub, quotient}
use astraport_contracts.FixedPoint.{
  MathError, overflow, mul_div, div, or_overflow, take_bit, square, Result, ok, err, one, mul,
  power_loop,
}
use astraport_contracts.FixedPoint.Exact.{mul_div_exact, quotient_sign}

abbrev unit : ℕ
unit = 1_000_000_000_000_000_000

-- Not negative, and an `i128`.
abbrev pub IsAmount : ℤ → Type 0
IsAmount x = (n : ℕ) × (x ≡ pos n) × (n < 2 ^ 127)

-- At least 1 in fixed point, and an `i128`.
abbrev pub AtLeastOne : ℤ → Type 0
AtLeastOne x = (n : ℕ) × (x ≡ pos n) × (n < 2 ^ 127) × (unit ≤ n)

pub AtLeastOne-IsAmount : (x : ℤ) → AtLeastOne x → IsAmount x
AtLeastOne-IsAmount x h = (h.0, h.1, h.2)

pub Result-cases :
    {A : Type 0} (m : Result A) → ((a : A) × (m ≡ ok a)) ⊎ ((e : MathError) × (m ≡ err e))
Result-cases (ok a) = inl (a, refl)
Result-cases (err e) = inr (e, refl)

padded : (a b c : ℕ) → (a + 0) * (b + 0) / (c + 0) ≡ a * b / c
padded a b c =
    let first : a + 0 ≡ a = omega arith in
    let second : b + 0 ≡ b = omega arith in
    let third : c + 0 ≡ c = omega arith in rw (first, second, third) refl

-- `mul_div` of numbers that are not negative.
mul_div_ok :
    (a b c : ℕ) (y : ℤ)
    → a < 2 ^ 127
    → b < 2 ^ 127
    → c < 2 ^ 127
    → 0 < c
    → mul_div (pos a) (pos b) (pos c) ≡ ok y
    → (y ≡ pos (a * b / c)) × (a * b / c < 2 ^ 127)
mul_div_ok a b c y p q r s h =
    let exact =
      mul_div_exact (pos a) (pos b) (pos c) (omega arith, p) (omega arith, q) (omega arith, r)
        (ground arith) in
    let same : quotient (pos a *ℤ pos b) (pos c) ≡ pos (a * b / c) =
      sym (quotient_sign (pos a) (pos b) (pos c)) ∙ ap pos (padded a b c) in
    let shape : ℤ → Result ℤ = λ x. if leb (2 ^ 127) (magnitude x) then err overflow else ok x in
    let known : shape (pos (a * b / c)) ≡ ok y = sym (ap shape same) ∙ sym exact ∙ h in ground arith

-- A quotient of amounts by a positive amount.
mul_div-IsAmount :
    (x z c y : ℤ)
    → IsAmount x
    → IsAmount z
    → IsAmount c
    → pos 0 <ℤ c
    → mul_div x z c ≡ ok y
    → IsAmount y
mul_div-IsAmount x z c y (a, ea, fa) (b, eb, fb) (d, ed, fd) p h =
    let known : mul_div (pos a) (pos b) (pos d) ≡ ok y = rw (← ea, ← eb, ← ed) h in
    let positive : 0 < d = ground (arith, ed) in
    let r = mul_div_ok a b d y fa fb fd positive known in (a * b / d, r.0, r.1)

pub mul-IsAmount : (x z y : ℤ) → IsAmount x → IsAmount z → mul x z ≡ ok y → IsAmount y
unfolding mul
mul-IsAmount x z y p q h = mul_div-IsAmount x z one y p q (unit, refl, omega arith) (omega arith) h

unit-product : (a b : ℕ) → unit ≤ a → unit ≤ b → unit ≤ a * b / unit
unit-product a b p q = let least : unit * unit ≤ a * b = mul-le-mul p q in omega arith

pub mul-AtLeastOne : (x z y : ℤ) → AtLeastOne x → AtLeastOne z → mul x z ≡ ok y → AtLeastOne y
unfolding mul
mul-AtLeastOne x z y (a, ea, fa, ga) (b, eb, fb, gb) h =
    let known : mul_div (pos a) (pos b) one ≡ ok y = rw (← ea, ← eb) h in
    let r = mul_div_ok a b unit y fa fb (omega arith) (omega arith) known in
    (a * b / unit, r.0, r.1, unit-product a b ga gb)

add_ok :
    (a b : ℕ) (y : ℤ)
    → or_overflow (checked_add (pos a) (pos b)) ≡ ok y
    → (y ≡ pos (a + b)) × (a + b < 2 ^ 127)
unfolding ◌+ℤ◌
add_ok a b y h = ground arith

pub add-AtLeastOne :
    (x z y : ℤ) → AtLeastOne x → IsAmount z → or_overflow (checked_add x z) ≡ ok y → AtLeastOne y
add-AtLeastOne x z y (a, ea, fa, ga) (b, eb, fb) h =
    let known = add_ok a b y (subst₂ (λ s t. or_overflow (checked_add s t) ≡ ok y) ea eb h) in
    (a + b, known.0, known.1, omega arith)

padded-quotient : (a n : ℕ) → (a + 0) / (n + 0) ≡ a / n
padded-quotient a n =
    let first : a + 0 ≡ a = omega arith in
    let second : n + 0 ≡ n = omega arith in rw (first, second) refl

pub quotient-IsAmount : (x : ℤ) (n : ℕ) → 0 < n → IsAmount x → IsAmount (quotient x (pos n))
unfolding quotient
quotient-IsAmount x n p (a, ea, fa) =
    let same : (a + 0) / (n + 0) ≡ a / n = padded-quotient a n in
    (a / n, rw (ea) (ap pos same), omega (arith, div-le_self a n))

-- Powers.
take_bit-AtLeastOne :
    (e : ℕ) (r a y : ℤ) → AtLeastOne r → AtLeastOne a → take_bit e r a ≡ ok y → AtLeastOne y
take_bit-AtLeastOne e r a y p q h = elim (Bool-cases (e % 2 == 1)) [
  | inl odd ↦ mul-AtLeastOne r a y p q (ground (arith, odd))
  | inr even ↦ let same : r ≡ y = ground (arith, even) in rw (← same) p
]

square-AtLeastOne : (e : ℕ) (a y : ℤ) → AtLeastOne a → square e a ≡ ok y → AtLeastOne y
square-AtLeastOne e a y q h = elim (Bool-cases (e / 2 == 0)) [
  | inr more ↦ mul-AtLeastOne a a y q q (ground (arith, more))
  | inl last ↦ let same : a ≡ y = ground (arith, last) in rw (← same) q
]

pub power_loop-AtLeastOne :
    (n : ℕ) (r a : ℤ) (e : ℕ) (y : ℤ)
    → AtLeastOne r
    → AtLeastOne a
    → power_loop n r a e ≡ ok y
    → AtLeastOne y
unfolding power_loop
power_loop-AtLeastOne zero r a e y p q h = let same : r ≡ y = ground arith in rw (← same) p
power_loop-AtLeastOne (suc n) r a e y p q h = elim (Bool-cases (e == 0)) [
  | inl done ↦ let same : r ≡ y = ground (arith, done) in rw (← same) p
  | inr more ↦ elim (Result-cases (take_bit e r a)) [
    | inr (x, failed) ↦ ground arith
    | inl (r', taken) ↦ elim (Result-cases (square e a)) [
      | inr (x, failed) ↦ ground arith
      | inl (a', squared) ↦
          power_loop-AtLeastOne n r' a' (e / 2) y (take_bit-AtLeastOne e r a r' p q taken)
            (square-AtLeastOne e a a' q squared) (ground arith)
    ]
  ]
]

-- A quotient of times.
pub div-IsAmount :
    (a b : ℕ) (y : ℤ) → a < 2 ^ 127 → b < 2 ^ 127 → 0 < b → div (pos a) (pos b) ≡ ok y → IsAmount y
unfolding div
div-IsAmount a b y p q r h =
    mul_div-IsAmount (pos a) one (pos b) y (a, refl, p) (unit, refl, omega arith) (b, refl, q)
      (omega arith) (ground arith)

-- An amount times a factor of at least 1 is not below the amount.
pub mul-grows : (x f y : ℤ) → IsAmount x → AtLeastOne f → mul x f ≡ ok y → (x ≤ℤ y) × IsAmount y
unfolding mul
mul-grows x f y (a, ea, fa) (b, eb, fb, gb) h =
    let known : mul_div (pos a) (pos b) one ≡ ok y = rw (← ea, ← eb) h in
    let r = mul_div_ok a b unit y fa fb (omega arith) (omega arith) known in
    let least : a * unit ≤ a * b = mul-le-mul (omega arith) gb in
    let grown : a ≤ a * b / unit = omega arith in
    (rw (ea, r.0) (omega arith), (a * b / unit, r.0, r.1))

-- A product of amounts that fits is returned.
pub mul-value :
    (a b : ℕ)
    → a < 2 ^ 127
    → b < 2 ^ 127
    → a * b / unit < 2 ^ 127
    → mul (pos a) (pos b) ≡ ok (pos (a * b / unit))
unfolding mul
mul-value a b p q r =
    let exact =
      mul_div_exact (pos a) (pos b) one (omega arith, p) (omega arith, q) (omega arith, omega arith)
        cc in
    let same : quotient (pos a *ℤ pos b) one ≡ pos (a * b / unit) =
      sym (quotient_sign (pos a) (pos b) one) ∙ ap pos (padded a b unit) in
    let shape : ℤ → Result ℤ = λ x. if leb (2 ^ 127) (magnitude x) then err overflow else ok x in
    exact ∙ ap shape same ∙ ground (arith, r)

pub excess-IsAmount : (f y : ℤ) → AtLeastOne f → or_overflow (checked_sub f one) ≡ ok y → IsAmount y
unfolding ◌-ℤ◌
excess-IsAmount f y (n, en, fn, gn) h =
    let known : or_overflow (checked_sub (pos n) one) ≡ ok y =
      subst (λ s. or_overflow (checked_sub s one) ≡ ok y) en h in
    (n - unit, ground (arith, gn), omega arith)
