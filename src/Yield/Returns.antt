-- ===== src/Yield/Returns.antt =====
-- contracts/staking/src/compounding.rs: the growth factor, the yield and the balance.
use astraport_contracts.Base.{
  ℕ, zero, suc, ◌+◌, ◌/◌, ◌%◌, ◌^◌, ◌<◌, ◌≡◌, refl, inl, inr, ◌||◌, arith, ltb, ◌==◌, Bool-cases,
}
use astraport_contracts.Base.Int.{ℤ, pos, leb_ℤ, eqb_ℤ}
use astraport_contracts.Machine.{checked_add, quotient}
use astraport_contracts.FixedPoint.{
  ok, one, mul, div, pow_uint, or_overflow, halve_loop, taylor_loop, square_loop, exp,
}
use astraport_contracts.Yield
use astraport_contracts.Yield.{
  Compounding, daily, continuous, growth_factor, compute_yield, compute_balance, partial_day,
  seconds_per_day,
}
use astraport_contracts.Yield.Growth.{
  IsAmount, AtLeastOne, AtLeastOne-IsAmount, Result-cases, mul-IsAmount, mul-AtLeastOne,
  add-AtLeastOne, quotient-IsAmount, power_loop-AtLeastOne, div-IsAmount,
}

abbrev unit : ℕ
unit = 1_000_000_000_000_000_000

one-AtLeastOne : AtLeastOne one
one-AtLeastOne = (unit, refl, omega arith, omega arith)

-- The exponential.
halve_loop-IsAmount : (n : ℕ) (x : ℤ) (k : ℕ) → IsAmount x → IsAmount (halve_loop n x k).0
unfolding halve_loop
halve_loop-IsAmount zero x k p = p
halve_loop-IsAmount (suc n) x k p = elim (Bool-cases (leb_ℤ x (pos 500_000_000_000_000_000))) [
  | inl small ↦ rw small p
  | inr large ↦
      rw large
        (halve_loop-IsAmount n (quotient x (pos 2)) (k + 1) (quotient-IsAmount x 2 (omega arith) p))
]

taylor_loop-AtLeastOne :
    (m n : ℕ) (x term sum y : ℤ)
    → 0 < n
    → IsAmount x
    → IsAmount term
    → AtLeastOne sum
    → taylor_loop m n x term sum ≡ ok y
    → AtLeastOne y
unfolding taylor_loop
taylor_loop-AtLeastOne zero n x term sum y p q r s h =
    let same : sum ≡ y = ground arith in rw (← same) s
taylor_loop-AtLeastOne (suc m) n x term sum y p q r s h = elim (Result-cases (mul term x)) [
  | inr (e, failed) ↦ ground arith
  | inl (product, multiplied) ↦
      let next = quotient product (pos n) in
      let small = quotient-IsAmount product n p (mul-IsAmount term x product r q multiplied) in
      elim (Result-cases (or_overflow (checked_add sum next))) [
        | inr (e, failed) ↦ ground arith
        | inl (sum', added) ↦
            let larger = add-AtLeastOne sum next sum' s small added in
            elim (Bool-cases (eqb_ℤ next (pos 0))) [
              | inl last ↦ let same : sum' ≡ y = ground arith in rw (← same) larger
              | inr more ↦
                  taylor_loop-AtLeastOne m (n + 1) x next sum' y (omega arith) q small larger
                    (ground arith)
            ]
      ]
]

square_loop-AtLeastOne : (k : ℕ) (x y : ℤ) → AtLeastOne x → square_loop k x ≡ ok y → AtLeastOne y
unfolding square_loop
square_loop-AtLeastOne zero x y p h = let same : x ≡ y = ground arith in rw (← same) p
square_loop-AtLeastOne (suc k) x y p h = elim (Result-cases (mul x x)) [
  | inr (e, failed) ↦ ground arith
  | inl (x', squared) ↦
      square_loop-AtLeastOne k x' y (mul-AtLeastOne x x x' p p squared) (ground arith)
]

exp-AtLeastOne : (x y : ℤ) → IsAmount x → exp x ≡ ok y → AtLeastOne y
unfolding exp
exp-AtLeastOne x y p h = elim (Bool-cases (eqb_ℤ x (pos 0))) [
  | inl none_left ↦ let same : one ≡ y = ground (arith, p.1) in rw (← same) one-AtLeastOne
  | inr more ↦
      let reduced = (halve_loop 127 x 0).0 in
      elim (Result-cases (taylor_loop 20 1 reduced one one)) [
        | inr (e, failed) ↦ ground (arith, p.1)
        | inl (sum, summed) ↦
            square_loop-AtLeastOne (halve_loop 127 x 0).1 sum y
              (taylor_loop-AtLeastOne 20 1 reduced one one sum (omega arith)
                (halve_loop-IsAmount 127 x 0 p) (AtLeastOne-IsAmount one one-AtLeastOne)
                one-AtLeastOne summed)
              (ground (arith, p.1))
      ]
]

-- The growth factor.
partial_day-AtLeastOne :
    (rate : ℤ) (seconds : ℕ) (factor y : ℤ)
    → IsAmount rate
    → seconds < seconds_per_day
    → AtLeastOne factor
    → partial_day rate seconds factor ≡ ok y
    → AtLeastOne y
unfolding partial_day
partial_day-AtLeastOne rate seconds factor y p q r h = elim (Bool-cases (ltb 0 seconds)) [
  | inr whole ↦ let same : factor ≡ y = ground (arith, whole) in rw (← same) r
  | inl rest ↦ elim (Result-cases (div (pos seconds) (pos seconds_per_day))) [
    | inr (e, failed) ↦ ground (arith, rest)
    | inl (frac, divided) ↦ elim (Result-cases (mul rate frac)) [
      | inr (e, failed) ↦ ground (arith, rest)
      | inl (interest, earned) ↦ elim (Result-cases (or_overflow (checked_add one interest))) [
        | inr (e, failed) ↦ ground (arith, rest)
        | inl (grown, added) ↦
            let small =
              div-IsAmount seconds seconds_per_day frac (omega arith) (omega arith) (omega arith)
                divided in
            mul-AtLeastOne factor grown y r
              (add-AtLeastOne one interest grown one-AtLeastOne
                (mul-IsAmount rate frac interest p small earned) added)
              (ground (arith, rest))
      ]
    ]
  ]
]

daily-AtLeastOne :
    (apr : ℤ) (duration : ℕ) (y : ℤ)
    → IsAmount apr
    → Yield.daily_growth_factor apr duration ≡ ok y
    → AtLeastOne y
unfolding Yield.daily_growth_factor pow_uint
daily-AtLeastOne apr duration y p h =
    let rate = quotient apr (pos 365) in
    let amount = quotient-IsAmount apr 365 (omega arith) p in
    elim (Result-cases (or_overflow (checked_add one rate))) [
      | inr (e, failed) ↦ ground arith
      | inl (base, added) ↦
          let larger = add-AtLeastOne one rate base one-AtLeastOne amount added in
          elim (Result-cases (pow_uint base (duration / seconds_per_day))) [
            | inr (e, failed) ↦ ground arith
            | inl (factor, raised) ↦
                partial_day-AtLeastOne rate (duration % seconds_per_day) factor y amount
                  (omega arith)
                  (power_loop-AtLeastOne 64 one base (duration / seconds_per_day) factor
                    one-AtLeastOne larger raised)
                  (ground arith)
          ]
    ]

continuous-AtLeastOne :
    (apr : ℤ) (duration : ℕ) (y : ℤ)
    → IsAmount apr
    → duration < 2 ^ 64
    → Yield.continuous_growth_factor apr duration ≡ ok y
    → AtLeastOne y
unfolding Yield.continuous_growth_factor
continuous-AtLeastOne apr duration y p q h =
    elim (Result-cases (div (pos duration) (pos Yield.seconds_per_year))) [
      | inr (e, failed) ↦ ground arith
      | inl (t, divided) ↦ elim (Result-cases (mul apr t)) [
        | inr (e, failed) ↦ ground arith
        | inl (exponent, multiplied) ↦
            let small =
              div-IsAmount duration Yield.seconds_per_year t (omega arith) (omega arith)
                (omega arith) divided in
            exp-AtLeastOne exponent y (mul-IsAmount apr t exponent p small multiplied)
              (ground arith)
      ]
    ]

strategy-AtLeastOne :
    (c : Compounding) (apr : ℤ) (duration : ℕ) (y : ℤ)
    → IsAmount apr
    → duration < 2 ^ 64
    → Yield.strategy_factor c apr duration ≡ ok y
    → AtLeastOne y
strategy-AtLeastOne daily apr duration y p q h = daily-AtLeastOne apr duration y p h
strategy-AtLeastOne continuous apr duration y p q h = continuous-AtLeastOne apr duration y p q h

-- For an annual rate that is not negative and a `u64` duration, a growth factor that is returned, daily
-- or continuous, is at least 1 and an `i128`.
pub growth_factor-AtLeastOne :
    (c : Compounding) (apr : ℤ) (duration : ℕ) (y : ℤ)
    → IsAmount apr
    → duration < 2 ^ 64
    → growth_factor c apr duration ≡ ok y
    → AtLeastOne y
unfolding growth_factor
growth_factor-AtLeastOne c apr duration y p q h =
    elim (Bool-cases (eqb_ℤ apr (pos 0) || (duration == 0))) [
      | inl still ↦ let same : one ≡ y = ground (arith, still) in rw (← same) one-AtLeastOne
      | inr more ↦ strategy-AtLeastOne c apr duration y p q (ground (arith, more))
    ]
