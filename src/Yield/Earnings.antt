-- ===== src/Yield/Earnings.antt =====
-- contracts/staking/src/compounding.rs: what a stake earns.
use astraport_contracts.Base.{
  ℕ, ◌*◌, ◌/◌, ◌^◌, ◌<◌, ◌≡◌, refl, ◌⊎◌, inl, inr, true, false, ◌||◌, arith, ◌==◌, Bool-cases, List,
  [], ◌∷◌, All,
}
use astraport_contracts.Base.Int.{ℤ, pos, negsuc, ◌≤ℤ◌, ◌-ℤ◌, leb_ℤ, eqb_ℤ, int_laws}
use astraport_contracts.Machine.{InI128, checked_sub}
use astraport_contracts.FixedPoint.{ok, one, mul, or_overflow}
use astraport_contracts.Yield.{
  Compounding, growth_factor, compute_yield, compute_balance, roll_segments, compute_yield_segments,
}
use astraport_contracts.Yield.Growth.{
  IsAmount, Result-cases, mul-IsAmount, mul-grows, mul-value, excess-IsAmount,
}
use astraport_contracts.Yield.Returns.{growth_factor-AtLeastOne}

-- A positive `i128` is an amount.
positive-IsAmount : (x : ℤ) → InI128 x → leb_ℤ x (pos 0) ≡ false → IsAmount x
positive-IsAmount (pos n) r h = (n, refl, r.1)
positive-IsAmount (negsuc n) r h = absurd (ground (arith, h))

abbrev IsSegment : ℤ × ℕ → Type 0
IsSegment (apr, duration) = IsAmount apr × (duration < 2 ^ 64)

-- For an `i128` principal, an annual rate that is not negative and a `u64` duration, a balance that is
-- returned is not below the principal, and an `i128`.
pub compute_balance_grows :
    (c : Compounding) (principal apr : ℤ) (duration : ℕ) (y : ℤ)
    → InI128 principal
    → IsAmount apr
    → duration < 2 ^ 64
    → compute_balance c principal apr duration ≡ ok y
    → (principal ≤ℤ y) × InI128 y
unfolding compute_balance
compute_balance_grows c principal apr duration y r p q h =
    elim (Bool-cases (leb_ℤ principal (pos 0))) [
      | inl nothing ↦
          let same : principal ≡ y = ground (arith, nothing) in rw (← same) (omega arith, r)
      | inr more ↦ elim (Result-cases (growth_factor c apr duration)) [
        | inr (e, failed) ↦ ground (arith, more)
        | inl (f, grown) ↦
            let amount = positive-IsAmount principal r more in
            let factor = growth_factor-AtLeastOne c apr duration f p q grown in
            let result : mul principal f ≡ ok y = ground (arith, more) in
            let k = mul-grows principal f y amount factor result in (k.0, ground (arith, k.1))
      ]
    ]

-- For an `i128` principal, an annual rate that is not negative and a `u64` duration, a yield that is
-- returned is not negative.
pub compute_yield_nonneg :
    (c : Compounding) (principal apr : ℤ) (duration : ℕ) (y : ℤ)
    → InI128 principal
    → IsAmount apr
    → duration < 2 ^ 64
    → compute_yield c principal apr duration ≡ ok y
    → pos 0 ≤ℤ y
unfolding compute_yield
compute_yield_nonneg c principal apr duration y r p q h =
    elim (Bool-cases (leb_ℤ principal (pos 0))) [
      | inl nothing ↦ let same : pos 0 ≡ y = ground (arith, nothing) in rw (← same) (omega arith)
      | inr more ↦ elim (Result-cases (growth_factor c apr duration)) [
        | inr (e, failed) ↦ ground (arith, more)
        | inl (f, grown) ↦ elim (Result-cases (or_overflow (checked_sub f one))) [
          | inr (e, failed) ↦ ground (arith, more)
          | inl (growth, taken) ↦
              let factor = growth_factor-AtLeastOne c apr duration f p q grown in
              let excess = excess-IsAmount f growth factor taken in
              let k =
                mul-IsAmount principal growth y (positive-IsAmount principal r more) excess
                  (ground (arith, more)) in
              rw (k.1) (omega arith)
        ]
      ]
    ]

roll_segments_grows :
    (c : Compounding) (balance : ℤ) (segments : List (ℤ × ℕ)) (y : ℤ)
    → InI128 balance
    → All IsSegment segments
    → roll_segments c balance segments ≡ ok y
    → balance ≤ℤ y
unfolding roll_segments
roll_segments_grows c balance [] y r p h =
    let same : balance ≡ y = ground arith in rw (← same) (omega arith)
roll_segments_grows c balance ((apr, duration) ∷ segments) y r p h =
    elim (Result-cases (compute_balance c balance apr duration)) [
      | inr (e, failed) ↦ ground arith
      | inl (next, grown) ↦
          let k = compute_balance_grows c balance apr duration next r p.0.0 p.0.1 grown in
          let rest = roll_segments_grows c next segments y k.1 p.1 (ground arith) in
          omega (arith, k.0, rest)
    ]

-- For an `i128` principal, annual rates that are not negative and `u64` durations, a yield over a
-- sequence of segments that is returned is not negative.
pub compute_yield_segments_nonneg :
    (c : Compounding) (principal : ℤ) (segments : List (ℤ × ℕ)) (y : ℤ)
    → InI128 principal
    → All IsSegment segments
    → compute_yield_segments c principal segments ≡ ok y
    → pos 0 ≤ℤ y
unfolding compute_yield_segments
compute_yield_segments_nonneg c principal segments y r p h =
    elim (Bool-cases (leb_ℤ principal (pos 0))) [
      | inl nothing ↦ let same : pos 0 ≡ y = ground (arith, nothing) in rw (← same) (omega arith)
      | inr more ↦ elim (Result-cases (roll_segments c principal segments)) [
        | inr (e, failed) ↦ ground (arith, more)
        | inl (balance, rolled) ↦
            let k = roll_segments_grows c principal segments balance r p rolled in
            let difference : y ≡ balance -ℤ principal = ground (arith, more) in
            rw difference (grind (int_laws, k))
      ]
    ]

-- Multiplying an amount by 0 and by 1.
mul-zero : (x : ℤ) → IsAmount x → mul x (pos 0) ≡ ok (pos 0)
mul-zero x (a, ea, fa) =
    let nothing : a * 0 / 1_000_000_000_000_000_000 ≡ 0 = omega arith in
    rw (ea, mul-value a 0 fa (omega arith) (omega arith), nothing) refl

mul-one : (x : ℤ) → IsAmount x → mul x one ≡ ok x
mul-one x (a, ea, fa) =
    let same : a * 1_000_000_000_000_000_000 / 1_000_000_000_000_000_000 ≡ a = omega arith in
    rw (ea, mul-value a 1_000_000_000_000_000_000 fa (omega arith) (omega (arith, same)), same) refl

-- For an `i128` principal, at an annual rate of 0 or over no time, the yield is 0 and the balance is the
-- principal; both are returned.
pub no_growth :
    (c : Compounding) (principal apr : ℤ) (duration : ℕ)
    → InI128 principal
    → (apr ≡ pos 0) ⊎ (duration ≡ 0)
    → (compute_yield c principal apr duration ≡ ok (pos 0))
      × (compute_balance c principal apr duration ≡ ok principal)
unfolding compute_yield compute_balance growth_factor ◌-ℤ◌
no_growth c principal apr duration r still =
    let stopped : (eqb_ℤ apr (pos 0) || (duration == 0)) ≡ true = ground arith in
    elim (Bool-cases (leb_ℤ principal (pos 0))) [
      | inl nothing ↦ rw nothing (refl, refl)
      | inr more ↦
          let amount = positive-IsAmount principal r more in
          rw (more, stopped, mul-zero principal amount, mul-one principal amount) (refl, refl)
    ]
