-- ===== src/FixedPoint/Rounds.antt =====
-- contracts/staking/src/fixed_point.rs: the rounds that are given to the loops of `pow_uint` and `exp`.
use native.Mathlib.Nat.{pow-suc, div-div-eq-div-mul}
use astraport_contracts.Base.{
  ℕ, zero, suc, ◌+◌, ◌*◌, ◌/◌, ◌^◌, ◌≤◌, ◌<◌, ◌≡◌, refl, ◌∙◌, ap, inl, inr, arith, ◌==◌, Bool-cases,
}
use astraport_contracts.Base.Int.{ℤ, pos, leb_ℤ}
use astraport_contracts.Machine.{quotient}
use astraport_contracts.FixedPoint.Wide.{Result, ok, err, ◌>>=◌}
use astraport_contracts.FixedPoint.Power.{power_loop, take_bit, square}
use astraport_contracts.FixedPoint.Exponential.{halve_loop, half}

halved-lt : (n e : ℕ) → e < 2 ^ suc n → e / 2 < 2 ^ n
halved-lt n e h = let twice : 2 ^ suc n ≡ 2 ^ n * 2 = pow-suc 2 n in omega arith

bind-cong :
    {A B : Type 0} (m : Result A) (f g : A → Result B)
    → ((a : A) → f a ≡ g a)
    → (m >>= f) ≡ (m >>= g)
bind-cong (ok a) f g h = h a
bind-cong (err e) f g h = refl

-- For an exponent of at most `n` bits, the loop of `pow_uint` ends within `n` rounds: one round more
-- changes nothing, whatever the result, errors included.
pub power_loop-rounds :
    (n : ℕ) (r a : ℤ) (e : ℕ) → e < 2 ^ n → power_loop (suc n) r a e ≡ power_loop n r a e
unfolding power_loop
power_loop-rounds zero r a e h = let ended : e ≡ 0 = omega arith in rw ended refl
power_loop-rounds (suc n) r a e h = elim (Bool-cases (e == 0)) [
  | inl ended ↦ rw ended refl
  | inr more ↦ rw more (
      bind-cong (take_bit e r a) _ _ (λ r'.
        bind-cong (square e a) _ _ (λ a'. power_loop-rounds n r' a' (e / 2) (halved-lt n e h))))
]

halved_again : (x j : ℕ) → x / 2 / 2 ^ j ≡ x / 2 ^ suc j
halved_again x j =
    let twice : 2 * 2 ^ j ≡ 2 ^ suc j = omega (arith, pow-suc 2 j) in
    div-div-eq-div-mul x 2 (2 ^ j) ∙ ap (λ (t : ℕ). x / t) twice

halved-quotient : (x : ℕ) → quotient (pos x) (pos 2) ≡ pos (x / 2)
unfolding quotient
halved-quotient x = let same : (x + 0) / 2 ≡ x / 2 = omega arith in ap pos same

-- For `x` of at most `n` bits, the range reduction of `exp` ends within `n` rounds: it divides `x` by a
-- power of 2, counts the halvings, and leaves at most a half.
pub halve_loop-rounds :
    (n x k : ℕ)
    → x < 2 ^ n
    → (j : ℕ) × (halve_loop n (pos x) k ≡ (pos (x / 2 ^ j), k + j)) × (x / 2 ^ j ≤ half)
unfolding halve_loop
halve_loop-rounds zero x k h =
    let whole : x / 2 ^ 0 ≡ x = omega arith in
    let same : k + 0 ≡ k = omega arith in (0, rw (whole, same) refl, omega arith)
halve_loop-rounds (suc n) x k h = elim (Bool-cases (leb_ℤ (pos x) (pos half))) [
  | inl small ↦
      let whole : x / 2 ^ 0 ≡ x = omega arith in
      let same : k + 0 ≡ k = omega arith in (0, rw (small, whole, same) refl, ground (arith, small))
  | inr large ↦
      let (j, e, s) = halve_loop-rounds n (x / 2) (k + 1) (halved-lt n x h) in
      let moved : k + 1 + j ≡ k + suc j = omega arith in
      (
        suc j,
        rw (large, halved-quotient x, e, halved_again x j, moved) refl,
        rw (← halved_again x j) s,
      )
]
