-- ===== src/FixedPoint/Division/Limbs.antt =====
-- The loop over 256 bits is one division for each limb.
use astraport_contracts.Base.{
  ℕ, zero, suc, ◌+◌, ◌-◌, ◌*◌, ◌/◌, ◌%◌, ◌^◌, ◌≤◌, ◌<◌, ◌≡◌, refl, ◌∙◌, ap, inl, inr, true, false,
  ◌||◌, arith, leb, ◌==◌, Bool-cases,
}
use native.Mathlib.Nat.{mul-div_left, suc-add}
use astraport_contracts.FixedPoint.Wide.{
  U256, limb, set_bit, bit_of, Division, division_round, division_loop,
}
use astraport_contracts.FixedPoint.Division.{
  next_rem, next_bit, limb_loop, round-step, next_rem-lt, pow_pos, pow_double,
}

-- The code's test is whether the divisor fits.
round-test :
    (bit den rem : ℕ)
    → bit < 2
    → rem < den
    → den < limb
    → ((rem / 2 ^ 127 == 1) || leb den (rem * 2 % limb + bit)) ≡ leb den (2 * rem + bit)
round-test bit den rem p q r = ground arith

-- A multiple of 2 ^ (i + 1) has no bit i, so setting it adds.
set_bit-add : (c i : ℕ) → set_bit (c * 2 ^ suc i) i ≡ c * 2 ^ suc i + 2 ^ i
set_bit-add c i =
    let shifted : c * 2 ^ suc i / 2 ^ i ≡ 2 * c =
      ap (λ (t : ℕ). t / 2 ^ i) (omega (arith, ap (λ (t : ℕ). c * t) (pow_double i)))
      ∙ mul-div_left (2 * c) (pow_pos i) in
    rw shifted (ground arith)

next_mul : (c nb i : ℕ) → c * 2 ^ suc i + nb * 2 ^ i ≡ (2 * c + nb) * 2 ^ i
next_mul c nb i = omega (arith, ap (λ (t : ℕ). c * t) (pow_double i))

loop-step :
    (num : U256) (den n : ℕ) (s : Division)
    → division_loop num den (suc n) s ≡ division_loop num den n (division_round num den n s)
unfolding division_loop
loop-step num den n s = refl

module _ (num : U256) (den : ℕ) (wide : den < limb) where
  lo_round :
      (i c : ℕ) (s : Division)
      → i < 128
      → s.rem < den
      → s.quotient_lo ≡ c * 2 ^ suc i
      → division_round num den i s ≡ record {
        quotient_hi = s.quotient_hi;
        quotient_lo = s.quotient_lo + next_bit (bit_of num.lo i) den s.rem * 2 ^ i;
        rem = next_rem (bit_of num.lo i) den s.rem;
      }
  unfolding division_round
  lo_round i c s low small clear =
      let bit = bit_of num.lo i in
      let below : leb 128 i ≡ false = ground arith in
      let r = round-step bit den s.rem (omega arith) small wide in
      let t = round-test bit den s.rem (omega arith) small wide in
      let sb : set_bit s.quotient_lo i ≡ s.quotient_lo + 2 ^ i = rw clear (set_bit-add c i) in
      elim (Bool-cases (leb den (2 * s.rem + bit))) [
        | inl fits ↦ ground (arith, r, t, fits, sb, below)
        | inr short ↦ ground (arith, r, t, short, below)
      ]

  hi_round :
      (m c : ℕ) (s : Division)
      → s.rem < den
      → s.quotient_hi ≡ c * 2 ^ suc m
      → division_round num den (m + 128) s ≡ record {
        quotient_hi = s.quotient_hi + next_bit (bit_of num.hi m) den s.rem * 2 ^ m;
        quotient_lo = s.quotient_lo;
        rem = next_rem (bit_of num.hi m) den s.rem;
      }
  unfolding division_round
  hi_round m c s small clear =
      let bit = bit_of num.hi m in
      let above : leb 128 (m + 128) ≡ true = ground arith in
      let index : m + 128 - 128 ≡ m = omega arith in
      let r = round-step bit den s.rem (omega arith) small wide in
      let t = round-test bit den s.rem (omega arith) small wide in
      let sb : set_bit s.quotient_hi m ≡ s.quotient_hi + 2 ^ m = rw clear (set_bit-add c m) in
      rw (above, index)
        (elim (Bool-cases (leb den (2 * s.rem + bit))) [
          | inl fits ↦ ground (arith, r, t, fits, sb)
          | inr short ↦ ground (arith, r, t, short)
        ])

  -- The low limb, bits 127 to 0.
  pub lo_phase :
      (n c : ℕ) (s : Division)
      → n ≤ 128
      → s.rem < den
      → s.quotient_lo ≡ c * 2 ^ n
      → let (q, r) = limb_loop num.lo den n (s.quotient_lo, s.rem) in
        division_loop num den n s ≡ record { quotient_hi = s.quotient_hi; quotient_lo = q; rem = r }
  unfolding division_loop limb_loop
  lo_phase zero c s low small clear = refl
  lo_phase (suc n) c s low small clear =
      let bit = bit_of num.lo n in
      let nb = next_bit bit den s.rem in
      let s' : Division = record {
        quotient_hi = s.quotient_hi;
        quotient_lo = s.quotient_lo + nb * 2 ^ n;
        rem = next_rem bit den s.rem;
      } in
      rw (lo_round n c s low small clear) (
        lo_phase n (2 * c + nb) s' (omega arith) (next_rem-lt bit den s.rem (omega arith) small)
          (rw clear (next_mul c nb n)))

  -- The high limb, bits 255 to 128.
  pub hi_phase :
      (m c : ℕ) (s : Division)
      → s.rem < den
      → s.quotient_hi ≡ c * 2 ^ m
      → let (q, r) = limb_loop num.hi den m (s.quotient_hi, s.rem) in
        division_loop num den (m + 128) s
        ≡ division_loop num den 128
            (record { quotient_hi = q; quotient_lo = s.quotient_lo; rem = r })
  unfolding limb_loop
  hi_phase zero c s small clear = refl
  hi_phase (suc m) c s small clear =
      let bit = bit_of num.hi m in
      let nb = next_bit bit den s.rem in
      let s' : Division = record {
        quotient_hi = s.quotient_hi + nb * 2 ^ m;
        quotient_lo = s.quotient_lo;
        rem = next_rem bit den s.rem;
      } in
      rw (suc-add) (
        loop-step num den (m + 128) s
        ∙ rw (hi_round m c s small clear) (
            hi_phase m (2 * c + nb) s' (next_rem-lt bit den s.rem (omega arith) small)
              (rw clear (next_mul c nb m))))
