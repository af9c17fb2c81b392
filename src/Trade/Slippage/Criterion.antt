-- ===== src/Trade/Slippage/Criterion.antt =====
-- contracts/trade/src/slippage.rs: when a price is accepted.
use astraport_contracts.Base.{
  ℕ, ◌+◌, ◌-◌, ◌*◌, ◌/◌, ◌^◌, ◌<◌, ◌≡◌, refl, ◌∙◌, inl, inr, true, false, arith, leb, Bool-cases,
}
use native.Mathlib.Nat.{zero-div}
use astraport_contracts.Base.Int.{pos, ◌-ℤ◌, ◌*ℤ◌}
use astraport_contracts.Machine.{wrapping_mul, wrapping_sub_exact, wrapping_mul_exact, quotient}
use astraport_contracts.Trade.Types.{OrderSide, buy, sell, bps_denom}
use astraport_contracts.Trade.Slippage.{check_slippage, no_slippage, slippage_bps, price_gap}

-- By how much the fill price is worse than the limit, 0 if it is not.
abbrev pub shortfall : OrderSide → ℕ → ℕ → ℕ
shortfall buy limit price = price - limit
shortfall sell limit price = limit - price

gap_exact :
    (side : OrderSide) (limit price : ℕ)
    → limit < 2 ^ 127
    → price < 2 ^ 127
    → no_slippage side (pos limit) (pos price) ≡ false
    → price_gap side (pos limit) (pos price) ≡ pos (shortfall side limit price)
unfolding ◌-ℤ◌
gap_exact buy limit price p q h =
    wrapping_sub_exact (pos price) (pos limit) (ground (arith, h)) ∙ ground (arith, h)
gap_exact sell limit price p q h =
    wrapping_sub_exact (pos limit) (pos price) (ground (arith, h)) ∙ ground (arith, h)

scaled_exact : (g : ℕ) → g * 10_000 < 2 ^ 127 → wrapping_mul (pos g) bps_denom ≡ pos (g * 10_000)
unfolding ◌*ℤ◌
scaled_exact g h = wrapping_mul_exact (pos g) bps_denom (ground (arith, h)) ∙ ground (arith, h)

ratio_exact : (x l : ℕ) → quotient (pos x) (pos l) ≡ pos (x / l)
unfolding quotient
ratio_exact x l =
    let first : x + 0 ≡ x = omega arith in
    let second : l + 0 ≡ l = omega arith in rw (first, second) refl

slippage_bps_exact :
    (side : OrderSide) (limit price : ℕ)
    → limit < 2 ^ 127
    → price < 2 ^ 127
    → shortfall side limit price * 10_000 < 2 ^ 127
    → no_slippage side (pos limit) (pos price) ≡ false
    → slippage_bps side (pos limit) (pos price) ≡ pos (shortfall side limit price * 10_000 / limit)
slippage_bps_exact side limit price p q fits h =
    rw (gap_exact side limit price p q h, scaled_exact (shortfall side limit price) fits)
      (ratio_exact _ limit)

no-shortfall :
    (side : OrderSide) (limit price : ℕ)
    → no_slippage side (pos limit) (pos price) ≡ true
    → shortfall side limit price ≡ 0
no-shortfall buy limit price h = ground (arith, h)
no-shortfall sell limit price h = ground (arith, h)

-- For an enabled protection with a positive limit in basis points, and positive prices whose difference
-- times 10,000 is an `i128`: `check_slippage` accepts exactly if the fill price's shortfall (above the
-- limit price for a buyer, below it for a seller, 0 otherwise) is, in whole basis points of the limit
-- price, at most the configured maximum.
pub check_slippage_exact :
    (side : OrderSide) (limit price : ℕ) (bps : ℕ)
    → 0 < limit
    → 0 < price
    → 0 < bps
    → limit < 2 ^ 127
    → price < 2 ^ 127
    → shortfall side limit price * 10_000 < 2 ^ 127
    → check_slippage
        (pos limit)
        (pos price)
        side
        (record { max_slippage_bps = pos bps; enabled = true })
      ≡ leb (shortfall side limit price * 10_000 / limit) bps
unfolding check_slippage
check_slippage_exact side limit price bps l p b fl fp fits =
    elim (Bool-cases (no_slippage side (pos limit) (pos price))) [
      | inl fine ↦
          let nothing : shortfall side limit price ≡ 0 = no-shortfall side limit price fine in
          rw (fine, nothing, zero-div limit) (ground arith)
      | inr worse ↦ rw (worse, slippage_bps_exact side limit price fl fp fits worse) (ground arith)
    ]
