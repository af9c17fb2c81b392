-- ===== src/Trade/Engine.antt =====
-- contracts/trade/src/engine.rs: the atomic batch. On an error the host discards every write, so the
-- books that earlier legs changed come back.
use astraport_contracts.Base.{
  ℕ, ◌+◌, ◌%◌, ◌^◌, Bool, true, false, not, ◌&&◌, ◌||◌, Option, none, some, List, [], ◌∷◌,
  if◌then◌else◌, unwrap_or, length,
}
use astraport_contracts.Base.Int.{ℤ, pos, ltb_ℤ, leb_ℤ}
use astraport_contracts.Base.Dict.{lookup, insert, number_key}
use astraport_contracts.Machine.{checked_add, wrapping_add, wrapping_mul, quotient}
use astraport_contracts.Host.{◌>>=◌, ◌>>◌, pure, gets, or_fail, fail_if, modify}
use astraport_contracts.Trade.Types.{
  Address, TradePair, SlippageConfig, Fill, TradeLeg, LegResult, AtomicBatchResult, Store, Env,
  Call, empty_batch, pair_not_found, pair_inactive, invalid_order_amount, slippage_exceeded,
  arithmetic_overflow,
}
use astraport_contracts.Trade.Matching.{find_pair, match_order}
use astraport_contracts.Trade.Slippage.{
  get_slippage_config, check_slippage, validate_slippage_pre_trade,
}

-- The leg's own limit, where it has one, replaces the pair's and turns the protection on.
abbrev pub resolve_config : Option ℤ → SlippageConfig → SlippageConfig
resolve_config none c = c
resolve_config (some bps) c = record { max_slippage_bps = bps; enabled = true }

unfoldable pub sum_notional : ℤ → List Fill → ℤ
sum_notional total [] = total
sum_notional total (f ∷ fs) = sum_notional (wrapping_add total (wrapping_mul f.amount f.price)) fs

unfoldable pub sum_fees : ℤ → List Fill → ℤ
sum_fees total [] = total
sum_fees total (f ∷ fs) = sum_fees (wrapping_add total f.fee) fs

abbrev pub average_price : ℤ → ℤ → ℤ
average_price notional filled = if ltb_ℤ (pos 0) filled then quotient notional filled else pos 0

-- The post-execution check, passed where it does not apply.
abbrev pub post_check : SlippageConfig → TradeLeg → ℤ → ℤ → Bool
post_check c leg filled avg =
    if c.enabled && ltb_ℤ (pos 0) filled && ltb_ℤ (pos 0) avg
    then check_slippage leg.price avg leg.side c
    else true

abbrev pub take_match : List Fill × ℤ × Store → Call (List Fill × ℤ)
take_match (fills, filled, w') = modify (λ w. w') >> pure (fills, filled)

-- One round of the loop over the legs.
unfoldable pub execute_leg : Address → List TradePair → TradeLeg → Call LegResult
unfolding find_pair get_slippage_config validate_slippage_pre_trade match_order sum_notional
    sum_fees check_slippage
execute_leg user pairs leg = do
  pair ← or_fail (find_pair leg.pair_id pairs) pair_not_found
  fail_if (not pair.is_active) pair_inactive
  fail_if (leb_ℤ leg.amount (pos 0) || leb_ℤ leg.price (pos 0)) invalid_order_amount
  fail_if (ltb_ℤ leg.amount pair.min_order_size) invalid_order_amount
  stored ← gets (get_slippage_config leg.pair_id)
  let config : SlippageConfig = resolve_config leg.max_slippage_bps stored
  valid ← gets (validate_slippage_pre_trade leg.pair_id leg.side leg.price (some config))
  fail_if (not valid) slippage_exceeded
  outcome ← gets (match_order leg.pair_id user leg.side leg.amount leg.price)
  (fills, filled) ← take_match outcome
  let notional : ℤ = sum_notional (pos 0) fills
  let avg : ℤ = average_price notional filled
  fail_if (not (post_check config leg filled avg)) slippage_exceeded
  volume ← gets (λ w. unwrap_or (lookup leg.pair_id w.pair_volumes) (pos 0))
  volume' ← or_fail (checked_add volume notional) arithmetic_overflow
  modify (λ w. record w { pair_volumes = insert leg.pair_id volume' w.pair_volumes })
  pure (record {
    pair_id = leg.pair_id;
    fills = fills;
    filled_amount = filled;
    avg_price = avg;
    total_fees = sum_fees (pos 0) fills;
  })

-- The loop, with the number of fills so far; a `u32`.
unfoldable pub execute_legs :
    Address → List TradePair → ℕ → List TradeLeg → Call (List LegResult × ℕ)
execute_legs user pairs total [] = pure ([], total)
execute_legs user pairs total (leg ∷ legs) = do
  result ← execute_leg user pairs leg
  (results, total') ← execute_legs user pairs ((total + length result.fills) % 2 ^ 32) legs
  pure (result ∷ results, total')

abbrev pub is_empty {ℓ} : {A : Type ℓ} → List A → Bool
is_empty [] = true
is_empty (x ∷ xs) = false

unfoldable pub execute_atomic_batch :
    Env → Address → List TradeLeg → List TradePair → Call AtomicBatchResult
execute_atomic_batch env user legs pairs = do
  fail_if (is_empty legs) empty_batch
  (results, total) ← execute_legs user pairs 0 legs
  pure (record { success = true; legs = results; total_fills = total; executed_at = env.timestamp })
