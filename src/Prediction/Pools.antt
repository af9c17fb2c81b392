-- ===== src/Prediction/Pools.antt =====
-- contracts/prediction/src/cpmm.rs: creating a pool, its prices, and the swaps.
use astraport_contracts.Base.{
  ℕ, zero, suc, ◌+◌, ◌-◌, ◌==◌, Bool, true, false, not, ◌&&◌, Option, none, some, List, [], ◌∷◌,
  if◌then◌else◌,
}
use astraport_contracts.Base.Int.{ℤ, pos, leb_ℤ, ltb_ℤ, eqb_ℤ, magnitude}
use astraport_contracts.Base.Dict.{Dict, lookup, insert, number_key}
use astraport_contracts.Machine.{
  checked, checked_add, checked_sub, checked_mul, wrapping_sub, wrap_i128, quotient,
}
use astraport_contracts.Host.{Action, ◌>>=◌, ◌>>◌, pure, panic, gets, or_fail, fail_if, modify}
use astraport_contracts.Prediction.Types.{
  LiquidityPool, SwapResult, PredictionError, Call, decimal_precision, min_liquidity,
  insufficient_liquidity, arithmetic_overflow, no_liquidity_pool, invalid_outcome_index,
  invalid_order_amount, slippage_exceeded,
}

-- `checked_div` of `i128`
abbrev pub checked_div : ℤ → ℤ → Option ℤ
checked_div a b = if eqb_ℤ b (pos 0) then none else checked (quotient a b)

-- `.ok_or(PredictionError::ArithmeticOverflow)?`
abbrev pub arithmetic : {S : Type 0} → Option ℤ → Action S PredictionError ℤ
arithmetic x = or_fail x arithmetic_overflow

-- `get` and `set` of a vector; nothing is set out of range, where the source traps.
abbrev pub get_elem? : List ℤ → ℕ → Option ℤ
get_elem? [] i = none
get_elem? (x ∷ xs) i = if i == 0 then some x else get_elem? xs (i - 1)

abbrev pub set_elem : List ℤ → ℕ → ℤ → List ℤ
set_elem [] i y = []
set_elem (x ∷ xs) i y = if i == 0 then y ∷ xs else x ∷ set_elem xs (i - 1) y

abbrev pub replicate : ℕ → ℤ → List ℤ
replicate zero x = []
replicate (suc n) x = x ∷ replicate n x

abbrev pub Pools : Type 0
Pools = Dict ℕ LiquidityPool

-- The products are computed inside a loop, so not for a market without outcomes.
unfoldable pub create_pool : ℕ → ℕ → ℤ → Action Pools PredictionError LiquidityPool
create_pool market_id num_outcomes initial_collateral = do
  fail_if (ltb_ℤ initial_collateral min_liquidity) insufficient_liquidity
  k ←
      if num_outcomes == 0
      then pure (pos 0)
      else arithmetic (checked_mul initial_collateral initial_collateral)
  let pool : LiquidityPool = record {
    market_id = market_id;
    collateral_reserve = initial_collateral;
    outcome_reserves = replicate num_outcomes initial_collateral;
    lp_supply = initial_collateral;
    k_per_outcome = replicate num_outcomes k;
    fees_accumulated = pos 0;
    total_volume = pos 0;
  }
  modify (insert market_id pool)
  pure pool

unfoldable pub load_pool : ℕ → Action Pools PredictionError LiquidityPool
load_pool market_id = do or_fail (← gets (lookup market_id)) no_liquidity_pool

unfoldable pub get_outcome_price : ℕ → Call ℤ
get_outcome_price outcome_index = do
  reserve ←
      or_fail (← gets (λ pool. get_elem? pool.outcome_reserves outcome_index)) invalid_outcome_index
  fail_if (leb_ℤ reserve (pos 0)) arithmetic_overflow
  scaled ← arithmetic (checked_mul (← gets (λ pool. pool.collateral_reserve)) decimal_precision)
  arithmetic (checked_div scaled reserve)

-- The prices of the outcomes from an index on.
unfoldable pub prices_from : ℕ → List ℤ → Call (List ℤ)
unfolding get_outcome_price
prices_from i [] = pure []
prices_from i (reserve ∷ reserves) = do
  price ← get_outcome_price i
  prices ← prices_from (i + 1) reserves
  pure (price ∷ prices)

unfoldable pub get_all_outcome_prices : Call (List ℤ)
unfolding prices_from
get_all_outcome_prices = do prices_from 0 (← gets (λ pool. pool.outcome_reserves))

-- `update_all_k` from an index on: the reserves and the products that are replaced. A product that is
-- not there to be replaced traps.
unfoldable pub products : ℤ → List ℤ → List ℤ → Call (List ℤ)
products collateral [] ks = pure ks
products collateral (reserve ∷ reserves) [] = do
  new_k ← arithmetic (checked_mul collateral reserve)
  panic
products collateral (reserve ∷ reserves) (k ∷ ks) = do
  new_k ← arithmetic (checked_mul collateral reserve)
  rest ← products collateral reserves ks
  pure (new_k ∷ rest)

unfoldable pub update_all_k : Call (Unit {0})
update_all_k = do
  pool ← gets (λ pool. pool)
  ks ← products pool.collateral_reserve pool.outcome_reserves pool.k_per_outcome
  modify (λ pool. record pool { k_per_outcome = ks })

-- `amount * bps / 10_000`
unfoldable pub fee_of : ℤ → ℤ → Call ℤ
fee_of amount fee_bps = do
  product ← arithmetic (checked_mul amount fee_bps)
  arithmetic (checked_div product (pos 10_000))

-- `amount * 10_000 / old_collateral`
unfoldable pub impact_of : ℤ → ℤ → Call ℤ
impact_of amount old_collateral = do
  scaled ← arithmetic (checked_mul amount (pos 10_000))
  arithmetic (checked_div scaled old_collateral)

unfoldable pub price_impact : ℤ → ℤ → Call ℤ
unfolding impact_of
price_impact amount old_collateral =
    if ltb_ℤ (pos 0) old_collateral then impact_of amount old_collateral else pure (pos 0)

-- The new state of the pool, which both ways to swap write.
unfoldable pub settle_swap : ℕ → ℤ → ℤ → ℤ → ℤ → Call (Unit {0})
unfolding update_all_k
settle_swap outcome_index new_collateral new_reserve fee volume = do
  modify (λ pool. record pool {
    collateral_reserve = new_collateral;
    outcome_reserves = set_elem pool.outcome_reserves outcome_index new_reserve;
  })
  fees ← arithmetic (checked_add (← gets (λ pool. pool.fees_accumulated)) fee)
  modify (λ pool. record pool { fees_accumulated = fees })
  total ← arithmetic (checked_add (← gets (λ pool. pool.total_volume)) volume)
  modify (λ pool. record pool { total_volume = total })
  update_all_k

unfoldable pub buy_outcome_tokens : ℕ → ℤ → ℤ → ℤ → Call SwapResult
unfolding fee_of price_impact settle_swap
buy_outcome_tokens outcome_index collateral_in fee_bps min_outcome_tokens = do
  fail_if (leb_ℤ collateral_in (pos 0)) invalid_order_amount
  k ← or_fail (← gets (λ pool. get_elem? pool.k_per_outcome outcome_index)) invalid_outcome_index
  fee ← fee_of collateral_in fee_bps
  collateral_after_fee ← arithmetic (checked_sub collateral_in fee)
  old_collateral ← gets (λ pool. pool.collateral_reserve)
  old_reserve ←
      or_fail (← gets (λ pool. get_elem? pool.outcome_reserves outcome_index)) invalid_outcome_index
  new_collateral ← arithmetic (checked_add old_collateral collateral_after_fee)
  new_reserve ← arithmetic (checked_div k new_collateral)
  outcome_tokens_out ← arithmetic (checked_sub old_reserve new_reserve)
  fail_if (ltb_ℤ outcome_tokens_out min_outcome_tokens) slippage_exceeded
  fail_if (leb_ℤ outcome_tokens_out (pos 0)) insufficient_liquidity
  price_impact_bps ← price_impact collateral_after_fee old_collateral
  settle_swap outcome_index new_collateral new_reserve fee collateral_in
  pure (record {
    outcome_amount = outcome_tokens_out;
    collateral_amount = collateral_in;
    fee = fee;
    price_impact_bps = price_impact_bps;
  })

unfoldable pub sell_outcome_tokens : ℕ → ℤ → ℤ → ℤ → Call SwapResult
unfolding fee_of price_impact settle_swap
sell_outcome_tokens outcome_index outcome_tokens_in fee_bps min_collateral = do
  fail_if (leb_ℤ outcome_tokens_in (pos 0)) invalid_order_amount
  k ← or_fail (← gets (λ pool. get_elem? pool.k_per_outcome outcome_index)) invalid_outcome_index
  old_collateral ← gets (λ pool. pool.collateral_reserve)
  old_reserve ←
      or_fail (← gets (λ pool. get_elem? pool.outcome_reserves outcome_index)) invalid_outcome_index
  new_reserve ← arithmetic (checked_add old_reserve outcome_tokens_in)
  new_collateral ← arithmetic (checked_div k new_reserve)
  collateral_before_fee ← arithmetic (checked_sub old_collateral new_collateral)
  fee ← fee_of collateral_before_fee fee_bps
  collateral_out ← arithmetic (checked_sub collateral_before_fee fee)
  fail_if (ltb_ℤ collateral_out min_collateral) slippage_exceeded
  fail_if (leb_ℤ collateral_out (pos 0)) insufficient_liquidity
  price_impact_bps ← price_impact collateral_before_fee old_collateral
  settle_swap outcome_index new_collateral new_reserve fee outcome_tokens_in
  pure (record {
    outcome_amount = outcome_tokens_in;
    collateral_amount = collateral_out;
    fee = fee;
    price_impact_bps = price_impact_bps;
  })

-- `abs` of `i128`
abbrev pub abs_i128 : ℤ → ℤ
abs_i128 x = wrap_i128 (pos (magnitude x))

-- The products from an index on are those of the reserves, up to 1; a product that is missing is 0.
unfoldable pub verify_from : ℤ → List ℤ → List ℤ → Bool
verify_from collateral [] ks = true
verify_from collateral (reserve ∷ reserves) [] = elim (checked_mul collateral reserve) [
  | none ↦ false
  | some expected ↦
      not (ltb_ℤ (pos 1) (abs_i128 (wrapping_sub (pos 0) expected)))
      && verify_from collateral reserves []
]
verify_from collateral (reserve ∷ reserves) (k ∷ ks) = elim (checked_mul collateral reserve) [
  | none ↦ false
  | some expected ↦
      not (ltb_ℤ (pos 1) (abs_i128 (wrapping_sub k expected))) && verify_from collateral reserves ks
]

unfoldable pub verify_invariant : LiquidityPool → Bool
unfolding verify_from
verify_invariant pool = verify_from pool.collateral_reserve pool.outcome_reserves pool.k_per_outcome
