-- ===== src/Prediction/Types.antt =====
-- contracts/prediction/src/types.rs: the records and errors of the pools.
use astraport_contracts.Base.{ℕ, ◌^◌, List}
use astraport_contracts.Base.Int.{ℤ, pos}
use astraport_contracts.Host.{Action}

abbrev pub decimal_precision : ℤ
decimal_precision = pos (10 ^ 18)

abbrev pub min_liquidity : ℤ
min_liquidity = pos 1_000

pub data PredictionError : Type 0 where
  already_initialized unauthorized market_not_found invalid_market_params : PredictionError
  market_not_tradable invalid_outcome_index insufficient_balance : PredictionError
  market_already_resolved market_not_resolved not_winning_outcome : PredictionError
  resolution_window_not_closed market_disputed no_dispute dispute_period_expired : PredictionError
  dispute_period_not_expired arithmetic_overflow market_cap_reached no_liquidity_pool :
      PredictionError
  insufficient_liquidity invalid_order_price invalid_order_amount order_not_found : PredictionError
  not_order_owner oracle_not_configured slippage_exceeded too_many_outcomes : PredictionError
  invalid_category active_positions_exist already_exists : PredictionError

pub record LiquidityPool : Type 0 where
  pub market_id : ℕ
  pub collateral_reserve : ℤ
  pub outcome_reserves : List ℤ
  pub lp_supply : ℤ
  pub k_per_outcome : List ℤ
  pub fees_accumulated : ℤ
  pub total_volume : ℤ

pub record SwapResult : Type 0 where
  pub outcome_amount : ℤ
  pub collateral_amount : ℤ
  pub fee : ℤ
  pub price_impact_bps : ℤ

pub record LpResult : Type 0 where
  pub lp_tokens_minted : ℤ
  pub collateral_deposited : ℤ
  pub outcome_deposits : List ℤ

-- A function with `pool : &mut LiquidityPool`. If it fails, its callers fail and the host discards what
-- it wrote.
abbrev pub Call : Type 0 → Type 0
Call A = Action LiquidityPool PredictionError A
