-- ===== src/Tests/Prediction.antt =====
-- A pool of the prediction contract on a concrete history, and its theorem applied to it.
use astraport_contracts.Base.{◌≡◌, ◌+◌, ◌*◌, ◌/◌, ◌≤◌, refl, true, some, [], ◌∷◌, arith}
use astraport_contracts.Base.Int.{pos, ◌+ℤ◌, ◌*ℤ◌, ◌-ℤ◌}
use astraport_contracts.Base.Dict.{insert}
use astraport_contracts.Machine.{quotient}
use astraport_contracts.Host.{ok}
use astraport_contracts.Prediction.Types.{LiquidityPool, SwapResult}
use astraport_contracts.Prediction.Pools
use astraport_contracts.Prediction.Pools.{
  Pools, create_pool, buy_outcome_tokens, verify_invariant, get_elem?,
}
use astraport_contracts.Prediction.Product.{IsBalanced}
use astraport_contracts.Prediction.Rounding.{after_fee, purchase_rounds_down}
use astraport_contracts.Prediction.Balance.{PoolCall, Traded, products_stay_exact}

abbrev opening : LiquidityPool
opening = record {
  market_id = 1;
  collateral_reserve = pos 1_000_000;
  outcome_reserves = pos 1_000_000 ∷ pos 1_000_000 ∷ [];
  lp_supply = pos 1_000_000;
  k_per_outcome = pos 1_000_000_000_000 ∷ pos 1_000_000_000_000 ∷ [];
  fees_accumulated = pos 0;
  total_volume = pos 0;
}

abbrev bought : LiquidityPool
bought = record {
  market_id = 1;
  collateral_reserve = pos 1_000_997;
  outcome_reserves = pos 999_003 ∷ pos 1_000_000 ∷ [];
  lp_supply = pos 1_000_000;
  k_per_outcome = pos 999_999_005_991 ∷ pos 1_000_997_000_000 ∷ [];
  fees_accumulated = pos 3;
  total_volume = pos 1_000;
}

abbrev purchase : SwapResult
purchase = record {
  outcome_amount = pos 997;
  collateral_amount = pos 1_000;
  fee = pos 3;
  price_impact_bps = pos 9;
}

opens : create_pool 1 2 (pos 1_000_000) [] ≡ ok opening ((1, opening) ∷ [])
unfolding create_pool insert ◌*ℤ◌
opens = refl

buys : buy_outcome_tokens 0 (pos 1_000) (pos 30) (pos 900) opening ≡ ok purchase bought
unfolding buy_outcome_tokens Pools.fee_of Pools.price_impact Pools.impact_of Pools.settle_swap
    Pools.update_all_k Pools.products ◌+ℤ◌ ◌*ℤ◌ ◌-ℤ◌ quotient
buys = refl

products_stay_exact_example : IsBalanced bought × (verify_invariant bought ≡ true)
products_stay_exact_example = products_stay_exact (
    Traded.called (PoolCall.buy 0 (pos 1_000) (pos 30) (pos 900)) opening bought
      (Traded.created 1 2 (pos 1_000_000) [] ((1, opening) ∷ []) opening opens) (purchase, buys))

purchase_rounds_down_example :
    (bought.collateral_reserve ≡ pos (1_000_000 + after_fee 1_000 30))
    × (get_elem? bought.outcome_reserves 0
        ≡ some (pos (1_000_000_000_000 / (1_000_000 + after_fee 1_000 30))))
    × (1_000_000_000_000 / (1_000_000 + after_fee 1_000 30) * (1_000_000 + after_fee 1_000 30)
        ≤ 1_000_000_000_000)
purchase_rounds_down_example =
    purchase_rounds_down 0 1_000 30 1_000_000 1_000_000_000_000 1_000_000 (pos 900) purchase opening
      bought refl (omega arith) refl refl refl buys
