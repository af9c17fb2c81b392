-- ===== src/Prediction/Liquidity.antt =====
-- contracts/prediction/src/cpmm.rs: adding and removing liquidity.
use astraport_contracts.Base.{◌==◌, not, ◌||◌, List, [], ◌∷◌, length, if◌then◌else◌, unwrap_or}
use astraport_contracts.Base.Int.{ℤ, pos, leb_ℤ, ltb_ℤ, eqb_ℤ}
use astraport_contracts.Machine.{checked_add, checked_sub, checked_mul}
use astraport_contracts.Host.{◌>>=◌, ◌>>◌, pure, panic, gets, fail_if, modify}
use astraport_contracts.Prediction.Types.{
  LpResult, Call, invalid_market_params, invalid_order_amount,
}
use astraport_contracts.Prediction.Pools.{arithmetic, checked_div, get_elem?, update_all_k}

-- The reserves after the first deposit. The vectors have the same length.
unfoldable pub first_reserves : List ℤ → List ℤ → Call (List ℤ)
first_reserves [] amounts = pure []
first_reserves (reserve ∷ reserves) [] = panic
first_reserves (reserve ∷ reserves) (amount ∷ amounts) = do
  fail_if (leb_ℤ amount (pos 0)) invalid_order_amount
  new_reserve ← arithmetic (checked_add reserve amount)
  rest ← first_reserves reserves amounts
  pure (new_reserve ∷ rest)

unfoldable pub add_first : ℤ → List ℤ → Call LpResult
unfolding first_reserves update_all_k
add_first collateral_amount outcome_amounts = do
  pool ← gets (λ pool. pool)
  reserves ← first_reserves pool.outcome_reserves outcome_amounts
  collateral ← arithmetic (checked_add pool.collateral_reserve collateral_amount)
  modify (λ pool. record pool {
    outcome_reserves = reserves;
    collateral_reserve = collateral;
    lp_supply = collateral_amount;
  })
  update_all_k
  pure (record {
    lp_tokens_minted = collateral_amount;
    collateral_deposited = collateral_amount;
    outcome_deposits = outcome_amounts;
  })

-- `pool.collateral_reserve.max(1)`
abbrev pub at_least_one : ℤ → ℤ
at_least_one x = if leb_ℤ x (pos 1) then pos 1 else x

-- `amount * num / den`
unfoldable pub proportion : ℤ → ℤ → ℤ → Call ℤ
proportion amount num den = do
  product ← arithmetic (checked_mul amount num)
  arithmetic (checked_div product den)

-- What is deposited for each outcome, and the reserves after it.
unfoldable pub later_reserves : ℤ → ℤ → List ℤ → Call (List ℤ × List ℤ)
unfolding proportion
later_reserves collateral_amount collateral [] = pure ([], [])
later_reserves collateral_amount collateral (reserve ∷ reserves) = do
  amount ← proportion reserve collateral_amount (at_least_one collateral)
  new_reserve ← arithmetic (checked_add reserve amount)
  rest ← later_reserves collateral_amount collateral reserves
  pure (amount ∷ rest.0, new_reserve ∷ rest.1)

unfoldable pub add_later : ℤ → Call LpResult
unfolding proportion later_reserves update_all_k
add_later collateral_amount = do
  pool ← gets (λ pool. pool)
  deposited ←
      proportion (unwrap_or (get_elem? pool.outcome_reserves 0) (pos 0)) collateral_amount
        (at_least_one pool.collateral_reserve)
  lp_tokens ← proportion collateral_amount pool.lp_supply pool.collateral_reserve
  outcomes ← later_reserves collateral_amount pool.collateral_reserve pool.outcome_reserves
  collateral ← arithmetic (checked_add pool.collateral_reserve deposited)
  supply ← arithmetic (checked_add pool.lp_supply lp_tokens)
  modify (λ pool. record pool {
    outcome_reserves = outcomes.1;
    collateral_reserve = collateral;
    lp_supply = supply;
  })
  update_all_k
  pure (record {
    lp_tokens_minted = lp_tokens;
    collateral_deposited = deposited;
    outcome_deposits = outcomes.0;
  })

unfoldable pub add_liquidity : ℤ → List ℤ → Call LpResult
unfolding add_first add_later
add_liquidity collateral_amount outcome_amounts = do
  fail_if (leb_ℤ collateral_amount (pos 0)) invalid_order_amount
  pool ← gets (λ pool. pool)
  fail_if (not (length outcome_amounts == length pool.outcome_reserves)) invalid_market_params
  if eqb_ℤ pool.lp_supply (pos 0)
      then add_first collateral_amount outcome_amounts
      else add_later collateral_amount

-- What is returned of each outcome, and the reserves after it.
unfoldable pub reduced_reserves : ℤ → ℤ → List ℤ → Call (List ℤ × List ℤ)
unfolding proportion
reduced_reserves num den [] = pure ([], [])
reduced_reserves num den (reserve ∷ reserves) = do
  amount ← proportion reserve num den
  new_reserve ← arithmetic (checked_sub reserve amount)
  rest ← reduced_reserves num den reserves
  pure (amount ∷ rest.0, new_reserve ∷ rest.1)

unfoldable pub remove_liquidity : ℤ → Call LpResult
unfolding proportion reduced_reserves update_all_k
remove_liquidity lp_amount = do
  pool ← gets (λ pool. pool)
  fail_if (leb_ℤ lp_amount (pos 0) || ltb_ℤ pool.lp_supply lp_amount) invalid_order_amount
  collateral_out ← proportion pool.collateral_reserve lp_amount pool.lp_supply
  outcomes ← reduced_reserves lp_amount pool.lp_supply pool.outcome_reserves
  collateral ← arithmetic (checked_sub pool.collateral_reserve collateral_out)
  supply ← arithmetic (checked_sub pool.lp_supply lp_amount)
  modify (λ pool. record pool {
    outcome_reserves = outcomes.1;
    collateral_reserve = collateral;
    lp_supply = supply;
  })
  update_all_k
  pure (record {
    lp_tokens_minted = pos 0;
    collateral_deposited = collateral_out;
    outcome_deposits = outcomes.0;
  })
