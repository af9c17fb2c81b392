-- ===== src/Prediction/Balance.antt =====
-- contracts/prediction/src/cpmm.rs: what every call on a pool keeps.
use astraport_contracts.Base.{
  ℕ, zero, suc, ◌≡◌, refl, ap, sym, ◌∙◌, true, List, [], ◌∷◌, length, arith,
}
use astraport_contracts.Base.Int.{ℤ, pos, ◌*ℤ◌}
use astraport_contracts.Machine.{InI128}
use astraport_contracts.Host.{ok}
use astraport_contracts.Prediction.Types.{LiquidityPool, SwapResult, LpResult}
use astraport_contracts.Prediction.Pools.{
  Pools, create_pool, replicate, buy_outcome_tokens, sell_outcome_tokens, verify_invariant,
}
use astraport_contracts.Prediction.Liquidity.{add_liquidity, remove_liquidity}
use astraport_contracts.Prediction.Product.{
  times, AreInRange, verify_times, buy-IsBalanced, sell-IsBalanced, IsBalanced, IsPaired,
}
use astraport_contracts.Prediction.Deposits.{add-IsBalanced, remove-IsBalanced}

-- A call on a pool.
pub data PoolCall : Type 0 where
  buy sell : ℕ → ℤ → ℤ → ℤ → PoolCall
  add : ℤ → List ℤ → PoolCall
  withdraw : ℤ → PoolCall

-- The call succeeds and leaves this pool.
abbrev pub Leaves : PoolCall → LiquidityPool → LiquidityPool → Type 0
Leaves (PoolCall.buy i a bps low) pool pool' =
    (r : SwapResult) × (buy_outcome_tokens i a bps low pool ≡ ok r pool')
Leaves (PoolCall.sell i a bps low) pool pool' =
    (r : SwapResult) × (sell_outcome_tokens i a bps low pool ≡ ok r pool')
Leaves (PoolCall.add a os) pool pool' = (r : LpResult) × (add_liquidity a os pool ≡ ok r pool')
Leaves (PoolCall.withdraw a) pool pool' = (r : LpResult) × (remove_liquidity a pool ≡ ok r pool')

call-IsBalanced :
    (c : PoolCall) (pool pool' : LiquidityPool)
    → IsPaired pool
    → Leaves c pool pool'
    → IsBalanced pool'
call-IsBalanced (PoolCall.buy i a bps low) pool pool' paired (r, h) =
    buy-IsBalanced i a bps low r pool pool' paired h
call-IsBalanced (PoolCall.sell i a bps low) pool pool' paired (r, h) =
    sell-IsBalanced i a bps low r pool pool' paired h
call-IsBalanced (PoolCall.add a os) pool pool' paired (r, h) =
    add-IsBalanced a os r pool pool' paired h
call-IsBalanced (PoolCall.withdraw a) pool pool' paired (r, h) =
    remove-IsBalanced a r pool pool' paired h

-- The pools that successful calls lead to from the creation of a pool.
pub data Traded : LiquidityPool → Type 0 where
  created :
      (market outcomes : ℕ) (collateral : ℤ) (pools pools' : Pools) (pool : LiquidityPool)
      → create_pool market outcomes collateral pools ≡ ok pool pools'
      → Traded pool
  called :
      (c : PoolCall) (pool pool' : LiquidityPool) → Traded pool → Leaves c pool pool' → Traded pool'

length-times : (c : ℤ) (rs : List ℤ) → length (times c rs) ≡ length rs
length-times c [] = refl
length-times c (r ∷ rs) = ap suc (length-times c rs)

IsBalanced-IsPaired : (pool : LiquidityPool) → IsBalanced pool → IsPaired pool
IsBalanced-IsPaired pool b =
    sym (ap length b.0 ∙ length-times pool.collateral_reserve pool.outcome_reserves)

replicated-times : (c : ℤ) (n : ℕ) → replicate n (c *ℤ c) ≡ times c (replicate n c)
replicated-times c zero = refl
replicated-times c (suc n) = ap (λ ks. (c *ℤ c) ∷ ks) (replicated-times c n)

replicated-AreInRange : (c : ℤ) (n : ℕ) → InI128 (c *ℤ c) → AreInRange c (replicate n c)
replicated-AreInRange c zero h = tt
replicated-AreInRange c (suc n) h = (h, replicated-AreInRange c n h)

-- A new pool.
abbrev seeded : ℕ → ℕ → ℤ → ℤ → LiquidityPool
seeded m n c k = record {
  market_id = m;
  collateral_reserve = c;
  outcome_reserves = replicate n c;
  lp_supply = c;
  k_per_outcome = replicate n k;
  fees_accumulated = pos 0;
  total_volume = pos 0;
}

created-IsBalanced :
    (m n : ℕ) (c : ℤ) (pools pools' : Pools) (pool : LiquidityPool)
    → create_pool m n c pools ≡ ok pool pools'
    → IsBalanced pool
unfolding create_pool
created-IsBalanced m zero c pools pools' pool h =
    let same : pool ≡ seeded m 0 c (pos 0) = ground arith in rw same (refl, tt)
created-IsBalanced m (suc n) c pools pools' pool h =
    let same : pool ≡ seeded m (suc n) c (c *ℤ c) = ground arith in
    let fits : InI128 (c *ℤ c) = ground arith in
    rw same (replicated-times c (suc n), replicated-AreInRange c (suc n) fits)

Traded-IsBalanced : {pool : LiquidityPool} → Traded pool → IsBalanced pool
Traded-IsBalanced (Traded.created m n c pools pools' pool h) =
    created-IsBalanced m n c pools pools' pool h
Traded-IsBalanced (Traded.called c pool pool' t h) =
    call-IsBalanced c pool pool' (IsBalanced-IsPaired pool (Traded-IsBalanced t)) h

-- The check `verify_invariant` accepts every pool that calls which succeed lead to from the creation of a
-- pool; indeed each stored product is exactly that of the collateral and the reserve.
pub products_stay_exact :
    {pool : LiquidityPool} → Traded pool → IsBalanced pool × (verify_invariant pool ≡ true)
unfolding verify_invariant
products_stay_exact {pool = pool} t =
    let b : IsBalanced pool = Traded-IsBalanced t in
    (b, rw (b.0) (verify_times pool.collateral_reserve pool.outcome_reserves b.1))
