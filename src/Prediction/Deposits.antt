-- ===== src/Prediction/Deposits.antt =====
-- contracts/prediction/src/cpmm.rs: the products after liquidity is added or removed.
use astraport_contracts.Base.{
  unwrap_or, ◌≡◌, ◌∙◌, List, [], ◌∷◌, length, arith, inl, inr, Bool-cases,
}
use astraport_contracts.Base.Int.{ℤ, pos, ◌+ℤ◌, ◌-ℤ◌, ◌*ℤ◌, eqb_ℤ}
use astraport_contracts.Machine.{quotient}
use astraport_contracts.Host.{ok, Outcome-cases}
use astraport_contracts.Prediction.Types.{LiquidityPool, LpResult}
use astraport_contracts.Prediction.Pools.{update_all_k, get_elem?}
use astraport_contracts.Prediction.Liquidity.{
  first_reserves, add_first, later_reserves, add_later, add_liquidity, reduced_reserves,
  remove_liquidity, proportion, at_least_one,
}
use astraport_contracts.Prediction.Product.{IsBalanced, IsPaired, update_all_k-IsBalanced}

length-first_reserves :
    (rs as' : List ℤ) (pool w : LiquidityPool) (new : List ℤ)
    → first_reserves rs as' pool ≡ ok new w
    → (length new ≡ length rs) × (w ≡ pool)
unfolding first_reserves
length-first_reserves [] as' pool w new h = (ground arith, ground arith)
length-first_reserves (r ∷ rs) [] pool w new h = ground arith
length-first_reserves (r ∷ rs) (a ∷ as') pool w new h =
    elim (Outcome-cases (first_reserves rs as' pool)) [
      | inl (rest, x, e) ↦
          let ih : (length rest ≡ length rs) × (x ≡ pool) =
            length-first_reserves rs as' pool x rest e in
          (ground (arith, e, ih.0), ground (arith, e, ih.1))
      | inr (inl (x, e)) ↦ ground arith
      | inr (inr e) ↦ ground arith
    ]

length-later_reserves :
    (a c : ℤ) (rs : List ℤ) (pool w : LiquidityPool) (new : List ℤ × List ℤ)
    → later_reserves a c rs pool ≡ ok new w
    → (length new.1 ≡ length rs) × (w ≡ pool)
unfolding later_reserves proportion
length-later_reserves a c [] pool w new h = (ground arith, ground arith)
length-later_reserves a c (r ∷ rs) pool w new h =
    elim (Outcome-cases (later_reserves a c rs pool)) [
      | inl (rest, x, e) ↦
          let ih : (length rest.1 ≡ length rs) × (x ≡ pool) =
            length-later_reserves a c rs pool x rest e in
          (ground (arith, e, ih.0), ground (arith, e, ih.1))
      | inr (inl (x, e)) ↦ ground arith
      | inr (inr e) ↦ ground arith
    ]

length-reduced_reserves :
    (n d : ℤ) (rs : List ℤ) (pool w : LiquidityPool) (new : List ℤ × List ℤ)
    → reduced_reserves n d rs pool ≡ ok new w
    → (length new.1 ≡ length rs) × (w ≡ pool)
unfolding reduced_reserves proportion
length-reduced_reserves n d [] pool w new h = (ground arith, ground arith)
length-reduced_reserves n d (r ∷ rs) pool w new h =
    elim (Outcome-cases (reduced_reserves n d rs pool)) [
      | inl (rest, x, e) ↦
          let ih : (length rest.1 ≡ length rs) × (x ≡ pool) =
            length-reduced_reserves n d rs pool x rest e in
          (ground (arith, e, ih.0), ground (arith, e, ih.1))
      | inr (inl (x, e)) ↦ ground arith
      | inr (inr e) ↦ ground arith
    ]

-- The pool before its products are computed anew.
abbrev resized : LiquidityPool → List ℤ → ℤ → ℤ → LiquidityPool
resized pool reserves collateral supply = record pool {
  outcome_reserves = reserves;
  collateral_reserve = collateral;
  lp_supply = supply;
}

resized-IsBalanced :
    (pool pool' : LiquidityPool) (reserves : List ℤ) (c s : ℤ)
    → length reserves ≡ length pool.outcome_reserves
    → IsPaired pool
    → update_all_k (resized pool reserves c s) ≡ ok tt pool'
    → IsBalanced pool'
resized-IsBalanced pool pool' reserves c s same paired h =
    update_all_k-IsBalanced (resized pool reserves c s) pool' (same ∙ paired) h

pub remove-IsBalanced :
    (a : ℤ) (res : LpResult) (pool pool' : LiquidityPool)
    → IsPaired pool
    → remove_liquidity a pool ≡ ok res pool'
    → IsBalanced pool'
unfolding remove_liquidity proportion
remove-IsBalanced a res pool pool' paired h =
    elim (Outcome-cases (reduced_reserves a pool.lp_supply pool.outcome_reserves pool)) [
      | inl (new, w, e) ↦
          let kept : (length new.1 ≡ length pool.outcome_reserves) × (w ≡ pool) =
            length-reduced_reserves a pool.lp_supply pool.outcome_reserves pool w new e in
          resized-IsBalanced pool pool' new.1
            (pool.collateral_reserve -ℤ quotient (pool.collateral_reserve *ℤ a) pool.lp_supply)
            (pool.lp_supply -ℤ a) kept.0 paired (ground (arith, e, kept.1))
      | inr (inl (x, e)) ↦ ground arith
      | inr (inr e) ↦ ground arith
    ]

add_first-IsBalanced :
    (a : ℤ) (os : List ℤ) (res : LpResult) (pool pool' : LiquidityPool)
    → IsPaired pool
    → add_first a os pool ≡ ok res pool'
    → IsBalanced pool'
unfolding add_first
add_first-IsBalanced a os res pool pool' paired h =
    elim (Outcome-cases (first_reserves pool.outcome_reserves os pool)) [
      | inl (new, w, e) ↦
          let kept : (length new ≡ length pool.outcome_reserves) × (w ≡ pool) =
            length-first_reserves pool.outcome_reserves os pool w new e in
          resized-IsBalanced pool pool' new (pool.collateral_reserve +ℤ a) a kept.0 paired
            (ground (arith, e, kept.1))
      | inr (inl (x, e)) ↦ ground arith
      | inr (inr e) ↦ ground arith
    ]

-- What the collateral grows by in a later deposit.
abbrev later_deposit : ℤ → LiquidityPool → ℤ
later_deposit a pool =
    quotient (unwrap_or (get_elem? pool.outcome_reserves 0) (pos 0) *ℤ a)
      (at_least_one pool.collateral_reserve)

add_later-IsBalanced :
    (a : ℤ) (res : LpResult) (pool pool' : LiquidityPool)
    → IsPaired pool
    → add_later a pool ≡ ok res pool'
    → IsBalanced pool'
unfolding add_later proportion
add_later-IsBalanced a res pool pool' paired h =
    elim (Outcome-cases (later_reserves a pool.collateral_reserve pool.outcome_reserves pool)) [
      | inl (new, w, e) ↦
          let kept : (length new.1 ≡ length pool.outcome_reserves) × (w ≡ pool) =
            length-later_reserves a pool.collateral_reserve pool.outcome_reserves pool w new e in
          resized-IsBalanced pool pool' new.1 (pool.collateral_reserve +ℤ later_deposit a pool)
            (pool.lp_supply +ℤ quotient (a *ℤ pool.lp_supply) pool.collateral_reserve) kept.0 paired
            (ground (arith, e, kept.1))
      | inr (inl (x, e)) ↦ ground arith
      | inr (inr e) ↦ ground arith
    ]

pub add-IsBalanced :
    (a : ℤ) (os : List ℤ) (res : LpResult) (pool pool' : LiquidityPool)
    → IsPaired pool
    → add_liquidity a os pool ≡ ok res pool'
    → IsBalanced pool'
unfolding add_liquidity
add-IsBalanced a os res pool pool' paired h = elim (Bool-cases (eqb_ℤ pool.lp_supply (pos 0))) [
  | inl e ↦ add_first-IsBalanced a os res pool pool' paired (ground (arith, e))
  | inr e ↦ add_later-IsBalanced a res pool pool' paired (ground (arith, e))
]
