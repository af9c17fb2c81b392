-- ===== src/Prediction/Product.antt =====
-- contracts/prediction/src/cpmm.rs: the products of the reserves.
use astraport_contracts.Base.{
  ℕ, ◌-◌, ◌≡◌, refl, ◌∙◌, true, some, List, [], ◌∷◌, All, length, arith, inl, inr, Option-cases,
}
use astraport_contracts.Base.Int.{ℤ, pos, ◌*ℤ◌, ◌+ℤ◌, ◌-ℤ◌, int_laws}
use astraport_contracts.Machine.{
  InI128, wrapping_sub, wrapping_sub_exact, wrap_i128_exact, quotient,
}
use astraport_contracts.Host.{ok, Outcome-cases}
use astraport_contracts.Prediction.Types.{LiquidityPool, SwapResult}
use astraport_contracts.Prediction.Pools.{
  products, update_all_k, buy_outcome_tokens, sell_outcome_tokens, verify_from, abs_i128,
  settle_swap, set_elem, get_elem?, fee_of, price_impact, impact_of,
}

abbrev pub times : ℤ → List ℤ → List ℤ
times c [] = []
times c (r ∷ rs) = (c *ℤ r) ∷ times c rs

abbrev pub AreInRange : ℤ → List ℤ → Type 0
AreInRange c rs = All (λ r. InI128 (c *ℤ r)) rs

products_exact :
    (c : ℤ) (rs ks : List ℤ) (pool pool' : LiquidityPool) (new : List ℤ)
    → length rs ≡ length ks
    → products c rs ks pool ≡ ok new pool'
    → (new ≡ times c rs) × AreInRange c rs × (pool' ≡ pool)
unfolding products
products_exact c [] [] pool pool' new same h = (ground arith, tt, ground arith)
products_exact c [] (k ∷ ks) pool pool' new same h = ground arith
products_exact c (r ∷ rs) [] pool pool' new same h = ground arith
products_exact c (r ∷ rs) (k ∷ ks) pool pool' new same h =
    elim (Outcome-cases (products c rs ks pool)) [
      | inl (rest, w, e) ↦
          let ih : (rest ≡ times c rs) × AreInRange c rs × (w ≡ pool) =
            products_exact c rs ks pool w rest (omega (arith, same)) e in
          (ground (arith, e, ih.0), (ground arith, ih.1), ground (arith, e, ih.2))
      | inr (inl (x, e)) ↦ ground arith
      | inr (inr e) ↦ ground arith
    ]

no_difference : (x : ℤ) → abs_i128 (wrapping_sub x x) ≡ pos 0
no_difference x =
    let zero : x -ℤ x ≡ pos 0 = grind int_laws in
    rw (wrapping_sub_exact x x (rw zero (omega arith)), zero)
      (wrap_i128_exact (pos 0) (omega arith))

pub verify_times : (c : ℤ) (rs : List ℤ) → AreInRange c rs → verify_from c rs (times c rs) ≡ true
unfolding verify_from
verify_times c [] h = refl
verify_times c (r ∷ rs) h = ground (arith, h.0, no_difference (c *ℤ r), verify_times c rs h.1)

-- The stored products are those of the collateral and the reserves.
abbrev pub IsBalanced : LiquidityPool → Type 0
IsBalanced pool =
    (pool.k_per_outcome ≡ times pool.collateral_reserve pool.outcome_reserves)
    × AreInRange pool.collateral_reserve pool.outcome_reserves

-- There is a product for each outcome.
abbrev pub IsPaired : LiquidityPool → Type 0
IsPaired pool = length pool.outcome_reserves ≡ length pool.k_per_outcome

pub update_all_k-IsBalanced :
    (pool pool' : LiquidityPool)
    → IsPaired pool
    → update_all_k pool ≡ ok tt pool'
    → IsBalanced pool'
unfolding update_all_k
update_all_k-IsBalanced pool pool' paired h =
    elim (Outcome-cases
      (products pool.collateral_reserve pool.outcome_reserves pool.k_per_outcome pool)) [
        | inl (ks, w, e) ↦
            let exact : (ks ≡ times pool.collateral_reserve pool.outcome_reserves)
                × AreInRange pool.collateral_reserve pool.outcome_reserves
                × (w ≡ pool) =
              products_exact pool.collateral_reserve pool.outcome_reserves pool.k_per_outcome pool w
                ks paired e in
            let same : pool' ≡ record pool { k_per_outcome = ks } = ground (arith, e, exact.2) in
            rw same (exact.0, exact.1)
        | inr (inl (x, e)) ↦ ground arith
        | inr (inr e) ↦ ground arith
      ]

update_all_k_keeps :
    (pool pool' : LiquidityPool)
    → IsPaired pool
    → update_all_k pool ≡ ok tt pool'
    → (pool'.collateral_reserve ≡ pool.collateral_reserve)
      × (pool'.outcome_reserves ≡ pool.outcome_reserves)
unfolding update_all_k
update_all_k_keeps pool pool' paired h =
    elim (Outcome-cases
      (products pool.collateral_reserve pool.outcome_reserves pool.k_per_outcome pool)) [
        | inl (ks, w, e) ↦
            let same : w ≡ pool =
              (products_exact pool.collateral_reserve pool.outcome_reserves pool.k_per_outcome pool
                w ks paired e).2 in
            (ground (arith, e, same), ground (arith, e, same))
        | inr (inl (x, e)) ↦ ground arith
        | inr (inr e) ↦ ground arith
      ]

length-set_elem : (xs : List ℤ) (i : ℕ) (y : ℤ) → length (set_elem xs i y) ≡ length xs
length-set_elem [] i y = refl
length-set_elem (x ∷ xs) i y = ground (arith, length-set_elem xs (i - 1) y)

-- The pool before its products are computed anew.
abbrev swapped : LiquidityPool → ℕ → ℤ → ℤ → ℤ → ℤ → LiquidityPool
swapped pool i c r fee volume = record pool {
  collateral_reserve = c;
  outcome_reserves = set_elem pool.outcome_reserves i r;
  fees_accumulated = pool.fees_accumulated +ℤ fee;
  total_volume = pool.total_volume +ℤ volume;
}

settle_swap-IsBalanced :
    (i : ℕ) (c r fee volume : ℤ) (pool pool' : LiquidityPool)
    → IsPaired pool
    → settle_swap i c r fee volume pool ≡ ok tt pool'
    → IsBalanced pool'
unfolding settle_swap
settle_swap-IsBalanced i c r fee volume pool pool' paired h =
    update_all_k-IsBalanced (swapped pool i c r fee volume) pool'
      (length-set_elem pool.outcome_reserves i r ∙ paired) (ground arith)

-- A swap writes the collateral and the reserve that it is given.
pub settle_swap_writes :
    (i : ℕ) (c r fee volume : ℤ) (pool pool' : LiquidityPool)
    → IsPaired pool
    → settle_swap i c r fee volume pool ≡ ok tt pool'
    → (pool'.collateral_reserve ≡ c) × (pool'.outcome_reserves ≡ set_elem pool.outcome_reserves i r)
unfolding settle_swap
settle_swap_writes i c r fee volume pool pool' paired h =
    update_all_k_keeps (swapped pool i c r fee volume) pool'
      (length-set_elem pool.outcome_reserves i r ∙ paired) (ground arith)

-- The fee on an amount, and the collateral after a purchase.
abbrev pub exact_fee : ℤ → ℤ → ℤ
exact_fee amount bps = quotient (amount *ℤ bps) (pos 10_000)

pub buy_settles :
    (i : ℕ) (a bps low k r : ℤ) (res : SwapResult) (pool pool' : LiquidityPool)
    → get_elem? pool.k_per_outcome i ≡ some k
    → get_elem? pool.outcome_reserves i ≡ some r
    → buy_outcome_tokens i a bps low pool ≡ ok res pool'
    → settle_swap i
        (pool.collateral_reserve +ℤ (a -ℤ exact_fee a bps))
        (quotient k (pool.collateral_reserve +ℤ (a -ℤ exact_fee a bps)))
        (exact_fee a bps)
        a
        pool
      ≡ ok tt pool'
unfolding buy_outcome_tokens fee_of price_impact impact_of
buy_settles i a bps low k r res pool pool' hk hr h = ground arith

sell_settles :
    (i : ℕ) (a bps low k r : ℤ) (res : SwapResult) (pool pool' : LiquidityPool)
    → get_elem? pool.k_per_outcome i ≡ some k
    → get_elem? pool.outcome_reserves i ≡ some r
    → sell_outcome_tokens i a bps low pool ≡ ok res pool'
    → settle_swap i
        (quotient k (r +ℤ a))
        (r +ℤ a)
        (exact_fee (pool.collateral_reserve -ℤ quotient k (r +ℤ a)) bps)
        a
        pool
      ≡ ok tt pool'
unfolding sell_outcome_tokens fee_of price_impact impact_of
sell_settles i a bps low k r res pool pool' hk hr h = ground arith

pub buy-IsBalanced :
    (i : ℕ) (a bps low : ℤ) (res : SwapResult) (pool pool' : LiquidityPool)
    → IsPaired pool
    → buy_outcome_tokens i a bps low pool ≡ ok res pool'
    → IsBalanced pool'
unfolding buy_outcome_tokens fee_of price_impact impact_of
buy-IsBalanced i a bps low res pool pool' paired h =
    elim (Option-cases (get_elem? pool.k_per_outcome i)) [
      | inl e ↦ ground (arith, h)
      | inr (k, hk) ↦ elim (Option-cases (get_elem? pool.outcome_reserves i)) [
        | inl e ↦ ground (arith, h)
        | inr (r, hr) ↦
            settle_swap-IsBalanced i _ _ _ a pool pool' paired
              (buy_settles i a bps low k r res pool pool' hk hr h)
      ]
    ]

pub sell-IsBalanced :
    (i : ℕ) (a bps low : ℤ) (res : SwapResult) (pool pool' : LiquidityPool)
    → IsPaired pool
    → sell_outcome_tokens i a bps low pool ≡ ok res pool'
    → IsBalanced pool'
unfolding sell_outcome_tokens fee_of price_impact impact_of
sell-IsBalanced i a bps low res pool pool' paired h =
    elim (Option-cases (get_elem? pool.k_per_outcome i)) [
      | inl e ↦ ground (arith, h)
      | inr (k, hk) ↦ elim (Option-cases (get_elem? pool.outcome_reserves i)) [
        | inl e ↦ ground (arith, h)
        | inr (r, hr) ↦
            settle_swap-IsBalanced i _ _ _ a pool pool' paired
              (sell_settles i a bps low k r res pool pool' hk hr h)
      ]
    ]
