-- ===== src/Trade/Slippage.antt =====
-- contracts/trade/src/slippage.rs: slippage protection.
pub mod Criterion
use astraport_contracts.Base.{
  Bool, true, false, not, ◌||◌, Option, none, some, List, [], ◌∷◌, if◌then◌else◌, unwrap_or,
}
use astraport_contracts.Base.Int.{ℤ, pos, ltb_ℤ, leb_ℤ}
use astraport_contracts.Base.Dict.{lookup, insert, number_key}
use astraport_contracts.Machine.{wrapping_add, wrapping_sub, wrapping_mul, quotient}
use astraport_contracts.Trade.Types.{
  Symbol, OrderSide, buy, sell, Order, SlippageConfig, Store, bps_denom, default_slippage,
}
use astraport_contracts.Trade.Orderbook.{load_book, side_of}
use astraport_contracts.Trade.Matching.{opposite}

unfoldable pub set_slippage_config : Symbol → SlippageConfig → Store → Store
set_slippage_config pair config w = record w {
  slippage_configs = insert pair config w.slippage_configs;
}

unfoldable pub get_slippage_config : Symbol → Store → SlippageConfig
get_slippage_config pair w = unwrap_or (lookup pair w.slippage_configs) default_slippage

-- `!config.enabled || config.max_slippage_bps <= 0`
abbrev pub unprotected : SlippageConfig → Bool
unprotected c = not c.enabled || leb_ℤ c.max_slippage_bps (pos 0)

-- The fill price is no worse than the limit for the taker.
abbrev pub no_slippage : OrderSide → ℤ → ℤ → Bool
no_slippage buy limit price = leb_ℤ price limit
no_slippage sell limit price = leb_ℤ limit price

abbrev pub price_gap : OrderSide → ℤ → ℤ → ℤ
price_gap buy limit price = wrapping_sub price limit
price_gap sell limit price = wrapping_sub limit price

-- The deviation in basis points of the limit.
abbrev pub slippage_bps : OrderSide → ℤ → ℤ → ℤ
slippage_bps side limit price = quotient (wrapping_mul (price_gap side limit price) bps_denom) limit

-- `check_slippage(..).is_ok()`: every `Err` of the source is `SlippageExceeded`.
unfoldable pub check_slippage : ℤ → ℤ → OrderSide → SlippageConfig → Bool
check_slippage limit price side c =
    if unprotected c
    then true
    else if leb_ℤ limit (pos 0) || leb_ℤ price (pos 0)
    then false
    else if no_slippage side limit price
    then true
    else not (ltb_ℤ c.max_slippage_bps (slippage_bps side limit price))

-- The price that a pre-trade check compares with, if the side is not empty.
unfoldable pub worst_price : List Order → Option ℤ
worst_price [] = none
worst_price (o ∷ os) = some o.price

abbrev check_worst : Option ℤ → ℤ → OrderSide → SlippageConfig → Bool
check_worst none limit side c = true
check_worst (some price) limit side c = check_slippage limit price side c

-- `validate_slippage_pre_trade(..).is_ok()`
unfoldable pub validate_slippage_pre_trade :
    Symbol → OrderSide → ℤ → Option SlippageConfig → Store → Bool
unfolding worst_price load_book get_slippage_config
validate_slippage_pre_trade pair side limit override w =
    let c = unwrap_or override (get_slippage_config pair w) in
    if unprotected c
    then true
    else check_worst (worst_price (side_of (opposite side) (load_book pair w))) limit side c

-- `limit_price * max_slippage_bps / BPS_DENOM`
abbrev pub tolerance : ℤ → SlippageConfig → ℤ
tolerance limit c = quotient (wrapping_mul limit c.max_slippage_bps) bps_denom

unfoldable pub min_acceptable_buy_price : ℤ → SlippageConfig → ℤ
min_acceptable_buy_price limit c =
    if unprotected c || leb_ℤ limit (pos 0) then pos 0 else wrapping_add limit (tolerance limit c)

unfoldable pub min_acceptable_sell_price : ℤ → SlippageConfig → ℤ
min_acceptable_sell_price limit c =
    if unprotected c || leb_ℤ limit (pos 0)
    then pos 0
    else let min_price = wrapping_sub limit (tolerance limit c) in
      if ltb_ℤ min_price (pos 1) then pos 1 else min_price
