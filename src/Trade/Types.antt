-- ===== src/Trade/Types.antt =====
-- contracts/trade/src/types.rs: the records and errors of the trade engine, and its storage.
use astraport_contracts.Base.{ℕ, Bool, true, Option, none, List, []}
use astraport_contracts.Base.Int.{ℤ, pos}
use astraport_contracts.Base.Dict.{Dict}
use astraport_contracts.Host.{Action}

abbrev pub Address : Type 0
Address = ℕ

abbrev pub Symbol : Type 0
Symbol = ℕ

-- MAX_ORDERS_PER_PAIR, BPS_DENOM and DEFAULT_MAX_SLIPPAGE_BPS
abbrev pub max_orders_per_pair : ℕ
max_orders_per_pair = 256

abbrev pub bps_denom : ℤ
bps_denom = pos 10_000

abbrev pub default_max_slippage_bps : ℤ
default_max_slippage_bps = pos 500

pub data TradeError : Type 0 where
  already_initialized unauthorized invalid_order_amount pair_not_found : TradeError
  order_not_found not_order_owner slippage_exceeded insufficient_liquidity : TradeError
  pair_already_registered max_orders_reached arithmetic_overflow empty_batch : TradeError
  no_matching_orders pair_inactive : TradeError

pub data OrderSide : Type 0 where
  buy sell : OrderSide

pub data OrderStatus : Type 0 where
  active partially_filled filled cancelled : OrderStatus

pub record TradePair : Type 0 where
  pub pair_id : Symbol
  pub base_asset : Symbol
  pub quote_asset : Symbol
  pub is_active : Bool
  pub min_order_size : ℤ
  pub max_order_size : ℤ
  pub fee_bps : ℤ

pub record Order : Type 0 where
  pub order_id : ℕ
  pub pair_id : Symbol
  pub owner : Address
  pub side : OrderSide
  pub price : ℤ
  pub amount : ℤ
  pub remaining : ℤ
  pub status : OrderStatus
  pub created_at : ℕ

pub record OrderBook : Type 0 where
  pub pair_id : Symbol
  pub bids : List Order
  pub asks : List Order

pub record SlippageConfig : Type 0 where
  pub max_slippage_bps : ℤ
  pub enabled : Bool

-- `SlippageConfig::default()`
abbrev pub default_slippage : SlippageConfig
default_slippage = record { max_slippage_bps = default_max_slippage_bps; enabled = true }

pub record Fill : Type 0 where
  pub order_id : ℕ
  pub pair_id : Symbol
  pub taker : Address
  pub maker : Address
  pub side : OrderSide
  pub price : ℤ
  pub amount : ℤ
  pub fee : ℤ

pub record TradeLeg : Type 0 where
  pub pair_id : Symbol
  pub side : OrderSide
  pub price : ℤ
  pub amount : ℤ
  pub max_slippage_bps : Option ℤ

pub record LegResult : Type 0 where
  pub pair_id : Symbol
  pub fills : List Fill
  pub filled_amount : ℤ
  pub avg_price : ℤ
  pub total_fees : ℤ

-- `success` is always true and `failure_reason` empty in a result that is returned.
pub record AtomicBatchResult : Type 0 where
  pub success : Bool
  pub legs : List LegResult
  pub total_fills : ℕ
  pub executed_at : ℕ

pub record PairStats : Type 0 where
  pub total_volume : ℤ
  pub total_orders : ℕ
  pub best_bid : ℤ
  pub best_ask : ℤ
  pub spread : ℤ

pub record OrderBookSnapshot : Type 0 where
  pub pair_id : Symbol
  pub bid_count : ℕ
  pub ask_count : ℕ
  pub best_bid : ℤ
  pub best_ask : ℤ
  pub spread : ℤ

-- What is published, and what is sent to the audit contract.
pub data Event : Type 0 where
  pair_added : Symbol → Symbol → Event
  order_cancelled : Symbol → ℕ → Address → Event
  leg_filled : Symbol → ℤ → ℤ → ℤ → Event
  batch_executed : Address → ℕ → ℕ → Event

pub data AuditEventType : Type 0 where
  order_placed_audit order_cancelled_audit trade_execution_audit : AuditEventType

-- `none` as the subject is the symbol "BATCH".
pub record AuditCall : Type 0 where
  pub sink : Address
  pub actor : Address
  pub event_type : AuditEventType
  pub subject : Option Symbol
  pub before : ℤ
  pub after : ℤ

-- The storage, one field for each TradeDataKey that the code uses, with the events and audit calls so
-- far, newest first.
pub record Store : Type 0 where
  pub admin : Option Address
  pub pairs : Option (List TradePair)
  pub orders : Dict (Symbol × ℕ) Order
  pub books : Dict Symbol OrderBook
  pub order_id_counters : Dict Symbol ℕ
  pub slippage_configs : Dict Symbol SlippageConfig
  pub pair_volumes : Dict Symbol ℤ
  pub audit_sink : Option Address
  pub events : List Event
  pub audits : List AuditCall

-- What the invocation takes from outside. `audited` tells whether the audit contract takes a call
-- after those sent so far; if it does not, the invocation traps.
pub record Env : Type 0 where
  pub timestamp : ℕ
  pub authorized : Address → Bool
  pub audited : List AuditCall → AuditCall → Bool

abbrev pub Call : Type 0 → Type 0
Call A = Action Store TradeError A

abbrev pub deployed : Store
deployed = record {
  admin = none;
  pairs = none;
  orders = [];
  books = [];
  order_id_counters = [];
  slippage_configs = [];
  pair_volumes = [];
  audit_sink = none;
  events = [];
  audits = [];
}
