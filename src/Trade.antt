-- ===== src/Trade.antt =====
-- contracts/trade: the multi-asset trading engine.
pub mod Types
pub mod Orderbook
pub mod Matching
pub mod Slippage
pub mod Engine
pub mod Contract
pub mod Trace
pub mod Orderly
