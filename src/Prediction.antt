-- ===== src/Prediction.antt =====
-- contracts/prediction: the constant-product pools of the prediction markets.
pub mod Types
pub mod Pools
pub mod Liquidity
pub mod Product
pub mod Deposits
pub mod Balance
pub mod Rounding
