-- ===== src/Tests.antt =====
-- The theorems applied to concrete inputs.
mod Payments
mod PaymentsCaps
mod FixedPoint
mod Yield
mod Trade
mod Governance
mod Treasury
mod Prediction
mod Quorum
