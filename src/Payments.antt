-- ===== src/Payments.antt =====
-- contracts/payments/src/lib.rs: the escrow and settlement contract.
mod State
mod Helpers
mod Calls
mod Escrow
mod Outcomes
mod EscrowOutcomes
mod Changes
pub mod Trace
pub mod Access
pub mod Caps
pub mod Balances
pub mod Moves
pub mod Promise
pub mod EscrowSums
pub mod Settlement
pub mod Lifecycle
pub mod Numbering
pub mod Liabilities
pub mod Solvency
pub use State.*
unfoldable pub use Helpers.*
unfoldable pub use Calls.*
unfoldable pub use Escrow.*
