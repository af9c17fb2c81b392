-- ===== src/FixedPoint.antt =====
-- contracts/staking/src/fixed_point.rs: fixed-point arithmetic on `i128` with 18 decimals, over an
-- emulated 256-bit product.
mod Wide
mod Arithmetic
mod Power
mod Exponential
pub mod PowerExact
pub mod Rounds
pub mod Product
pub mod Division
pub mod Exact
unfoldable pub use Wide.*
unfoldable pub use Arithmetic.*
unfoldable pub use Power.*
unfoldable pub use Exponential.*
