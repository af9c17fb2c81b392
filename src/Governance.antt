-- ===== src/Governance.antt =====
-- contracts/governance: the DAO.
pub mod Types
pub mod Helpers
pub mod Setup
pub mod Proposals
pub mod Timelock
pub mod Decision
pub mod Treasury
pub mod Emergency
pub mod Trace
pub mod Power
pub mod Holdings
pub mod Changes
pub mod Closing
pub mod Voting
pub mod Steps
pub mod Numbering
pub mod Evolution
pub mod Lifecycle
pub mod Counting
pub mod Tallies
pub mod Locks
pub mod Execution
pub mod Ballots
pub mod Pause
pub mod Outcome
pub mod Funds
pub mod Spending
pub mod Signers
