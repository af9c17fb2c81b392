-- ===== src/Lib.antt =====
-- AstraPort contracts: Soroban smart contracts in Rust. This library models the payments contract, the
-- trade engine, the governance DAO, the pools of the prediction contract, and the fixed-point arithmetic
-- and the yield calculator of the staking contract.
--
-- The program's parts. Each contract is a program of its own that the host calls: an invocation reads
-- and writes the contract's storage, calls other contracts (tokens, the audit log) and publishes events;
-- an error or a panic discards everything it did. The contracts share no state. `contracts/trade` calls
-- and `contracts/governance` call the audit contract; `contracts/payments` calls token contracts; the
-- staking contract's yield calculator computes with its fixed-point module.
--
-- What models what:
--   Base, Base/*       shared names, Boolean tests, integers over the native numbers, association lists
--                      for the storage maps, and the sum over a map.
--   Machine            i128 and u64 arithmetic: `checked_*` as Option, plain operators wrapping, which is
--                      what the release profile of Cargo.toml gives; `/` rounding towards zero.
--   Host               one invocation as a state monad with a returned error and a trap, and the rollback
--                      of both.
--   Payments           contracts/payments/src/lib.rs and records.rs. State has the records, the errors and
--                      the storage (`Ledger`, one field for each PaymentsDataKey, with the token calls and
--                      events so far); Helpers the private functions (get_admin, check_cap, checked_debit,
--                      ...); Calls and Escrow the entry points under their names. Trace has the sequences
--                      of invocations; Promise says how a settlement has to end, in terms of its own; the
--                      other children hold the theorems, named for what they are about.
--   FixedPoint         contracts/staking/src/fixed_point.rs. Wide has the 256-bit product and the long
--                      division, Arithmetic has mul, div and mul_div, Power has pow_uint, Exponential exp.
--   Yield              contracts/staking/src/compounding.rs: growth factors and the yield calculator.
--   Trade              contracts/trade/src. Types is types.rs with the storage (`Store`); Orderbook and
--                      Matching are orderbook.rs; Slippage is slippage.rs; Engine is engine.rs; Contract is
--                      lib.rs, under its functions' names. Trace has the sequences of invocations; Orderly
--                      has the invariant of the order books.
--   Governance         contracts/governance/src. Types is records.rs, the errors and the storage (`Dao`, one
--                      field for each StorageKey, with the events and audit calls so far); Helpers, Setup,
--                      Proposals, Decision and Emergency are lib.rs, under its functions' names
--                      (`delegate` is `delegate_power`; what the two ways to vote share is `record_vote`);
--                      Timelock and Treasury are timelock.rs and treasury.rs. Trace has one invocation
--                      (`perform`) and the states that invocations lead to (`Reach`). Power, Steps and
--                      Funds say what a call does to each part of the storage; the invariants and the
--                      theorems stand in the other children, by induction on the invocations.
--   Prediction         contracts/prediction/src/cpmm.rs. Types has its records and errors (types.rs); Pools
--                      and Liquidity have its functions, on the state that is the pool (`&mut
--                      LiquidityPool`); the other children the theorems.
--   Tests              the theorems at concrete inputs.
--
-- How state and effects are represented. Addresses, symbols and tokens are numbers, since the code only
-- compares them. `Env` carries what an invocation takes from outside: the time, who authorised the call,
-- which calls of other contracts succeed, and, for payments, what the SDK makes of a stored void that is
-- read as an i128 (`void_cap`). Vectors are lists. In a match, the list is the vector from the loop's
-- index on. Results that are only the symbol "ok" are the unit.
--
-- Bounds and fuel. Most loops recurse on a list or on the rounds that the source counts itself
-- (`list_escrows`, at most 200; the 256 rounds of the long division; the 20 terms of `exp`). Two loops
-- run while a condition holds and are given rounds: `pow_uint` 64, as it halves a u64 exponent, and the
-- range reduction of `exp` 127, as it halves an i128 that is not negative; FixedPoint/Rounds is about
-- them.
-- i128 values are unbounded integers, kept in range by the operations of Machine; a theorem that needs an
-- argument in range says so (`InI128`), which the host's decoding of arguments ensures.
--
-- The number of a proposal is a u64 counter that wraps; where that matters, a theorem bounds the number
-- of invocations by 2 ^ 64 - 1.
--
-- Not modelled: the other contracts of the workspace (asset, audit, emergency, events, fee, gamification,
-- pricefeed, rebalancing, valuation, versioning, and the rest of staking and of prediction); the
-- token and audit contracts, which are parameters; storage lifetimes, fees and the encoding of values;
-- `record_batch` and `abort_batch` of engine.rs, which nothing calls.
pub mod Base
pub mod Machine
pub mod Host
pub mod Payments
pub mod FixedPoint
pub mod Yield
pub mod Trade
pub mod Governance
pub mod Prediction
pub mod Tests
