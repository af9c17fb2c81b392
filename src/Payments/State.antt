-- ===== src/Payments/State.antt =====
-- contracts/payments/src/records.rs: the records, errors and storage of the payments contract.
-- Addresses and symbols are only compared, so they are numbers.
use astraport_contracts.Base.{ℕ, Bool, Option, none, List, []}
use astraport_contracts.Base.Int.{ℤ}
use astraport_contracts.Base.Dict.{Dict}
use astraport_contracts.Host.{Action}

abbrev pub Address : Type 0
Address = ℕ

abbrev pub Symbol : Type 0
Symbol = ℕ

-- MAX_ESCROWS_RETURN
abbrev pub max_escrows_return : ℕ
max_escrows_return = 200

pub data EscrowStatus : Type 0 where
  active released refunded : EscrowStatus

pub record EscrowRecord : Type 0 where
  pub escrow_id : ℕ
  pub asset : Symbol
  pub depositor : Address
  pub receiver : Address
  pub amount : ℤ
  pub status : EscrowStatus
  pub created_at : ℕ
  pub settled_at : ℕ

pub data Error : Type 0 where
  already_initialized not_initialized unauthorized invalid_amount : Error
  token_not_registered insufficient_balance arithmetic_overflow cap_exceeded : Error
  escrow_not_found escrow_not_active not_escrow_party limit_exceeded : Error

-- The outcome symbol of an EscrowSettledEvent, "release" or "refund".
pub data Settlement : Type 0 where
  release refund : Settlement

-- What `env.events().publish` is given.
pub data Event : Type 0 where
  deposit_event : Symbol → Address → ℤ → ℤ → Event
  withdraw_event : Symbol → Address → ℤ → ℤ → Event
  transfer_event : Symbol → Address → Address → ℤ → ℤ → ℤ → Event
  escrow_created_event : ℕ → Symbol → Address → Address → ℤ → Event
  escrow_settled_event : ℕ → Settlement → Address → ℤ → Event
  admin_set_event : Address → Address → Event
  global_cap_set_event : ℤ → Event
  asset_cap_set_event : Symbol → ℤ → Event

-- A call of `transfer` on a token contract.
pub record TokenTransfer : Type 0 where
  pub token : Address
  pub sender : Address
  pub recipient : Address
  pub amount : ℤ

-- The storage, one field for each PaymentsDataKey, and the calls and events so far, newest first. A
-- cap is stored as an `Option<i128>`: `some none` is a stored "no cap".
pub record Ledger : Type 0 where
  pub admin : Option Address
  pub tokens : Dict Symbol Address
  pub balances : Dict (Address × Symbol) ℤ
  pub global_cap : Option (Option ℤ)
  pub asset_caps : Dict Symbol (Option ℤ)
  pub escrow_id_counter : Option ℕ
  pub escrow_count : Option ℕ
  pub escrows : Dict ℕ EscrowRecord
  pub transfers : List TokenTransfer
  pub events : List Event

-- What the invocation takes from outside: the contract's own address, the ledger's timestamp, who
-- authorised the call, which transfers the token contracts accept after those made so far, and what
-- the SDK's `get::<_, i128>` makes of a stored void (`none` is a trap).
pub record Env : Type 0 where
  pub self : Address
  pub timestamp : ℕ
  pub authorized : Address → Bool
  pub accepts : List TokenTransfer → TokenTransfer → Bool
  pub void_cap : Option (Option ℤ)

abbrev pub Call : Type 0 → Type 0
Call A = Action Ledger Error A

-- A contract that has just been deployed.
abbrev pub deployed : Ledger
deployed = record {
  admin = none;
  tokens = [];
  balances = [];
  global_cap = none;
  asset_caps = [];
  escrow_id_counter = none;
  escrow_count = none;
  escrows = [];
  transfers = [];
  events = [];
}
