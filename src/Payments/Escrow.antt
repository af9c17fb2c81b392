-- ===== src/Payments/Escrow.antt =====
-- contracts/payments/src/lib.rs: the escrow entry points.
use astraport_contracts.Base.{
  ℕ, zero, suc, ◌+◌, ◌-◌, ◌^◌, Bool, true, false, not, ◌&&◌, Option, none, some, List, [], ◌∷◌,
  ◌==◌, if◌then◌else◌, unwrap_or,
}
use astraport_contracts.Base.Int.{ℤ, pos, ltb_ℤ, ◌+ℤ◌}
use astraport_contracts.Base.Dict.{Dict, lookup, insert, number_key, pair_key}
use astraport_contracts.Machine.{checked_add_u64, i128_max, in_i128}
use astraport_contracts.Host.{◌>>=◌, ◌>>◌, pure, gets, or_fail, fail_if, require, modify}
use astraport_contracts.Payments.State.{
  Address, Symbol, EscrowStatus, active, released, refunded, EscrowRecord, Settlement, release,
  refund, Ledger, Env, Call, invalid_amount, arithmetic_overflow, escrow_not_found,
  escrow_not_active, not_escrow_party, escrow_created_event, escrow_settled_event,
  max_escrows_return,
}
use astraport_contracts.Payments.Helpers.{
  token_address, get_balance, put_balance, check_cap, checked_debit, publish, token_transfer,
  not_positive,
}

abbrev pub is_active : EscrowStatus → Bool
is_active active = true
is_active _ = false

unfoldable pub create_escrow : Env → Address → Address → Symbol → ℤ → Call ℕ
unfolding get_balance checked_debit put_balance publish
create_escrow env depositor receiver asset amount = do
  require (env.authorized depositor)
  fail_if (not_positive amount) invalid_amount
  fail_if (depositor == receiver) invalid_amount
  check_cap env asset amount
  balance ← gets (get_balance depositor asset)
  new_balance ← checked_debit balance amount
  modify (put_balance depositor asset new_balance)
  counter ← gets (λ w. unwrap_or w.escrow_id_counter 0)
  escrow_id ← or_fail (checked_add_u64 counter 1) arithmetic_overflow
  modify (λ w. record w { escrow_id_counter = some escrow_id; escrow_count = some escrow_id })
  let rec : EscrowRecord = record {
    escrow_id = escrow_id;
    asset = asset;
    depositor = depositor;
    receiver = receiver;
    amount = amount;
    status = active;
    created_at = env.timestamp;
    settled_at = 0;
  }
  modify (λ w. record w { escrows = insert escrow_id rec w.escrows })
  modify (publish (escrow_created_event escrow_id asset depositor receiver amount))
  pure escrow_id

-- The party that a settlement pays, the status that it leaves and its outcome symbol.
abbrev pub payee : Bool → EscrowRecord → Address
payee true r = r.receiver
payee false r = r.depositor

abbrev pub settled_status : Bool → EscrowStatus
settled_status true = released
settled_status false = refunded

abbrev pub settlement : Bool → Settlement
settlement true = release
settlement false = refund

unfoldable pub settle_escrow : Env → ℕ → Address → Bool → Call (Unit {0})
unfolding token_address token_transfer publish
settle_escrow env escrow_id caller is_release = do
  rec ← or_fail (← gets (λ w. lookup escrow_id w.escrows)) escrow_not_found
  fail_if (not (is_active rec.status)) escrow_not_active
  fail_if (not (caller == rec.depositor) && not (caller == rec.receiver)) not_escrow_party
  let settled : EscrowRecord = record rec {
    status = settled_status is_release;
    settled_at = env.timestamp;
  }
  modify (λ w. record w { escrows = insert escrow_id settled w.escrows })
  token ← token_address rec.asset
  token_transfer env (record {
    token = token;
    sender = env.self;
    recipient = payee is_release rec;
    amount = rec.amount;
  })
  modify (
      publish
        (escrow_settled_event escrow_id (settlement is_release) (payee is_release rec) rec.amount))

unfoldable pub release_escrow : Env → ℕ → Address → Call (Unit {0})
release_escrow env escrow_id caller = do
  require (env.authorized caller)
  settle_escrow env escrow_id caller true

unfoldable pub refund_escrow : Env → ℕ → Address → Call (Unit {0})
refund_escrow env escrow_id caller = do
  require (env.authorized caller)
  settle_escrow env escrow_id caller false

unfoldable pub get_escrow : ℕ → Call EscrowRecord
get_escrow escrow_id = do or_fail (← gets (λ w. lookup escrow_id w.escrows)) escrow_not_found

-- The loop of `list_escrows` over the ids from `id` on, for the rounds that are left.
abbrev push_found : Option EscrowRecord → List EscrowRecord → List EscrowRecord
push_found none rest = rest
push_found (some r) rest = r ∷ rest

unfoldable pub collect_escrows : Dict ℕ EscrowRecord → ℕ → ℕ → List EscrowRecord
collect_escrows escrows id zero = []
collect_escrows escrows id (suc rounds) =
    push_found (lookup id escrows) (collect_escrows escrows (id + 1) rounds)

-- `start = total.saturating_sub(MAX_ESCROWS_RETURN)`, then the ids `start + 1 ..= total`
unfoldable pub list_escrows : Ledger → List EscrowRecord
unfolding collect_escrows
list_escrows w =
    let total = unwrap_or w.escrow_count 0 in
    let start = total - max_escrows_return in collect_escrows w.escrows (start + 1) (total - start)

-- `i128::saturating_add`
abbrev pub saturating_add : ℤ → ℤ → ℤ
saturating_add a b =
    if in_i128 (a +ℤ b)
    then a +ℤ b
    else if ltb_ℤ (a +ℤ b) (pos 0)
    then ℤ.negsuc (2 ^ 127 - 1)
    else i128_max

unfoldable pub sum_from : ℤ → List EscrowRecord → ℤ
sum_from total [] = total
sum_from total (r ∷ rs) = sum_from (saturating_add total r.amount) rs

-- `sum_escrow_amounts` of records.rs
unfoldable pub sum_escrow_amounts : List EscrowRecord → ℤ
unfolding sum_from
sum_escrow_amounts rs = sum_from (pos 0) rs
