-- ===== src/Payments/Liabilities.antt =====
-- What the payments contract owes in an asset, what it holds of a token, and how a write changes them.
use astraport_contracts.Base.{ℕ, ◌≡◌, refl, ◌&&◌, List, [], ◌∷◌, ◌==◌, if◌then◌else◌, unwrap_or}
use astraport_contracts.Base.Int.{ℤ, pos, ◌+ℤ◌, ◌-ℤ◌, int_laws}
use astraport_contracts.Base.Dict.{Dict, lookup, insert, number_key, pair_key}
use astraport_contracts.Base.Dict.Total.{total, weight, total-insert}
use astraport_contracts.Payments.State.{Address, Symbol, EscrowRecord, TokenTransfer, Ledger}
use astraport_contracts.Payments.Escrow.{is_active}

abbrev pub balance_weight : Symbol → Address × Symbol → ℤ → ℤ
balance_weight a (owner, s) v = if s == a then v else pos 0

abbrev pub escrow_weight : Symbol → ℕ → EscrowRecord → ℤ
escrow_weight a id r = if (r.asset == a) && is_active r.status then r.amount else pos 0

-- All internal balances in an asset, with the active escrows in it.
unfoldable pub owed : Symbol → Dict (Address × Symbol) ℤ → Dict ℕ EscrowRecord → ℤ
owed a balances escrows = total (balance_weight a) balances +ℤ total (escrow_weight a) escrows

abbrev pub liabilities : Symbol → Ledger → ℤ
liabilities a w = owed a w.balances w.escrows

-- What one transfer adds to the contract's holding of a token.
abbrev pub inflow : Address → Address → TokenTransfer → ℤ
inflow self token t =
    if t.token == token
    then (if t.recipient == self then t.amount else pos 0)
      -ℤ (if t.sender == self then t.amount else pos 0)
    else pos 0

unfoldable pub net_inflow : Address → Address → List TokenTransfer → ℤ
net_inflow self token [] = pos 0
net_inflow self token (t ∷ ts) = inflow self token t +ℤ net_inflow self token ts

-- What the contract has received of a token less what it has sent.
abbrev pub held : Address → Address → Ledger → ℤ
held self token w = net_inflow self token w.transfers

pub net_inflow-cons :
    (self token : Address) (t : TokenTransfer) (ts : List TokenTransfer)
    → net_inflow self token (t ∷ ts) ≡ inflow self token t +ℤ net_inflow self token ts
unfolding net_inflow
net_inflow-cons self token t ts = refl

-- Writing a balance changes what is owed in its asset by the difference, and nothing else.
pub owed-balance :
    (a : Symbol) (owner : Address) (s : Symbol) (v : ℤ) (balances : Dict (Address × Symbol) ℤ)
    (escrows : Dict ℕ EscrowRecord)
    → owed a (insert (owner, s) v balances) escrows
        +ℤ (if s == a then unwrap_or (lookup (owner, s) balances) (pos 0) else pos 0)
      ≡ owed a balances escrows +ℤ (if s == a then v else pos 0)
unfolding owed
owed-balance a owner s v balances escrows =
    grind (int_laws, total-insert (balance_weight a) (owner, s) v balances)

add_left_exchange : (b x x' o n : ℤ) → x' +ℤ o ≡ x +ℤ n → b +ℤ x' +ℤ o ≡ b +ℤ x +ℤ n
add_left_exchange b x x' o n h = grind (int_laws)

-- Writing an escrow changes what is owed by what the old and the new record count for.
pub owed-escrow :
    (a : Symbol) (id : ℕ) (r : EscrowRecord) (balances : Dict (Address × Symbol) ℤ)
    (escrows : Dict ℕ EscrowRecord)
    → owed a balances (insert id r escrows) +ℤ weight (escrow_weight a) id (lookup id escrows)
      ≡ owed a balances escrows +ℤ escrow_weight a id r
unfolding owed
owed-escrow a id r balances escrows =
    add_left_exchange _ _ _ _ _ (total-insert (escrow_weight a) id r escrows)
