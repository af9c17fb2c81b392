-- ===== src/Payments/Moves.antt =====
-- What a transfer moves, and a deposit that is withdrawn again.
use astraport_contracts.Base.{◌≡◌, true, ◌&&◌, some, arith, ◌==◌, ◌∷◌, if◌then◌else◌}
use astraport_contracts.Base.Int.{ℤ, pos, ◌+ℤ◌, ◌-ℤ◌, ◌≤ℤ◌, ◌<ℤ◌, int_laws}
use astraport_contracts.Base.Dict.{lookup, insert, lookup-insert, pair_key, number_key}
use astraport_contracts.Machine.{InI128}
use astraport_contracts.Host.{ok}
use astraport_contracts.Payments.State.{Address, Symbol, Ledger, Env, withdraw_event}
use astraport_contracts.Payments.Helpers.{get_balance, put_balance, publish, check_cap}
use astraport_contracts.Payments.Calls
use astraport_contracts.Payments.Outcomes.{deposit-ok, transfer-ok, Deposited}
use astraport_contracts.Payments.Liabilities.{liabilities}
use astraport_contracts.Payments.Solvency.Calls.{transfer-Neutral}
use astraport_contracts.Payments.Balances.{
  InBalance, InBalance-InI128, IsFunded, get_balance-InBalance,
}

-- One balance after a write.
get_balance-put :
    (owner o : Address) (asset a : Symbol) (v : ℤ) (w : Ledger)
    → get_balance o a (put_balance owner asset v w)
      ≡ (if (owner == o) && (asset == a) then v else get_balance o a w)
unfolding get_balance put_balance
get_balance-put owner o asset a v w =
    ground (arith, lookup-insert (owner, asset) (o, a) v w.balances)

-- A transfer that succeeds takes the amount from the sender's balance in the asset and adds it to the
-- recipient's; every other balance and what is owed in each asset stay, and no token contract is
-- called.
pub transfer_moves :
    (env : Env) (sender recipient : Address) (asset : Symbol) (amount : ℤ) (w w' : Ledger)
    (o : Address) (a : Symbol)
    → Calls.transfer env sender recipient asset amount w ≡ ok tt w'
    → (get_balance o a w' ≡ (
        if (sender == o) && (asset == a)
        then get_balance o a w -ℤ amount
        else if (recipient == o) && (asset == a)
        then get_balance o a w +ℤ amount
        else get_balance o a w))
      × (liabilities a w' ≡ liabilities a w)
      × (w'.transfers ≡ w.transfers)
unfolding publish get_balance put_balance
transfer_moves env sender recipient asset amount w w' o a h =
    let d = transfer-ok env sender recipient asset amount w w' h in
    let n = transfer-Neutral env sender recipient asset amount w d in
    let sent : ℤ = get_balance sender asset w -ℤ amount in
    let received : ℤ = get_balance recipient asset w +ℤ amount in
    (
      rw d.left (
          ground (
            arith,
            d.distinct,
            lookup-insert (recipient, asset) (o, a) received
                (insert (sender, asset) sent w.balances),
            lookup-insert (sender, asset) (o, a) sent w.balances,
          )),
      n.same a,
      n.transfers,
    )

add_sub_cancel : (a b : ℤ) → a +ℤ b -ℤ b ≡ a
add_sub_cancel a b = omega int_laws

-- The state that a withdrawal leaves.
abbrev after_withdraw : Env → Address → Symbol → ℤ → Address → Ledger → Ledger
after_withdraw env recipient asset amount token w =
    let left : ℤ = get_balance recipient asset w -ℤ amount in
    publish (withdraw_event asset recipient amount left)
      (record (put_balance recipient asset left w) {
        transfers =
            record { token = token; sender = env.self; recipient = recipient; amount = amount }
            ∷ w.transfers;
      })

withdraw-succeeds :
    (env : Env) (recipient : Address) (asset : Symbol) (amount : ℤ) (token : Address) (w : Ledger)
    → env.authorized recipient ≡ true
    → pos 0 <ℤ amount
    → check_cap env asset amount w ≡ ok tt w
    → lookup asset w.tokens ≡ some token
    → InI128 (get_balance recipient asset w -ℤ amount)
    → pos 0 ≤ℤ get_balance recipient asset w -ℤ amount
    → env.accepts w.transfers
        (record { token = token; sender = env.self; recipient = recipient; amount = amount })
      ≡ true
    → Calls.withdraw env recipient asset amount w
      ≡ ok tt (after_withdraw env recipient asset amount token w)
unfolding Calls.withdraw
withdraw-succeeds env recipient asset amount token w auth positive within found fits covered
      accepted =
    ground arith

deposit_balance :
    (env : Env) (owner : Address) (asset : Symbol) (amount : ℤ) (w w₁ : Ledger) (o : Address)
    (a : Symbol)
    → Deposited env owner asset amount w w₁
    → get_balance o a w₁ ≡ (
        if (owner == o) && (asset == a)
        then get_balance owner asset w +ℤ amount
        else get_balance o a w)
unfolding get_balance put_balance publish
deposit_balance env owner asset amount w w₁ o a d = rw d.left (
    ground
      (arith, lookup-insert (owner, asset) (o, a) (get_balance owner asset w +ℤ amount) w.balances))

withdraw_balance :
    (env : Env) (owner : Address) (asset : Symbol) (amount : ℤ) (token : Address) (w : Ledger)
    (o : Address) (a : Symbol)
    → get_balance o a (after_withdraw env owner asset amount token w) ≡ (
        if (owner == o) && (asset == a)
        then get_balance owner asset w -ℤ amount
        else get_balance o a w)
unfolding get_balance put_balance publish
withdraw_balance env owner asset amount token w o a =
    ground
      (arith, lookup-insert (owner, asset) (o, a) (get_balance owner asset w -ℤ amount) w.balances)

-- What has been deposited can be withdrawn: from a state whose balances are from 0 to i128::MAX and in
-- which the asset has a token, after a deposit, a withdrawal of the same amount that is authorised,
-- within the cap and accepted by the token succeeds, and leaves every balance as it was before the
-- deposit.
pub withdraw-deposit :
    (env env' : Env) (owner : Address) (asset : Symbol) (amount : ℤ) (token : Address)
    (w w₁ : Ledger) (o : Address) (a : Symbol)
    → IsFunded w
    → lookup asset w.tokens ≡ some token
    → Calls.deposit env owner asset amount w ≡ ok tt w₁
    → env'.authorized owner ≡ true
    → check_cap env' asset amount w₁ ≡ ok tt w₁
    → env'.accepts w₁.transfers
        (record { token = token; sender = env'.self; recipient = owner; amount = amount })
      ≡ true
    → (w₂ : Ledger) × (Calls.withdraw env' owner asset amount w₁ ≡ ok tt w₂)
      × (get_balance o a w₂ ≡ get_balance o a w)
unfolding publish put_balance
withdraw-deposit env env' owner asset amount token w w₁ o a f reg h auth within accepted =
    let d = deposit-ok env owner asset amount w w₁ h in
    let old : ℤ = get_balance owner asset w in
    let credited : get_balance owner asset w₁ ≡ old +ℤ amount =
      ground (arith, deposit_balance env owner asset amount w w₁ owner asset d) in
    let back : get_balance owner asset w₁ -ℤ amount ≡ old =
      rw credited (add_sub_cancel old amount) in
    let range : InBalance old = get_balance-InBalance owner asset w f in
    (
      after_withdraw env' owner asset amount token w₁,
      withdraw-succeeds env' owner asset amount token w₁ auth d.positive within (rw d.left reg)
          (rw back (InBalance-InI128 old range)) (rw back range.0) accepted,
      ground (
        arith,
        back,
        withdraw_balance env' owner asset amount token w₁ o a,
        deposit_balance env owner asset amount w w₁ o a d,
      ),
    )
