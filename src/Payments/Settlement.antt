-- ===== src/Payments/Settlement.antt =====
-- contracts/payments/src/lib.rs: how settling an escrow ends, and that it is settled once.
use astraport_contracts.Base.{
  ℕ, ◌≡◌, ◌≢◌, ◌⊎◌, inl, inr, refl, Bool, true, false, some, ◌∷◌, arith, ◌==◌, Bool-cases,
  Option-cases,
}
use astraport_contracts.Base.Dict.{
  lookup, insert, lookup-insert_self, lookup-insert_other, number_key,
}
use astraport_contracts.Host.{Outcome, ok, err, trap, require, ◌>>◌}
use astraport_contracts.Payments.State.{
  Address, EscrowRecord, EscrowStatus, active, released, refunded, Settlement, release, refund,
  TokenTransfer, Ledger, Env, Error, escrow_not_found, escrow_not_active, not_escrow_party,
  token_not_registered, escrow_settled_event,
}
use astraport_contracts.Payments.Helpers.{publish}
use astraport_contracts.Payments.Escrow.{
  settle_escrow, release_escrow, refund_escrow, is_active, payee, settlement, settled_status,
}
use astraport_contracts.Payments.EscrowOutcomes.{
  settled, settle_escrow-ok, settled_not_active, Settled,
}
use astraport_contracts.Payments.Trace.{Invocation, Reach, Later, now, then_invoked, step}
use astraport_contracts.Payments.Numbering.{
  IsNumbered, Reach-IsNumbered, step-IsNumbered, Settled-IsNumbered,
}
use astraport_contracts.Payments.Lifecycle.{escrow_lifecycle}
use astraport_contracts.Payments.Promise.{IsParty, Settles, SettlesTo}

-- The state that a settlement leaves.
abbrev written :
    Env → ℕ → EscrowRecord → Address → EscrowStatus → Address → Settlement → Ledger → Ledger
written env id r token status recipient way w = record w {
  escrows = insert id (record r { status = status; settled_at = env.timestamp }) w.escrows;
  transfers =
      record { token = token; sender = env.self; recipient = recipient; amount = r.amount }
      ∷ w.transfers;
  events = escrow_settled_event id way recipient r.amount ∷ w.events;
}

written-Settles :
    (env : Env) (id : ℕ) (r : EscrowRecord) (token : Address) (status : EscrowStatus)
    (recipient : Address) (way : Settlement) (w : Ledger)
    → Settles env id r token status recipient way w (written env id r token status recipient way w)
written-Settles env id r token status recipient way w = record {
  stored =
      lookup-insert_self id (record r { status = status; settled_at = env.timestamp }) w.escrows;
  others = λ j other.
      lookup-insert_other id j (record r { status = status; settled_at = env.timestamp }) w.escrows
        other;
  paid = refl;
  told = refl;
  rest = refl;
}

IsParty-cases : (caller : Address) (r : EscrowRecord) → IsParty caller r ⊎ (¬ (IsParty caller r))
IsParty-cases caller r = elim (Bool-cases (caller == r.depositor)) [
  | inl same ↦ inl (inl (ground arith))
  | inr other ↦ elim (Bool-cases (caller == r.receiver)) [
    | inl same ↦ inl (inr (ground arith))
    | inr neither ↦ inr (ground arith)
  ]
]

active-cases : (s : EscrowStatus) → (s ≡ active) ⊎ (s ≢ active)
active-cases active = inl refl
active-cases released = inr (λ h. cc)
active-cases refunded = inr (λ h. cc)

module _ (env : Env) (id : ℕ) (caller : Address) (is_release : Bool) (w : Ledger) where
  -- A settlement with the authorisation that both entry points ask for.
  abbrev signed : Outcome Ledger Error (Unit {0})
  signed = (require (env.authorized caller) >> settle_escrow env id caller is_release) w

  abbrev Promised : Outcome Ledger Error (Unit {0}) → Type 0
  Promised =
      SettlesTo env id caller w (settled_status is_release) (payee is_release)
        (settlement is_release)

  module _ (r : EscrowRecord) (good : env.authorized caller ≡ true)
      (found : lookup id w.escrows ≡ some r) (is_open : r.status ≡ active)
      (party : IsParty caller r) where
    paid-Promised : (token : Address) → lookup r.asset w.tokens ≡ some token → Promised signed
    unfolding settle_escrow
    paid-Promised token registered =
        let payment : TokenTransfer = record {
          token = token;
          sender = env.self;
          recipient = payee is_release r;
          amount = r.amount;
        } in
        elim (Bool-cases (env.accepts w.transfers payment)) [
          | inl accepted ↦
              let e : signed
                  ≡ ok tt (
                      written env id r token (settled_status is_release) (payee is_release r)
                        (settlement is_release) w) =
                ground arith in
              rw e (
                SettlesTo.done r token _ good found is_open party registered accepted (
                  written-Settles env id r token (settled_status is_release) (payee is_release r)
                    (settlement is_release) w))
          | inr declined ↦
              let e : signed ≡ trap = ground arith in
              rw e (SettlesTo.refused r token good found is_open party registered declined)
        ]

    party-Promised : Promised signed
    unfolding settle_escrow
    party-Promised = elim (Option-cases (lookup r.asset w.tokens)) [
      | inl missing ↦
          let e : signed ≡ err token_not_registered = ground arith in
          rw e (SettlesTo.unregistered r good found is_open party missing)
      | inr (token, registered) ↦ paid-Promised token registered
    ]

  found-Promised :
      (r : EscrowRecord)
      → env.authorized caller ≡ true
      → lookup id w.escrows ≡ some r
      → Promised signed
  unfolding settle_escrow
  found-Promised r good found = elim (active-cases r.status) [
    | inr over ↦
        let e : signed ≡ err escrow_not_active = ground arith in
        rw e (SettlesTo.closed r good found over)
    | inl is_open ↦ elim (IsParty-cases caller r) [
      | inl party ↦ party-Promised r good found is_open party
      | inr other ↦
          let e : signed ≡ err not_escrow_party = ground arith in
          rw e (SettlesTo.stranger r good found is_open other)
    ]
  ]

  signed-Promised : Promised signed
  unfolding settle_escrow
  signed-Promised = elim (Bool-cases (env.authorized caller)) [
    | inr unsigned ↦ let e : signed ≡ trap = ground arith in rw e (SettlesTo.unsigned unsigned)
    | inl good ↦ elim (Option-cases (lookup id w.escrows)) [
      | inl missing ↦
          let e : signed ≡ err escrow_not_found = ground arith in
          rw e (SettlesTo.missing good missing)
      | inr (r, found) ↦ found-Promised r good found
    ]
  ]

-- A release pays the escrow's amount to the receiver and leaves the escrow Released, a refund pays it to
-- the depositor and leaves the escrow Refunded. Either succeeds exactly when the caller has authorised
-- the call and is a party of an active escrow whose token is registered and accepts the payment, changes
-- no other escrow, and ends otherwise in the trap or the error of the first condition that fails.
pub settle_outcome :
    (env : Env) (id : ℕ) (caller : Address) (w : Ledger)
    → SettlesTo env id caller w released (λ r. r.receiver) release (release_escrow env id caller w)
      × SettlesTo env id caller w refunded (λ r. r.depositor) refund (refund_escrow env id caller w)
unfolding release_escrow refund_escrow
settle_outcome env id caller w =
    (signed-Promised env id caller true w, signed-Promised env id caller false w)

-- The escrow is stored and over.
abbrev Over : ℕ → Ledger → Type 0
Over id w = (r : EscrowRecord) × (lookup id w.escrows ≡ some r) × (is_active r.status ≡ false)

Settled-Over :
    {env : Env} {w w' : Ledger} (id : ℕ) (caller : Address) (is_release : Bool)
    → Settled env id caller is_release w w'
    → Over id w'
unfolding publish
Settled-Over {env = env} {w = w} id caller is_release d = rw d.left (
  settled env is_release d.old,
  lookup-insert_self id (settled env is_release d.old) w.escrows,
  settled_not_active is_release,
)

step-Over :
    (env : Env) (i : Invocation) (id : ℕ) (w : Ledger)
    → IsNumbered w
    → Over id w
    → Over id (step env i w)
step-Over env i id w n (r, found, over) =
    let (r', found', continues) = escrow_lifecycle env i w id r n found in
    (
      r',
      found',
      elim continues [
        | inl same ↦ rw same over
        | inr (was_active, changed) ↦ absurd (ground (arith, over, was_active))
      ],
    )

Later-Over :
    {w x : Ledger} (id : ℕ) → IsNumbered w → Over id w → Later w x → IsNumbered x × Over id x
Later-Over id n o now = (n, o)
Later-Over id n o (then_invoked {x = x} env i l) =
    let h = Later-Over id n o l in (step-IsNumbered env i x h.0, step-Over env i id x h.0 h.1)

Over-refuses :
    (env : Env) (id : ℕ) (caller : Address) (is_release : Bool) (w : Ledger)
    → Over id w
    → settle_escrow env id caller is_release w ≡ err escrow_not_active
unfolding settle_escrow
Over-refuses env id caller is_release w (r, found, over) = ground arith

-- An escrow is settled once: after a settlement of it (of either kind) in a state that the contract can
-- reach, and whatever is invoked from then on, by whom and in what order, every release and every refund
-- of it that its caller has authorised fails with EscrowNotActive.
pub settled_once :
    {self : Address} {Allowed : Env → Invocation → Ledger → Type 0} (env env' : Env) (id : ℕ)
    (caller other : Address) (is_release : Bool) (w w' x : Ledger)
    → Reach self Allowed w
    → settle_escrow env id caller is_release w ≡ ok tt w'
    → Later w' x
    → env'.authorized other ≡ true
    → (release_escrow env' id other x ≡ err escrow_not_active)
      × (refund_escrow env' id other x ≡ err escrow_not_active)
unfolding release_escrow refund_escrow
settled_once env env' id caller other is_release w w' x reached h later good =
    let d = settle_escrow-ok env id caller is_release w w' h in
    let n : IsNumbered w' = Settled-IsNumbered (Reach-IsNumbered reached) id caller is_release d in
    let over : Over id x = (Later-Over id n (Settled-Over id caller is_release d) later).1 in
    rw good (Over-refuses env' id other true x over, Over-refuses env' id other false x over)
