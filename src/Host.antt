-- ===== src/Host.antt =====
-- What a contract of this repository asks of the Soroban host: one invocation as a state monad with
-- two ways to fail. `err` is a returned `Err(..)`, `trap` a panic (a missing authorisation, a
-- refused token transfer, a value that does not decode). On either the host discards every write
-- of the invocation, so a failed outcome carries no state.
use astraport_contracts.Base.{◌≡◌, refl, ◌⊎◌, inl, inr, Bool, true, false, Option, none, some}

pub data Outcome (S E A : Type 0) : Type 0 where
  ok : A → S → Outcome S E A
  err : E → Outcome S E A
  trap : Outcome S E A

abbrev pub Action : Type 0 → Type 0 → Type 0 → Type 0
Action S E A = S → Outcome S E A

-- The state that the host keeps after the invocation.
abbrev pub committed : {S E A : Type 0} → S → Outcome S E A → S
committed s (ok _ s') = s'
committed s (err _) = s
committed s trap = s

-- A postcondition of a successful invocation.
abbrev pub Ensures : {S E A : Type 0} → (A → S → Type 0) → Outcome S E A → Type 0
Ensures P (ok a s) = P a s
Ensures P (err _) = Unit
Ensures P trap = Unit

-- The invocation returns a value, and it satisfies a postcondition.
abbrev pub Returns : {S E A : Type 0} → (A → S → Type 0) → Outcome S E A → Type 0
Returns P (ok a s) = P a s
Returns P (err _) = ⊥
Returns P trap = ⊥

pub weaken-Returns :
    {S E A : Type 0} {P Q : A → S → Type 0} (o : Outcome S E A)
    → ((a : A) (s : S) → P a s → Q a s)
    → Returns P o
    → Returns Q o
weaken-Returns (ok a s) f h = f a s h
weaken-Returns (err _) f h = elim h [ ]
weaken-Returns trap f h = elim h [ ]

-- A split on an outcome that keeps the equation.
pub Outcome-cases :
    {S E A : Type 0} (o : Outcome S E A)
    → ((a : A) × (s : S) × (o ≡ ok a s)) ⊎ (((e : E) × (o ≡ err e)) ⊎ (o ≡ trap))
Outcome-cases (ok a s) = inl (a, s, refl)
Outcome-cases (err e) = inr (inl (e, refl))
Outcome-cases trap = inr (inr refl)

module _ {S E A : Type 0} where
  abbrev pub pure : A → Action S E A
  pure a s = ok a s

  abbrev pub fail : E → Action S E A
  fail e s = err e

  abbrev pub panic : Action S E A
  panic s = trap

  abbrev pub gets : (S → A) → Action S E A
  gets f s = ok (f s) s

  -- `.ok_or(e)?`
  abbrev pub or_fail : Option A → E → Action S E A
  or_fail none e s = err e
  or_fail (some a) e s = ok a s

  -- `.unwrap()`
  abbrev pub or_panic : Option A → Action S E A
  or_panic none s = trap
  or_panic (some a) s = ok a s

module _ {S E : Type 0} where
  -- `if c { return Err(e); }`
  abbrev pub fail_if : Bool → E → Action S E (Unit {0})
  fail_if true e s = err e
  fail_if false e s = ok tt s

  -- `require_auth` and its like: trap unless the test holds
  abbrev pub require : Bool → Action S E (Unit {0})
  require true s = ok tt s
  require false s = trap

  abbrev pub modify : (S → S) → Action S E (Unit {0})
  modify f s = ok tt (f s)

infixl 5 ◌>>=◌ ◌>>◌
abbrev pub ◌>>=◌ : {S E A B : Type 0} → Action S E A → (A → Action S E B) → Action S E B
◌>>=◌ m f s = elim (m s) [ ok a s' ↦ f a s' | err e ↦ err e | trap ↦ trap ]

abbrev pub ◌>>◌ : {S E A B : Type 0} → Action S E A → Action S E B → Action S E B
m >> k = m >>= λ _. k

-- `.map_err(f)`
abbrev pub map_err : {S E F A : Type 0} → (E → F) → Action S E A → Action S F A
map_err f m s = elim (m s) [ ok a s' ↦ ok a s' | err e ↦ err (f e) | trap ↦ trap ]
