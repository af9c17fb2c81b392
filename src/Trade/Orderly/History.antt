-- ===== src/Trade/Orderly/History.antt =====
-- The order books of every store that is reached.
use astraport_contracts.Base.{◌≡◌, refl, inl, inr, List, [], ◌∷◌, arith}
use astraport_contracts.Base.Int.{ℤ}
use astraport_contracts.Base.Dict.{lookup, number_key}
use astraport_contracts.Machine.{InI128}
use astraport_contracts.Host.{ok, Outcome-cases}
use astraport_contracts.Trade.Types.{Address, Symbol, Store, Env, TradeLeg, deployed}
use astraport_contracts.Trade.Orderbook
use astraport_contracts.Trade.Orderbook.{load_book}
use astraport_contracts.Trade.Engine.{execute_legs, execute_atomic_batch}
use astraport_contracts.Trade.Contract
use astraport_contracts.Trade.Slippage.{set_slippage_config}
use astraport_contracts.Trade.Trace.{Invocation, perform, IsTyped, Reach, start, after}
use astraport_contracts.Trade.Orderly.{IsBook, IsOrderly, load_book-IsBook}
use astraport_contracts.Trade.Orderly.Calls.{
  IsOrderly-books, place_order-IsOrderly, cancel_order-IsOrderly, execute_legs-IsOrderly,
}

place-IsOrderly :
    (env : Env) (owner : Address) (pair : Symbol) (side : _) (price amount : ℤ) (w w' : Store)
    → InI128 amount
    → IsOrderly w
    → perform env (Invocation.place_order owner pair side price amount) w ≡ ok tt w'
    → IsOrderly w'
unfolding perform Contract.place_order Contract.log_audit
place-IsOrderly env owner pair side price amount w w' r o h =
    elim (Outcome-cases (Orderbook.place_order env pair owner side price amount w)) [
      | inr failed ↦ ground arith
      | inl (id, w₁, e) ↦
          IsOrderly-books w₁ w' (ground arith)
            (place_order-IsOrderly env pair owner side price amount w id w₁ r o e)
    ]

cancel-IsOrderly :
    (env : Env) (caller : Address) (pair : Symbol) (id : _) (w w' : Store)
    → IsOrderly w
    → perform env (Invocation.cancel_order caller pair id) w ≡ ok tt w'
    → IsOrderly w'
unfolding perform Contract.cancel_order Contract.log_audit Contract.publish
cancel-IsOrderly env caller pair id w w' o h =
    let as_admin = Contract.is_admin caller w in
    elim (Outcome-cases (Orderbook.cancel_order pair id caller as_admin w)) [
      | inr failed ↦ ground arith
      | inl (_, w₁, e) ↦
          IsOrderly-books w₁ w' (ground arith)
            (cancel_order-IsOrderly pair id caller as_admin w w₁ o e)
    ]

publish_legs-books : (rs : List _) (w : Store) → (Contract.publish_legs rs w).books ≡ w.books
unfolding Contract.publish_legs Contract.publish
publish_legs-books [] w = refl
publish_legs-books (r ∷ rs) w = publish_legs-books rs _

batch-IsOrderly :
    (env : Env) (user : Address) (legs : List TradeLeg) (w w' : Store)
    → IsTyped (Invocation.execute_batch user legs)
    → IsOrderly w
    → perform env (Invocation.execute_batch user legs) w ≡ ok tt w'
    → IsOrderly w'
unfolding perform Contract.execute_batch execute_atomic_batch Contract.log_audit Contract.publish
batch-IsOrderly env user legs w w' a o h =
    let pairs = Contract.get_all_pairs w in
    elim (Outcome-cases (execute_legs user pairs 0 legs w)) [
      | inr failed ↦ ground arith
      | inl ((rs, total), w₁, e) ↦
          IsOrderly-books w₁ w' (ground (arith, publish_legs-books rs w₁))
            (execute_legs-IsOrderly user pairs 0 legs w (rs, total) w₁ a o e)
    ]

perform-IsOrderly :
    (env : Env) (i : Invocation) (w w' : Store)
    → IsTyped i
    → IsOrderly w
    → perform env i w ≡ ok tt w'
    → IsOrderly w'
unfolding perform Contract.initialize Contract.register_pair Contract.update_pair
    Contract.set_slippage Contract.set_audit_sink Contract.assert_admin Contract.publish
    set_slippage_config
perform-IsOrderly env (Invocation.initialize admin) w w' t o h =
    IsOrderly-books w w' (ground arith) o
perform-IsOrderly env (Invocation.register_pair admin pair) w w' t o h =
    IsOrderly-books w w' (ground arith) o
perform-IsOrderly env (Invocation.update_pair admin pair) w w' t o h =
    IsOrderly-books w w' (ground arith) o
perform-IsOrderly env (Invocation.place_order owner pair side price amount) w w' t o h =
    place-IsOrderly env owner pair side price amount w w' t o h
perform-IsOrderly env (Invocation.cancel_order caller pair id) w w' t o h =
    cancel-IsOrderly env caller pair id w w' o h
perform-IsOrderly env (Invocation.set_slippage admin pair bps enabled) w w' t o h =
    IsOrderly-books w w' (ground arith) o
perform-IsOrderly env (Invocation.execute_batch user legs) w w' t o h =
    batch-IsOrderly env user legs w w' t o h
perform-IsOrderly env (Invocation.set_audit_sink admin sink) w w' t o h =
    IsOrderly-books w w' (ground arith) o

deployed-IsOrderly : IsOrderly deployed
unfolding lookup
deployed-IsOrderly = record { books = λ pair book h. cc }

Reach-IsOrderly : (w : Store) → Reach w → IsOrderly w
Reach-IsOrderly w start = deployed-IsOrderly
Reach-IsOrderly w (after env i w₁ t r) = elim (Outcome-cases (perform env i w₁)) [
  | inl (_, w₂, e) ↦ rw e (perform-IsOrderly env i w₁ w₂ t (Reach-IsOrderly w₁ r) e)
  | inr (inl (_, e)) ↦ rw e (Reach-IsOrderly w₁ r)
  | inr (inr e) ↦ rw e (Reach-IsOrderly w₁ r)
]

-- In every store that invocations lead to from the deployment, in any order, by anybody, failed ones
-- included, with amounts that are 128-bit integers: the book of every pair has its bids sorted from the
-- highest price down, its asks from the lowest up, and each order in it has something remaining.
pub books_orderly : (w : Store) (pair : Symbol) → Reach w → IsBook (load_book pair w)
books_orderly w pair r = load_book-IsBook pair w (Reach-IsOrderly w r)
