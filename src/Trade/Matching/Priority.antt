-- ===== src/Trade/Matching/Priority.antt =====
-- Price-time priority: the order of a side, how orders are inserted, and the order in which they fill.
use astraport_contracts.Base.{
  ◌≡◌, refl, ap, true, false, inl, inr, List, [], ◌∷◌, ◌++◌, arith, All, Bool-cases,
}
use astraport_contracts.Base.Int.{ℤ, pos, ◌≤ℤ◌, ◌<ℤ◌, leb_ℤ, eqb_ℤ}
use astraport_contracts.Machine.{wrapping_sub}
use astraport_contracts.Trade.Types.{Order, OrderSide, buy, sell}
use astraport_contracts.Trade.Orderbook.{goes_before, insert_sorted}
use astraport_contracts.Trade.Matching.{
  Taker, match_orders, fill_quantity, updated_order, keep_unfilled, beyond,
}

-- A price that is at least as good for the taker: a higher bid, or a lower ask.
abbrev pub NotWorse : OrderSide → ℤ → ℤ → Type 0
NotWorse buy a b = b ≤ℤ a
NotWorse sell a b = a ≤ℤ b

abbrev pub Worse : OrderSide → ℤ → ℤ → Type 0
Worse buy a b = a <ℤ b
Worse sell a b = b <ℤ a

-- Best price first.
abbrev pub IsSorted : OrderSide → List Order → Type 0
IsSorted side [] = Unit
IsSorted side (o ∷ os) = All (λ x. NotWorse side o.price x.price) os × IsSorted side os

NotWorse-trans :
    (side : OrderSide) (a b c : ℤ) → NotWorse side a b → NotWorse side b c → NotWorse side a c
NotWorse-trans buy a b c p q = omega arith
NotWorse-trans sell a b c p q = omega arith

pub All-imp {ℓ κ} :
    {P : Order → Type ℓ} {Q : Order → Type κ} (os : List Order)
    → ((o : Order) → P o → Q o)
    → All P os
    → All Q os
All-imp [] f h = tt
All-imp (o ∷ os) f h = (f o h.0, All-imp os f h.1)

-- Where an order is inserted: behind all that are not worse, so behind its equals, and before all that
-- are worse.
pub record Placed (side : OrderSide) (order : Order) (xs ys : List Order) : Type 0 where
  pub before : List Order
  pub after : List Order
  pub whole : xs ≡ before ++ after
  pub inserted : ys ≡ before ++ order ∷ after
  pub ahead : All (λ x. NotWorse side x.price order.price) before
  pub behind : All (λ x. Worse side x.price order.price) after

pub goes_before-Worse : (side : OrderSide) (a b : ℤ) → goes_before side a b ≡ true → Worse side b a
goes_before-Worse buy a b h = ground arith
goes_before-Worse sell a b h = ground arith

pub not_before-NotWorse :
    (side : OrderSide) (a b : ℤ) → goes_before side a b ≡ false → NotWorse side b a
not_before-NotWorse buy a b h = ground arith
not_before-NotWorse sell a b h = ground arith

Worse-NotWorse :
    (side : OrderSide) (a b c : ℤ) → Worse side b a → NotWorse side b c → Worse side c a
Worse-NotWorse buy a b c p q = omega arith
Worse-NotWorse sell a b c p q = omega arith

module _ (side : OrderSide) (order : Order) where
  -- Inserting into a sorted side places the order by price, then time.
  pub insert_sorted-Placed :
      (xs : List Order) → IsSorted side xs → Placed side order xs (insert_sorted side order xs)
  unfolding insert_sorted
  insert_sorted-Placed [] s = record {
    before = [];
    after = [];
    whole = refl;
    inserted = refl;
    ahead = tt;
    behind = tt;
  }
  insert_sorted-Placed (x ∷ xs) s = elim (Bool-cases (goes_before side order.price x.price)) [
    | inl first ↦
        let worse = goes_before-Worse side order.price x.price first in
        rw first (record {
          before = [];
          after = x ∷ xs;
          whole = refl;
          inserted = refl;
          ahead = tt;
          behind =
              (worse, All-imp xs (λ o. Worse-NotWorse side order.price x.price o.price worse) s.0);
        })
    | inr later ↦
        let p = insert_sorted-Placed xs s.1 in
        rw later (record {
          before = x ∷ p.before;
          after = p.after;
          whole = ap (λ l. x ∷ l) p.whole;
          inserted = ap (λ l. x ∷ l) p.inserted;
          ahead = (not_before-NotWorse side order.price x.price later, p.ahead);
          behind = p.behind;
        })
  ]

module _ (t : Taker) where
  kept-All {ℓ} :
      (P : ℤ → Type ℓ) (o : Order) (rest : List Order)
      → P o.price
      → All (λ x. P x.price) rest
      → All (λ x. P x.price) (keep_unfilled o rest)
  kept-All P o rest p h = elim (Bool-cases (eqb_ℤ o.remaining (pos 0))) [
    | inl done ↦ rw done h
    | inr more ↦ rw more (p, h)
  ]

  -- A property of prices is kept by a match.
  left-All {ℓ} :
      (P : ℤ → Type ℓ) (amount : ℤ) (makers : List Order)
      → All (λ o. P o.price) makers
      → All (λ o. P o.price) (match_orders t amount makers).left
  unfolding match_orders
  left-All P amount [] h = tt
  left-All P amount (maker ∷ makers) h = elim (Bool-cases (leb_ℤ amount (pos 0))) [
    | inl spent ↦ rw spent h
    | inr more ↦ elim (Bool-cases (beyond t.side t.limit maker.price)) [
      | inl limited ↦ rw (more, limited) h
      | inr within ↦
          rw (more, within)
            (kept-All P (updated_order (fill_quantity amount maker) maker) _ h.0
              (left-All P (wrapping_sub amount (fill_quantity amount maker)) makers h.1))
    ]
  ]

  kept-IsSorted :
      (side : OrderSide) (o : Order) (rest : List Order)
      → All (λ x. NotWorse side o.price x.price) rest
      → IsSorted side rest
      → IsSorted side (keep_unfilled o rest)
  kept-IsSorted side o rest p s = elim (Bool-cases (eqb_ℤ o.remaining (pos 0))) [
    | inl done ↦ rw done s
    | inr more ↦ rw more (p, s)
  ]

  -- A match leaves the side sorted.
  pub left-IsSorted :
      (side : OrderSide) (amount : ℤ) (makers : List Order)
      → IsSorted side makers
      → IsSorted side (match_orders t amount makers).left
  unfolding match_orders
  left-IsSorted side amount [] s = tt
  left-IsSorted side amount (maker ∷ makers) s = elim (Bool-cases (leb_ℤ amount (pos 0))) [
    | inl spent ↦ rw spent s
    | inr more ↦ elim (Bool-cases (beyond t.side t.limit maker.price)) [
      | inl limited ↦ rw (more, limited) s
      | inr within ↦
          let after = wrapping_sub amount (fill_quantity amount maker) in
          rw (more, within)
            (kept-IsSorted side (updated_order (fill_quantity amount maker) maker) _
              (left-All (NotWorse side maker.price) after makers s.0)
              (left-IsSorted side after makers s.1))
    ]
  ]
