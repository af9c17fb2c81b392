-- ===== src/Trade/Matching/Fills.antt =====
-- Which orders a match fills: the best first, each wholly but for the last, until the amount is spent or
-- no order is within the limit.
use astraport_contracts.Base.{◌≡◌, refl, true, ◌⊎◌, inl, inr, List, [], ◌∷◌, arith, All, Bool-cases}
use astraport_contracts.Base.Int.{ℤ, pos, ◌-ℤ◌, ◌≤ℤ◌, ◌<ℤ◌, leb_ℤ, eqb_ℤ, -ℤ_parts, parts_disjoint}
use astraport_contracts.Machine.{InI128, wrapping_sub}
use astraport_contracts.Trade.Types.{Order, Fill, OrderSide, buy, sell}
use astraport_contracts.Trade.Matching.{
  Taker, Matched, match_orders, fill_quantity, fill_of, updated_order, keep_unfilled, beyond,
  opposite,
}
use astraport_contracts.Trade.Matching.Quantities.{
  IsLive, Exact, fill-Exact, nonneg_difference, difference-InI128,
}
use astraport_contracts.Trade.Matching.Priority.{IsSorted, NotWorse, All-imp}

-- The fills go through the side from its best order on, each taking the whole order but for the last.
abbrev pub InOrder : List Fill → List Order → Type 0
InOrder [] makers = Unit
InOrder (f ∷ fs) [] = ⊥
InOrder (f ∷ []) (o ∷ os) =
    (f.order_id ≡ o.order_id) × (f.price ≡ o.price) × (f.amount ≤ℤ o.remaining)
InOrder (f ∷ g ∷ fs) (o ∷ os) =
    (f.order_id ≡ o.order_id) × (f.price ≡ o.price) × (f.amount ≡ o.remaining) × InOrder (g ∷ fs) os

InOrder-cons :
    (f : Fill) (fs : List Fill) (o : Order) (os : List Order)
    → f.order_id ≡ o.order_id
    → f.price ≡ o.price
    → f.amount ≤ℤ o.remaining
    → (fs ≡ []) ⊎ (f.amount ≡ o.remaining)
    → InOrder fs os
    → InOrder (f ∷ fs) (o ∷ os)
InOrder-cons f [] o os p q r s h = (p, q, r)
InOrder-cons f (g ∷ fs) o os p q r (inl e) h = cc
InOrder-cons f (g ∷ fs) o os p q r (inr e) h = (p, q, e, h)

cancelled : (amount : ℤ) → leb_ℤ (amount -ℤ amount) (pos 0) ≡ true
cancelled amount = ground (arith, -ℤ_parts amount amount, parts_disjoint (amount -ℤ amount))

zero_left : (a : ℤ) → eqb_ℤ (a -ℤ a) (pos 0) ≡ true
zero_left a = ground (arith, -ℤ_parts a a, parts_disjoint (a -ℤ a))

-- What is left of the amount shows that the maker was filled wholly.
whole_or_spent :
    (amount : ℤ) (maker : Order)
    → (leb_ℤ (amount -ℤ fill_quantity amount maker) (pos 0) ≡ true)
      ⊎ (fill_quantity amount maker ≡ maker.remaining)
whole_or_spent amount maker = elim (Bool-cases (leb_ℤ amount maker.remaining)) [
  | inl least ↦ inl (rw least (cancelled amount))
  | inr more ↦ inr (rw more)
]

beyond-NotWorse :
    (side : OrderSide) (limit a b : ℤ)
    → beyond side limit a ≡ true
    → NotWorse (opposite side) a b
    → beyond side limit b ≡ true
beyond-NotWorse buy limit a b h n = ground arith
beyond-NotWorse sell limit a b h n = ground arith

module _ (t : Taker) where
  -- Nothing is filled once the amount is spent.
  spent-fills :
      (amount : ℤ) (makers : List Order)
      → leb_ℤ amount (pos 0) ≡ true
      → ((match_orders t amount makers).fills ≡ [])
        × ((match_orders t amount makers).remaining ≡ amount)
  unfolding match_orders
  spent-fills amount [] h = (refl, refl)
  spent-fills amount (maker ∷ makers) h = (rw h, rw h)

  -- For an amount in range that is not negative and live makers, the fills follow the side in its order,
  -- at the makers' prices; all but the last take the maker's order whole.
  pub match_orders-InOrder :
      (amount : ℤ) (makers : List Order)
      → pos 0 ≤ℤ amount
      → InI128 amount
      → All IsLive makers
      → InOrder (match_orders t amount makers).fills makers
  unfolding match_orders
  match_orders-InOrder amount [] p r l = tt
  match_orders-InOrder amount (maker ∷ makers) p r l = elim (Bool-cases (leb_ℤ amount (pos 0))) [
    | inl spent ↦ rw spent tt
    | inr more ↦ elim (Bool-cases (beyond t.side t.limit maker.price)) [
      | inl limited ↦ rw (more, limited) tt
      | inr within ↦
          let q = fill_quantity amount maker in
          let x = fill-Exact amount maker (ground (arith, more)) r l.0 in
          let rest = match_orders t (wrapping_sub amount q) makers in
          let ending : (rest.fills ≡ []) ⊎ (q ≡ maker.remaining) =
            elim (whole_or_spent amount maker) [
              | inl spent ↦ inl (spent-fills (wrapping_sub amount q) makers (rw x.taken spent)).0
              | inr whole ↦ inr whole
            ] in
          rw (more, within)
            (InOrder-cons (fill_of t q maker) rest.fills maker makers refl refl x.within_maker
              ending
              (match_orders-InOrder (wrapping_sub amount q) makers
                (rw x.taken (nonneg_difference amount q x.within_taker))
                (rw x.taken (difference-InI128 amount q x.positive x.within_taker r)) l.1))
    ]
  ]

  -- Every order beyond the limit, once the best is.
  All-beyond :
      (maker : Order) (makers : List Order)
      → beyond t.side t.limit maker.price ≡ true
      → IsSorted (opposite t.side) (maker ∷ makers)
      → All (λ o. beyond t.side t.limit o.price ≡ true) (maker ∷ makers)
  All-beyond maker makers h s =
      (h, All-imp makers (λ o n. beyond-NotWorse t.side t.limit maker.price o.price h n) s.0)

  kept-beyond :
      (o : Order) (rest : List Order)
      → eqb_ℤ o.remaining (pos 0) ≡ true
      → All (λ x. beyond t.side t.limit x.price ≡ true) rest
      → All (λ x. beyond t.side t.limit x.price ≡ true) (keep_unfilled o rest)
  kept-beyond o rest e h = rw e h

  filled_whole :
      (amount : ℤ) (maker : Order) (makers : List Order)
      → Exact amount maker
      → pos 0
        <ℤ (match_orders t (wrapping_sub amount (fill_quantity amount maker)) makers).remaining
      → eqb_ℤ (updated_order (fill_quantity amount maker) maker).remaining (pos 0) ≡ true
  filled_whole amount maker makers x h = elim (whole_or_spent amount maker) [
    | inl spent ↦
        let after = wrapping_sub amount (fill_quantity amount maker) in
        let none_left : leb_ℤ after (pos 0) ≡ true = rw x.taken spent in
        ground (arith, none_left, (spent-fills after makers none_left).1)
    | inr whole ↦ rw (x.given, whole) (zero_left maker.remaining)
  ]

  -- What is left is beyond the limit, if some of the amount is left.
  abbrev Exhausted : Matched → Type 0
  Exhausted m = pos 0 <ℤ m.remaining → All (λ o. beyond t.side t.limit o.price ≡ true) m.left

  exhausts :
      (amount : ℤ) (makers : List Order)
      → pos 0 ≤ℤ amount
      → InI128 amount
      → All IsLive makers
      → IsSorted (opposite t.side) makers
      → Exhausted (match_orders t amount makers)
  unfolding match_orders
  exhausts amount [] p r l s = λ h. tt
  exhausts amount (maker ∷ makers) p r l s = elim (Bool-cases (leb_ℤ amount (pos 0))) [
    | inl spent ↦ rw spent (λ h. absurd (ground (arith, spent)))
    | inr more ↦ elim (Bool-cases (beyond t.side t.limit maker.price)) [
      | inl limited ↦ rw (more, limited) (λ h. All-beyond maker makers limited s)
      | inr within ↦
          let q = fill_quantity amount maker in
          let x = fill-Exact amount maker (ground (arith, more)) r l.0 in
          rw (more, within)
            (λ h. kept-beyond (updated_order q maker) _ (filled_whole amount maker makers x h) (
              exhausts (wrapping_sub amount q) makers
                (rw x.taken (nonneg_difference amount q x.within_taker))
                (rw x.taken (difference-InI128 amount q x.positive x.within_taker r)) l.1 s.1 h))
    ]
  ]

  -- For an amount in range that is not negative and a sorted side of live makers: if some of the amount
  -- is left, no order that stays on the side is within the taker's limit.
  pub match_orders_exhausts :
      (amount : ℤ) (makers : List Order)
      → pos 0 ≤ℤ amount
      → InI128 amount
      → All IsLive makers
      → IsSorted (opposite t.side) makers
      → pos 0 <ℤ (match_orders t amount makers).remaining
      → All (λ o. beyond t.side t.limit o.price ≡ true) (match_orders t amount makers).left
  match_orders_exhausts amount makers p r l s h = exhausts amount makers p r l s h
