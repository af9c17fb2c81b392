-- ===== src/Trade/Matching/Quantities.antt =====
-- What a match does to quantities and prices.
use astraport_contracts.Base.{◌≡◌, false, inl, inr, List, [], ◌∷◌, arith, All, Bool-cases}
use astraport_contracts.Base.Int.{ℤ, pos, ◌+ℤ◌, ◌-ℤ◌, ◌≤ℤ◌, ◌<ℤ◌, leb_ℤ, eqb_ℤ, int_laws}
use astraport_contracts.Machine.{InI128, wrapping_sub, wrapping_sub_exact}
use astraport_contracts.Trade.Types.{Order, Fill}
use astraport_contracts.Trade.Matching.{
  Taker, Matched, match_orders, fill_quantity, updated_order, keep_unfilled, beyond,
}

-- An order that can stand in a book has something left.
abbrev pub IsLive : Order → Type 0
IsLive o = (pos 0 <ℤ o.remaining) × InI128 o.remaining

abbrev pub depth : List Order → ℤ
depth [] = pos 0
depth (o ∷ os) = o.remaining +ℤ depth os

abbrev pub filled_total : List Fill → ℤ
filled_total [] = pos 0
filled_total (f ∷ fs) = f.amount +ℤ filled_total fs

-- A fill moves something, at a price within the taker's limit.
abbrev pub IsFair : Taker → Fill → Type 0
IsFair t f = (pos 0 <ℤ f.amount) × (beyond t.side t.limit f.price ≡ false)

-- What holds of a match of `amount` against `makers`.
pub record Balances (t : Taker) (amount : ℤ) (makers : List Order) (m : Matched) : Type 0 where
  pub open_end : pos 0 ≤ℤ m.remaining
  pub conserved : filled_total m.fills +ℤ m.remaining ≡ amount
  pub depleted : depth m.left +ℤ filled_total m.fills ≡ depth makers
  pub live : All IsLive m.left
  pub fair : All (IsFair t) m.fills

-- One fill, with exact arithmetic.
pub record Exact (remaining : ℤ) (maker : Order) : Type 0 where
  pub positive : pos 0 <ℤ fill_quantity remaining maker
  pub taken :
      wrapping_sub remaining (fill_quantity remaining maker)
      ≡ remaining -ℤ fill_quantity remaining maker
  pub given :
      wrapping_sub maker.remaining (fill_quantity remaining maker)
      ≡ maker.remaining -ℤ fill_quantity remaining maker
  pub within_taker : fill_quantity remaining maker ≤ℤ remaining
  pub within_maker : fill_quantity remaining maker ≤ℤ maker.remaining

pub difference-InI128 : (a b : ℤ) → pos 0 <ℤ b → b ≤ℤ a → InI128 a → InI128 (a -ℤ b)
difference-InI128 a b p q r = grind int_laws

fill_quantity_bounds :
    (remaining : ℤ) (maker : Order)
    → pos 0 <ℤ remaining
    → IsLive maker
    → (pos 0 <ℤ fill_quantity remaining maker)
      × (fill_quantity remaining maker ≤ℤ remaining)
      × (fill_quantity remaining maker ≤ℤ maker.remaining)
fill_quantity_bounds remaining maker p l = ground (arith, l.0)

pub fill-Exact :
    (remaining : ℤ) (maker : Order)
    → pos 0 <ℤ remaining
    → InI128 remaining
    → IsLive maker
    → Exact remaining maker
fill-Exact remaining maker p r l =
    let q = fill_quantity remaining maker in
    let (positive, within_taker, within_maker) = fill_quantity_bounds remaining maker p l in
    record {
      positive = positive;
      taken =
          wrapping_sub_exact remaining q (difference-InI128 remaining q positive within_taker r);
      given =
          wrapping_sub_exact maker.remaining q
            (difference-InI128 maker.remaining q positive within_maker l.1);
      within_taker = within_taker;
      within_maker = within_maker;
    }

-- Keeping the maker's order unless it is filled.
kept-depth :
    (order : Order) (rest : List Order)
    → depth (keep_unfilled order rest) ≡ order.remaining +ℤ depth rest
kept-depth order rest = elim (Bool-cases (eqb_ℤ order.remaining (pos 0))) [
  | inl done ↦ rw done (grind int_laws)
  | inr more ↦ rw more
]

kept-IsLive :
    (order : Order) (rest : List Order)
    → pos 0 ≤ℤ order.remaining
    → InI128 order.remaining
    → All IsLive rest
    → All IsLive (keep_unfilled order rest)
kept-IsLive order rest p r l = elim (Bool-cases (eqb_ℤ order.remaining (pos 0))) [
  | inl done ↦ rw done l
  | inr more ↦ rw more ((ground (arith, more), r), l)
]

regroup :
    (q fills rest remaining : ℤ) → fills +ℤ rest ≡ remaining -ℤ q → q +ℤ fills +ℤ rest ≡ remaining
regroup q fills rest remaining h = grind int_laws

deplete :
    (q maker left fills makers : ℤ)
    → left +ℤ fills ≡ makers
    → maker -ℤ q +ℤ left +ℤ (q +ℤ fills) ≡ maker +ℤ makers
deplete q maker left fills makers h = grind int_laws

pub nonneg_difference : (a b : ℤ) → b ≤ℤ a → pos 0 ≤ℤ a -ℤ b
nonneg_difference a b h = grind int_laws

stopped-Balances :
    (t : Taker) (amount : ℤ) (makers : List Order)
    → pos 0 ≤ℤ amount
    → All IsLive makers
    → Balances t amount makers
        (record { left = makers; fills = []; updated = []; remaining = amount })
stopped-Balances t amount makers p l = record {
  open_end = p;
  conserved = omega int_laws;
  depleted = omega int_laws;
  live = l;
  fair = tt;
}

-- For a taker's amount that is not negative and a side of live orders: the fills and what remains add
-- up to the amount; the side loses exactly what is filled; its orders stay live; each fill moves
-- something, at a price within the limit.
pub match_orders-Balances :
    (t : Taker) (amount : ℤ) (makers : List Order)
    → pos 0 ≤ℤ amount
    → InI128 amount
    → All IsLive makers
    → Balances t amount makers (match_orders t amount makers)
unfolding match_orders
match_orders-Balances t amount [] p r l = stopped-Balances t amount [] p l
match_orders-Balances t amount (maker ∷ makers) p r l = elim (Bool-cases (leb_ℤ amount (pos 0))) [
  | inl none_left ↦ rw none_left (stopped-Balances t amount (maker ∷ makers) p l)
  | inr some_left ↦ elim (Bool-cases (beyond t.side t.limit maker.price)) [
    | inl worse ↦ rw (some_left, worse) (stopped-Balances t amount (maker ∷ makers) p l)
    | inr within ↦
        rw (some_left, within)
          (let q = fill_quantity amount maker in
            let x = fill-Exact amount maker (ground (arith, some_left)) r l.0 in
            let b =
              match_orders-Balances t (wrapping_sub amount q) makers
                (rw x.taken (nonneg_difference amount q x.within_taker))
                (rw x.taken (difference-InI128 amount q x.positive x.within_taker r)) l.1 in
            let rest = match_orders t (wrapping_sub amount q) makers in
            let order = updated_order q maker in
            record {
              open_end = b.open_end;
              conserved =
                  regroup q (filled_total rest.fills) rest.remaining amount
                    (rw (← x.taken) b.conserved);
              depleted =
                  rw (kept-depth order rest.left, x.given)
                    (deplete q maker.remaining (depth rest.left) (filled_total rest.fills)
                      (depth makers) b.depleted);
              live =
                  kept-IsLive order rest.left
                    (rw x.given (nonneg_difference maker.remaining q x.within_maker))
                    (rw x.given
                      (difference-InI128 maker.remaining q x.positive x.within_maker l.0.1))
                    b.live;
              fair = ((x.positive, within), b.fair);
            })
  ]
]
