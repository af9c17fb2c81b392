-- ===== src/Governance/Holdings.antt =====
-- contracts/governance/src/lib.rs: the voting power of the holders and its total.
use astraport_contracts.Base.{
  ℕ, ◌≡◌, refl, ap, ◌∙◌, inl, inr, some, arith, Bool-cases, Option-cases, unwrap_or,
}
use astraport_contracts.Base.Int.{ℤ, pos, ◌+ℤ◌, ◌-ℤ◌, ◌≤ℤ◌, ◌<ℤ◌, eqb_ℤ, int_laws}
use astraport_contracts.Base.Dict.{Dict, lookup, insert, insert_inv, remove_inv, number_key}
use astraport_contracts.Base.Dict.Total.{total, weight, total-insert}
use astraport_contracts.Base.Dict.Unique.{IsMap, insert-IsMap, remove-IsMap, total-remove}
use astraport_contracts.Machine.{InI128, wrapping_sub_exact}
use astraport_contracts.Host.{ok}
use astraport_contracts.Governance.Types.{Address, Dao, Env, deployed}
use astraport_contracts.Governance.Helpers.{get_voting_power, get_total_voting_power}
use astraport_contracts.Governance.Setup
use astraport_contracts.Governance.Setup.{put_power}
use astraport_contracts.Governance.Trace.{Invocation, perform, step, Reach, Reach_inv}
use astraport_contracts.Governance.Power.{PowerChange, perform-PowerChange, perform-admin}

abbrev pub power_of : Address → ℤ → ℤ
power_of holder power = power

abbrev pub ArePowers : Dict Address ℤ → Type 0
ArePowers m = (h : Address) (v : ℤ) → lookup h m ≡ some v → (pos 0 <ℤ v) × InI128 v

abbrev pub held : Address → Dict Address ℤ → ℤ
held h m = unwrap_or (lookup h m) (pos 0)

held_weight : (h : Address) (m : Dict Address ℤ) → weight power_of h (lookup h m) ≡ held h m
held_weight h m = elim (Option-cases (lookup h m)) [ inl e ↦ rw e refl | inr (v, e) ↦ rw e refl ]

held_bounds :
    (h : Address) (m : Dict Address ℤ) → ArePowers m → (pos 0 ≤ℤ held h m) × InI128 (held h m)
held_bounds h m g = elim (Option-cases (lookup h m)) [
  | inl e ↦ rw e (grind arith)
  | inr (v, e) ↦ rw e (grind (arith, g h v e))
]

total-deposit :
    (h : Address) (a : ℤ) (m : Dict Address ℤ)
    → total power_of (insert h (held h m +ℤ a) m) ≡ total power_of m +ℤ a
total-deposit h a m = grind (int_laws, total-insert power_of h (held h m +ℤ a) m, held_weight h m)

total-put_power :
    (h : Address) (v : ℤ) (m : Dict Address ℤ)
    → IsMap m
    → total power_of (put_power h v m) +ℤ held h m ≡ total power_of m +ℤ v
total-put_power h v m g = elim (Bool-cases (eqb_ℤ v (pos 0))) [
  | inl e ↦ rw e (grind (int_laws, e, total-remove power_of h m g, held_weight h m))
  | inr e ↦ rw e (grind (int_laws, total-insert power_of h v m, held_weight h m))
]

put_power-IsMap : (h : Address) (v : ℤ) (m : Dict Address ℤ) → IsMap m → IsMap (put_power h v m)
put_power-IsMap h v m g = elim (Bool-cases (eqb_ℤ v (pos 0))) [
  | inl e ↦ rw e (remove-IsMap h m g)
  | inr e ↦ rw e (insert-IsMap h v m g)
]

put_power-ArePowers :
    (h : Address) (v : ℤ) (m : Dict Address ℤ)
    → pos 0 ≤ℤ v
    → InI128 v
    → ArePowers m
    → ArePowers (put_power h v m)
put_power-ArePowers h v m low fits g = elim (Bool-cases (eqb_ℤ v (pos 0))) [
  | inl e ↦ rw e (remove_inv (λ k x. (pos 0 <ℤ x) × InI128 x) h m g)
  | inr e ↦
      rw e
        (insert_inv (λ k x. (pos 0 <ℤ x) × InI128 x) h v m (grind (int_laws, e, low, fits), fits) g)
]

record Consistent (w : Dao) : Type 0 where
  started : (a : Address) × (w.admin ≡ some a)
  bound_once : IsMap w.voting_power
  powers : ArePowers w.voting_power
  sum : get_total_voting_power w ≡ total power_of w.voting_power

kept-Consistent :
    {w w' : Dao}
    → (a : Address) × (w'.admin ≡ some a)
    → w'.voting_power ≡ w.voting_power
    → get_total_voting_power w' ≡ get_total_voting_power w
    → Consistent w
    → Consistent w'
kept-Consistent started same total_same c = record {
  started = started;
  bound_once = rw same c.bound_once;
  powers = rw same c.powers;
  sum = rw (total_same, same) c.sum;
}

deposited-Consistent :
    {w w' : Dao} (h : Address) (a : ℤ)
    → (admin : Address) × (w'.admin ≡ some admin)
    → pos 0 <ℤ a
    → InI128 (held h w.voting_power +ℤ a)
    → w'.voting_power ≡ insert h (held h w.voting_power +ℤ a) w.voting_power
    → get_total_voting_power w' ≡ get_total_voting_power w +ℤ a
    → Consistent w
    → Consistent w'
deposited-Consistent {w = w} h a started more fits same total_same c = record {
  started = started;
  bound_once = rw same (insert-IsMap h (held h w.voting_power +ℤ a) w.voting_power c.bound_once);
  powers = rw same (
      insert_inv (λ k x. (pos 0 <ℤ x) × InI128 x) h (held h w.voting_power +ℤ a) w.voting_power
        (grind (int_laws, held_bounds h w.voting_power c.powers), fits) c.powers);
  sum = rw (total_same, same, total-deposit h a w.voting_power, c.sum) refl;
}

withdrawn-Consistent :
    {w w' : Dao} (h : Address) (a : ℤ)
    → (admin : Address) × (w'.admin ≡ some admin)
    → pos 0 <ℤ a
    → a ≤ℤ held h w.voting_power
    → w'.voting_power ≡ put_power h (held h w.voting_power -ℤ a) w.voting_power
    → get_total_voting_power w' ≡ get_total_voting_power w -ℤ a
    → Consistent w
    → Consistent w'
withdrawn-Consistent {w = w} h a started more enough same total_same c =
    let left : ℤ = held h w.voting_power -ℤ a in
    let bounds : (pos 0 ≤ℤ held h w.voting_power) × InI128 (held h w.voting_power) =
      held_bounds h w.voting_power c.powers in
    record {
      started = started;
      bound_once = rw same (put_power-IsMap h left w.voting_power c.bound_once);
      powers = rw same (
          put_power-ArePowers h left w.voting_power (grind (int_laws, enough))
            (grind (int_laws, bounds, more, enough)) c.powers);
      sum =
          rw (total_same, same)
            (grind (int_laws, c.sum, total-put_power h left w.voting_power c.bound_once));
    }

perform-Consistent :
    (env : Env) (i : Invocation) (w w' : Dao)
    → Consistent w
    → perform env i w ≡ ok tt w'
    → Consistent w'
unfolding get_voting_power
perform-Consistent env i w w' c h =
    let started : (a : Address) × (w'.admin ≡ some a) =
      (c.started.0, perform-admin env i w w' c.started.0 c.started.1 h) in
    elim (perform-PowerChange env i w w' h) [
      | PowerChange.reset fresh same none_left ↦ ground (arith, fresh, c.started.1)
      | PowerChange.kept same total_same ↦ kept-Consistent started same total_same c
      | PowerChange.deposited holder amount more fits same total_same ↦
          deposited-Consistent holder amount started more fits same total_same c
      | PowerChange.withdrawn holder amount more enough same total_same ↦
          withdrawn-Consistent holder amount started more enough
            (same
              ∙ ap (λ v. put_power holder v w.voting_power)
                  (wrapping_sub_exact (held holder w.voting_power) amount
                    (grind (int_laws, held_bounds holder w.voting_power c.powers, more, enough))))
            total_same c
    ]

initialized-Consistent :
    (env : Env) (admin guardian : Address)
    → Consistent (step env (Invocation.initialize admin guardian) deployed)
unfolding perform Setup.initialize get_total_voting_power total lookup
initialized-Consistent env admin guardian = record {
  started = (admin, refl);
  bound_once = tt;
  powers = λ h v e. ground arith;
  sum = refl;
}

-- In every state that is reached from the initialization of a new contract, TotalVotingPower is the sum of
-- the powers of the holders.
pub total_voting_power_is_sum :
    (env : Env) (admin guardian : Address) {n : ℕ} {w : Dao}
    → Reach (step env (Invocation.initialize admin guardian) deployed) n w
    → get_total_voting_power w ≡ total power_of w.voting_power
total_voting_power_is_sum env admin guardian r =
    (Reach_inv Consistent (initialized-Consistent env admin guardian) perform-Consistent r).sum
