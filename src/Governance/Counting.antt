-- ===== src/Governance/Counting.antt =====
-- contracts/governance/src/lib.rs: how a write and a vote change the tallies.
use astraport_contracts.Base.{
  ℕ, ◌≡◌, refl, ap, sym, ◌∙◌, Bool, true, false, ◌&&◌, Option, none, some, arith, inl, inr,
  Bool-cases, ◌==◌, ==_iff, if◌then◌else◌,
}
use astraport_contracts.Base.Int.{ℤ, pos, ◌+ℤ◌, int_laws}
use astraport_contracts.Base.Dict.{
  Dict, lookup, insert, lookup-insert_self, lookup-insert_other, number_key, pair_key,
}
use astraport_contracts.Base.Dict.Total.{total, weight, total-insert}
use astraport_contracts.Machine.{wrap_i128, wrap_i128-+ℤ, wrapping_add}
use astraport_contracts.Governance.Types.{
  Address, Proposal, VoteDirection, in_favour, against, abstain, VoteRecord,
}
use astraport_contracts.Governance.Proposals.{add_votes}

abbrev pub same_direction : VoteDirection → VoteDirection → Bool
same_direction in_favour in_favour = true
same_direction against against = true
same_direction abstain abstain = true
same_direction _ _ = false

-- The tally of a direction; a proposal that is not stored has none.
abbrev pub tally_of : VoteDirection → Proposal → ℤ
tally_of in_favour p = p.votes_for
tally_of against p = p.votes_against
tally_of abstain p = p.votes_abstain

abbrev pub tally : VoteDirection → Option Proposal → ℤ
tally d none = pos 0
tally d (some p) = tally_of d p

-- What a vote record adds to the tally of a direction of a proposal.
abbrev pub counted : ℕ → VoteDirection → ℕ × Address → VoteRecord → ℤ
counted id d (of, holder) ballot =
    if (of == id) && same_direction d ballot.direction then ballot.weight else pos 0

abbrev pub Tallied : Dict ℕ Proposal → Dict (ℕ × Address) VoteRecord → Type 0
Tallied ps vs =
    (id : ℕ) (d : VoteDirection) → tally d (lookup id ps) ≡ wrap_i128 (total (counted id d) vs)

add_votes-tally :
    (d e : VoteDirection) (x : ℤ) (p : Proposal)
    → tally_of d (add_votes e x p)
      ≡ (if same_direction d e then wrapping_add (tally_of d p) x else tally_of d p)
add_votes-tally in_favour in_favour x p = refl
add_votes-tally in_favour against x p = refl
add_votes-tally in_favour abstain x p = refl
add_votes-tally against in_favour x p = refl
add_votes-tally against against x p = refl
add_votes-tally against abstain x p = refl
add_votes-tally abstain in_favour x p = refl
add_votes-tally abstain against x p = refl
add_votes-tally abstain abstain x p = refl

-- A write that leaves the tallies of the proposal as they were.
pub written-Tallied :
    (ps : Dict ℕ Proposal) (vs : Dict (ℕ × Address) VoteRecord) (id : ℕ) (new : Proposal)
    → ((d : VoteDirection) → tally_of d new ≡ tally d (lookup id ps))
    → Tallied ps vs
    → Tallied (insert id new ps) vs
written-Tallied ps vs id new same c j d = elim (Bool-cases (id == j)) [
  | inl e ↦ rw (← (==_iff id j).0 e, lookup-insert_self id new ps, same d) (c id d)
  | inr e ↦ rw (lookup-insert_other id j new ps (ground (arith, e))) (c j d)
]

recorded :
    (vs : Dict (ℕ × Address) VoteRecord) (id : ℕ) (holder : Address) (ballot : VoteRecord) (j : ℕ)
    (d : VoteDirection)
    → lookup (id, holder) vs ≡ none
    → total (counted j d) (insert (id, holder) ballot vs)
      ≡ total (counted j d) vs +ℤ counted j d (id, holder) ballot
recorded vs id holder ballot j d new =
    let nothing : weight (counted j d) (id, holder) (lookup (id, holder) vs) ≡ pos 0 =
      rw new refl in
    grind (int_laws, nothing, total-insert (counted j d) (id, holder) ballot vs)

add_nothing : (t : ℤ) → t ≡ t +ℤ pos 0
add_nothing t = grind int_laws

not_counted :
    (id j : ℕ) (holder : Address) (ballot : VoteRecord) (d : VoteDirection)
    → (id == j) ≡ false
    → counted j d (id, holder) ballot ≡ pos 0
not_counted id j holder ballot d other = rw other refl

-- A vote raises the tally of its direction by its weight, as the record does.
voted_tally :
    (id : ℕ) (holder : Address) (ballot : VoteRecord) (p : Proposal) (d : VoteDirection) (t : ℤ)
    → tally_of d p ≡ wrap_i128 t
    → tally_of d (add_votes ballot.direction ballot.weight p)
      ≡ wrap_i128 (t +ℤ counted id d (id, holder) ballot)
unfolding wrapping_add
voted_tally id holder ballot p d t c = elim (Bool-cases (same_direction d ballot.direction)) [
  | inl e ↦
      rw (add_votes-tally d ballot.direction ballot.weight p, e, (==_iff id id).1 refl, c)
        (wrap_i128-+ℤ t ballot.weight)
  | inr e ↦
      rw (add_votes-tally d ballot.direction ballot.weight p, e, (==_iff id id).1 refl)
        (c ∙ ap wrap_i128 (add_nothing t))
]

pub voted-Tallied :
    (ps : Dict ℕ Proposal) (vs : Dict (ℕ × Address) VoteRecord) (id : ℕ) (holder : Address)
    (ballot : VoteRecord) (p : Proposal)
    → lookup id ps ≡ some p
    → lookup (id, holder) vs ≡ none
    → Tallied ps vs
    → Tallied
        (insert id (add_votes ballot.direction ballot.weight p) ps)
        (insert (id, holder) ballot vs)
voted-Tallied ps vs id holder ballot p found new c j d = elim (Bool-cases (id == j)) [
  | inl e ↦
      rw
        (
          ← (==_iff id j).0 e,
          lookup-insert_self id (add_votes ballot.direction ballot.weight p) ps,
          recorded vs id holder ballot id d new,
        )
        (voted_tally id holder ballot p d (total (counted id d) vs)
          (ap (tally d) (sym found) ∙ c id d))
  | inr e ↦
      rw
        (
          lookup-insert_other id j (add_votes ballot.direction ballot.weight p) ps
              (ground (arith, e)),
          recorded vs id holder ballot j d new,
          not_counted id j holder ballot d e,
          ← add_nothing (total (counted j d) vs),
        )
        (c j d)
]
