-- ===== src/Balancer/Rounds.antt =====
-- Rounds of rebalancing end.
use dal_service.Prelude.{
  ℕ, suc, ◌+◌, ◌≤◌, ◌<◌, ◌≡◌, refl, sym, ap, ◌∙◌, true, false, not, none, some, List, [], ◌∷◌,
  arith, ◌==◌, nat_eq, All, keep, contains, inl, inr, Bool-cases,
}
use mathlib.Core.Path.{subst}
use dal_service.Prelude.Sets.{IsStrict, set_insert, collect_set-IsStrict, contains-collect_set}
use dal_service.Types.{NodeId, data_group, group_eq}
use dal_service.Types.Meta.{Placement, NodeDirectoryEntry}
use dal_service.Meta.Placements.{no_move}
use dal_service.Balancer.{
  PlanProposal, eligible_nodes, load_map, replacement, drain, propose, placement_at,
}
use dal_service.Balancer.Replacement.{target_voters, set_insert-IsSwap}
use dal_service.Balancer.Proposal.{Swap, Relieves, Proposes}
use dal_service.Balancer.Candidates.{propose_best-Proposes}
use dal_service.Balancer.Spread.{
  MovesOne, load_from-replicas, count-swap, settle, replicas-settle, spread, spread-MovesOne,
}

-- The entries of a `BTreeMap`: the keys increase.
abbrev pub KeysAbove : ℕ → List (ℕ × Placement) → Type 0
KeysAbove a [] = Unit
KeysAbove a ((k, p) ∷ ps) = (a < k) × KeysAbove k ps

abbrev pub IsMap : List (ℕ × Placement) → Type 0
IsMap [] = Unit
IsMap ((k, p) ∷ ps) = KeysAbove k ps

placement_at-above :
    (a k : ℕ) (ps : List (ℕ × Placement)) → k ≤ a → KeysAbove a ps → placement_at k ps ≡ none
unfolding placement_at
placement_at-above a k [] h above = refl
placement_at-above a k ((j, p) ∷ ps) h above = ground (arith, placement_at-above j k ps)

KeysAbove-IsMap : (a : ℕ) (ps : List (ℕ × Placement)) → KeysAbove a ps → IsMap ps
KeysAbove-IsMap a [] h = tt
KeysAbove-IsMap a ((k, p) ∷ ps) h = h.1

abbrev IsEntry : List (ℕ × Placement) → ℕ → Placement → Type 0
IsEntry qs k p = (placement_at k qs ≡ some p) × IsStrict p.voters

-- Every entry of a map is what the map has at its key.
entries :
    (qs ps : List (ℕ × Placement))
    → IsMap ps
    → All (λ e. IsStrict e.1.voters) ps
    → ((k : ℕ) (p : Placement) → placement_at k ps ≡ some p → placement_at k qs ≡ some p)
    → All (λ e. IsEntry qs e.0 e.1) ps
unfolding placement_at
entries qs [] is strict sub = tt
entries qs ((k, p) ∷ ps) is strict sub = (
  (sub k p (ground arith), strict.0),
  entries qs ps (KeysAbove-IsMap k ps is) strict.1
      (λ j q at. sub j q (ground (arith, placement_at-above k j ps))),
)

KeysAbove-settle :
    (a k : ℕ) (target : List NodeId) (ps : List (ℕ × Placement))
    → KeysAbove a ps
    → KeysAbove a (settle k target ps)
unfolding settle
KeysAbove-settle a k target [] h = tt
KeysAbove-settle a k target ((j, p) ∷ ps) h = ground (arith, KeysAbove-settle j k target ps)

settle-IsMap :
    (k : ℕ) (target : List NodeId) (ps : List (ℕ × Placement))
    → IsMap ps
    → IsMap (settle k target ps)
unfolding settle
settle-IsMap k target [] h = tt
settle-IsMap k target ((j, p) ∷ ps) h = ground (arith, KeysAbove-settle j k target ps)

settle-IsStrict :
    (k : ℕ) (target : List NodeId) (ps : List (ℕ × Placement))
    → IsStrict target
    → All (λ e. IsStrict e.1.voters) ps
    → All (λ e. IsStrict e.1.voters) (settle k target ps)
unfolding settle
settle-IsStrict k target [] strict h = tt
settle-IsStrict k target ((j, p) ∷ ps) strict h = elim (Bool-cases (j == k)) [
  | inl here ↦ rw (here) (strict, h.1)
  | inr away ↦ rw (away) (h.0, settle-IsStrict k target ps strict h.1)
]

-- A swap of a placement at rest moves one replica.
settle-MovesOne :
    (ps : List (ℕ × Placement)) (k : ℕ) (p : Placement) (drop dest : NodeId)
    → IsEntry ps k p
    → no_move p ≡ true
    → contains p.voters drop ≡ true
    → contains p.voters dest ≡ false
    → MovesOne
        (load_map ps)
        (load_map (settle k (set_insert dest (keep (λ v. not (v == drop)) p.voters)) ps))
        drop
        dest
settle-MovesOne ps k p drop dest (at, strict) still leaves fresh n =
    let target : List NodeId = set_insert dest (keep (λ v. not (v == drop)) p.voters) in
    ground (
      arith,
      load_from-replicas ps (λ n. 0) n,
      load_from-replicas (settle k target ps) (λ n. 0) n,
      replicas-settle n k target ps p at,
      count-swap drop dest n p.voters strict leaves fresh,
    )

-- Some number of rounds: in each, no voter is to be evacuated, the balancer proposes a plan, and
-- its move runs to its end.
pub data Rounds (directory : List NodeDirectoryEntry) (r : ℕ)
    : ℕ → List (ℕ × Placement) → List (ℕ × Placement) → Type 0 where
  done : (ps : List (ℕ × Placement)) → Rounds directory r 0 ps ps
  round :
      (n k : ℕ) (ps ps' : List (ℕ × Placement)) (q : PlanProposal)
      → drain directory (eligible_nodes directory) (load_map ps) ps ≡ none
      → propose directory ps r ≡ some q
      → q.group ≡ data_group k
      → Rounds directory r n (settle k q.target_voters ps) ps'
      → Rounds directory r (suc n) ps ps'

-- A round, with what it swaps.
abbrev Turns : List NodeDirectoryEntry → List (ℕ × Placement) → PlanProposal → Type 0
Turns directory ps q =
    Proposes (IsEntry ps) directory (eligible_nodes directory) (load_map ps)
      (Relieves (IsEntry ps) directory (eligible_nodes directory) (load_map ps)) q

propose-Turns :
    (directory : List NodeDirectoryEntry) (r : ℕ) (ps : List (ℕ × Placement)) {q : PlanProposal}
    → IsMap ps
    → All (λ e. IsStrict e.1.voters) ps
    → drain directory (eligible_nodes directory) (load_map ps) ps ≡ none
    → propose directory ps r ≡ some q
    → Turns directory ps q
unfolding propose
propose-Turns directory r ps is strict still h =
    propose_best-Proposes (IsEntry ps) directory (eligible_nodes directory) (load_map ps) ps
      (λ k p p' a b. ground arith) (entries ps ps is strict (λ k p at. at)) (ground arith)

module _ (directory : List NodeDirectoryEntry) where
  abbrev pub measure : List (ℕ × Placement) → ℕ
  measure ps = spread (load_map ps) (eligible_nodes directory)

  settle_lowers :
      (k : ℕ) (p : Placement) (drop dest : NodeId) (ps : List (ℕ × Placement))
      → IsEntry ps k p
      → Swap (eligible_nodes directory) p drop dest
      → contains (eligible_nodes directory) drop ≡ true
      → load_map ps dest + 2 ≤ load_map ps drop
      → (measure (settle k (set_insert dest (keep (λ v. not (v == drop)) p.voters)) ps) + 1
          ≤ measure ps)
        × IsStrict (set_insert dest (keep (λ v. not (v == drop)) p.voters))
  unfolding eligible_nodes
  settle_lowers k p drop dest ps (at, strict) swap here gap =
      let target : List NodeId = set_insert dest (keep (λ v. not (v == drop)) p.voters) in
      let fresh : contains p.voters dest ≡ false =
        ground (arith, swap.fresh, contains-collect_set p.voters dest) in
      let moved = settle-MovesOne ps k p drop dest (at, strict) swap.rest swap.leaves fresh in
      let apart : (drop == dest) ≡ false = ground arith in
      let sum =
        spread-MovesOne (load_map ps) (load_map (settle k target ps)) drop dest
          (eligible_nodes directory) moved apart (collect_set-IsStrict _) in
      (
        ground (arith, swap.joins),
        (set_insert-IsSwap drop dest p.voters strict swap.leaves fresh).0,
      )

  round_lowers :
      (r k : ℕ) (ps : List (ℕ × Placement)) (q : PlanProposal)
      → IsMap ps
      → All (λ e. IsStrict e.1.voters) ps
      → drain directory (eligible_nodes directory) (load_map ps) ps ≡ none
      → propose directory ps r ≡ some q
      → q.group ≡ data_group k
      → (measure (settle k q.target_voters ps) + 1 ≤ measure ps) × IsStrict q.target_voters
  unfolding replacement
  round_lowers r k ps q is strict still h at =
      let (j, p, drop, dest, entry, swap, why, made) =
        propose-Turns directory r ps is strict still h in
      let same : j ≡ k = ground arith in
      subst (λ t. (measure (settle k t ps) + 1 ≤ measure ps) × IsStrict t)
        (sym (
            target_voters drop dest p.voters entry.1 swap.leaves
              (ground (arith, swap.fresh, contains-collect_set p.voters dest)))
          ∙ ap (λ (x : PlanProposal). x.target_voters) (sym made))
        (subst
          (λ i.
            (measure (settle i (set_insert dest (keep (λ v. not (v == drop)) p.voters)) ps) + 1
              ≤ measure ps)
            × IsStrict (set_insert dest (keep (λ v. not (v == drop)) p.voters)))
          same (settle_lowers j p drop dest ps entry swap why.0 why.1))

  -- Any number of rounds, each a plan of the rebalance pass whose move runs to its end, lowers the
  -- spread of the loads over the active nodes by at least that number: from placements with
  -- increasing partitions and voters, there are no more rounds than the spread at the start.
  pub Rounds-spread :
      (r n : ℕ) (ps ps' : List (ℕ × Placement))
      → IsMap ps
      → All (λ e. IsStrict e.1.voters) ps
      → Rounds directory r n ps ps'
      → n + measure ps' ≤ measure ps
  Rounds-spread r _ ps _ is strict (Rounds.done _) = omega arith
  Rounds-spread r _ ps ps' is strict (Rounds.round n k _ _ q still h at more) =
      let (less, target) = round_lowers r k ps q is strict still h at in
      let rest =
        Rounds-spread r n (settle k q.target_voters ps) ps' (settle-IsMap k q.target_voters ps is)
          (settle-IsStrict k q.target_voters ps target strict) more in
      omega (arith, less, rest)
