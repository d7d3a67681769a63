-- ===== src/Balancer/Candidates.antt =====
-- What the rebalance pass returns: the swap of a busy voter for an idle node.
use dal_service.Prelude.{
  ℕ, ◌+◌, ◌≤◌, ◌≡◌, sym, true, Option, none, some, List, [], ◌∷◌, arith, ◌==◌, nat_eq, ==_eq, All,
  keep, contains, inl, inr, Bool-cases, Option-cases,
}
use mathlib.Core.Path.{subst}
use dal_service.Types.{NodeId, data_group}
use dal_service.Types.Meta.{Placement, NodeDirectoryEntry, voter_set}
use dal_service.Balancer.{
  PlanProposal, Candidate, heavier, key_less, max_by, least_loaded_non_replica, better_rebalance,
  replacement, candidate_at, keep_better, rebalance, placement_at, propose_best,
}
use dal_service.Balancer.Extremes.{max_by-contains}
use dal_service.Balancer.Replacement.{contains-keep}
use dal_service.Balancer.Proposal.{Swap, Relieves, Proposes, least_loaded_in}

-- A candidate of the rebalance pass, with its gap of loads.
abbrev pub IsCandidate : (ℕ → Placement → Type 0) → List NodeId → (NodeId → ℕ) → Candidate → Type 0
IsCandidate P eligible load c =
    (p : Placement) × P c.partition p
    × Swap eligible p c.source c.dest
    × (contains eligible c.source ≡ true)
    × (load c.dest + 2 ≤ load c.source)

module _ (P : ℕ → Placement → Type 0) (directory : List NodeDirectoryEntry) (eligible : List NodeId)
    (load : NodeId → ℕ) where
  candidate_at-Swap :
      (k : ℕ) (p : Placement) {c : Candidate}
      → P k p
      → candidate_at eligible load k p ≡ some c
      → IsCandidate P eligible load c
  unfolding candidate_at
  candidate_at-Swap k p {c} holds h =
      elim (Option-cases (max_by (heavier load) (keep (contains eligible) p.voters))) [
        | inl empty ↦ absurd (ground arith)
        | inr (source, most) ↦
            elim (Option-cases (least_loaded_non_replica eligible (voter_set p.voters) load)) [
              | inl full ↦ absurd (ground arith)
              | inr (dest, free) ↦
                  let source_in : contains (keep (contains eligible) p.voters) source ≡ true =
                    max_by-contains (heavier load) _ most in
                  let (joining, other) = least_loaded_in eligible (voter_set p.voters) load free in
                  let c_eq : c ≡ record { source = source; dest = dest; partition = k } =
                    ground arith in
                  let leaving : contains p.voters source ≡ true =
                    ground (arith, contains-keep (contains eligible) p.voters source) in
                  subst (IsCandidate P eligible load) (sym c_eq) (
                    p,
                    holds,
                    record {
                      rest = ground arith;
                      leaves = leaving;
                      joins = joining;
                      fresh = other;
                    },
                    ground (arith, contains-keep (contains eligible) p.voters source),
                    ground arith,
                  )
            ]
      ]

  abbrev pub IsBest : Option Candidate → Type 0
  IsBest none = Unit
  IsBest (some c) = IsCandidate P eligible load c

  keep_better-IsBest :
      (best found : Option Candidate)
      → IsBest best
      → IsBest found
      → IsBest (keep_better load best found)
  unfolding better_rebalance
  keep_better-IsBest best none a b = a
  keep_better-IsBest none (some c) a b = b
  keep_better-IsBest (some d) (some c) a b = elim (Bool-cases (key_less load c d)) [
    | inl wins ↦ rw (wins) b
    | inr loses ↦ rw (loses) a
  ]

  candidate_at-IsBest : (k : ℕ) (p : Placement) → P k p → IsBest (candidate_at eligible load k p)
  candidate_at-IsBest k p holds = elim (Option-cases (candidate_at eligible load k p)) [
    | inl e ↦ rw (e) tt
    | inr (c, e) ↦ rw (e) (candidate_at-Swap k p holds e)
  ]

  pub rebalance-IsBest :
      (ps : List (ℕ × Placement)) (best : Option Candidate)
      → All (λ e. P e.0 e.1) ps
      → IsBest best
      → IsBest (rebalance eligible load best ps)
  unfolding rebalance
  rebalance-IsBest [] best all b = b
  rebalance-IsBest ((k, p) ∷ ps) best all b =
      rebalance-IsBest ps (keep_better load best (candidate_at eligible load k p)) all.1
        (keep_better-IsBest best (candidate_at eligible load k p) b (candidate_at-IsBest k p all.0))

  placement_at-holds :
      (k : ℕ) (ps : List (ℕ × Placement)) {p : Placement}
      → All (λ e. P e.0 e.1) ps
      → placement_at k ps ≡ some p
      → P k p
  unfolding placement_at
  placement_at-holds k [] all h = absurd (ground arith)
  placement_at-holds k ((j, q) ∷ ps) {p} all h = elim (Bool-cases (j == k)) [
    | inl here ↦ subst (λ m. P m p) (==_eq j k here) (subst (P j) (ground arith) all.0)
    | inr away ↦ placement_at-holds k ps all.1 (ground arith)
  ]

  best-Proposes :
      (ps : List (ℕ × Placement)) (c : Candidate) (p : Placement) {q : PlanProposal}
      → ((k : ℕ) (p p' : Placement) → P k p → P k p' → p ≡ p')
      → P c.partition p
      → IsCandidate P eligible load c
      → replacement (data_group c.partition) p.voters c.source c.dest ≡ q
      → Proposes P directory eligible load (Relieves P directory eligible load) q
  best-Proposes ps c p one at (p', holds, swap, chosen, gap) made =
      let same : p' ≡ p = one c.partition p' p holds at in
      (
        c.partition,
        p,
        c.source,
        c.dest,
        at,
        subst (λ x. Swap eligible x c.source c.dest) same swap,
        (chosen, gap),
        sym made,
      )

  pub propose_best-Proposes :
      (ps : List (ℕ × Placement)) {q : PlanProposal}
      → ((k : ℕ) (p p' : Placement) → P k p → P k p' → p ≡ p')
      → All (λ e. P e.0 e.1) ps
      → propose_best ps (rebalance eligible load none ps) ≡ some q
      → Proposes P directory eligible load (Relieves P directory eligible load) q
  propose_best-Proposes ps one all h = elim (Option-cases (rebalance eligible load none ps)) [
    | inl none_better ↦ absurd (ground arith)
    | inr (c, best) ↦ elim (Option-cases (placement_at c.partition ps)) [
      | inl missing ↦ absurd (ground arith)
      | inr (p, at) ↦
          best-Proposes ps c p one (placement_at-holds c.partition ps all at)
            (subst IsBest best (rebalance-IsBest ps none all tt)) (ground arith)
    ]
  ]
