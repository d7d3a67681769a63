-- ===== src/Balancer/Quiet.antt =====
-- What holds of the placements when the balancer proposes nothing.
use dal_service.Prelude.{
  ℕ, ◌+◌, ◌≤◌, ◌≡◌, refl, true, false, not, Option, none, some, List, [], ◌∷◌, arith, ◌==◌, nat_eq,
  All, any, length, keep, contains, inl, inr, Bool-cases, Option-cases,
}
use mathlib.Core.Path.{subst}
use dal_service.Prelude.Sets.{contains-collect_set}
use dal_service.Types.{NodeId}
use dal_service.Types.Meta.{Placement, NodeDirectoryEntry, voter_set}
use dal_service.Meta.Placements.{no_move}
use dal_service.Balancer.{
  Candidate, eligible_nodes, evacuates, evacuating_voters, least_loaded_non_replica, drain_at,
  drain, candidate_at, keep_better, rebalance, placement_at, propose_best, propose, load_map,
  is_aborting,
}
use dal_service.Balancer.Extremes.{min_by-lighter, max_by-heavier, first-found}
use dal_service.Balancer.Replacement.{contains-keep}
use dal_service.Balancer.Candidates.{IsBest, rebalance-IsBest, IsCandidate}

module _ (directory : List NodeDirectoryEntry) (eligible : List NodeId) (load : NodeId → ℕ) where
  destination :
      (p : Placement) (n : NodeId)
      → contains eligible n ≡ true
      → contains p.voters n ≡ false
      → (d : NodeId) × (least_loaded_non_replica eligible (voter_set p.voters) load ≡ some d)
        × (load d ≤ load n)
  unfolding least_loaded_non_replica
  destination p n free other =
      min_by-lighter load (keep (λ m. not (contains (voter_set p.voters) m)) eligible) n (
        ground (
          arith,
          contains-keep (λ m. not (contains (voter_set p.voters) m)) eligible n,
          contains-collect_set p.voters n,
        ))

  -- A group has nothing to move: where an eligible node is not one of its voters, no voter is to
  -- be evacuated, and no eligible voter carries two replicas more than the node.
  abbrev pub Settled : Placement → Type 0
  Settled p =
      (n : NodeId)
      → contains eligible n ≡ true
      → contains p.voters n ≡ false
      → (v : NodeId) → contains p.voters v ≡ true
      → (evacuates directory v ≡ false) × (contains eligible v ≡ true → load v ≤ load n + 1)

  drains :
      (k : ℕ) (p : Placement) (n v : NodeId)
      → contains eligible n ≡ true
      → contains p.voters n ≡ false
      → contains p.voters v ≡ true
      → drain_at directory eligible load k p ≡ none
      → evacuates directory v ≡ false
  unfolding drain_at evacuating_voters
  drains k p n v free other voter h = elim (Bool-cases (evacuates directory v)) [
    | inr stays ↦ stays
    | inl leaves ↦
        let (drop, found) = first-found (evacuating_voters directory p.voters) v (
          ground (
            arith,
            contains-collect_set (keep (evacuates directory) p.voters) v,
            contains-keep (evacuates directory) p.voters v,
          )) in
        let (dest, made, _) = destination p n free other in absurd (ground arith)
  ]

  relieves :
      (k : ℕ) (p : Placement) (n v : NodeId)
      → no_move p ≡ true
      → contains eligible n ≡ true
      → contains p.voters n ≡ false
      → contains p.voters v ≡ true
      → contains eligible v ≡ true
      → candidate_at eligible load k p ≡ none
      → load v ≤ load n + 1
  unfolding candidate_at
  relieves k p n v still free other voter live h =
      let (source, most, high) =
        max_by-heavier load (keep (contains eligible) p.voters) v
          (ground (arith, contains-keep (contains eligible) p.voters v)) in
      let (dest, made, low) = destination p n free other in ground arith

  drain-none :
      (ps : List (ℕ × Placement))
      → drain directory eligible load ps ≡ none
      → All (λ e. no_move e.1 ≡ true → drain_at directory eligible load e.0 e.1 ≡ none) ps
  unfolding drain
  drain-none [] h = tt
  drain-none ((k, p) ∷ ps) h = elim (Bool-cases (no_move p)) [
    | inr moving ↦ ((λ still. absurd (ground arith)), drain-none ps (ground arith))
    | inl still ↦ elim (Option-cases (drain_at directory eligible load k p)) [
      | inl nothing ↦ ((λ _. nothing), drain-none ps (ground arith))
      | inr (q, found) ↦ absurd (ground arith)
    ]
  ]

  rebalance-none :
      (ps : List (ℕ × Placement)) (best : Option Candidate)
      → rebalance eligible load best ps ≡ none
      → (best ≡ none) × All (λ e. candidate_at eligible load e.0 e.1 ≡ none) ps
  unfolding rebalance
  rebalance-none [] best h = (h, tt)
  rebalance-none ((k, p) ∷ ps) best h =
      let (both, later) =
        rebalance-none ps (keep_better load best (candidate_at eligible load k p)) h in
      let (fresh, here) = neither best (candidate_at eligible load k p) both in
      (fresh, (here, later))
    where
      neither : (a b : Option Candidate) → keep_better load a b ≡ none → (a ≡ none) × (b ≡ none)
      neither none none e = (refl, refl)
      neither (some a) none e = absurd (ground arith)
      neither none (some b) e = absurd (ground arith)
      neither (some a) (some b) e = absurd (ground arith)

  abbrev IsKey : List (ℕ × Placement) → ℕ → Type 0
  IsKey qs k = (q : Placement) × (placement_at k qs ≡ some q)

  keys :
      (qs ps : List (ℕ × Placement))
      → ((k : ℕ) → IsKey ps k → IsKey qs k)
      → All (λ e. IsKey qs e.0) ps
  unfolding placement_at
  keys qs [] sub = tt
  keys qs ((k, p) ∷ ps) sub = (
    sub k (p, ground arith),
    keys qs ps (λ j (q, at). elim (Bool-cases (k == j)) [
      | inl here ↦ sub j (p, ground arith)
      | inr away ↦ sub j (q, ground arith)
    ]),
  )

  -- A candidate is for a partition of the map.
  best-none :
      (ps : List (ℕ × Placement))
      → propose_best ps (rebalance eligible load none ps) ≡ none
      → rebalance eligible load none ps ≡ none
  best-none ps h = elim (Option-cases (rebalance eligible load none ps)) [
    | inl nothing ↦ nothing
    | inr (c, best) ↦
        let (p, (q, at), _, _, _) : IsCandidate (λ k p. IsKey ps k) eligible load c =
          subst (IsBest (λ k p. IsKey ps k) directory eligible load) best (
            rebalance-IsBest (λ k p. IsKey ps k) directory eligible load ps none
              (keys ps ps (λ k at. at)) tt) in
        absurd (ground arith)
  ]

  Settled-each :
      (k : ℕ) (p : Placement)
      → (no_move p ≡ true → drain_at directory eligible load k p ≡ none)
      → candidate_at eligible load k p ≡ none
      → no_move p ≡ true
      → Settled p
  Settled-each k p still found rest n free other v voter = (
    drains k p n v free other voter (still rest),
    λ live. relieves k p n v rest free other voter live found,
  )

  settled :
      (ps : List (ℕ × Placement))
      → All (λ e. no_move e.1 ≡ true → drain_at directory eligible load e.0 e.1 ≡ none) ps
      → All (λ e. candidate_at eligible load e.0 e.1 ≡ none) ps
      → All (λ e. no_move e.1 ≡ true → Settled e.1) ps
  settled [] a b = tt
  settled ((k, p) ∷ ps) a b = ((λ rest. Settled-each k p a.0 b.0 rest), settled ps a.1 b.1)

-- Where as many nodes are eligible as a group has voters and no move is being aborted, and the
-- balancer proposes nothing: for every group without a move and every eligible node that is not
-- one of its voters, no voter of the group is to be evacuated, and no eligible voter of it carries
-- two replicas more than the node.
pub propose-none :
    (directory : List NodeDirectoryEntry) (ps : List (ℕ × Placement)) (r : ℕ)
    → r ≤ length (eligible_nodes directory)
    → any (λ e. is_aborting e.1.move) ps ≡ false
    → propose directory ps r ≡ none
    → All
        (λ e. no_move e.1 ≡ true → Settled directory (eligible_nodes directory) (load_map ps) e.1)
        ps
unfolding propose
propose-none directory ps r enough calm h =
    let eligible : List NodeId = eligible_nodes directory in
    let load : NodeId → ℕ = load_map ps in
    elim (Option-cases (drain directory eligible load ps)) [
      | inr (q, drained) ↦ absurd (ground arith)
      | inl still ↦
          let best = best-none directory eligible load ps (ground arith) in
          settled directory eligible load ps (drain-none directory eligible load ps still)
            (rebalance-none directory eligible load ps none best).1
    ]
