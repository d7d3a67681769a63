-- ===== src/Balancer/Proposal.antt =====
-- What the passes of `propose` return: one voter of a group at rest, and an eligible node that is
-- none of its voters.
use dal_service.Prelude.{
  ℕ, ◌+◌, ◌≤◌, ◌≡◌, true, false, not, some, List, [], ◌∷◌, arith, nat_eq, All, keep, contains, inl,
  inr, Bool-cases, Option-cases,
}
use dal_service.Prelude.Sets.{collect_set, contains-collect_set}
use dal_service.Types.{NodeId, data_group}
use dal_service.Types.Meta.{Placement, NodeDirectoryEntry, voter_set}
use dal_service.Meta.Placements.{no_move}
use dal_service.Balancer.{
  PlanProposal, evacuates, evacuating_voters, lighter, least_loaded_non_replica, replacement, first,
  drain_at, drain,
}
use dal_service.Balancer.Extremes.{min_by-contains, first-contains}
use dal_service.Balancer.Replacement.{contains-keep}

pub least_loaded_in :
    (eligible voters : List NodeId) (load : NodeId → ℕ) {n : NodeId}
    → least_loaded_non_replica eligible voters load ≡ some n
    → (contains eligible n ≡ true) × (contains voters n ≡ false)
unfolding least_loaded_non_replica
least_loaded_in eligible voters load {n} h =
    let at : contains (keep (λ m. not (contains voters m)) eligible) n ≡ true =
      min_by-contains (lighter load) _ h in
    ground (arith, contains-keep (λ m. not (contains voters m)) eligible n)

pub evacuating_in :
    (directory : List NodeDirectoryEntry) (voters : List NodeId) {n : NodeId}
    → first (evacuating_voters directory voters) ≡ some n
    → (contains voters n ≡ true) × (evacuates directory n ≡ true)
unfolding evacuating_voters
evacuating_in directory voters {n} h =
    let at : contains (collect_set (keep (evacuates directory) voters)) n ≡ true =
      first-contains _ h in
    ground (
      arith,
      contains-collect_set (keep (evacuates directory) voters) n,
      contains-keep (evacuates directory) voters n,
    )

-- A replacement at a group: the voter that leaves and the node that joins.
pub record Swap (eligible : List NodeId) (p : Placement) (drop dest : NodeId) : Type 0 where
  pub rest : no_move p ≡ true
  pub leaves : contains p.voters drop ≡ true
  pub joins : contains eligible dest ≡ true
  pub fresh : contains (voter_set p.voters) dest ≡ false

module _ (P : ℕ → Placement → Type 0) (directory : List NodeDirectoryEntry) (eligible : List NodeId)
    (load : NodeId → ℕ) where
  -- An eligible node that carries at least two replicas more.
  abbrev pub Relieves : NodeId → NodeId → Type 0
  Relieves drop dest = (contains eligible drop ≡ true) × (load dest + 2 ≤ load drop)

  drain_at-Swap :
      (k : ℕ) (p : Placement) {q : PlanProposal}
      → no_move p ≡ true
      → drain_at directory eligible load k p ≡ some q
      → (drop : NodeId) × (dest : NodeId) × Swap eligible p drop dest
        × (evacuates directory drop ≡ true)
        × (q ≡ replacement (data_group k) p.voters drop dest)
  unfolding drain_at
  drain_at-Swap k p still h = elim (Option-cases (first (evacuating_voters directory p.voters))) [
    | inl stays ↦ absurd (ground arith)
    | inr (drop, out) ↦
        elim (Option-cases (least_loaded_non_replica eligible (voter_set p.voters) load)) [
          | inl full ↦ absurd (ground arith)
          | inr (dest, free) ↦
              let (leaving, evacuated) = evacuating_in directory p.voters out in
              let (joining, other) = least_loaded_in eligible (voter_set p.voters) load free in
              (
                drop,
                dest,
                record { rest = still; leaves = leaving; joins = joining; fresh = other },
                evacuated,
                ground arith,
              )
        ]
  ]

  -- A voter and a node that a proposal swaps, with the placement that it is for.
  abbrev pub Proposes : (NodeId → NodeId → Type 0) → PlanProposal → Type 0
  Proposes Why q =
      (k : ℕ) × (p : Placement) × (drop : NodeId) × (dest : NodeId) × P k p
      × Swap eligible p drop dest
      × Why drop dest
      × (q ≡ replacement (data_group k) p.voters drop dest)

  pub drain-Proposes :
      (ps : List (ℕ × Placement)) {q : PlanProposal}
      → All (λ e. P e.0 e.1) ps
      → drain directory eligible load ps ≡ some q
      → Proposes (λ drop dest. evacuates directory drop ≡ true) q
  unfolding drain
  drain-Proposes [] all h = absurd (ground arith)
  drain-Proposes ((k, p) ∷ ps) all h = elim (Bool-cases (no_move p)) [
    | inr moving ↦ drain-Proposes ps all.1 (ground arith)
    | inl still ↦ elim (Option-cases (drain_at directory eligible load k p)) [
      | inl nothing ↦ drain-Proposes ps all.1 (ground arith)
      | inr (r, found) ↦
          let (drop, dest, swap, evacuated, made) = drain_at-Swap k p still found in
          (k, p, drop, dest, all.0, swap, evacuated, ground arith)
    ]
  ]
