-- ===== src/Balancer.antt =====
-- The placement balancer, src/placement.rs. `BTreeMap<u16, Placement>` is the list of its entries by
-- increasing partition, `BTreeMap<NodeId, usize>` a function that is 0 at a missing key, and a
-- `BTreeSet` the increasing list of its elements.
pub mod Replacement
pub mod Extremes
pub mod Proposal
pub mod Candidates
pub mod Eligible
pub mod Accepted
pub mod Spread
pub mod Rounds
pub mod Quiet
use dal_service.Prelude.{
  ℕ, ◌+◌, Bool, true, false, not, ◌&&◌, ◌||◌, Option, none, some, List, [], ◌∷◌, ◌++◌, map, ltb,
  leb, ◌==◌, nat_eq, length, any, keep, find, contains, if◌then◌else◌,
}
use dal_service.Prelude.Sets.{collect_set}
use dal_service.Types.{NodeId, GroupId, data_group}
use dal_service.Types.Meta.{MovePlan, Placement, NodeState, NodeDirectoryEntry, state_eq, voter_set}
use dal_service.Meta.Placements.{sort, no_move}

pub record PlanProposal : Type 0 where
  pub group : GroupId
  pub target_voters : List NodeId

unfoldable pub eligible_nodes : List NodeDirectoryEntry → List NodeId
eligible_nodes directory =
    collect_set (map (λ e. e.node_id) (keep (λ e. e.state == NodeState.active) directory))

-- The test of `evacuating_voters`, on what the directory lists.
abbrev pub leaves : Option NodeDirectoryEntry → Bool
leaves none = true
leaves (some entry) = entry.state == NodeState.down || entry.state == NodeState.draining

abbrev pub evacuates : List NodeDirectoryEntry → NodeId → Bool
evacuates directory voter = leaves (find (λ e. e.node_id == voter) directory)

unfoldable pub evacuating_voters : List NodeDirectoryEntry → List NodeId → List NodeId
evacuating_voters directory voters = collect_set (keep (evacuates directory) voters)

-- The voters that a placement is heading for.
abbrev pub heading : List NodeId → Option MovePlan → List NodeId
heading voters none = voters
heading voters (some plan) = if plan.aborting then voters else plan.target_voters

-- One more for each of the voters.
unfoldable pub add_load : List NodeId → (NodeId → ℕ) → NodeId → ℕ
add_load [] load n = load n
add_load (v ∷ vs) load n = add_load vs (λ m. if v == m then load m + 1 else load m) n

unfoldable pub load_from : List (ℕ × Placement) → (NodeId → ℕ) → NodeId → ℕ
load_from [] load = load
load_from ((k, p) ∷ ps) load = load_from ps (add_load (heading p.voters p.move) load)

abbrev pub load_map : List (ℕ × Placement) → NodeId → ℕ
load_map placements = load_from placements (λ n. 0)

abbrev pub is_aborting : Option MovePlan → Bool
is_aborting none = false
is_aborting (some plan) = plan.aborting

-- `min_by`, from a first element on: the earlier of two that compare equal.
unfoldable pub least : (ℕ → ℕ → Bool) → ℕ → List ℕ → ℕ
least less x [] = x
least less x (y ∷ ys) = least less (if less y x then y else x) ys

-- `max_by`, from a first element on: the later of two that compare equal.
unfoldable pub greatest : (ℕ → ℕ → Bool) → ℕ → List ℕ → ℕ
greatest more x [] = x
greatest more x (y ∷ ys) = greatest more (if more x y then x else y) ys

abbrev pub min_by : (ℕ → ℕ → Bool) → List ℕ → Option ℕ
min_by less [] = none
min_by less (x ∷ xs) = some (least less x xs)

abbrev pub max_by : (ℕ → ℕ → Bool) → List ℕ → Option ℕ
max_by more [] = none
max_by more (x ∷ xs) = some (greatest more x xs)

-- `load_of(a).cmp(&load_of(b)).then(a.cmp(&b))` is less.
abbrev pub lighter : (NodeId → ℕ) → NodeId → NodeId → Bool
lighter load a b = ltb (load a) (load b) || (load a == load b && ltb a b)

-- `load_of(a).cmp(&load_of(b)).then(b.cmp(&a))` is greater.
abbrev pub heavier : (NodeId → ℕ) → NodeId → NodeId → Bool
heavier load a b = ltb (load b) (load a) || (load a == load b && ltb a b)

unfoldable pub least_loaded_non_replica : List NodeId → List NodeId → (NodeId → ℕ) → Option NodeId
least_loaded_non_replica eligible voters load =
    min_by (lighter load) (keep (λ n. not (contains voters n)) eligible)

-- A candidate of the rebalance pass: source, destination and partition.
pub record Candidate : Type 0 where
  pub source : NodeId
  pub dest : NodeId
  pub partition : ℕ

-- `key(cand) < key(cur)`.
abbrev pub key_less : (NodeId → ℕ) → Candidate → Candidate → Bool
key_less load cand cur =
    ltb (load cur.source) (load cand.source)
    || (load cand.source == load cur.source
        && (ltb cand.partition cur.partition
            || (cand.partition == cur.partition
                && (ltb cand.source cur.source
                    || (cand.source == cur.source && ltb cand.dest cur.dest)))))

unfoldable pub better_rebalance : (NodeId → ℕ) → Candidate → Candidate → Candidate
better_rebalance load cur cand = if key_less load cand cur then cand else cur

unfoldable pub replacement : GroupId → List NodeId → NodeId → NodeId → PlanProposal
replacement group voters drop add = record {
  group = group;
  target_voters = sort (keep (λ v. not (v == drop)) voters ++ add ∷ []);
}

-- `BTreeSet::iter().min()`.
abbrev pub first : List ℕ → Option ℕ
first [] = none
first (x ∷ xs) = some x

-- The body of the drain pass, at a placement at rest.
unfoldable pub drain_at :
    List NodeDirectoryEntry → List NodeId → (NodeId → ℕ) → ℕ → Placement → Option PlanProposal
drain_at directory eligible load partition placement =
    elim (first (evacuating_voters directory placement.voters)) [
      | none ↦ none
      | some drop ↦ elim (least_loaded_non_replica eligible (voter_set placement.voters) load) [
        | none ↦ none
        | some dest ↦ some (replacement (data_group partition) placement.voters drop dest)
      ]
    ]

-- The drain pass.
unfoldable pub drain :
    List NodeDirectoryEntry
    → List NodeId
    → (NodeId → ℕ)
    → List (ℕ × Placement)
    → Option PlanProposal
drain directory eligible load [] = none
drain directory eligible load ((k, p) ∷ ps) =
    let rest = drain directory eligible load ps in
    if not (no_move p)
    then rest
    else elim (drain_at directory eligible load k p) [ none ↦ rest | some proposal ↦ some proposal ]

-- The body of the rebalance pass: the candidate that a placement gives.
unfoldable pub candidate_at : List NodeId → (NodeId → ℕ) → ℕ → Placement → Option Candidate
candidate_at eligible load partition placement =
    if not (no_move placement)
    then none
    else elim (max_by (heavier load) (keep (contains eligible) placement.voters)) [
      | none ↦ none
      | some source ↦ elim (least_loaded_non_replica eligible (voter_set placement.voters) load) [
        | none ↦ none
        | some dest ↦
            if ltb (load source) (load dest + 2)
            then none
            else some (record { source = source; dest = dest; partition = partition })
      ]
    ]

abbrev pub keep_better : (NodeId → ℕ) → Option Candidate → Option Candidate → Option Candidate
keep_better load best none = best
keep_better load none (some cand) = some cand
keep_better load (some cur) (some cand) = some (better_rebalance load cur cand)

-- The rebalance pass.
unfoldable pub rebalance :
    List NodeId → (NodeId → ℕ) → Option Candidate → List (ℕ × Placement) → Option Candidate
rebalance eligible load best [] = best
rebalance eligible load best ((k, p) ∷ ps) =
    rebalance eligible load (keep_better load best (candidate_at eligible load k p)) ps

-- `placements[&partition]`, where a missing key is a panic.
unfoldable pub placement_at : ℕ → List (ℕ × Placement) → Option Placement
placement_at k [] = none
placement_at k ((j, p) ∷ ps) = let rest = placement_at k ps in if j == k then some p else rest

abbrev pub proposal_for : Candidate → Option Placement → Option PlanProposal
proposal_for c none = none
proposal_for c (some p) = some (replacement (data_group c.partition) p.voters c.source c.dest)

abbrev pub propose_best : List (ℕ × Placement) → Option Candidate → Option PlanProposal
propose_best placements none = none
propose_best placements (some c) = proposal_for c (placement_at c.partition placements)

abbrev pub passes :
    List NodeDirectoryEntry
    → List NodeId
    → (NodeId → ℕ)
    → List (ℕ × Placement)
    → Option PlanProposal
passes directory eligible load placements = elim (drain directory eligible load placements) [
  | some proposal ↦ some proposal
  | none ↦ propose_best placements (rebalance eligible load none placements)
]

unfoldable pub propose : List NodeDirectoryEntry → List (ℕ × Placement) → ℕ → Option PlanProposal
propose directory placements r =
    let eligible = eligible_nodes directory in
    if ltb (length eligible) r
    then none
    else if any (λ e. is_aborting e.1.move) placements
    then none
    else passes directory eligible (load_map placements) placements
