-- ===== src/Meta/Placements.antt =====
-- The placement and move commands of src/meta/state_machine.rs.
use dal_service.Prelude.{
  ℕ, ◌+◌, Bool, true, false, not, ◌&&◌, ◌||◌, Option, none, some, List, [], ◌∷◌, ltb, leb, ◌==◌,
  nat_eq, list_eq, length, all, if◌then◌else◌,
}
use dal_service.Prelude.Sets.{difference}
use dal_service.Config.{min_meta_voters}
use dal_service.Types.{NodeId, GroupId, LogId, meta, data_group, group_eq}
use dal_service.Types.Meta.{ClusterConfig, MovePlan, Placement, DataConfigObservation, voter_set}
use dal_service.Meta.Store.{
  MetaStore, Outcome, applied, put_placement, reject, illegal, unchanged, cluster_not_initialized,
  seed_meta_forbidden, ineligible_target, placement_conflict, no_placement, plan_exists, no_plan,
  plan_id_mismatch, plan_aborting, not_aborting, observation_mismatch, is_active, eligible_count,
}

unfoldable pub sort_insert : ℕ → List ℕ → List ℕ
sort_insert a [] = a ∷ []
sort_insert a (x ∷ xs) = let rest = sort_insert a xs in if leb a x then a ∷ x ∷ xs else x ∷ rest

-- `sort_unstable` on node ids.
unfoldable pub sort : List ℕ → List ℕ
sort [] = []
sort (x ∷ xs) = sort_insert x (sort xs)

abbrev pub no_move : Placement → Bool
no_move p = elim p.move [ none ↦ true | some _ ↦ false ]

-- The end of `seed_placement`: against the placement that is there.
unfoldable pub seed_against : GroupId → List NodeId → LogId → Option Placement → Outcome
seed_against group vs log_id none = (
  applied,
  put_placement group (record { voters = vs; voters_log_id = log_id; move = none }) ∷ [],
)
seed_against group vs log_id (some existing) =
    if no_move existing && voter_set existing.voters == vs
    then unchanged
    else reject placement_conflict

unfoldable pub seed_data : MetaStore → ClusterConfig → ℕ → List NodeId → LogId → Outcome
seed_data s config partition voters log_id =
    let vs = voter_set voters in
    if leb config.p partition
    then illegal "partition is outside the configured range"
    else if not (length vs == length voters)
    then illegal "duplicate voter"
    else if not (length vs == config.r)
    then illegal "initial voters must number exactly R"
    else if not (all (is_active s) voters)
    then reject ineligible_target
    else seed_against (data_group partition) vs log_id (s.placement (data_group partition))

unfoldable pub seed_group : MetaStore → ClusterConfig → GroupId → List NodeId → LogId → Outcome
seed_group s config meta voters log_id = reject seed_meta_forbidden
seed_group s config (data_group partition) voters log_id =
    seed_data s config partition voters log_id

unfoldable pub seed_placement : MetaStore → GroupId → List NodeId → LogId → Outcome
seed_placement s group voters log_id = elim s.cluster [
  | none ↦ reject cluster_not_initialized
  | some config ↦ seed_group s config group voters log_id
]

-- The tests of `create_plan` that depend on the kind of group: none, or the refusal.
unfoldable pub plan_refusal :
    MetaStore → ClusterConfig → GroupId → List NodeId → List NodeId → Option Outcome
plan_refusal s config (data_group _) current target =
    let added = length (difference target current) in
    let removed = length (difference current target) in
    if not (length target == config.r)
    then some (illegal "data target must have exactly R voters")
    else if not (added == 1) || not (removed == 1)
    then some (illegal "data move must change exactly one voter")
    else if ltb (eligible_count s) config.r
    then some (reject ineligible_target)
    else none
plan_refusal s config meta current target =
    let added = length (difference target current) in
    let removed = length (difference current target) in
    let replacement = added == 1 && removed == 1 && length target == length current in
    let removal = added == 0 && removed == 1 && length target + 1 == length current in
    if ltb (length target) min_meta_voters
    then some (illegal "meta move must not leave < 3 voters")
    else if not (replacement || removal)
    then some (illegal "meta move must be single-voter replacement or removal")
    else none

-- The end of `create_plan`: the added voters must be active.
unfoldable pub plan_move :
    MetaStore → GroupId → Placement → List NodeId → List NodeId → LogId → Outcome
plan_move s group placement current target log_id =
    if not (all (is_active s) (difference target current)) then reject ineligible_target else (
      applied,
      put_placement group (record placement {
        move =
            some (record { plan_id = log_id.index; target_voters = sort target; aborting = false });
      })
          ∷ [],
    )

unfoldable pub plan_for :
    MetaStore → ClusterConfig → GroupId → List NodeId → LogId → Placement → Outcome
plan_for s config group target_voters log_id placement =
    let current = voter_set placement.voters in
    let target = voter_set target_voters in
    if not (no_move placement)
    then reject plan_exists
    else if not (length target == length target_voters)
    then illegal "duplicate voter"
    else elim (plan_refusal s config group current target) [
      | some refusal ↦ refusal
      | none ↦ plan_move s group placement current target log_id
    ]

unfoldable pub create_plan : MetaStore → GroupId → List NodeId → LogId → Outcome
create_plan s group target_voters log_id = elim s.cluster [
  | none ↦ reject cluster_not_initialized
  | some config ↦ elim (s.placement group) [
    | none ↦ reject no_placement
    | some placement ↦ plan_for s config group target_voters log_id placement
  ]
]

unfoldable pub mark_plan : GroupId → ℕ → Placement → Option MovePlan → Outcome
mark_plan group plan_id placement none = reject no_plan
mark_plan group plan_id placement (some m) =
    if not (m.plan_id == plan_id)
    then reject plan_id_mismatch
    else if m.aborting
    then unchanged
    else (
      applied,
      put_placement group (record placement { move = some (record m { aborting = true }) }) ∷ [],
    )

unfoldable pub mark_aborting : MetaStore → GroupId → ℕ → Outcome
mark_aborting s group plan_id = elim (s.placement group) [
  | none ↦ reject no_plan
  | some placement ↦ mark_plan group plan_id placement placement.move
]

-- The placement that a resolved plan leaves.
unfoldable pub resolve : GroupId → List NodeId → DataConfigObservation → Outcome
resolve group new_voters observation = (
  applied,
  put_placement group (record {
    voters = sort new_voters;
    voters_log_id = observation.config_log_id;
    move = none;
  })
      ∷ [],
)

-- An abort report on a plan.
unfoldable pub resolve_abort : GroupId → Placement → MovePlan → DataConfigObservation → Outcome
resolve_abort group placement plan observation =
    let observed = voter_set observation.voter_set in
    if not plan.aborting
    then reject not_aborting
    else if observed == voter_set placement.voters
    then resolve group placement.voters observation
    else if observed == voter_set plan.target_voters
    then resolve group plan.target_voters observation
    else reject observation_mismatch

-- A finalize of a plan.
unfoldable pub resolve_finalize : GroupId → MovePlan → DataConfigObservation → Outcome
resolve_finalize group plan observation =
    if plan.aborting
    then reject plan_aborting
    else if voter_set observation.voter_set == voter_set plan.target_voters
    then resolve group plan.target_voters observation
    else reject observation_mismatch

unfoldable pub finalize_move :
    GroupId → ℕ → DataConfigObservation → Bool → Placement → Option MovePlan → Outcome
finalize_move group plan_id observation is_abort placement none = reject no_plan
finalize_move group plan_id observation is_abort placement (some plan) =
    if not (plan.plan_id == plan_id)
    then reject plan_id_mismatch
    else if not (observation.group == group) || not (observation.plan_id == plan_id)
    then reject observation_mismatch
    else if is_abort
    then resolve_abort group placement plan observation
    else resolve_finalize group plan observation

unfoldable pub finalize_plan : MetaStore → GroupId → ℕ → DataConfigObservation → Bool → Outcome
finalize_plan s group plan_id observation is_abort = elim (s.placement group) [
  | none ↦ reject no_plan
  | some placement ↦ finalize_move group plan_id observation is_abort placement placement.move
]
