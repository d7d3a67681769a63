-- ===== src/Meta/Maintenance.antt =====
-- The maintenance commands of src/meta/state_machine.rs: begin, acknowledge, quiesce, verify,
-- acknowledge recovery, release. A binary search of a sorted list is a membership test.
pub mod Recovery
use dal_service.Prelude.{
  ℕ, ◌+◌, Bool, true, false, not, ◌&&◌, ◌||◌, Option, none, some, List, [], ◌∷◌, ◌++◌, map, ltb,
  leb, ◌==◌, nat_eq, list_eq, pair_eq, option_eq, length, is_empty, any, all, keep, contains,
  checked_add_one, u64_max, if◌then◌else◌,
}
use dal_service.Prelude.Sets.{set_insert, collect_set}
use dal_service.Codec.{Bytes}
use dal_service.Keyspace.BigEndian.{be_bytes}
use dal_service.Types.{NodeId, GroupId, meta, data_group}
use dal_service.Types.Meta.{
  Placement, NodeState, NodeDirectoryEntry, MaintenanceRecord, MaintenanceStage, ClusterConfig,
  state_eq, stage_eq, voter_set,
}
use dal_service.Search.Definition.{SearchIndexRecord, codes}
use dal_service.Meta.Placements.{no_move}
use dal_service.Meta.Store.{
  MetaStore, MetaMutation, MetaReject, Outcome, applied, put_maintenance, reject, invalid,
  unchanged, cluster_not_initialized, unknown_node, stale_incarnation, ineligible_target,
  no_placement, maintenance_active, maintenance_busy, maintenance_mismatch,
  maintenance_topology_mismatch, maintenance_policy_mismatch, maintenance_liveness_mismatch,
  stale_maintenance_process, node, all_groups,
}

-- No pair of neighbours is out of order: `windows(2)`.
unfoldable pub increasing : List NodeId → Bool
increasing [] = true
increasing (x ∷ []) = true
increasing (x ∷ y ∷ xs) = ltb x y && increasing (y ∷ xs)

unfoldable pub active_ids : List NodeDirectoryEntry → List NodeId
active_ids [] = []
active_ids (e ∷ es) =
    let rest = active_ids es in if e.state == NodeState.active then e.node_id ∷ rest else rest

-- A group is placed, at rest, and on active nodes only.
abbrev pub at_rest : List NodeId → Option Placement → Bool
at_rest active none = false
at_rest active (some p) = no_move p && all (λ v. contains active v) p.voters

abbrev pub busy_index : SearchIndexRecord → Bool
busy_index r = not (elim r.building [ none ↦ true | some _ ↦ false ]) || not (is_empty r.retiring)

unfoldable pub fresh_record : ℕ → ℕ → List NodeId → MaintenanceRecord
fresh_record operation_id generation participants = record {
  operation_id = operation_id;
  generation = generation;
  participants = participants;
  acknowledged = [];
  recovered = [];
  recovery_processes = [];
  recovery_policy_digests = [];
  verification_policy_digest = none;
  verification_recovery_epoch = none;
  stage = MaintenanceStage.preparing;
}

abbrev pub start : ℕ → ℕ → List NodeId → Outcome
start operation_id generation participants =
    (applied, put_maintenance (fresh_record operation_id generation participants) ∷ [])

-- The end of `begin_maintenance`: against the record that is there.
unfoldable pub begin_after : ℕ → ℕ → List NodeId → Option MaintenanceRecord → Outcome
begin_after operation_id generation participants none =
    if not (generation == 1)
    then reject maintenance_mismatch
    else start operation_id generation participants
begin_after operation_id generation participants (some previous) =
    if not (previous.stage == MaintenanceStage.released)
    then (if previous.operation_id == operation_id
          && previous.generation == generation
          && previous.participants == participants
        then unchanged
        else reject maintenance_active)
    else if previous.operation_id == operation_id
        || not (checked_add_one previous.generation == some generation)
    then reject maintenance_mismatch
    else start operation_id generation participants

unfoldable pub begin_in : MetaStore → ClusterConfig → ℕ → ℕ → List NodeId → Outcome
begin_in s cluster operation_id generation participants =
    let active = collect_set (active_ids s.directory) in
    if operation_id == 0 || generation == 0 || is_empty participants
    then invalid "maintenance identity and participants are required"
    else if not (increasing participants)
    then invalid "maintenance participants must be sorted and unique"
    else if not (participants == active)
    then invalid "maintenance must include every Active node"
    else if not (all (λ g. at_rest active (s.placement g)) (all_groups cluster.p))
    then reject maintenance_busy
    else if any busy_index s.search_indexes
    then reject maintenance_busy
    else begin_after operation_id generation participants s.maintenance

unfoldable pub begin_maintenance : MetaStore → ℕ → ℕ → List NodeId → Outcome
begin_maintenance s operation_id generation participants = elim s.cluster [
  | none ↦ reject cluster_not_initialized
  | some cluster ↦ begin_in s cluster operation_id generation participants
]

-- The record that a command names, or none.
unfoldable pub named : Option MaintenanceRecord → ℕ → ℕ → Option MaintenanceRecord
named none operation_id generation = none
named (some r) operation_id generation =
    if not (r.operation_id == operation_id) || not (r.generation == generation)
    then none
    else some r

-- The node is active at the incarnation.
abbrev pub live_at : Option NodeDirectoryEntry → ℕ → Bool
live_at none incarnation = false
live_at (some e) incarnation = e.state == NodeState.active && e.incarnation == incarnation

-- The loop of `release_maintenance` over participants and claimed incarnations.
unfoldable pub all_live : MetaStore → List NodeId → List (NodeId × ℕ) → Bool
all_live s [] claims = true
all_live s (p ∷ participants) [] = true
all_live s (p ∷ participants) ((claimed, incarnation) ∷ claims) =
    p == claimed && live_at (node s p) incarnation && all_live s participants claims

abbrev pub set_stage : MaintenanceRecord → MaintenanceStage → Outcome
set_stage r stage = (applied, put_maintenance (record r { stage = stage }) ∷ [])

-- The guard of the verifying arm: every participant has recovered.
unfoldable pub all_recovered : MaintenanceRecord → Bool
all_recovered r =
    r.recovered == r.participants && map (λ p. p.0) r.recovery_processes == r.participants

unfoldable pub release_verified :
    MetaStore → MaintenanceRecord → List (NodeId × ℕ) → List (NodeId × ℕ) → Bytes → Outcome
release_verified s r live_processes live_incarnations policy_digest =
    if not (r.verification_policy_digest == some policy_digest)
    then reject maintenance_policy_mismatch
    else if not (r.verification_recovery_epoch == some s.recovery_epoch)
    then reject maintenance_mismatch
    else if not (r.recovery_processes == live_processes)
    then reject maintenance_liveness_mismatch
    else if not (length live_incarnations == length r.participants)
    then reject maintenance_liveness_mismatch
    else if not (all_live s r.participants live_incarnations)
    then reject maintenance_liveness_mismatch
    else set_stage r MaintenanceStage.released

unfoldable pub release_at :
    MetaStore
    → MaintenanceRecord
    → MaintenanceStage
    → List (NodeId × ℕ)
    → List (NodeId × ℕ)
    → Bytes
    → Outcome
release_at s r MaintenanceStage.released live_processes live_incarnations policy_digest = unchanged
release_at s r MaintenanceStage.preparing live_processes live_incarnations policy_digest =
    set_stage r MaintenanceStage.released
release_at s r MaintenanceStage.verifying live_processes live_incarnations policy_digest =
    if all_recovered r
    then release_verified s r live_processes live_incarnations policy_digest
    else reject maintenance_busy
release_at s r MaintenanceStage.quiesced live_processes live_incarnations policy_digest =
    reject maintenance_busy

unfoldable pub release_maintenance :
    MetaStore → ℕ → ℕ → List (NodeId × ℕ) → List (NodeId × ℕ) → Bytes → Outcome
release_maintenance s operation_id generation live_processes live_incarnations policy_digest =
    elim (named s.maintenance operation_id generation) [
      | none ↦ reject maintenance_mismatch
      | some r ↦ release_at s r r.stage live_processes live_incarnations policy_digest
    ]

-- A participant that is active at the incarnation, or the refusal.
unfoldable pub participant_refusal : MetaStore → MaintenanceRecord → NodeId → ℕ → Option MetaReject
participant_refusal s r node_id incarnation =
    if not (contains r.participants node_id)
    then some ineligible_target
    else elim (node s node_id) [
      | none ↦ some unknown_node
      | some entry ↦
          if not (entry.incarnation == incarnation)
          then some stale_incarnation
          else if not (entry.state == NodeState.active)
          then some ineligible_target
          else none
    ]

unfoldable pub acknowledge_in : MetaStore → MaintenanceRecord → NodeId → ℕ → Outcome
acknowledge_in s r node_id incarnation =
    if not (r.stage == MaintenanceStage.preparing)
    then reject maintenance_busy
    else elim (participant_refusal s r node_id incarnation) [
      | some refusal ↦ reject refusal
      | none ↦ if contains r.acknowledged node_id then unchanged else (
        applied,
        put_maintenance (record r { acknowledged = set_insert node_id r.acknowledged }) ∷ [],
      )
    ]

unfoldable pub acknowledge_maintenance : MetaStore → ℕ → ℕ → NodeId → ℕ → Outcome
acknowledge_maintenance s operation_id generation node_id incarnation =
    elim (named s.maintenance operation_id generation) [
      | none ↦ reject maintenance_mismatch
      | some r ↦ acknowledge_in s r node_id incarnation
    ]

unfoldable pub quiesce_maintenance : MetaStore → ℕ → ℕ → Outcome
quiesce_maintenance s operation_id generation = elim (named s.maintenance operation_id generation) [
  | none ↦ reject maintenance_mismatch
  | some r ↦
      if r.stage == MaintenanceStage.quiesced
      then unchanged
      else if not (r.stage == MaintenanceStage.preparing) || not (r.acknowledged == r.participants)
      then reject maintenance_busy
      else set_stage r MaintenanceStage.quiesced
]

unfoldable pub enter_maintenance_verification : MetaStore → ℕ → ℕ → Outcome
enter_maintenance_verification s operation_id generation =
    elim (named s.maintenance operation_id generation) [
      | none ↦ reject maintenance_mismatch
      | some r ↦
          if r.stage == MaintenanceStage.verifying
          then unchanged
          else if not (r.stage == MaintenanceStage.quiesced)
          then reject maintenance_busy
          else (
            applied,
            put_maintenance (record r {
              stage = MaintenanceStage.verifying;
              recovered = [];
              recovery_processes = [];
              recovery_policy_digests = [];
              verification_policy_digest = none;
              verification_recovery_epoch = none;
            })
                ∷ [],
          )
    ]
