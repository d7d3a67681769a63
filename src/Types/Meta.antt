-- ===== src/Types/Meta.antt =====
-- The meta group's types of src/types.rs: cluster record, placements and moves, node directory,
-- maintenance record, and the replicated commands. Endpoints are byte strings.
use dal_service.Prelude.{
  ℕ, ◌≡◌, ◌↔◌, Bool, true, false, ◌||◌, Option, none, some, List, arith, Eq, nat_eq, contains,
}
use dal_service.Prelude.Sets.{collect_set}
use dal_service.Codec.{Bytes}
use dal_service.Types.{NodeId, GroupId, LogId}
use dal_service.Search.Definition.{Text, SearchIndexDefinition, SearchIndexReady}

pub data HashAlgo : Type 0 where
  xxh64 : HashAlgo

pub record HashSpec : Type 0 where
  pub algo : HashAlgo
  pub seed : ℕ

pub record ClusterConfig : Type 0 where
  pub cluster_id : ℕ
  pub protocol_version : ℕ
  pub p : ℕ
  pub r : ℕ
  pub hash_spec : HashSpec

pub record MovePlan : Type 0 where
  pub plan_id : ℕ
  pub target_voters : List NodeId
  pub aborting : Bool

-- `move` is the source's `r#move`.
pub record Placement : Type 0 where
  pub voters : List NodeId
  pub voters_log_id : LogId
  pub move : Option MovePlan

abbrev pub targets : Option MovePlan → NodeId → Bool
targets none node_id = false
targets (some plan) node_id = contains plan.target_voters node_id

-- `Placement::references_node`.
unfoldable pub references_node : Placement → NodeId → Bool
references_node placement node_id =
    contains placement.voters node_id || targets placement.move node_id

-- A set of node ids, as its elements in increasing order.
abbrev pub voter_set : List NodeId → List NodeId
voter_set = collect_set

pub data NodeState : Type 0 where
  active suspect down draining : NodeState

abbrev pub state_beq : NodeState → NodeState → Bool
state_beq NodeState.active NodeState.active = true
state_beq NodeState.suspect NodeState.suspect = true
state_beq NodeState.down NodeState.down = true
state_beq NodeState.draining NodeState.draining = true
state_beq _ _ = false

pub state_beq_iff : (a b : NodeState) → (state_beq a b ≡ true) ↔ (a ≡ b)
state_beq_iff a b = ground arith

instance abbrev pub state_eq : Eq NodeState
state_eq = record { beq = state_beq; beq_iff = state_beq_iff }

pub record NodeDirectoryEntry : Type 0 where
  pub node_id : NodeId
  pub control_addr : Bytes
  pub bulk_addr : Bytes
  pub state : NodeState
  pub incarnation : ℕ

pub data MaintenanceStage : Type 0 where
  preparing quiesced verifying released : MaintenanceStage

abbrev pub stage_beq : MaintenanceStage → MaintenanceStage → Bool
stage_beq MaintenanceStage.preparing MaintenanceStage.preparing = true
stage_beq MaintenanceStage.quiesced MaintenanceStage.quiesced = true
stage_beq MaintenanceStage.verifying MaintenanceStage.verifying = true
stage_beq MaintenanceStage.released MaintenanceStage.released = true
stage_beq _ _ = false

pub stage_beq_iff : (a b : MaintenanceStage) → (stage_beq a b ≡ true) ↔ (a ≡ b)
stage_beq_iff a b = ground arith

instance abbrev pub stage_eq : Eq MaintenanceStage
stage_eq = record { beq = stage_beq; beq_iff = stage_beq_iff }

pub record MaintenanceRecord : Type 0 where
  pub operation_id : ℕ
  pub generation : ℕ
  pub participants : List NodeId
  pub acknowledged : List NodeId
  pub recovered : List NodeId
  pub recovery_processes : List (NodeId × ℕ)
  pub recovery_policy_digests : List (NodeId × Bytes)
  pub verification_policy_digest : Option Bytes
  pub verification_recovery_epoch : Option ℕ
  pub stage : MaintenanceStage

pub record DataConfigObservation : Type 0 where
  pub group : GroupId
  pub plan_id : ℕ
  pub voter_set : List NodeId
  pub config_log_id : LogId

pub data MetaCommand : Type 0 where
  cluster_init : (config : ClusterConfig) (meta_voters : List NodeId) → MetaCommand
  register_node : (node_id : NodeId) (control_addr bulk_addr : Bytes) → MetaCommand
  seed_placement : (group : GroupId) (voters : List NodeId) → MetaCommand
  set_node_state : (node_id : NodeId) (state : NodeState) (incarnation : ℕ) → MetaCommand
  create_plan : (group : GroupId) (plan_id : ℕ) (target_voters : List NodeId) → MetaCommand
  mark_aborting : (group : GroupId) (plan_id : ℕ) → MetaCommand
  finalize_plan :
      (group : GroupId) (plan_id : ℕ) (observation : DataConfigObservation) → MetaCommand
  abort_report : (group : GroupId) (plan_id : ℕ) (observation : DataConfigObservation) → MetaCommand
  create_search_index : (name : Text) (definition : SearchIndexDefinition) → MetaCommand
  create_search_index_generation : (name : Text) (definition : SearchIndexDefinition) → MetaCommand
  report_search_index_ready : (name : Text) (observation : SearchIndexReady) → MetaCommand
  activate_search_index_generation : (name : Text) (generation : ℕ) → MetaCommand
  drop_search_index : (name : Text) → MetaCommand
  finalize_search_index_drop : (name : Text) (generation : ℕ) → MetaCommand
  create_search_index_with_revision :
      (name : Text) (definition : SearchIndexDefinition) (engine_revision : ℕ) → MetaCommand
  create_search_index_generation_with_revision :
      (name : Text) (definition : SearchIndexDefinition) (engine_revision : ℕ) → MetaCommand
  begin_maintenance : (operation_id generation : ℕ) (participants : List NodeId) → MetaCommand
  release_maintenance :
      (operation_id generation : ℕ) (live_processes live_incarnations : List (NodeId × ℕ))
      (policy_digest : Bytes)
      → MetaCommand
  acknowledge_maintenance :
      (operation_id generation : ℕ) (node_id : NodeId) (incarnation : ℕ) → MetaCommand
  quiesce_maintenance : (operation_id generation : ℕ) → MetaCommand
  enter_maintenance_verification : (operation_id generation : ℕ) → MetaCommand
  acknowledge_maintenance_recovery :
      (operation_id generation : ℕ) (node_id : NodeId) (incarnation process_incarnation : ℕ)
      (topology_digest policy_digest : Bytes) (recovery_epoch : ℕ)
      → MetaCommand
  retire_node : (node_id : NodeId) (incarnation : ℕ) → MetaCommand
