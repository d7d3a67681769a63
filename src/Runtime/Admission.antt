-- ===== src/Runtime/Admission.antt =====
-- The node-local client admission of src/runtime/maintenance.rs. The record in memory is `fence`,
-- the durable one `stored`; what a task does between two awaits is one step of Admission/Steps.
pub mod Steps
pub mod Closed
pub mod Confirmed
use dal_service.Prelude.{
  ℕ, Bool, true, false, not, ◌&&◌, ◌||◌, Option, none, some, String, ltb, ◌==◌, nat_eq, list_eq,
  if◌then◌else◌,
}
use dal_service.Codec.{Error, Result, ok, err}
use dal_service.Types.Meta.{MaintenanceRecord, MaintenanceStage, stage_eq}

pub record MaintenanceAdmission : Type 0 where
  pub stored : Option MaintenanceRecord
  pub fence : Option MaintenanceRecord
  pub is_open : Bool

-- `new`, from what the storage holds.
abbrev pub new : Option MaintenanceRecord → MaintenanceAdmission
new stored = record { stored = stored; fence = stored; is_open = false }

pub data TransitionIssue : Type 0 where
  stale : TransitionIssue
  conflict : String → TransitionIssue

unfoldable pub same_fence : Option MaintenanceRecord → Option MaintenanceRecord → Bool
same_fence none none = true
same_fence (some current) (some next) =
    current.operation_id == next.operation_id
    && current.generation == next.generation
    && current.participants == next.participants
    && current.stage == next.stage
same_fence _ _ = false

abbrev pub maintenance_stage_rank : MaintenanceStage → ℕ
maintenance_stage_rank MaintenanceStage.preparing = 0
maintenance_stage_rank MaintenanceStage.quiesced = 1
maintenance_stage_rank MaintenanceStage.verifying = 2
maintenance_stage_rank MaintenanceStage.released = 3

-- The issue of a transition, or none.
unfoldable pub validate_transition :
    Option MaintenanceRecord → Option MaintenanceRecord → Option TransitionIssue
validate_transition none next = none
validate_transition (some current) none =
    some (conflict "authoritative maintenance record disappeared")
validate_transition (some current) (some next) =
    if ltb next.generation current.generation
    then some stale
    else if not (next.generation == current.generation)
    then none
    else if not (next.operation_id == current.operation_id)
        || not (next.participants == current.participants)
    then some (conflict "conflicting maintenance generation")
    else if ltb (maintenance_stage_rank next.stage) (maintenance_stage_rank current.stage)
    then some stale
    else none

-- `is_none_or(|record| record.stage == Released)`.
abbrev pub admits : Option MaintenanceRecord → Bool
admits none = true
admits (some r) = r.stage == MaintenanceStage.released

-- What `reconcile` does before it asks for the write lock: it returns, or goes on.
pub data Begun : Type 0 where
  finished : Result (Unit {0}) → MaintenanceAdmission → Begun
  drains : MaintenanceAdmission → Begun

unfoldable pub reconcile_begin : MaintenanceAdmission → Option MaintenanceRecord → Begun
reconcile_begin a authoritative =
    if same_fence a.fence authoritative
    then finished (ok tt) (record a { is_open = admits authoritative })
    else elim (validate_transition a.fence authoritative) [
      | none ↦ drains (record a { is_open = false })
      | some stale ↦ finished (err (Error.raft "stale maintenance generation")) a
      | some (conflict reason) ↦ finished (err (Error.raft reason)) (record a { is_open = false })
    ]

abbrev pub persisted :
    Option MaintenanceRecord → Option MaintenanceRecord → Option MaintenanceRecord
persisted stored none = stored
persisted stored (some r) = some r

-- What `reconcile` does with the write lock, when the storage takes the record.
unfoldable pub install : MaintenanceAdmission → Option MaintenanceRecord → MaintenanceAdmission
install a authoritative = record {
  stored = persisted a.stored authoritative;
  fence = authoritative;
  is_open = admits authoritative;
}
