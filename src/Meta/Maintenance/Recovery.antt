-- ===== src/Meta/Maintenance/Recovery.antt =====
-- `acknowledge_maintenance_recovery` of src/meta/state_machine.rs, and the topology digest of
-- src/types.rs over an abstract SHA-256.
use dal_service.Prelude.{
  ℕ, Bool, true, false, not, ◌&&◌, Option, none, some, List, [], ◌∷◌, ◌++◌, map, ltb, ◌==◌, nat_eq,
  list_eq, length, all, contains, if◌then◌else◌,
}
use dal_service.Prelude.Sets.{set_insert}
use dal_service.Codec.{Bytes}
use dal_service.Keyspace.BigEndian.{be_bytes}
use dal_service.Types.{NodeId, GroupId, meta, data_group}
use dal_service.Types.Meta.{Placement, MaintenanceRecord, MaintenanceStage, stage_eq, voter_set}
use dal_service.Search.Definition.{codes}
use dal_service.Meta.Placements.{no_move}
use dal_service.Meta.Store.{
  MetaStore, MetaReject, Outcome, applied, put_maintenance, reject, invalid, unchanged,
  cluster_not_initialized, no_placement, maintenance_busy, maintenance_mismatch,
  maintenance_topology_mismatch, stale_maintenance_process, all_groups,
}
use dal_service.Meta.Maintenance.{named, participant_refusal}

-- A value of a list of pairs sorted by node.
unfoldable pub value_at : {A : Type 0} → NodeId → List (NodeId × A) → Option A
value_at id [] = none
value_at id ((n, a) ∷ xs) = if n == id then some a else value_at id xs

-- A value put into a list of pairs sorted by node, over the one that is there.
unfoldable pub put_at : {A : Type 0} → NodeId → A → List (NodeId × A) → List (NodeId × A)
put_at id a [] = (id, a) ∷ []
put_at id a ((n, b) ∷ xs) =
    let rest = put_at id a xs in
    if ltb id n then (id, a) ∷ (n, b) ∷ xs else if id == n then (id, a) ∷ xs else (n, b) ∷ rest

unfoldable pub group_lt : GroupId → GroupId → Bool
group_lt meta meta = false
group_lt meta (data_group _) = true
group_lt (data_group _) meta = false
group_lt (data_group a) (data_group b) = ltb a b

-- `sort_by_key` on the group: a stable insertion sort.
unfoldable pub insert_group :
    GroupId × List NodeId → List (GroupId × List NodeId) → List (GroupId × List NodeId)
insert_group e [] = e ∷ []
insert_group e (x ∷ xs) =
    let rest = insert_group e xs in if group_lt x.0 e.0 then x ∷ rest else e ∷ x ∷ xs

unfoldable pub sort_groups : List (GroupId × List NodeId) → List (GroupId × List NodeId)
sort_groups [] = []
sort_groups (e ∷ es) = insert_group e (sort_groups es)

unfoldable pub group_bytes : GroupId → Bytes
group_bytes meta = 0 ∷ 0 ∷ 0 ∷ []
group_bytes (data_group p) = 1 ∷ be_bytes 2 p

unfoldable pub voters_bytes : List NodeId → Bytes
voters_bytes [] = []
voters_bytes (v ∷ vs) = be_bytes 8 v ++ voters_bytes vs

unfoldable pub topology_bytes : List (GroupId × List NodeId) → Bytes
topology_bytes [] = []
topology_bytes ((g, voters) ∷ rest) =
    let vs = voter_set voters in
    group_bytes g ++ (be_bytes 2 (length vs) ++ (voters_bytes vs ++ topology_bytes rest))

-- What the topology digest is taken of.
unfoldable pub canonical_topology : List (GroupId × List NodeId) → Bytes
canonical_topology groups =
    let canonical = sort_groups groups in
    codes "dal-maintenance-topology-v1"
    ++ (be_bytes 4 (length canonical) ++ topology_bytes canonical)

-- The loop over the groups: those that the node hosts, or the refusal.
pub data Hosted : Type 0 where
  refused : MetaReject → Hosted
  hosts : List (GroupId × List NodeId) → Hosted

unfoldable pub add_hosted : GroupId → List NodeId → NodeId → Hosted → Hosted
add_hosted g voters node_id (refused r) = refused r
add_hosted g voters node_id (hosts rest) =
    if contains voters node_id then hosts ((g, voters) ∷ rest) else hosts rest

unfoldable pub hosted_groups : (GroupId → Option Placement) → NodeId → List GroupId → Hosted
hosted_groups placement node_id [] = hosts []
hosted_groups placement node_id (g ∷ groups) =
    let rest = hosted_groups placement node_id groups in
    elim (placement g) [
      | none ↦ refused no_placement
      | some p ↦
          if not (no_move p) then refused maintenance_busy else add_hosted g p.voters node_id rest
    ]

-- Every participant has reported the same digest.
unfoldable pub agreed : MaintenanceRecord → Bytes → Bool
agreed r policy_digest =
    r.recovered == r.participants
    && length r.recovery_policy_digests == length r.participants
    && map (λ e. e.0) r.recovery_policy_digests == r.participants
    && all (λ e. e.1 == policy_digest) r.recovery_policy_digests

-- The record with the three lists updated.
unfoldable pub with_recovery : MaintenanceRecord → NodeId → ℕ → Bytes → MaintenanceRecord
with_recovery r node_id process_incarnation policy_digest = record r {
  recovered = set_insert node_id r.recovered;
  recovery_processes = put_at node_id process_incarnation r.recovery_processes;
  recovery_policy_digests = put_at node_id policy_digest r.recovery_policy_digests;
}

-- The common digest and epoch, once all agree.
unfoldable pub conclude : MaintenanceRecord → Bytes → ℕ → MaintenanceRecord
conclude r policy_digest recovery_epoch = record r {
  verification_policy_digest = if agreed r policy_digest then some policy_digest else none;
  verification_recovery_epoch = if r.recovered == r.participants then some recovery_epoch else none;
}

-- An earlier proof of the node: a refusal, or that there is nothing to do.
unfoldable pub earlier_proof : MaintenanceRecord → NodeId → ℕ → Option ℕ → Option Outcome
earlier_proof r node_id process_incarnation none = none
earlier_proof r node_id process_incarnation (some previous) =
    if ltb process_incarnation previous
    then some (reject stale_maintenance_process)
    else if process_incarnation == previous && contains r.recovered node_id
    then some unchanged
    else none

abbrev pub zero_digest : Bytes
zero_digest = be_bytes 32 0

module _ (sha256 : Bytes → Bytes) where
  -- `maintenance_topology_digest`.
  unfoldable pub maintenance_topology_digest : List (GroupId × List NodeId) → Bytes
  maintenance_topology_digest groups = sha256 (canonical_topology groups)

  unfoldable pub recover_topology :
      MetaStore → MaintenanceRecord → NodeId → ℕ → Bytes → Bytes → ℕ → Outcome
  recover_topology s r node_id process_incarnation topology_digest policy_digest recovery_epoch =
      elim s.cluster [
        | none ↦ reject cluster_not_initialized
        | some cluster ↦ elim (hosted_groups s.placement node_id (all_groups cluster.p)) [
          | refused refusal ↦ reject refusal
          | hosts expected ↦
              if not (topology_digest == maintenance_topology_digest expected)
              then reject maintenance_topology_mismatch
              else (
                applied,
                put_maintenance (
                      conclude (with_recovery r node_id process_incarnation policy_digest)
                        policy_digest recovery_epoch)
                    ∷ [],
              )
        ]
      ]

  unfoldable pub recover_proof :
      MetaStore → MaintenanceRecord → NodeId → ℕ → Bytes → Bytes → ℕ → Outcome
  recover_proof s r node_id process_incarnation topology_digest policy_digest recovery_epoch =
      if process_incarnation == 0
      then invalid "maintenance process incarnation is required"
      else if policy_digest == zero_digest
      then invalid "maintenance trust-policy digest is required"
      else if not (recovery_epoch == s.recovery_epoch)
      then reject maintenance_mismatch
      else elim (earlier_proof r node_id process_incarnation
          (value_at node_id r.recovery_processes)) [
            | some outcome ↦ outcome
            | none ↦
                recover_topology s r node_id process_incarnation topology_digest policy_digest
                  recovery_epoch
          ]

  unfoldable pub acknowledge_maintenance_recovery :
      MetaStore → ℕ → ℕ → NodeId → ℕ → ℕ → Bytes → Bytes → ℕ → Outcome
  acknowledge_maintenance_recovery s operation_id generation node_id incarnation process_incarnation
        topology_digest policy_digest recovery_epoch =
      elim (named s.maintenance operation_id generation) [
        | none ↦ reject maintenance_mismatch
        | some r ↦
            if not (r.stage == MaintenanceStage.verifying)
            then reject maintenance_busy
            else elim (participant_refusal s r node_id incarnation) [
              | some refusal ↦ reject refusal
              | none ↦
                  recover_proof s r node_id process_incarnation topology_digest policy_digest
                    recovery_epoch
            ]
      ]
