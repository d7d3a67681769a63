-- ===== src/Meta/Operations.antt =====
-- How a maintenance operation may proceed (src/meta/state_machine.rs), as a relation on its record.
use dal_service.Prelude.{
  ℕ, ◌+◌, ◌≡◌, ◌≢◌, ◌⊎◌, true, Option, none, some, List, [], nat_eq, contains,
}
use dal_service.Prelude.Sets.{set_insert}
use dal_service.Codec.{Bytes}
use dal_service.Types.{NodeId}
use dal_service.Types.Meta.{NodeState, NodeDirectoryEntry, MaintenanceRecord, MaintenanceStage}
use dal_service.Meta.Store.{MetaStore, node}

abbrev pub IsActive : Option NodeDirectoryEntry → Type 0
IsActive none = ⊥
IsActive (some e) = e.state ≡ NodeState.active

-- A participant of the maintenance that is active.
abbrev pub Participates : MetaStore → MaintenanceRecord → NodeId → Type 0
Participates s r n = (contains r.participants n ≡ true) × IsActive (node s n)

-- What becomes of a maintenance operation: its stages follow one another, each with its condition.
pub data Proceeds (s : MetaStore) (r : MaintenanceRecord) : MaintenanceRecord → Type 0 where
  acknowledges :
      (n : NodeId)
      → r.stage ≡ MaintenanceStage.preparing
      → Participates s r n
      → Proceeds s r (record r { acknowledged = set_insert n r.acknowledged })
  quiesces :
      r.stage ≡ MaintenanceStage.preparing
      → r.acknowledged ≡ r.participants
      → Proceeds s r (record r { stage = MaintenanceStage.quiesced })
  verifies :
      r.stage ≡ MaintenanceStage.quiesced
      → Proceeds s r (record r {
        stage = MaintenanceStage.verifying;
        recovered = [];
        recovery_processes = [];
        recovery_policy_digests = [];
        verification_policy_digest = none;
        verification_recovery_epoch = none;
      })
  recovers :
      (n : NodeId) (processes : List (NodeId × ℕ)) (digests : List (NodeId × Bytes))
      (digest : Option Bytes) (epoch : Option ℕ)
      → r.stage ≡ MaintenanceStage.verifying
      → Participates s r n
      → (epoch ≡ none) ⊎ (epoch ≡ some s.recovery_epoch)
      → Proceeds s r (record r {
        recovered = set_insert n r.recovered;
        recovery_processes = processes;
        recovery_policy_digests = digests;
        verification_policy_digest = digest;
        verification_recovery_epoch = epoch;
      })
  gives_up :
      r.stage ≡ MaintenanceStage.preparing
      → Proceeds s r (record r { stage = MaintenanceStage.released })
  releases :
      r.stage ≡ MaintenanceStage.verifying
      → r.recovered ≡ r.participants
      → r.verification_recovery_epoch ≡ some s.recovery_epoch
      → Proceeds s r (record r { stage = MaintenanceStage.released })

-- A maintenance record written over the one that is there.
abbrev pub Maintains : MetaStore → MaintenanceRecord → Option MaintenanceRecord → Type 0
Maintains s m none =
    (m.generation ≡ 1)
    × (m.stage ≡ MaintenanceStage.preparing)
    × (m.acknowledged ≡ [])
    × (m.recovered ≡ [])
Maintains s m (some r) =
    ((r.stage ≡ MaintenanceStage.released)
      × (m.stage ≡ MaintenanceStage.preparing)
      × (m.acknowledged ≡ [])
      × (m.recovered ≡ [])
      × (m.generation ≡ r.generation + 1)
      × (m.operation_id ≢ r.operation_id))
    ⊎ Proceeds s r m
