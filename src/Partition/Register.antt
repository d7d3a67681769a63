-- ===== src/Partition/Register.antt =====
-- What a key promises to its clients: a register with a version, and compare-and-set on it.
use dal_service.Prelude.{ℕ, Bool, true, false, Option, none, some, ◌==◌, nat_eq, if◌then◌else◌}
use dal_service.Types.{IfVersion, DataOp, MutationResult}
use dal_service.Partition.StateMachine.{KeyRecord, presence}

abbrev pub Register : Type 0
Register = Option KeyRecord

-- A condition holds of a register: none is asked, the version is the one named, or it is absent.
unfoldable pub passes : Register → Option IfVersion → Bool
passes r none = true
passes none (some (IfVersion.number v)) = false
passes (some x) (some (IfVersion.number v)) = x.version == v
passes none (some IfVersion.absent) = true
passes (some x) (some IfVersion.absent) = false

-- What the operation of log index `i` answers, and the register after it.
unfoldable pub step : Register → DataOp → ℕ → MutationResult × Register
step r (DataOp.put key value if_version) i =
    if passes r if_version
    then (MutationResult.applied i, some (record { version = i; value = value }))
    else (MutationResult.condition_failed (presence r), r)
step r (DataOp.delete key if_version) i =
    if passes r if_version
    then (MutationResult.applied i, none)
    else (MutationResult.condition_failed (presence r), r)
