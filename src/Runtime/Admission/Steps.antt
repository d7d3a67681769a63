-- ===== src/Runtime/Admission/Steps.antt =====
-- The tasks that use the admission gate, step by step, in any interleaving. A read lock is a permit;
-- the write lock is given when no permit is held; the reconcile lock is held while a fence drains.
use dal_service.Prelude.{ℕ, suc, ◌+◌, ◌≡◌, Bool, Option, none, some}
use dal_service.Codec.{Result}
use dal_service.Types.Meta.{MaintenanceRecord}
use dal_service.Runtime.Admission.{
  MaintenanceAdmission, new, finished, drains, reconcile_begin, install,
}

pub record Process : Type 0 where
  pub gate : MaintenanceAdmission
  -- Permits of `admit` before it has read `open`.
  pub asking : ℕ
  -- Permits of client operations.
  pub admitted : ℕ
  -- What a `reconcile` that holds its lock waits to install.
  pub draining : Option (Option MaintenanceRecord)

-- A process that starts on a storage.
abbrev pub started : Option MaintenanceRecord → Process
started stored = record { gate = new stored; asking = 0; admitted = 0; draining = none }

pub data Step (s : Process) : Process → Type 0 where
  -- `admit` gets its read lock, reads `open`, and its operation ends.
  ask : Step s (record s { asking = s.asking + 1 })
  admit :
      (n : ℕ)
      → s.asking ≡ suc n
      → s.gate.is_open ≡ Bool.true
      → Step s (record s { asking = n; admitted = s.admitted + 1 })
  turn_away :
      (n : ℕ) → s.asking ≡ suc n → s.gate.is_open ≡ Bool.false → Step s (record s { asking = n })
  complete : (n : ℕ) → s.admitted ≡ suc n → Step s (record s { admitted = n })
  -- `reconcile` with a confirmed view.
  return_at_once :
      (view : Option MaintenanceRecord) (result : Result (Unit {0})) (gate : MaintenanceAdmission)
      → s.draining ≡ none
      → reconcile_begin s.gate view ≡ finished result gate
      → Step s (record s { gate = gate })
  drain :
      (view : Option MaintenanceRecord) (gate : MaintenanceAdmission)
      → s.draining ≡ none
      → reconcile_begin s.gate view ≡ drains gate
      → Step s (record s { gate = gate; draining = some view })
  installed :
      (view : Option MaintenanceRecord)
      → s.draining ≡ some view
      → s.asking ≡ 0
      → s.admitted ≡ 0
      → Step s (record s { gate = install s.gate view; draining = none })
  -- The storage fails.
  storage_fails :
      (view : Option MaintenanceRecord)
      → s.draining ≡ some view
      → s.asking ≡ 0
      → s.admitted ≡ 0
      → Step s (record s { draining = none })
  -- The process stops, and starts on the storage that it leaves.
  restart : Step s (started s.gate.stored)

pub data Steps (s : Process) : Process → Type 0 where
  stays : Steps s s
  then_ : (t u : Process) → Steps s t → Step t u → Steps s u
