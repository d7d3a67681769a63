-- ===== src/Tests/Admission.antt =====
-- The theorems about admission, at a maintenance that begins while a client operation runs.
use dal_service.Prelude.{◌≡◌, ◌≢◌, refl, true, false, none, some, [], ◌∷◌}
use dal_service.Codec.{ok}
use dal_service.Types.Meta.{MaintenanceRecord, MaintenanceStage}
use dal_service.Meta.Invariant.History.{Reaches, bound-Valid}
use dal_service.Runtime.Admission.{
  same_fence, validate_transition, conflict, reconcile_begin, install,
}
use dal_service.Runtime.Admission.Steps.{Process, started, Step, Steps}
use dal_service.Runtime.Admission.Closed.{Supersedes, Steps-closed, Steps-Supersedes}
use dal_service.Runtime.Admission.Confirmed.{Reaches-validate_transition}
use dal_service.Tests.Fixtures.{hashing}
use dal_service.Tests.Meta.{fresh, run, commands, commands_ok, Reaches-run}

abbrev released : MaintenanceRecord
released = record {
  operation_id = 9;
  generation = 1;
  participants = 1 ∷ 2 ∷ 3 ∷ [];
  acknowledged = [];
  recovered = [];
  recovery_processes = [];
  recovery_policy_digests = [];
  verification_policy_digest = none;
  verification_recovery_epoch = none;
  stage = MaintenanceStage.released;
}

abbrev preparing : MaintenanceRecord
preparing = record released {
  operation_id = 10;
  generation = 2;
  stage = MaintenanceStage.preparing;
}

abbrev open_process : Process
open_process = record (started (some released)) {
  gate = record { stored = some released; fence = some released; is_open = true };
}

abbrev serving : Process
serving = record open_process { asking = 0; admitted = 1 }

abbrev closing : Process
closing = record serving {
  gate = record { stored = some released; fence = some released; is_open = false };
  draining = some (some preparing);
}

abbrev closed : Process
closed = record closing {
  gate = record { stored = some preparing; fence = some preparing; is_open = false };
  admitted = 0;
  draining = none;
}

to_serving : Steps (started (some released)) serving
unfolding reconcile_begin same_fence
to_serving =
    Steps.then_ (record open_process { asking = 1 }) serving
      (Steps.then_ open_process (record open_process { asking = 1 })
        (Steps.then_ (started (some released)) open_process Steps.stays
          (Step.return_at_once (some released) (ok tt) open_process.gate refl refl))
        Step.ask)
      (Step.admit 0 refl refl)

to_closed : Steps serving closed
unfolding reconcile_begin same_fence validate_transition install
to_closed =
    Steps.then_ (record closing { admitted = 0 }) closed
      (Steps.then_ closing (record closing { admitted = 0 })
        (Steps.then_ serving closing Steps.stays
          (Step.drain (some preparing) closing.gate refl refl))
        (Step.complete 0 refl))
      (Step.installed (some preparing) refl refl refl)

both : Steps (started (some released)) closed
unfolding reconcile_begin same_fence validate_transition install
both =
    Steps.then_ (record closing { admitted = 0 }) closed
      (Steps.then_ closing (record closing { admitted = 0 })
        (Steps.then_ serving closing to_serving
          (Step.drain (some preparing) closing.gate refl refl))
        (Step.complete 0 refl))
      (Step.installed (some preparing) refl refl refl)

Steps-closed_example :
    (closed.gate.is_open ≡ false) × (closed.admitted ≡ 0) × (closed.gate.stored ≡ closed.gate.fence)
Steps-closed_example = Steps-closed (some released) both refl

Steps-Supersedes_example : Supersedes serving.gate.stored closed.gate.stored
Steps-Supersedes_example = Steps-Supersedes (some released) to_serving to_closed

Reaches-validate_transition_example :
    validate_transition fresh.maintenance (run fresh commands).maintenance
    ≢ some (conflict "conflicting maintenance generation")
Reaches-validate_transition_example =
    Reaches-validate_transition hashing fresh "conflicting maintenance generation"
      (bound-Valid (some (record { cluster_id = 77; node_id = 1 })))
      (Reaches-run fresh fresh commands Reaches.here commands_ok)
