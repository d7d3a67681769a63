-- ===== src/Tests/Durability.antt =====
-- The theorems about durability, at a data group with two batches.
use dal_service.Prelude.{◌≡◌, ◌≢◌, ◌↔◌, ◌⊎◌, refl, false, true, none, some, String, arith}
use dal_service.Codec.{ok}
use dal_service.Types.{data_group, group_eq}
use dal_service.Durability.LogIds.{RaftLogId, advance, reaches, raft_log_eq}
use dal_service.Durability.Tracker
use dal_service.Durability.Tracker.{ApplyDurabilityLimits, GroupState, new}
use dal_service.Durability.Steps.{
  begins, becomes_visible, becomes_durable, call, Reaches, installs_in,
}
use dal_service.Durability.Accounts.{IsAccounted, total_entries, total_bytes, Reaches-IsAccounted}
use dal_service.Durability.Lasting.{durable_for_good}
use dal_service.Durability.Fences.{
  mark_recovery_ready-begin_recovery_attempt, validate_install-installed,
}
use dal_service.Durability.Registry
use dal_service.Durability.Registry.{ApplyDurabilityRegistry, with_limits}
use dal_service.Durability.Registry.Poisoned.{Steps, Refuses, conflict-Refuses}

abbrev limits : ApplyDurabilityLimits
limits = record { max_pending_entries = 100; max_pending_bytes = 1000 }

abbrev first : RaftLogId
first = record { term = 1; node_id = 1; index = 4 }

abbrev second : RaftLogId
second = record { term = 1; node_id = 1; index = 9 }

-- Another entry at the index of the first.
abbrev rival : RaftLogId
rival = record { term = 2; node_id = 3; index = 4 }

abbrev start : GroupState
start = new none false 1

abbrev busy : GroupState
busy = call limits (call limits start (begins first 3 40)) (begins second 5 60)

busy_reached : Reaches limits start busy
busy_reached =
    Reaches.calls _ (begins second 5 60) (Reaches.calls start (begins first 3 40) Reaches.stays)

start-IsAccounted : IsAccounted limits start
unfolding total_entries total_bytes
start-IsAccounted = omega arith

-- Two batches are counted, and one that becomes durable no longer is.
busy_entries : (call limits busy (becomes_durable first)).pending_entries ≡ 5
unfolding call Tracker.begin Tracker.begin_open Tracker.durable Tracker.settle Tracker.take_out
    advance
busy_entries = refl

Reaches-IsAccounted_example : IsAccounted limits (call limits busy (becomes_durable first))
Reaches-IsAccounted_example =
    Reaches-IsAccounted limits (omega arith) (omega arith)
      (Reaches.calls busy (becomes_durable first) busy_reached) start-IsAccounted

abbrev flushed : GroupState
flushed = call limits start (becomes_durable first)

flushed_over : Tracker.wait_durable_round flushed first ≡ ok true
unfolding call Tracker.durable Tracker.settle Tracker.take_out advance Tracker.wait_durable_round
    reaches
flushed_over = refl

durable_for_good_example :
    (Tracker.wait_durable_round (call limits flushed (becomes_durable second)) first ≡ ok true)
    ⊎ ((reason : String) × ((call limits flushed (becomes_durable second)).failed ≡ some reason))
durable_for_good_example =
    durable_for_good limits first (Reaches.calls flushed (becomes_durable second) Reaches.stays)
      flushed_over

-- A recovery attempt whose target becomes visible.
abbrev recovering : GroupState
recovering = (Tracker.begin_recovery_attempt start (some first)).1

abbrev caught_up : GroupState
caught_up = call limits recovering (becomes_visible second)

marked :
    Tracker.mark_recovery_ready caught_up
      (Tracker.begin_recovery_attempt start (some first)).0
      (some first)
    ≡ ok (record caught_up { recovery_ready = true; recovery_target = some first })
unfolding call Tracker.visible Tracker.replayed advance reaches Tracker.begin_recovery_attempt
    Tracker.mark_recovery_ready Tracker.mark_open Tracker.reaches_target
marked = refl

abbrev catching_up : Reaches limits recovering caught_up
catching_up = Reaches.calls recovering (becomes_visible second) Reaches.stays

mark_recovery_ready-begin_recovery_attempt_example :
    (installs_in catching_up ≡ 0) × (caught_up.startup_applied ≡ start.startup_applied)
mark_recovery_ready-begin_recovery_attempt_example =
    mark_recovery_ready-begin_recovery_attempt limits start (some first) (some first) catching_up
      marked

abbrev recovered : GroupState
recovered = new (some second) true 1

validate_install-installed_example : (Tracker.validate_install recovered (some first) ≡ ok tt) ↔ (
    ((Tracker.installed recovered (some first) true 2).visible_at ≡ some first)
    × ((Tracker.installed recovered (some first) true 2).durable_at ≡ some first)
    × ((Tracker.installed recovered (some first) true 2).failed ≡ none))
validate_install-installed_example = validate_install-installed recovered (some first) true 2 refl

-- A group whose recovered state ends at the first entry meets its rival, beside another group.
abbrev database : ApplyDurabilityRegistry
database =
    Registry.register (Registry.register (with_limits 1) (data_group 2) (some first)) (data_group 3)
      (some second)

at_first : (Registry.tracker database (data_group 2)).0.visible_at ≡ some first
unfolding Registry.register_at
at_first = refl

rivals_differ : first ≢ rival
rivals_differ = ground arith

abbrev poisoned : ApplyDurabilityRegistry
poisoned = Registry.visible database (data_group 2) rival

abbrev bystander : GroupState
bystander = record (new (some second) false 2) {
  failed = some "corrupt on-disk record in state durability watermark: log id mismatch";
}

bystander_held : poisoned.groups (data_group 3) ≡ some bystander
unfolding Registry.register_at Registry.visible Registry.spread_failure Registry.fail_all
    Registry.poison Tracker.fail Tracker.visible Tracker.replayed advance
bystander_held = refl

conflict-Refuses_example :
    ((reason : String) × Refuses limits (call limits bystander (becomes_visible second)) reason)
    × ((reason : String) × Refuses limits
          (Registry.tracker (Registry.remove poisoned (data_group 2)) (data_group 5)).0
          reason)
conflict-Refuses_example =
    conflict-Refuses limits database (data_group 2) rival first (data_group 3) (data_group 5)
      at_first refl rivals_differ bystander_held
      (Reaches.calls bystander (becomes_visible second) Reaches.stays)
      (Steps.removes _ (data_group 2) Steps.stays) Reaches.stays
