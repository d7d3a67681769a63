-- ===== src/Durability/Tracker.antt =====
-- The tracker of one group, `GroupTracker` of src/storage/apply_durability.rs. Each call holds the
-- lock of the state throughout, so it is a function of the state. Instants, latencies and the
-- wake-up of waiters are left out; a waiter's round is the test that it makes between two wake-ups.
use dal_service.Prelude.{
  ℕ, ◌-◌, Bool, true, false, not, ◌&&◌, ◌||◌, Option, none, some, List, [], ◌∷◌, ◌++◌, String, ltb,
  ◌==◌, nat_eq, if◌then◌else◌,
}
use Prim.Native.String.{◌++◌ as ◌<>◌}
use dal_service.Codec.{
  Error, config, rocks, codec, raft, search, io, identity_mismatch, corrupt, Result, ok, err,
}
use dal_service.Partition.Coalesce.Chunks.{saturating_add}
use dal_service.Durability.LogIds.{RaftLogId, raft_log_eq, advance, reaches, index_or_zero}

pub record ApplyDurabilityLimits : Type 0 where
  pub max_pending_entries : ℕ
  pub max_pending_bytes : ℕ

pub record PendingApply : Type 0 where
  pub log_id : RaftLogId
  pub entries : ℕ
  pub bytes : ℕ

pub record GroupState : Type 0 where
  pub visible_at : Option RaftLogId
  pub durable_at : Option RaftLogId
  pub startup_applied : Option RaftLogId
  pub pending_entries : ℕ
  pub pending_bytes : ℕ
  pub pending : List PendingApply
  pub flush_failures : ℕ
  pub recovery_ready : Bool
  pub recovery_epoch : ℕ
  pub recovery_target : Option RaftLogId
  pub recovery_attempts : ℕ
  pub replayed_entries : ℕ
  pub closing : Bool
  pub failed : Option String

-- `GroupTracker::new`, with the epoch that the process-wide counter gives.
abbrev pub new : Option RaftLogId → Bool → ℕ → GroupState
new recovered recovery_ready epoch = record {
  visible_at = recovered;
  durable_at = recovered;
  startup_applied = recovered;
  pending_entries = 0;
  pending_bytes = 0;
  pending = [];
  flush_failures = 0;
  recovery_ready = recovery_ready;
  recovery_epoch = epoch;
  recovery_target = none;
  recovery_attempts = 0;
  replayed_entries = 0;
  closing = false;
  failed = none;
}

-- `to_string`, with the numbers of `identity_mismatch` left out.
abbrev pub to_string : Error → String
to_string (config detail) = "configuration invalid: " <> detail
to_string (rocks detail) = "storage: " <> detail
to_string (codec detail) = "codec: " <> detail
to_string (raft detail) = "raft: " <> detail
to_string (search detail) = "search: " <> detail
to_string (io detail) = "io: " <> detail
to_string (identity_mismatch _ _ _ _) = "identity mismatch"
to_string (corrupt what detail) = "corrupt on-disk record in " <> (what <> (": " <> detail))

-- `if state.failed.is_none() { state.failed = Some(error) }`.
abbrev pub first_failure : Option String → Option String → Option String
first_failure (some reason) later = some reason
first_failure none later = later

-- `visible_result.err().or_else(|| durable_result.err())`.
abbrev pub first_error : Option Error → Option Error → Option Error
first_error (some error) later = some error
first_error none later = later

abbrev pub message_of : Option Error → Option String
message_of none = none
message_of (some error) = some (to_string error)

-- `begin`, where the tracker has not failed: whether the batch is admitted, and the state.
unfoldable pub begin_open :
    GroupState → RaftLogId → ℕ → ℕ → ApplyDurabilityLimits → Result (Bool × GroupState)
begin_open s log_id entries bytes limits =
    if s.closing
    then err (raft "materialized-state durability tracker is closing")
    else if ltb limits.max_pending_entries entries || ltb limits.max_pending_bytes bytes
    then err (io "materialized-state batch exceeds limits")
    else if ltb limits.max_pending_entries (saturating_add s.pending_entries entries)
        || ltb limits.max_pending_bytes (saturating_add s.pending_bytes bytes)
    then ok (false, s)
    else ok (
      true,
      record s {
        pending_entries = saturating_add s.pending_entries entries;
        pending_bytes = saturating_add s.pending_bytes bytes;
        pending = s.pending ++ record { log_id = log_id; entries = entries; bytes = bytes } ∷ [];
      },
    )

unfoldable pub begin :
    GroupState → RaftLogId → ℕ → ℕ → ApplyDurabilityLimits → Result (Bool × GroupState)
begin s log_id entries bytes limits = elim s.failed [
  | some reason ↦ err (io reason)
  | none ↦ begin_open s log_id entries bytes limits
]

-- How many entries `visible` adds to those that were replayed.
unfoldable pub replayed : GroupState → RaftLogId → ℕ
replayed s log_id =
    let previous = index_or_zero s.visible_at in
    let startup = index_or_zero s.startup_applied in
    let before = if ltb previous startup then startup else previous in
    if not s.recovery_ready && ltb before log_id.index
    then saturating_add s.replayed_entries (log_id.index - before)
    else s.replayed_entries

unfoldable pub visible : GroupState → RaftLogId → GroupState
visible s log_id =
    let (after, error) = advance s.visible_at log_id in
    record s {
      visible_at = after;
      failed = first_failure s.failed (message_of error);
      replayed_entries = replayed s log_id;
    }

-- `pending.iter().position(..)` with `pending.remove(position)`: the batch taken out, and the rest.
unfoldable pub take_out : RaftLogId → List PendingApply → Option (PendingApply × List PendingApply)
take_out log_id [] = none
take_out log_id (p ∷ ps) = elim (p.log_id == log_id) [
  | true ↦ some (p, ps)
  | false ↦ elim (take_out log_id ps) [ none ↦ none | some (q, rest) ↦ some (q, p ∷ rest) ]
]

-- A batch that is no longer pending.
unfoldable pub settle : GroupState → RaftLogId → GroupState
settle s log_id = elim (take_out log_id s.pending) [
  | none ↦ s
  | some (p, rest) ↦ record s {
    pending_entries = s.pending_entries - p.entries;
    pending_bytes = s.pending_bytes - p.bytes;
    pending = rest;
  }
]

unfoldable pub durable : GroupState → RaftLogId → GroupState
durable s log_id =
    let (after, error) = advance s.durable_at log_id in
    settle (record s { durable_at = after; failed = first_failure s.failed (message_of error) })
      log_id

unfoldable pub cancel : GroupState → RaftLogId → String → GroupState
cancel s log_id error =
    let t = settle s log_id in
    record t {
      flush_failures = saturating_add t.flush_failures 1;
      failed = first_failure t.failed (some error);
    }

unfoldable pub fail : GroupState → String → GroupState
fail s error = record s { failed = first_failure s.failed (some error) }

-- The watermarks of `installed`, at a log id.
unfoldable pub installed_at : GroupState → Option RaftLogId → GroupState
installed_at s none = s
installed_at s (some log_id) =
    let (seen, visible_error) = advance s.visible_at log_id in
    let (kept, durable_error) = advance s.durable_at log_id in
    record s {
      visible_at = seen;
      durable_at = kept;
      failed = first_failure s.failed (message_of (first_error visible_error durable_error));
    }

-- `installed`, with the epoch that the process-wide counter gives.
unfoldable pub installed : GroupState → Option RaftLogId → Bool → ℕ → GroupState
installed s log_id requires_fence epoch = record (installed_at s log_id) {
  startup_applied = log_id;
  recovery_epoch = epoch;
  recovery_ready = not requires_fence;
  recovery_target = none;
}

unfoldable pub begin_recovery_attempt : GroupState → Option RaftLogId → ℕ × GroupState
begin_recovery_attempt s target = (
  s.recovery_epoch,
  record s { recovery_attempts = saturating_add s.recovery_attempts 1; recovery_target = target },
)

-- Whether `mark_recovery_ready` finds the target reached.
unfoldable pub reaches_target : Option RaftLogId → Option RaftLogId → Result Bool
reaches_target visible_at none = ok true
reaches_target visible_at (some target) = reaches visible_at target

unfoldable pub mark_open : GroupState → Option RaftLogId → Result GroupState
mark_open s target = elim (reaches_target s.visible_at target) [
  | err reason ↦ err reason
  | ok false ↦ err (raft "materialized state has not reached recovery target")
  | ok true ↦ ok (record s { recovery_ready = true; recovery_target = target })
]

unfoldable pub mark_recovery_ready : GroupState → ℕ → Option RaftLogId → Result GroupState
mark_recovery_ready s epoch target =
    if not (s.recovery_epoch == epoch) || s.closing
    then err (raft "stale materialized-state recovery fence")
    else elim s.failed [ some reason ↦ err (io reason) | none ↦ mark_open s target ]

-- The test of one watermark against a snapshot that is to be installed.
unfoldable pub validate_watermark : Option RaftLogId → Option RaftLogId → Result (Unit {0})
validate_watermark none target = ok tt
validate_watermark (some current) none =
    err (corrupt "snapshot install" "empty snapshot would move state behind")
validate_watermark (some current) (some target) =
    if ltb target.index current.index
    then err (corrupt "snapshot install" "snapshot would move state behind")
    else if (target.index == current.index) && not (target == current)
    then err (corrupt "snapshot install" "snapshot log id conflicts with state")
    else ok tt

unfoldable pub validate_install : GroupState → Option RaftLogId → Result (Unit {0})
validate_install s target = elim s.failed [
  | some reason ↦ err (io reason)
  | none ↦ elim (validate_watermark s.visible_at target) [
    | err reason ↦ err reason
    | ok _ ↦ validate_watermark s.durable_at target
  ]
]

unfoldable pub begin_close : GroupState → GroupState
begin_close s = record s { closing = true }

-- A round of `wait_durable`, of `wait_visible` and of `drain`: whether the wait is over.
unfoldable pub wait_durable_round : GroupState → RaftLogId → Result Bool
wait_durable_round s target = elim s.failed [
  | some reason ↦ err (io reason)
  | none ↦ reaches s.durable_at target
]

unfoldable pub wait_visible_round : GroupState → RaftLogId → Result Bool
wait_visible_round s target = elim s.failed [
  | some reason ↦ err (io reason)
  | none ↦ reaches s.visible_at target
]

unfoldable pub drain_round : GroupState → Result Bool
drain_round s = elim s.failed [
  | some reason ↦ err (io reason)
  | none ↦ ok ((s.pending_entries == 0) && (s.pending_bytes == 0))
]
