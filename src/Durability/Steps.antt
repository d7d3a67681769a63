-- ===== src/Durability/Steps.antt =====
-- The histories of a group's tracker: the calls of all its users in any order, each under its lock.
use dal_service.Prelude.{ℕ, ◌+◌, ◌<◌, Bool, Option, String}
use dal_service.Codec.{Result, ok, err}
use dal_service.Durability.LogIds.{RaftLogId}
use dal_service.Durability.Tracker.{
  ApplyDurabilityLimits, GroupState, begin, visible, durable, cancel, fail, installed,
  begin_recovery_attempt, mark_recovery_ready, begin_close,
}

pub data Call : Type 0 where
  begins : RaftLogId → ℕ → ℕ → Call
  becomes_visible becomes_durable : RaftLogId → Call
  cancels : RaftLogId → String → Call
  fails : String → Call
  attempts_recovery : Option RaftLogId → Call
  marks_ready : ℕ → Option RaftLogId → Call
  closes : Call

-- The state after a call that may be refused.
abbrev pub after_begin : GroupState → Result (Bool × GroupState) → GroupState
after_begin s (ok (admitted, t)) = t
after_begin s (err _) = s

abbrev pub after_mark : GroupState → Result GroupState → GroupState
after_mark s (ok t) = t
after_mark s (err _) = s

unfoldable pub call : ApplyDurabilityLimits → GroupState → Call → GroupState
call limits s (begins log_id entries bytes) = after_begin s (begin s log_id entries bytes limits)
call limits s (becomes_visible log_id) = visible s log_id
call limits s (becomes_durable log_id) = durable s log_id
call limits s (cancels log_id error) = cancel s log_id error
call limits s (fails error) = fail s error
call limits s (attempts_recovery target) = (begin_recovery_attempt s target).1
call limits s (marks_ready epoch target) = after_mark s (mark_recovery_ready s epoch target)
call limits s closes = begin_close s

-- An installed snapshot takes an epoch that the process-wide counter has not given before.
pub data Reaches (limits : ApplyDurabilityLimits) (s : GroupState) : GroupState → Type 0 where
  stays : Reaches limits s s
  calls : (t : GroupState) (c : Call) → Reaches limits s t → Reaches limits s (call limits t c)
  installs :
      (t : GroupState) (log_id : Option RaftLogId) (requires_fence : Bool) (epoch : ℕ)
      → t.recovery_epoch < epoch
      → Reaches limits s t
      → Reaches limits s (installed t log_id requires_fence epoch)

-- How many snapshots were installed in a history.
unfoldable pub installs_in :
    {limits : ApplyDurabilityLimits} {s t : GroupState} → Reaches limits s t → ℕ
installs_in Reaches.stays = 0
installs_in (Reaches.calls t c r) = installs_in r
installs_in (Reaches.installs t log_id requires_fence epoch fresh r) = installs_in r + 1
