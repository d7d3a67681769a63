-- ===== src/Durability/Fences.antt =====
-- What the tracker's fences show: the recovery fence across an install, and the test of a snapshot.
use dal_service.Prelude.{
  ℕ, ◌<◌, ◌≡◌, ◌↔◌, ◌⊎◌, refl, inl, inr, Bool, Option, none, some, arith, Option-cases,
}
use dal_service.Codec.{ok}
use dal_service.Durability.LogIds.{RaftLogId, raft_log_eq, raft_log_beq_iff, advance}
use dal_service.Durability.Tracker.{
  ApplyDurabilityLimits, GroupState, begin, begin_open, visible, take_out, settle, durable, cancel,
  fail, installed_at, installed, begin_recovery_attempt, mark_open, mark_recovery_ready,
  validate_watermark, validate_install, begin_close,
}
use dal_service.Durability.Steps.{
  Call, begins, becomes_visible, becomes_durable, cancels, fails, attempts_recovery, marks_ready,
  closes, call, Reaches, stays, calls, installs, installs_in,
}

-- Calls keep the epoch and what was applied at the start of it.
abbrev SameEpoch : GroupState → GroupState → Type 0
SameEpoch s t = (t.recovery_epoch ≡ s.recovery_epoch) × (t.startup_applied ≡ s.startup_applied)

settle-SameEpoch : (s : GroupState) (x : RaftLogId) → SameEpoch s (settle s x)
unfolding settle
settle-SameEpoch s x = elim (Option-cases (take_out x s.pending)) [
  | inl missing ↦ ground arith
  | inr ((p, rest), found) ↦ ground arith
]

durable-SameEpoch : (s : GroupState) (x : RaftLogId) → SameEpoch s (durable s x)
unfolding durable settle
durable-SameEpoch s x = elim (Option-cases (take_out x s.pending)) [
  | inl missing ↦ ground arith
  | inr ((p, rest), found) ↦ ground arith
]

call-SameEpoch :
    (limits : ApplyDurabilityLimits) (s : GroupState) (c : Call) → SameEpoch s (call limits s c)
unfolding call begin begin_open visible cancel fail begin_recovery_attempt mark_recovery_ready
    mark_open begin_close
call-SameEpoch limits s (begins x entries bytes) = ground arith
call-SameEpoch limits s (becomes_visible x) = (refl, refl)
call-SameEpoch limits s (becomes_durable x) = durable-SameEpoch s x
call-SameEpoch limits s (cancels x error) = settle-SameEpoch s x
call-SameEpoch limits s (fails error) = (refl, refl)
call-SameEpoch limits s (attempts_recovery target) = (refl, refl)
call-SameEpoch limits s (marks_ready epoch target) = ground arith
call-SameEpoch limits s closes = (refl, refl)

installed_epoch :
    (t : GroupState) (x : Option RaftLogId) (fence : Bool) (epoch : ℕ)
    → (installed t x fence epoch).recovery_epoch ≡ epoch
unfolding installed
installed_epoch t x fence epoch = refl

-- A history has a later epoch at its end, or no install and the same epoch and start.
later_epoch :
    (limits : ApplyDurabilityLimits) {s t : GroupState} (r : Reaches limits s t)
    → (s.recovery_epoch < t.recovery_epoch) ⊎ ((installs_in r ≡ 0) × SameEpoch s t)
unfolding installs_in
later_epoch limits stays = inr (refl, (refl, refl))
later_epoch limits (calls t c r) = ground (arith, later_epoch limits r, call-SameEpoch limits t c)
later_epoch limits {s} (installs t x fence epoch fresh r) =
    inl (ground (arith, later_epoch limits r, installed_epoch t x fence epoch))

-- A recovery attempt takes the epoch of the state it starts in. Where it later declares the recovery
-- ready with this epoch, whatever calls and installs came between: no snapshot was installed since,
-- and so the group serves from the same start.
pub mark_recovery_ready-begin_recovery_attempt :
    (limits : ApplyDurabilityLimits) (s : GroupState) {t u : GroupState}
    (target wanted : Option RaftLogId) (r : Reaches limits (begin_recovery_attempt s wanted).1 t)
    → mark_recovery_ready t (begin_recovery_attempt s wanted).0 target ≡ ok u
    → (installs_in r ≡ 0) × (t.startup_applied ≡ s.startup_applied)
unfolding begin_recovery_attempt mark_recovery_ready
mark_recovery_ready-begin_recovery_attempt limits s target wanted r marked =
    ground (arith, later_epoch limits r)

-- A watermark passes the test of a snapshot exactly if it would advance to its log id.
validate_watermark-advance :
    (w : Option RaftLogId) (x : RaftLogId)
    → (validate_watermark w (some x) ≡ ok tt)
      ↔ (((advance w x).0 ≡ some x) × ((advance w x).1 ≡ none))
unfolding validate_watermark advance
validate_watermark-advance none x = ground arith
validate_watermark-advance (some c) x = ground (arith, raft_log_beq_iff c x, raft_log_beq_iff x c)

-- A snapshot passes validation exactly if its install would leave both watermarks at its log id and
-- the tracker sound, where the tracker has not failed.
pub validate_install-installed :
    (s : GroupState) (target : Option RaftLogId) (fence : Bool) (epoch : ℕ)
    → s.failed ≡ none
    → (validate_install s target ≡ ok tt) ↔ (
        ((installed s target fence epoch).visible_at ≡ target)
        × ((installed s target fence epoch).durable_at ≡ target)
        × ((installed s target fence epoch).failed ≡ none))
unfolding validate_install installed installed_at
validate_install-installed s none fence epoch sound = unfold validate_watermark in ground arith
validate_install-installed s (some x) fence epoch sound =
    ground
      (arith, validate_watermark-advance s.visible_at x, validate_watermark-advance s.durable_at x)
