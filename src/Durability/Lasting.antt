-- ===== src/Durability/Lasting.antt =====
-- What lasts in a group's tracker: a failure, and a watermark that has come to a log id.
use dal_service.Prelude.{
  ℕ, ◌≡◌, ◌≢◌, ◌∙◌, ◌⊎◌, refl, inl, inr, Bool, true, Option, none, some, String, arith,
  Option-cases,
}
use dal_service.Codec.{io, ok, err}
use dal_service.Durability.LogIds.{RaftLogId, raft_log_eq, advance, reaches, reaches-advance}
use dal_service.Durability.Tracker.{
  ApplyDurabilityLimits, GroupState, begin, begin_open, visible, take_out, settle, durable, cancel,
  fail, installed_at, installed, begin_recovery_attempt, mark_open, mark_recovery_ready,
  validate_install, begin_close, wait_durable_round, wait_visible_round, drain_round, first_failure,
  message_of,
}
use dal_service.Durability.Steps.{
  after_begin, after_mark, Call, begins, becomes_visible, becomes_durable, cancels, fails,
  attempts_recovery, marks_ready, closes, call, Reaches, stays, calls, installs,
}

-- What a call leaves of a state: its failure, and what its watermarks reach.
record Lasts (s t : GroupState) : Type 0 where
  failure : (reason : String) → s.failed ≡ some reason → t.failed ≡ some reason
  durable_reaches :
      (x : RaftLogId) → reaches s.durable_at x ≡ ok true → reaches t.durable_at x ≡ ok true
  visible_reaches :
      (x : RaftLogId) → reaches s.visible_at x ≡ ok true → reaches t.visible_at x ≡ ok true

-- An operation that touches none of them.
same_Lasts :
    (s t : GroupState)
    → t.failed ≡ s.failed
    → t.durable_at ≡ s.durable_at
    → t.visible_at ≡ s.visible_at
    → Lasts s t
same_Lasts s t failed durable_at visible_at = record {
  failure = λ reason h. failed ∙ h;
  durable_reaches = λ x h. rw durable_at h;
  visible_reaches = λ x h. rw visible_at h;
}

settle_same :
    (s : GroupState) (log_id : RaftLogId)
    → ((settle s log_id).failed ≡ s.failed)
      × ((settle s log_id).durable_at ≡ s.durable_at)
      × ((settle s log_id).visible_at ≡ s.visible_at)
unfolding settle
settle_same s log_id = elim (Option-cases (take_out log_id s.pending)) [
  | inl missing ↦ ground arith
  | inr ((p, rest), found) ↦ ground arith
]

durable_fields :
    (s : GroupState) (log_id : RaftLogId)
    → ((durable s log_id).failed
        ≡ first_failure s.failed (message_of (advance s.durable_at log_id).1))
      × ((durable s log_id).durable_at ≡ (advance s.durable_at log_id).0)
      × ((durable s log_id).visible_at ≡ s.visible_at)
unfolding durable settle
durable_fields s log_id = elim (Option-cases (take_out log_id s.pending)) [
  | inl missing ↦ ground arith
  | inr ((p, rest), found) ↦ ground arith
]

begin_same :
    (limits : ApplyDurabilityLimits) (s : GroupState) (log_id : RaftLogId) (entries bytes : ℕ)
    → let t = after_begin s (begin s log_id entries bytes limits) in
      (t.failed ≡ s.failed) × (t.durable_at ≡ s.durable_at) × (t.visible_at ≡ s.visible_at)
unfolding begin begin_open
begin_same limits s log_id entries bytes = ground arith

mark_same :
    (s : GroupState) (epoch : ℕ) (target : Option RaftLogId)
    → let t = after_mark s (mark_recovery_ready s epoch target) in
      (t.failed ≡ s.failed) × (t.durable_at ≡ s.durable_at) × (t.visible_at ≡ s.visible_at)
unfolding mark_recovery_ready mark_open
mark_same s epoch target = ground arith

call-Lasts :
    (limits : ApplyDurabilityLimits) (s : GroupState) (c : Call) → Lasts s (call limits s c)
unfolding call visible cancel fail begin_recovery_attempt begin_close
call-Lasts limits s (begins log_id entries bytes) =
    let (f, d, v) = begin_same limits s log_id entries bytes in same_Lasts s _ f d v
call-Lasts limits s (becomes_visible log_id) = record {
  failure = λ reason h. ground arith;
  durable_reaches = λ x h. h;
  visible_reaches = λ x h. reaches-advance s.visible_at log_id x h;
}
call-Lasts limits s (becomes_durable log_id) =
    let (f, d, v) = durable_fields s log_id in
    record {
      failure = λ reason h. ground (arith, f);
      durable_reaches = λ x h. rw d (reaches-advance s.durable_at log_id x h);
      visible_reaches = λ x h. rw v h;
    }
call-Lasts limits s (cancels log_id error) =
    let (f, d, v) = settle_same s log_id in
    record {
      failure = λ reason h. ground (arith, f);
      durable_reaches = λ x h. rw d h;
      visible_reaches = λ x h. rw v h;
    }
call-Lasts limits s (fails error) = record {
  failure = λ reason h. ground arith;
  durable_reaches = λ x h. h;
  visible_reaches = λ x h. h;
}
call-Lasts limits s (attempts_recovery target) = same_Lasts s _ refl refl refl
call-Lasts limits s (marks_ready epoch target) =
    let (f, d, v) = mark_same s epoch target in same_Lasts s _ f d v
call-Lasts limits s closes = same_Lasts s _ refl refl refl

installed-Lasts :
    (s : GroupState) (log_id : Option RaftLogId) (fence : Bool) (epoch : ℕ)
    → Lasts s (installed s log_id fence epoch)
unfolding installed installed_at
installed-Lasts s none fence epoch = same_Lasts s _ refl refl refl
installed-Lasts s (some log_id) fence epoch = record {
  failure = λ reason h. ground arith;
  durable_reaches = λ x h. reaches-advance s.durable_at log_id x h;
  visible_reaches = λ x h. reaches-advance s.visible_at log_id x h;
}

trans-Lasts : (s t u : GroupState) → Lasts s t → Lasts t u → Lasts s u
trans-Lasts s t u a b = record {
  failure = λ reason h. b.failure reason (a.failure reason h);
  durable_reaches = λ x h. b.durable_reaches x (a.durable_reaches x h);
  visible_reaches = λ x h. b.visible_reaches x (a.visible_reaches x h);
}

Reaches-Lasts : (limits : ApplyDurabilityLimits) {s t : GroupState} → Reaches limits s t → Lasts s t
Reaches-Lasts limits stays = same_Lasts _ _ refl refl refl
Reaches-Lasts limits {s} (calls t c r) =
    trans-Lasts s t _ (Reaches-Lasts limits r) (call-Lasts limits t c)
Reaches-Lasts limits {s} (installs t log_id fence epoch fresh r) =
    trans-Lasts s t _ (Reaches-Lasts limits r) (installed-Lasts t log_id fence epoch)

-- A tracker that has failed keeps the reason, whatever calls follow, in any order: it admits no
-- batch, every wait for durability or visibility and every drain ends with the reason, recovery is
-- not declared ready, and no snapshot passes validation.
pub failed_for_good :
    (limits : ApplyDurabilityLimits) {s t : GroupState} {reason : String}
    → Reaches limits s t
    → s.failed ≡ some reason
    → ((x : RaftLogId) (entries bytes : ℕ) → begin t x entries bytes limits ≡ err (io reason))
      × ((x : RaftLogId) → wait_durable_round t x ≡ err (io reason))
      × ((x : RaftLogId) → wait_visible_round t x ≡ err (io reason))
      × (drain_round t ≡ err (io reason))
      × ((epoch : ℕ) (target : Option RaftLogId) (u : GroupState)
          → mark_recovery_ready t epoch target ≢ ok u)
      × ((target : Option RaftLogId) → validate_install t target ≡ err (io reason))
unfolding begin wait_durable_round wait_visible_round drain_round mark_recovery_ready
    validate_install
failed_for_good limits {reason} r failed =
    let still = (Reaches-Lasts limits r).failure reason failed in
    (
      λ x entries bytes. rw still,
      λ x. rw still,
      λ x. rw still,
      rw still,
      λ epoch target u h. ground arith,
      λ target. rw still,
    )

-- A log id that a wait has found durable is durable for good: a later wait for it is over too, or
-- the tracker has failed.
pub durable_for_good :
    (limits : ApplyDurabilityLimits) {s t : GroupState} (x : RaftLogId)
    → Reaches limits s t
    → wait_durable_round s x ≡ ok true
    → (wait_durable_round t x ≡ ok true) ⊎ ((reason : String) × (t.failed ≡ some reason))
unfolding wait_durable_round
durable_for_good limits {s} {t} x r over = elim (Option-cases t.failed) [
  | inl sound ↦ inl (rw sound ((Reaches-Lasts limits r).durable_reaches x (ground arith)))
  | inr failure ↦ inr failure
]
