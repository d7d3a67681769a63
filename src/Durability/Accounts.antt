-- ===== src/Durability/Accounts.antt =====
-- The totals of the batches that are visible and not yet durable.
use dal_service.Prelude.{
  ℕ, ◌+◌, ◌≤◌, ◌<◌, ◌≡◌, Bool, Option, none, some, List, [], ◌∷◌, ◌++◌, u64_max, arith, inl, inr,
  Option-cases,
}
use dal_service.Durability.LogIds.{RaftLogId, raft_log_eq}
use dal_service.Durability.Tracker.{
  ApplyDurabilityLimits, PendingApply, GroupState, begin, begin_open, visible, take_out, settle,
  durable, cancel, fail, installed_at, installed, begin_recovery_attempt, mark_open,
  mark_recovery_ready, begin_close,
}
use dal_service.Durability.Steps.{
  after_begin, after_mark, Call, begins, becomes_visible, becomes_durable, cancels, fails,
  attempts_recovery, marks_ready, closes, call, Reaches, stays, calls, installs,
}

unfoldable pub total_entries : List PendingApply → ℕ
total_entries [] = 0
total_entries (p ∷ ps) = p.entries + total_entries ps

unfoldable pub total_bytes : List PendingApply → ℕ
total_bytes [] = 0
total_bytes (p ∷ ps) = p.bytes + total_bytes ps

-- The counters are the totals of the pending batches, and are within the limits.
pub record IsAccounted (limits : ApplyDurabilityLimits) (s : GroupState) : Type 0 where
  pub entries : s.pending_entries ≡ total_entries s.pending
  pub bytes : s.pending_bytes ≡ total_bytes s.pending
  pub entries_fit : s.pending_entries ≤ limits.max_pending_entries
  pub bytes_fit : s.pending_bytes ≤ limits.max_pending_bytes

totals_snoc :
    (ps : List PendingApply) (p : PendingApply)
    → (total_entries (ps ++ p ∷ []) ≡ total_entries ps + p.entries)
      × (total_bytes (ps ++ p ∷ []) ≡ total_bytes ps + p.bytes)
unfolding total_entries total_bytes
totals_snoc [] p = omega arith
totals_snoc (q ∷ ps) p = omega (arith, totals_snoc ps p)

totals-take_out :
    (log_id : RaftLogId) (ps : List PendingApply) {p : PendingApply} {rest : List PendingApply}
    → take_out log_id ps ≡ some (p, rest)
    → (total_entries ps ≡ p.entries + total_entries rest)
      × (total_bytes ps ≡ p.bytes + total_bytes rest)
unfolding take_out total_entries total_bytes
totals-take_out log_id [] found = ground arith
totals-take_out log_id (q ∷ ps) found = elim (Option-cases (take_out log_id ps)) [
  | inl missing ↦ ground arith
  | inr ((p', rest'), there) ↦ ground (arith, totals-take_out log_id ps there)
]

module _ (limits : ApplyDurabilityLimits) (s : GroupState) (v : IsAccounted limits s) where
  settle-IsAccounted : (log_id : RaftLogId) → IsAccounted limits (settle s log_id)
  unfolding settle
  settle-IsAccounted log_id = elim (Option-cases (take_out log_id s.pending)) [
    | inl missing ↦ ground arith
    | inr ((p, rest), found) ↦ ground (arith, totals-take_out log_id s.pending found)
  ]

  begin-IsAccounted :
      limits.max_pending_entries < u64_max
      → limits.max_pending_bytes < u64_max
      → (log_id : RaftLogId) (entries bytes : ℕ)
      → IsAccounted limits (after_begin s (begin s log_id entries bytes limits))
  unfolding begin begin_open
  begin-IsAccounted small_entries small_bytes log_id entries bytes =
      ground (
        arith,
        totals_snoc s.pending (record { log_id = log_id; entries = entries; bytes = bytes }),
      )

  installed_at-IsAccounted :
      (log_id : Option RaftLogId) → IsAccounted limits (installed_at s log_id)
  unfolding installed_at
  installed_at-IsAccounted none = v
  installed_at-IsAccounted (some log_id) = ground arith

  installed-IsAccounted :
      (log_id : Option RaftLogId) (fence : Bool) (epoch : ℕ)
      → IsAccounted limits (installed s log_id fence epoch)
  unfolding installed
  installed-IsAccounted log_id fence epoch =
      let u = installed_at-IsAccounted log_id in
      record {
        entries = u.entries;
        bytes = u.bytes;
        entries_fit = u.entries_fit;
        bytes_fit = u.bytes_fit;
      }

  mark_recovery_ready-IsAccounted :
      (epoch : ℕ) (target : Option RaftLogId)
      → IsAccounted limits (after_mark s (mark_recovery_ready s epoch target))
  unfolding mark_recovery_ready mark_open
  mark_recovery_ready-IsAccounted epoch target = ground arith

call-IsAccounted :
    (limits : ApplyDurabilityLimits) (s : GroupState)
    → limits.max_pending_entries < u64_max
    → limits.max_pending_bytes < u64_max
    → (c : Call) → IsAccounted limits s
    → IsAccounted limits (call limits s c)
unfolding call visible durable cancel fail begin_recovery_attempt begin_close
call-IsAccounted limits s small small' (begins log_id entries bytes) v =
    begin-IsAccounted limits s v small small' log_id entries bytes
call-IsAccounted limits s small small' (becomes_visible log_id) v = ground arith
call-IsAccounted limits s small small' (becomes_durable log_id) v =
    settle-IsAccounted limits _
      (record {
        entries = v.entries;
        bytes = v.bytes;
        entries_fit = v.entries_fit;
        bytes_fit = v.bytes_fit;
      })
      log_id
call-IsAccounted limits s small small' (cancels log_id error) v =
    let u = settle-IsAccounted limits s v log_id in
    record {
      entries = u.entries;
      bytes = u.bytes;
      entries_fit = u.entries_fit;
      bytes_fit = u.bytes_fit;
    }
call-IsAccounted limits s small small' (fails error) v = ground arith
call-IsAccounted limits s small small' (attempts_recovery target) v = ground arith
call-IsAccounted limits s small small' (marks_ready epoch target) v =
    mark_recovery_ready-IsAccounted limits s v epoch target
call-IsAccounted limits s small small' closes v = ground arith

-- Where the limits are below the greatest `usize`, in every state that the tracker reaches from one
-- where this holds, as at its creation: the counters of pending entries and bytes are the totals of
-- the batches that are not yet durable, and are within the limits.
pub Reaches-IsAccounted :
    (limits : ApplyDurabilityLimits) {s t : GroupState}
    → limits.max_pending_entries < u64_max
    → limits.max_pending_bytes < u64_max
    → Reaches limits s t
    → IsAccounted limits s
    → IsAccounted limits t
Reaches-IsAccounted limits small small' stays v = v
Reaches-IsAccounted limits small small' (calls t c r) v =
    call-IsAccounted limits t small small' c (Reaches-IsAccounted limits small small' r v)
Reaches-IsAccounted limits small small' (installs t log_id fence epoch fresh r) v =
    installed-IsAccounted limits t (Reaches-IsAccounted limits small small' r v) log_id fence epoch
