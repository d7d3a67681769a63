-- ===== src/Durability/LogIds.antt =====
-- Raft log ids and watermarks over them, src/storage/apply_durability.rs. Of openraft's `LogId` the
-- source reads the leader's term and node and the index.
use dal_service.Prelude.{
  ℕ, ◌≡◌, ◌↔◌, Bool, true, false, not, ◌&&◌, Option, none, some, ltb, arith, Eq, ◌==◌, nat_eq,
  if◌then◌else◌,
}
use dal_service.Codec.{Error, corrupt, Result, ok, err}

pub record RaftLogId : Type 0 where
  pub term : ℕ
  pub node_id : ℕ
  pub index : ℕ

abbrev pub raft_log_beq : RaftLogId → RaftLogId → Bool
raft_log_beq a b = (a.term == b.term) && ((a.node_id == b.node_id) && (a.index == b.index))

pub raft_log_beq_iff : (a b : RaftLogId) → (raft_log_beq a b ≡ true) ↔ (a ≡ b)
raft_log_beq_iff a b = ground arith

instance abbrev pub raft_log_eq : Eq RaftLogId
raft_log_eq = record { beq = raft_log_beq; beq_iff = raft_log_beq_iff }

abbrev pub mismatch : Error
mismatch = corrupt "state durability watermark" "log id mismatch"

-- `advance`: the watermark afterwards, and the error.
unfoldable pub advance : Option RaftLogId → RaftLogId → Option RaftLogId × Option Error
advance none next = (some next, none)
advance (some previous) next =
    if (previous.index == next.index) && not (previous == next)
    then (some previous, some mismatch)
    else if ltb next.index previous.index
    then (some previous, none)
    else if previous == next
    then (some previous, none)
    else (some next, none)

-- Whether a watermark has come to a log id.
unfoldable pub reaches : Option RaftLogId → RaftLogId → Result Bool
reaches none target = ok false
reaches (some current) target =
    if ltb current.index target.index
    then ok false
    else if (current.index == target.index) && not (current == target)
    then err mismatch
    else ok true

-- `index_of(..).unwrap_or(0)`.
abbrev pub index_or_zero : Option RaftLogId → ℕ
index_or_zero none = 0
index_or_zero (some log_id) = log_id.index

-- A watermark that has reached a log id reaches it after every advance.
pub reaches-advance :
    (current : Option RaftLogId) (next target : RaftLogId)
    → reaches current target ≡ ok true
    → reaches (advance current next).0 target ≡ ok true
unfolding advance reaches
reaches-advance none next target h = ground arith
reaches-advance (some current) next target h = ground arith
