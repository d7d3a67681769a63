-- ===== src/Partition/Coalesce.antt =====
-- The Raft applier of src/partition/sm.rs: one write for each entry, or one for each chunk of
-- entries decided through an overlay. Of `apply_raft` (src/storage/batch.rs) the writes to the
-- state column family are modelled; observers, the log and default column families are not.
pub mod Agreement
pub mod Loop
pub mod Append
pub mod Chunks
use dal_service.Prelude.{
  ℕ, ◌≡◌, Bool, true, false, Option, none, some, List, [], ◌∷◌, ◌==◌, nat_eq, list_eq,
  if◌then◌else◌,
}
use dal_service.Codec.{Bytes, Codec, Error, Result, ok, err, ◌>>=◌}
use dal_service.Types.{LogId, DataRequest}
use dal_service.Keyspace.{raft_applied_key}
use dal_service.Storage.{StateMutation, StateCf, put_cf, write_all}
use dal_service.Partition.StateMachine.{Codecs, Reader, ApplyResult, no_op, read_state, evaluate}
use dal_service.Partition.Overlay
use dal_service.Partition.Overlay.{StateOverlay, Pending}

-- openraft's log entries and memberships, over its own membership type.
pub data Payload (M : Type 0) : Type 0 where
  blank : Payload M
  normal : DataRequest → Payload M
  membership : M → Payload M

pub record Entry (M : Type 0) : Type 0 where
  pub log_id : LogId
  pub payload : Payload M

pub record StoredMembership (M : Type 0) : Type 0 where
  pub set_at : Option LogId
  pub value : M

abbrev pub Applied : Type 0 → Type 0
Applied M = Option LogId × StoredMembership M

-- What the applier needs besides the data state machine: openraft's default membership, and
-- bincode at the applied record.
pub record Raft (M : Type 0) : Type 0 where
  pub codecs : Codecs
  pub applied : Codec (Applied M)
  pub initial : StoredMembership M

module _ {M : Type 0} (c : Raft M) where
  unfoldable pub read_applied : StateCf → Result (Applied M)
  read_applied cf = do
    stored ← read_state c.applied cf raft_applied_key
    elim stored [ none ↦ ok (none, c.initial) | some a ↦ ok a ]

  -- The state part of `Storage::apply_raft`.
  unfoldable pub apply_raft : StateCf → List StateMutation → Applied M → StateCf
  apply_raft cf mutations a = put_cf (write_all cf mutations) raft_applied_key (c.applied.encode a)

  -- One entry: its result, its mutations, and the membership after it.
  unfoldable pub decide_entry :
      Reader
      → StoredMembership M
      → LogId
      → Payload M
      → Result (ApplyResult × List StateMutation × StoredMembership M)
  decide_entry reader current log_id blank = ok (no_op, [], current)
  decide_entry reader current log_id (normal req) = do
    (result, mutations) ← evaluate c.codecs reader req log_id.index
    ok (result, mutations, current)
  decide_entry reader current log_id (membership m) =
      ok (no_op, [], record { set_at = some log_id; value = m })

  -- The loop of `apply_coalesced_chunk`: results, overlay, membership and last log id.
  unfoldable pub decide_chunk :
      StateOverlay
      → StoredMembership M
      → Option LogId
      → List (Entry M)
      → Result (List ApplyResult × StateOverlay × StoredMembership M × Option LogId)
  decide_chunk overlay current last [] = ok ([], overlay, current, last)
  decide_chunk overlay current last (e ∷ entries) = do
    (result, mutations, next) ← decide_entry (Overlay.reader overlay) current e.log_id e.payload
    (results, overlay', final, last') ←
        decide_chunk (Overlay.stage overlay mutations) next (some e.log_id) entries
    ok (result ∷ results, overlay', final, last')

  -- The write at the end of a chunk, keyed on having seen an entry.
  unfoldable pub commit_chunk :
      StateCf
      → Result (List ApplyResult × StateOverlay × StoredMembership M × Option LogId)
      → Result (List ApplyResult) × StateCf
  commit_chunk cf (err e) = (err e, cf)
  commit_chunk cf (ok (results, overlay, final, none)) = (ok results, cf)
  commit_chunk cf (ok (results, overlay, final, some log_id)) =
      (ok results, apply_raft cf (Overlay.into_mutations overlay.pending) (some log_id, final))

  -- `apply_coalesced_chunk`.
  unfoldable pub apply_coalesced_chunk :
      StateCf → List (Entry M) → Result (List ApplyResult) × StateCf
  apply_coalesced_chunk cf entries =
      commit_chunk cf
        (do (_, current) ← read_applied cf; decide_chunk (Overlay.new cf) current none entries)

  abbrev pub and_then :
      ApplyResult → Result (List ApplyResult) × StateCf → Result (List ApplyResult) × StateCf
  and_then r (ok rs, cf) = (ok (r ∷ rs), cf)
  and_then r (err e, cf) = (err e, cf)

  -- The loop of `apply_per_entry`: what was written before an error stays written.
  unfoldable pub apply_each :
      StateCf → StoredMembership M → List (Entry M) → Result (List ApplyResult) × StateCf
  apply_each cf current [] = (ok [], cf)
  apply_each cf current (e ∷ entries) = elim (decide_entry cf current e.log_id e.payload) [
    | err x ↦ (err x, cf)
    | ok (result, mutations, next) ↦
        and_then result (apply_each (apply_raft cf mutations (some e.log_id, next)) next entries)
  ]

  -- `apply_per_entry`.
  unfoldable pub apply_per_entry : StateCf → List (Entry M) → Result (List ApplyResult) × StateCf
  apply_per_entry cf entries = elim (read_applied cf) [
    | err x ↦ (err x, cf)
    | ok (_, current) ↦ apply_each cf current entries
  ]
