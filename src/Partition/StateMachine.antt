-- ===== src/Partition/StateMachine.antt =====
-- The data-group state machine of src/partition/state_machine.rs: sequence gate, compare-and-set,
-- and the mutations that an entry implies. A reader is a map from keys to stored bytes.
pub mod Decision
pub mod Effects
pub mod Applied
use dal_service.Prelude.{
  ℕ, ◌+◌, ◌≡◌, Bool, true, false, not, Option, none, some, List, [], ◌∷◌, ltb, ◌==◌, nat_eq, length,
  checked_add_one, if◌then◌else◌,
}
use dal_service.Codec.{Bytes, Codec, Result, ok, err, ◌>>=◌, decode}
use dal_service.Types.{
  LogId, IfVersion, DataOp, DataRequest, KeyPresence, MutationResult, op_key, max_value_bytes,
}
use dal_service.Keyspace.{recovery_epoch_key, user_key, seq_key}
use dal_service.Storage.{StateMutation, StateCf, apply_state}

pub record KeyRecord : Type 0 where
  pub version : ℕ
  pub value : Bytes

pub record SeqRecord : Type 0 where
  pub highest : ℕ
  pub digest : ℕ
  pub result : MutationResult

pub data RejectReason : Type 0 where
  recovery_epoch_mismatch : ℕ → ℕ → RejectReason
  sequence_gap : ℕ → ℕ → RejectReason
  stale_sequence : ℕ → ℕ → RejectReason
  sequence_mismatch malformed sequence_exhausted : RejectReason

pub data ApplyResult : Type 0 where
  decided : MutationResult → ApplyResult
  replayed : MutationResult → ApplyResult
  rejected : RejectReason → ApplyResult
  no_op : ApplyResult

-- `ApplyResult::mutation`.
unfoldable pub mutation : ApplyResult → Option MutationResult
mutation (decided r) = some r
mutation (replayed r) = some r
mutation (rejected _) = none
mutation no_op = none

-- bincode at the types that the state machine stores, and the digest function xxh3.
pub record Codecs : Type 0 where
  pub epochs : Codec ℕ
  pub key_records : Codec KeyRecord
  pub seq_records : Codec SeqRecord
  pub log_ids : Codec LogId
  pub data_ops : Codec DataOp
  pub xxh3_128 : Bytes → ℕ

-- `StateRead`: how an entry sees the state, committed or with pending writes over it.
abbrev pub Reader : Type 0
Reader = Bytes → Option Bytes

unfoldable pub read_state : {A : Type 0} → Codec A → Reader → Bytes → Result (Option A)
read_state c reader key = elim (reader key) [
  | none ↦ ok none
  | some bytes ↦ (do a ← decode c bytes; ok (some a))
]

-- The version test of a put.
unfoldable pub put_allowed : Option KeyRecord → Option IfVersion → Bool
put_allowed current none = true
put_allowed none (some (IfVersion.number v)) = false
put_allowed (some r) (some (IfVersion.number v)) = r.version == v
put_allowed none (some IfVersion.absent) = true
put_allowed (some r) (some IfVersion.absent) = false

-- The version test of a delete.
unfoldable pub delete_allowed : Option KeyRecord → Option IfVersion → Bool
delete_allowed current none = true
delete_allowed none (some (IfVersion.number v)) = false
delete_allowed (some r) (some (IfVersion.number v)) = r.version == v
delete_allowed current (some IfVersion.absent) = false

unfoldable pub presence : Option KeyRecord → KeyPresence
presence none = KeyPresence.absent
presence (some r) = KeyPresence.present r.version

unfoldable pub oversized : DataOp → Bool
oversized (DataOp.put key value if_version) = ltb max_value_bytes (length value)
oversized (DataOp.delete key if_version) = false

-- A delete with the create-only sentinel.
unfoldable pub delete_absent : DataOp → Bool
delete_absent (DataOp.delete key (some IfVersion.absent)) = true
delete_absent op = false

abbrev pub highest_of : Option SeqRecord → ℕ
highest_of none = 0
highest_of (some s) = s.highest

abbrev pub epoch_of : Option ℕ → ℕ
epoch_of none = 0
epoch_of (some e) = e

module _ (c : Codecs) where
  unfoldable pub digest : DataOp → ℕ
  digest op = c.xxh3_128 (c.data_ops.encode op)

  unfoldable pub key_record : Reader → Bytes → Result (Option KeyRecord)
  key_record reader key = read_state c.key_records reader (user_key key)

  unfoldable pub seq_record : Reader → ℕ → Result (Option SeqRecord)
  seq_record reader client_id = read_state c.seq_records reader (seq_key client_id)

  -- The version and the value of a key.
  unfoldable pub get : Reader → Bytes → Result (Option (ℕ × Bytes))
  get reader key = do
    record_of_key ← key_record reader key
    elim record_of_key [ none ↦ ok none | some r ↦ ok (some (r.version, r.value)) ]

  unfoldable pub decide_put :
      Option KeyRecord
      → Bytes
      → Bytes
      → Option IfVersion
      → ℕ
      → MutationResult × Option StateMutation
  decide_put current key value if_version log_index =
      if not (put_allowed current if_version)
      then (MutationResult.condition_failed (presence current), none)
      else (
        MutationResult.applied log_index,
        some (
            StateMutation.put (user_key key)
              (c.key_records.encode (record { version = log_index; value = value }))),
      )

  unfoldable pub decide_delete :
      Option KeyRecord → Bytes → Option IfVersion → ℕ → MutationResult × Option StateMutation
  decide_delete current key if_version log_index =
      if not (delete_allowed current if_version)
      then (MutationResult.condition_failed (presence current), none)
      else (
        MutationResult.applied log_index,
        elim current [ none ↦ none | some r ↦ some (StateMutation.delete (user_key key)) ],
      )

  unfoldable pub decide_at : Option KeyRecord → DataOp → ℕ → MutationResult × Option StateMutation
  decide_at current (DataOp.put key value if_version) log_index =
      decide_put current key value if_version log_index
  decide_at current (DataOp.delete key if_version) log_index =
      decide_delete current key if_version log_index

  unfoldable pub decide : Reader → DataOp → ℕ → Result (MutationResult × Option StateMutation)
  decide reader op log_index = do
    current ← key_record reader (op_key op)
    ok (decide_at current op log_index)

  -- The branch where `sequence == highest`.
  unfoldable pub replay : Option SeqRecord → DataRequest → ApplyResult
  replay none req = rejected (stale_sequence 0 req.sequence)
  replay (some s) req =
      if s.digest == digest req.op then replayed s.result else rejected sequence_mismatch

  -- The branch where `sequence == highest + 1`.
  unfoldable pub decide_next : Reader → DataRequest → ℕ → Result (ApplyResult × List StateMutation)
  decide_next reader req log_index = do
    (result, key_mutation) ← decide reader req.op log_index
    let seq_mutation = StateMutation.put (seq_key req.client_id) (
        c.seq_records.encode
          (record { highest = req.sequence; digest = digest req.op; result = result }))
    ok (
      decided result,
      elim key_mutation [ none ↦ seq_mutation ∷ [] | some m ↦ m ∷ seq_mutation ∷ [] ],
    )

  -- The sequence gate, over the client's record.
  unfoldable pub gate :
      Reader → DataRequest → ℕ → Option SeqRecord → Result (ApplyResult × List StateMutation)
  gate reader req log_index seq =
      let highest = highest_of seq in
      if req.sequence == highest
      then ok (replay seq req, [])
      else if ltb req.sequence highest
      then ok (rejected (stale_sequence highest req.sequence), [])
      else elim (checked_add_one highest) [
        | none ↦ ok (rejected sequence_exhausted, [])
        | some expected ↦
            if ltb expected req.sequence
            then ok (rejected (sequence_gap expected req.sequence), [])
            else decide_next reader req log_index
      ]

  -- `DataStateMachine::evaluate`: the outcome of a committed entry, and what it writes.
  unfoldable pub evaluate : Reader → DataRequest → ℕ → Result (ApplyResult × List StateMutation)
  evaluate reader req log_index = do
    stored ← read_state c.epochs reader recovery_epoch_key
    let recovery_epoch = epoch_of stored
    if not (req.recovery_epoch == recovery_epoch)
        then ok (rejected (recovery_epoch_mismatch recovery_epoch req.recovery_epoch), [])
        else if oversized req.op
        then ok (rejected malformed, [])
        else if delete_absent req.op
        then ok (rejected malformed, [])
        else do seq ← seq_record reader req.client_id; gate reader req log_index seq

  -- `DataStateMachine::apply`, one entry to one atomic write; an error writes nothing.
  unfoldable pub apply : StateCf → DataRequest → ℕ → Result (ApplyResult × StateCf)
  apply cf req log_index = do
    (result, mutations) ← evaluate cf req log_index
    ok (result, apply_state c.log_ids cf mutations (record { term = 0; index = log_index }))
