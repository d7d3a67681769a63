-- ===== src/Tests/Fixtures.antt =====
-- Codecs into lists of numbers, in place of bincode, and hash functions, in place of SHA-256 and
-- xxh3: what the models take as parameters, at concrete functions.
use dal_service.Prelude.{
  ℕ, zero, suc, ◌≡◌, refl, ap, ◌+◌, Option, none, some, [], ◌∷◌, ◌++◌, length,
}
use dal_service.Codec.{Bytes, Codec}
use dal_service.Types.{LogId, IfVersion, DataOp, KeyPresence, MutationResult}
use dal_service.Partition.StateMachine.{Codecs, KeyRecord, SeqRecord}
use dal_service.Partition.Coalesce.{Applied, Raft, StoredMembership}
use dal_service.Search.Definition.{Hashing}

abbrev read_number : Bytes → Option ℕ
read_number (n ∷ []) = some n
read_number _ = none

abbrev numbers : Codec ℕ
numbers = record { encode = λ n. n ∷ []; deserialize = read_number; deserialize-encode = λ n. refl }

abbrev read_log_id : Bytes → Option LogId
read_log_id (t ∷ i ∷ []) = some (record { term = t; index = i })
read_log_id _ = none

abbrev log_ids : Codec LogId
log_ids = record {
  encode = λ l. l.term ∷ l.index ∷ [];
  deserialize = read_log_id;
  deserialize-encode = λ l. refl;
}

abbrev read_key_record : Bytes → Option KeyRecord
read_key_record [] = none
read_key_record (v ∷ bs) = some (record { version = v; value = bs })

abbrev key_records : Codec KeyRecord
key_records = record {
  encode = λ r. r.version ∷ r.value;
  deserialize = read_key_record;
  deserialize-encode = λ r. refl;
}

abbrev pub write_result : MutationResult → Bytes
write_result (MutationResult.applied v) = 0 ∷ v ∷ []
write_result (MutationResult.condition_failed KeyPresence.absent) = 1 ∷ []
write_result (MutationResult.condition_failed (KeyPresence.present v)) = 2 ∷ v ∷ []

abbrev pub read_result : Bytes → Option MutationResult
read_result (zero ∷ v ∷ []) = some (MutationResult.applied v)
read_result (suc zero ∷ []) = some (MutationResult.condition_failed KeyPresence.absent)
read_result (suc (suc zero) ∷ v ∷ []) =
    some (MutationResult.condition_failed (KeyPresence.present v))
read_result _ = none

pub read_result-write_result : (m : MutationResult) → read_result (write_result m) ≡ some m
read_result-write_result (MutationResult.applied v) = refl
read_result-write_result (MutationResult.condition_failed KeyPresence.absent) = refl
read_result-write_result (MutationResult.condition_failed (KeyPresence.present v)) = refl

abbrev pub with_result : ℕ → ℕ → Option MutationResult → Option SeqRecord
with_result h d none = none
with_result h d (some m) = some (record { highest = h; digest = d; result = m })

abbrev read_seq_record : Bytes → Option SeqRecord
read_seq_record (h ∷ d ∷ bs) = with_result h d (read_result bs)
read_seq_record _ = none

abbrev seq_records : Codec SeqRecord
seq_records = record {
  encode = λ r. r.highest ∷ r.digest ∷ write_result r.result;
  deserialize = read_seq_record;
  deserialize-encode = λ r. ap (with_result r.highest r.digest) (read_result-write_result r.result);
}

abbrev pub write_condition : Option IfVersion → Bytes → Bytes
write_condition none bs = 0 ∷ 0 ∷ bs
write_condition (some (IfVersion.number v)) bs = 1 ∷ v ∷ bs
write_condition (some IfVersion.absent) bs = 2 ∷ 0 ∷ bs

abbrev pub read_condition : ℕ → ℕ → Option IfVersion
read_condition (suc zero) v = some (IfVersion.number v)
read_condition (suc (suc zero)) v = some IfVersion.absent
read_condition _ v = none

abbrev pub split_bytes : ℕ → Bytes → Bytes × Bytes
split_bytes zero bs = ([], bs)
split_bytes (suc n) [] = ([], [])
split_bytes (suc n) (b ∷ bs) = let (k, v) = split_bytes n bs in (b ∷ k, v)

split_bytes-append : (k v : Bytes) → split_bytes (length k) (k ++ v) ≡ (k, v)
split_bytes-append [] v = refl
split_bytes-append (b ∷ k) v = ap (λ (p : Bytes × Bytes). (b ∷ p.0, p.1)) (split_bytes-append k v)

abbrev pub write_op : DataOp → Bytes
write_op (DataOp.put k v c) = 0 ∷ write_condition c (length k ∷ k ++ v)
write_op (DataOp.delete k c) = 1 ∷ write_condition c k

abbrev pub put_of : Option IfVersion → Bytes × Bytes → Option DataOp
put_of c (k, v) = some (DataOp.put k v c)

abbrev pub read_op : Bytes → Option DataOp
read_op (zero ∷ t ∷ x ∷ n ∷ bs) = put_of (read_condition t x) (split_bytes n bs)
read_op (suc zero ∷ t ∷ x ∷ bs) = some (DataOp.delete bs (read_condition t x))
read_op _ = none

pub read_op-write_op : (op : DataOp) → read_op (write_op op) ≡ some op
read_op-write_op (DataOp.put k v none) = ap (put_of none) (split_bytes-append k v)
read_op-write_op (DataOp.put k v (some (IfVersion.number n))) =
    ap (put_of (some (IfVersion.number n))) (split_bytes-append k v)
read_op-write_op (DataOp.put k v (some IfVersion.absent)) =
    ap (put_of (some IfVersion.absent)) (split_bytes-append k v)
read_op-write_op (DataOp.delete k none) = refl
read_op-write_op (DataOp.delete k (some (IfVersion.number n))) = refl
read_op-write_op (DataOp.delete k (some IfVersion.absent)) = refl

abbrev ops : Codec DataOp
ops = record { encode = write_op; deserialize = read_op; deserialize-encode = read_op-write_op }

abbrev total : Bytes → ℕ
total [] = 0
total (b ∷ bs) = b + total bs

abbrev pub codecs : Codecs
codecs = record {
  epochs = numbers;
  key_records = key_records;
  seq_records = seq_records;
  log_ids = log_ids;
  data_ops = ops;
  xxh3_128 = total;
}

abbrev pub write_id : Option LogId → Bytes → Bytes
write_id none bs = 0 ∷ bs
write_id (some l) bs = 1 ∷ l.term ∷ l.index ∷ bs

abbrev pub plain : Option LogId → StoredMembership (Unit {0})
plain l = record { set_at = l; value = tt }

abbrev pub id_of : ℕ → ℕ → LogId
id_of t i = record { term = t; index = i }

abbrev pub read_applied_record : Bytes → Option (Applied (Unit {0}))
read_applied_record (zero ∷ zero ∷ []) = some (none, plain none)
read_applied_record (zero ∷ suc zero ∷ t ∷ i ∷ []) = some (none, plain (some (id_of t i)))
read_applied_record (suc zero ∷ t ∷ i ∷ zero ∷ []) = some (some (id_of t i), plain none)
read_applied_record (suc zero ∷ t ∷ i ∷ suc zero ∷ u ∷ j ∷ []) =
    some (some (id_of t i), plain (some (id_of u j)))
read_applied_record _ = none

pub read_applied_record-write :
    (a b : Option LogId) → read_applied_record (write_id a (write_id b [])) ≡ some (a, plain b)
read_applied_record-write none none = refl
read_applied_record-write none (some b) = refl
read_applied_record-write (some a) none = refl
read_applied_record-write (some a) (some b) = refl

abbrev pub raft : Raft (Unit {0})
raft = record {
  codecs = codecs;
  applied = record {
    encode = λ a. write_id a.0 (write_id a.1.set_at []);
    deserialize = read_applied_record;
    deserialize-encode = λ a. read_applied_record-write a.0 a.1.set_at;
  };
  initial = plain none;
}

abbrev pub hashing : Hashing
hashing = record { definitions = λ d. 1 ∷ []; records = λ r. 1 ∷ []; sha256 = λ bs. total bs ∷ [] }
