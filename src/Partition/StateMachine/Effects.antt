-- ===== src/Partition/StateMachine/Effects.antt =====
-- What can be read after the writes of a decided entry.
use dal_service.Prelude.{
  ℕ, ◌≡◌, false, Option, none, some, arith, ◌==◌, nat_eq, list_eq, list_beq_iff, if◌then◌else◌,
}
use dal_service.Codec.{Bytes, Codec, ok, decode-encode}
use dal_service.Types.{IfVersion, DataOp, DataRequest, MutationResult, op_key}
use dal_service.Keyspace.{user_key, seq_key}
use dal_service.Storage.{StateMutation, StateCf, write, write_all}
use dal_service.Partition.StateMachine.{
  Codecs, KeyRecord, read_state, key_record, digest, decide_at, decide_put, decide_delete,
  put_allowed, delete_allowed, delete_absent,
}
use dal_service.Partition.StateMachine.Decision.{writes_of}
use dal_service.Partition.Register.{step, passes}

-- The state with the key's mutation written, if there is one.
abbrev pub write_option : StateCf → Option StateMutation → StateCf
write_option cf none = cf
write_option cf (some m) = write cf m

pub read_state-cong :
    {A : Type 0} (d : Codec A) (f g : Bytes → Option Bytes) (key : Bytes)
    → f key ≡ g key
    → read_state d f key ≡ read_state d g key
unfolding read_state
read_state-cong d f g key e = ground arith

pub read_state-some :
    {A : Type 0} (d : Codec A) (f : Bytes → Option Bytes) (key : Bytes) (a : A)
    → f key ≡ some (d.encode a)
    → read_state d f key ≡ ok (some a)
unfolding read_state
read_state-some d f key a e = rw (e, read_state) (rw decode-encode)

pub read_state-none :
    {A : Type 0} (d : Codec A) (f : Bytes → Option Bytes) (key : Bytes)
    → f key ≡ none
    → read_state d f key ≡ ok none
unfolding read_state
read_state-none d f key e = rw (e, read_state)

module _ (c : Codecs) where
  -- The mutation of a decision touches the user key of its operation, and no other key.
  pub write-decide_at :
      (cf : StateCf) (op : DataOp) (i : ℕ) (current : Option KeyRecord) (j : Bytes)
      → (user_key (op_key op) == j) ≡ false
      → write_option cf (decide_at c current op i).1 j ≡ cf j
  unfolding decide_at decide_put decide_delete write op_key
  write-decide_at cf op i current j h = ground arith

  put_self :
      (cf : StateCf) (key value : Bytes) (iv : Option IfVersion) (i : ℕ)
      (current : Option KeyRecord)
      → key_record c cf key ≡ ok current
      → key_record c (write_option cf (decide_at c current (DataOp.put key value iv) i).1) key
        ≡ ok (step current (DataOp.put key value iv) i).1
  unfolding decide_at decide_put put_allowed passes step key_record write
  put_self cf key value iv i current e =
      let new : KeyRecord = record { version = i; value = value } in
      let bytes = c.key_records.encode new in
      ground (
        arith,
        list_beq_iff (user_key key) (user_key key),
        read_state-some c.key_records (write cf (StateMutation.put (user_key key) bytes))
            (user_key key) new,
      )

  delete_self :
      (cf : StateCf) (key : Bytes) (iv : Option IfVersion) (i : ℕ) (current : Option KeyRecord)
      → delete_absent (DataOp.delete key iv) ≡ false
      → key_record c cf key ≡ ok current
      → key_record c (write_option cf (decide_at c current (DataOp.delete key iv) i).1) key
        ≡ ok (step current (DataOp.delete key iv) i).1
  unfolding decide_at decide_delete delete_allowed delete_absent passes step key_record write
  delete_self cf key iv i current legal e = ground (
    arith,
    list_beq_iff (user_key key) (user_key key),
    read_state-none c.key_records (write cf (StateMutation.delete (user_key key))) (user_key key),
  )

  -- The key's record after the decision is the register after the step.
  pub key_record-write_self :
      (cf : StateCf) (op : DataOp) (i : ℕ) (current : Option KeyRecord)
      → delete_absent op ≡ false
      → key_record c cf (op_key op) ≡ ok current
      → key_record c (write_option cf (decide_at c current op i).1) (op_key op)
        ≡ ok (step current op i).1
  unfolding op_key
  key_record-write_self cf (DataOp.put key value iv) i current legal e =
      put_self cf key value iv i current e
  key_record-write_self cf (DataOp.delete key iv) i current legal e =
      delete_self cf key iv i current legal e

  -- The answer of a decision is the register's.
  pub decide_at-step :
      (op : DataOp) (i : ℕ) (current : Option KeyRecord)
      → delete_absent op ≡ false
      → (decide_at c current op i).0 ≡ (step current op i).0
  unfolding decide_at decide_put decide_delete put_allowed delete_allowed delete_absent passes step
  decide_at-step (DataOp.put key value iv) i current legal = ground arith
  decide_at-step (DataOp.delete key iv) i current legal = ground arith

  -- The writes of a decision: the client's record over the key's mutation.
  pub write_all-writes_of :
      (cf : StateCf) (req : DataRequest) (d : MutationResult × Option StateMutation) (j : Bytes)
      → write_all cf (writes_of c req d) j ≡ (
          if seq_key req.client_id == j
          then some (
              c.seq_records.encode
                (record { highest = req.sequence; digest = digest c req.op; result = d.0 }))
          else write_option cf d.1 j)
  unfolding write_all write
  write_all-writes_of cf req d j = ground arith
