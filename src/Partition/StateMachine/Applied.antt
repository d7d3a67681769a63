-- ===== src/Partition/StateMachine/Applied.antt =====
-- `apply` of one entry: the reads after it, and the theorems about an entry and its retry.
use dal_service.Prelude.{
  ℕ, ◌^◌, ◌<◌, ◌≡◌, ◌≢◌, refl, ◌∙◌, false, Option, some, List, [], arith, ◌==◌, nat_eq, list_eq,
  list_beq_iff, ==_eq, Bool-cases, inl, inr, ◌+◌, if◌then◌else◌,
}
use mathlib.Core.Path.{subst}
use dal_service.Codec.{Bytes, ok, >>=-eq-ok}
use dal_service.Types.{LogId, DataRequest, MutationResult, op_key}
use dal_service.Keyspace.{recovery_epoch_key, last_applied_key, user_key, seq_key}
use dal_service.Keyspace.BigEndian.{be_bytes, be_bytes_injective}
use dal_service.Storage.{StateMutation, StateCf, put_cf, write_all, apply_state}
use dal_service.Partition.Register.{step}
use dal_service.Partition.StateMachine.{
  Codecs, ApplyResult, KeyRecord, SeqRecord, decided, replayed, read_state, key_record, seq_record,
  digest, decide_at, evaluate, apply, gate, replay, highest_of,
}
use dal_service.Partition.StateMachine.Decision.{
  Decides, is_decided, writes_of, evaluate_undecided, evaluate-Decides, Decides-of_decided,
}
use dal_service.Partition.StateMachine.Effects.{
  write_option, read_state-cong, read_state-some, write-decide_at, key_record-write_self,
  decide_at-step, write_all-writes_of,
}

module _ (c : Codecs) where
  -- The log id under which `apply` records an entry.
  abbrev pub at_index : ℕ → LogId
  at_index i = record { term = 0; index = i }

  -- The state after the decided entry.
  abbrev pub after : StateCf → DataRequest → ℕ → Option KeyRecord → StateCf
  after cf req i current =
      apply_state c.log_ids cf (writes_of c req (decide_at c current req.op i)) (at_index i)

  -- The client's record of a decided entry.
  abbrev pub seq_of : DataRequest → MutationResult → SeqRecord
  seq_of req m = record { highest = req.sequence; digest = digest c req.op; result = m }

  apply_inv :
      (cf : StateCf) (req : DataRequest) (i : ℕ) {res : ApplyResult} {cf' : StateCf}
      → apply c cf req i ≡ ok (res, cf')
      → (muts : List StateMutation) × (evaluate c cf req i ≡ ok (res, muts))
        × (cf' ≡ apply_state c.log_ids cf muts (at_index i))
  unfolding apply
  apply_inv cf req i h =
      let (p, made, state) = >>=-eq-ok (evaluate c cf req i) _ h in
      (p.1, ground arith, ground arith)

  -- A decided entry, with the state that decides it and the state after it.
  pub apply-decided :
      (cf : StateCf) (req : DataRequest) (i : ℕ) {m : MutationResult} {cf' : StateCf}
      → apply c cf req i ≡ ok (decided m, cf')
      → (d : Decides c cf req) × (m ≡ (decide_at c d.current req.op i).0)
        × (cf' ≡ after cf req i d.current)
  apply-decided cf req i h =
      let (muts, made, state) = apply_inv cf req i h in
      let d = Decides-of_decided c cf req i made in
      (
        d,
        ground (arith, evaluate-Decides c cf req i d),
        ground (arith, evaluate-Decides c cf req i d),
      )

  after_read :
      (cf : StateCf) (req : DataRequest) (i : ℕ) (current : Option KeyRecord) (j : Bytes)
      → after cf req i current j ≡ (
          if last_applied_key == j
          then some (c.log_ids.encode (at_index i))
          else if seq_key req.client_id == j
          then some (c.seq_records.encode (seq_of req (decide_at c current req.op i).0))
          else write_option cf (decide_at c current req.op i).1 j)
  unfolding apply_state
  after_read cf req i current j =
      ground (arith, write_all-writes_of c cf req (decide_at c current req.op i) j)

  pub epoch-after :
      (cf : StateCf) (req : DataRequest) (i : ℕ) (current : Option KeyRecord)
      → read_state c.epochs (after cf req i current) recovery_epoch_key
        ≡ read_state c.epochs cf recovery_epoch_key
  epoch-after cf req i current =
      read_state-cong c.epochs (after cf req i current) cf recovery_epoch_key (
        ground (
          arith,
          after_read cf req i current recovery_epoch_key,
          write-decide_at c cf req.op i current recovery_epoch_key refl,
        ))

  pub seq_record-after_self :
      (cf : StateCf) (req : DataRequest) (i : ℕ) (current : Option KeyRecord)
      → seq_record c (after cf req i current) req.client_id
        ≡ ok (some (seq_of req (decide_at c current req.op i).0))
  unfolding seq_record
  seq_record-after_self cf req i current =
      read_state-some c.seq_records (after cf req i current) (seq_key req.client_id)
        (seq_of req (decide_at c current req.op i).0)
        (ground (
          arith,
          after_read cf req i current (seq_key req.client_id),
          list_beq_iff (seq_key req.client_id) (seq_key req.client_id),
        ))

  pub seq_record-after_ne :
      (cf : StateCf) (req : DataRequest) (i : ℕ) (current : Option KeyRecord) (other : ℕ)
      → req.client_id < 2 ^ 128
      → other < 2 ^ 128
      → req.client_id ≢ other
      → seq_record c (after cf req i current) other ≡ seq_record c cf other
  unfolding seq_record
  seq_record-after_ne cf req i current other hx hy ne =
      read_state-cong c.seq_records (after cf req i current) cf (seq_key other) (
        ground (
          arith,
          after_read cf req i current (seq_key other),
          list_beq_iff (be_bytes 16 req.client_id) (be_bytes 16 other),
          be_bytes_injective 16 req.client_id other hx hy,
          write-decide_at c cf req.op i current (seq_key other) refl,
        ))

  key_record-after_at :
      (cf : StateCf) (req : DataRequest) (i : ℕ) (current : Option KeyRecord) (k : Bytes)
      → key_record c (after cf req i current) k
        ≡ key_record c (write_option cf (decide_at c current req.op i).1) k
  unfolding key_record
  key_record-after_at cf req i current k =
      read_state-cong c.key_records (after cf req i current)
        (write_option cf (decide_at c current req.op i).1) (user_key k)
        (ground (arith, after_read cf req i current (user_key k)))

  key_record-write_ne :
      (cf : StateCf) (req : DataRequest) (i : ℕ) (current : Option KeyRecord) (k : Bytes)
      → (op_key req.op == k) ≡ false
      → key_record c (write_option cf (decide_at c current req.op i).1) k ≡ key_record c cf k
  unfolding key_record
  key_record-write_ne cf req i current k ne =
      read_state-cong c.key_records (write_option cf (decide_at c current req.op i).1) cf
        (user_key k) (ground (arith, write-decide_at c cf req.op i current (user_key k)))

  pub key_record-after :
      (cf : StateCf) (req : DataRequest) (d : Decides c cf req) (i : ℕ) (k : Bytes)
      → key_record c (after cf req i d.current) k
        ≡ (if op_key req.op == k then ok (step d.current req.op i).1 else key_record c cf k)
  unfolding key_record
  key_record-after cf req d i k = elim (Bool-cases (op_key req.op == k)) [
    | inl same ↦
        rw (same, key_record-after_at)
          (subst
            (λ q.
              key_record c (write_option cf (decide_at c d.current req.op i).1) q
              ≡ ok (step d.current req.op i).1)
            (==_eq (op_key req.op) k same)
            (key_record-write_self c cf req.op i d.current d.legal d.current_eq))
    | inr other ↦ rw (other, key_record-after_at) (key_record-write_ne cf req i d.current k other)
  ]

  retry_replay :
      (req : DataRequest) (m : MutationResult) → replay c (some (seq_of req m)) req ≡ replayed m
  unfolding replay
  retry_replay req m = ground arith

  evaluate_retry :
      (cf : StateCf) (req : DataRequest) (i j : ℕ) (d : Decides c cf req)
      → evaluate c (after cf req i d.current) req j
        ≡ ok (replayed (decide_at c d.current req.op i).0, [])
  unfolding evaluate gate
  evaluate_retry cf req i j d = ground (
    arith,
    epoch-after cf req i d.current,
    seq_record-after_self cf req i d.current,
    retry_replay req (decide_at c d.current req.op i).0,
  )

  -- After an entry was decided, the same request applied again at any log index is answered with
  -- the stored result and changes no record but the group's `last_applied`.
  pub apply-apply_retry :
      (cf : StateCf) (req : DataRequest) (i j : ℕ) {m : MutationResult} {cf' : StateCf}
      → apply c cf req i ≡ ok (decided m, cf')
      → apply c cf' req j
        ≡ ok (replayed m, put_cf cf' last_applied_key (c.log_ids.encode (at_index j)))
  unfolding apply apply_state write_all
  apply-apply_retry cf req i j h =
      let (d, result, state) = apply-decided cf req i h in
      ground (arith, evaluate_retry cf req i j d)

  -- A decided entry answers as the register of its key does and leaves it in the register's next
  -- state, and the record of every other key is as it was.
  pub apply-step :
      (cf : StateCf) (req : DataRequest) (i : ℕ) {m : MutationResult} {cf' : StateCf}
      → apply c cf req i ≡ ok (decided m, cf')
      → (r : Option KeyRecord) × (key_record c cf (op_key req.op) ≡ ok r)
        × (m ≡ (step r req.op i).0)
        × ((k : Bytes)
            → key_record c cf' k
              ≡ (if op_key req.op == k then ok (step r req.op i).1 else key_record c cf k))
  apply-step cf req i h =
      let (d, result, state) = apply-decided cf req i h in
      (
        d.current,
        d.current_eq,
        result ∙ decide_at-step c req.op i d.current d.legal,
        λ k. rw state (key_record-after cf req d i k),
      )

  -- A decided entry is the client's next one: its sequence is one past the recorded highest, which
  -- it becomes, with the entry's digest and result; the records of other clients are as they were.
  pub apply-seq_record :
      (cf : StateCf) (req : DataRequest) (i other : ℕ) {m : MutationResult} {cf' : StateCf}
      → apply c cf req i ≡ ok (decided m, cf')
      → req.client_id < 2 ^ 128
      → other < 2 ^ 128
      → (s : Option SeqRecord) × (seq_record c cf req.client_id ≡ ok s)
        × (req.sequence ≡ highest_of s + 1)
        × (seq_record c cf' other
            ≡ (if req.client_id == other then ok (some (seq_of req m)) else seq_record c cf other))
  apply-seq_record cf req i other h hx hy =
      let (d, result, state) = apply-decided cf req i h in
      (
        d.seq,
        d.seq_eq,
        d.next,
        rw state (
            ground (
              arith,
              seq_record-after_self cf req i d.current,
              seq_record-after_ne cf req i d.current other hx hy,
            )),
      )

  -- An entry that is not decided changes no record but the group's `last_applied`.
  pub apply_undecided :
      (cf : StateCf) (req : DataRequest) (i : ℕ) {res : ApplyResult} {cf' : StateCf}
      → apply c cf req i ≡ ok (res, cf')
      → is_decided res ≡ false
      → cf' ≡ put_cf cf last_applied_key (c.log_ids.encode (at_index i))
  unfolding apply_state write_all
  apply_undecided cf req i h old =
      let (muts, made, state) = apply_inv cf req i h in
      ground (arith, evaluate_undecided c cf req i made old)
