-- ===== src/Partition/StateMachine/Decision.antt =====
-- When `evaluate` decides an entry, and with what outcome and writes.
use dal_service.Prelude.{
  ℕ, ◌+◌, ◌<◌, ◌≡◌, Bool, true, false, Option, none, some, List, [], ◌∷◌, arith, nat_eq, u64_max,
}
use dal_service.Codec.{ok}
use dal_service.Types.{DataRequest, MutationResult, op_key}
use dal_service.Keyspace.{recovery_epoch_key, seq_key}
use dal_service.Storage.{StateMutation}
use dal_service.Partition.StateMachine.{
  Codecs, Reader, ApplyResult, KeyRecord, SeqRecord, decided, read_state, key_record, seq_record,
  digest, decide_at, decide, decide_next, evaluate, gate, replay, highest_of, epoch_of, oversized,
  delete_absent,
}

-- Whether the entry was freshly decided.
abbrev pub is_decided : ApplyResult → Bool
is_decided (decided _) = true
is_decided _ = false

module _ (c : Codecs) where
  -- The writes of a decided entry: the key's mutation, if any, and the client's record.
  abbrev pub writes_of : DataRequest → MutationResult × Option StateMutation → List StateMutation
  writes_of req (result, m) =
      let seq_mutation = StateMutation.put (seq_key req.client_id) (
        c.seq_records.encode
          (record { highest = req.sequence; digest = digest c req.op; result = result })) in
      elim m [ none ↦ seq_mutation ∷ [] | some k ↦ k ∷ seq_mutation ∷ [] ]

  -- What the state must hold for an entry to be decided.
  pub record Decides (reader : Reader) (req : DataRequest) : Type 0 where
    pub stored : Option ℕ
    pub stored_eq : read_state c.epochs reader recovery_epoch_key ≡ ok stored
    pub epoch : req.recovery_epoch ≡ epoch_of stored
    pub fits : oversized req.op ≡ false
    pub legal : delete_absent req.op ≡ false
    pub seq : Option SeqRecord
    pub seq_eq : seq_record c reader req.client_id ≡ ok seq
    pub next : req.sequence ≡ highest_of seq + 1
    pub room : highest_of seq < u64_max
    pub current : Option KeyRecord
    pub current_eq : key_record c reader (op_key req.op) ≡ ok current

  gate_next :
      (reader : Reader) (req : DataRequest) (i : ℕ) (seq : Option SeqRecord)
      → req.sequence ≡ highest_of seq + 1
      → highest_of seq < u64_max
      → gate c reader req i seq ≡ decide_next c reader req i
  unfolding gate
  gate_next reader req i seq next room = ground arith

  decide_next_writes :
      (reader : Reader) (req : DataRequest) (i : ℕ) (current : Option KeyRecord)
      → key_record c reader (op_key req.op) ≡ ok current
      → decide_next c reader req i
        ≡ ok
            (decided (decide_at c current req.op i).0, writes_of req (decide_at c current req.op i))
  unfolding decide_next decide
  decide_next_writes reader req i current e = rw (e, decide_next, decide)

  -- Where it holds, the entry is decided from the key's record.
  pub evaluate-Decides :
      (reader : Reader) (req : DataRequest) (i : ℕ) (d : Decides reader req)
      → evaluate c reader req i
        ≡ ok (
          decided (decide_at c d.current req.op i).0,
          writes_of req (decide_at c d.current req.op i),
        )
  unfolding evaluate
  evaluate-Decides reader req i d = ground (
    arith,
    gate_next reader req i d.seq d.next d.room,
    decide_next_writes reader req i d.current d.current_eq,
  )

  gate_decided :
      (reader : Reader) (req : DataRequest) (i : ℕ) (seq : Option SeqRecord) {m : MutationResult}
      {muts : List StateMutation}
      → gate c reader req i seq ≡ ok (decided m, muts)
      → (req.sequence ≡ highest_of seq + 1)
        × (highest_of seq < u64_max)
        × (decide_next c reader req i ≡ ok (decided m, muts))
  unfolding gate replay
  gate_decided reader req i seq h = ground arith

  decide_next_current :
      (reader : Reader) (req : DataRequest) (i : ℕ) {res : ApplyResult} {muts : List StateMutation}
      → decide_next c reader req i ≡ ok (res, muts)
      → (current : Option KeyRecord) × (key_record c reader (op_key req.op) ≡ ok current)
  unfolding decide_next decide
  decide_next_current reader req i h = ground arith

  evaluate-gate :
      (reader : Reader) (req : DataRequest) (i : ℕ) {m : MutationResult} {muts : List StateMutation}
      → evaluate c reader req i ≡ ok (decided m, muts)
      → (stored : Option ℕ) × (seq : Option SeqRecord) × (read_state c.epochs reader
            recovery_epoch_key
          ≡ ok stored)
        × (req.recovery_epoch ≡ epoch_of stored)
        × (oversized req.op ≡ false)
        × (delete_absent req.op ≡ false)
        × (seq_record c reader req.client_id ≡ ok seq)
        × (gate c reader req i seq ≡ ok (decided m, muts))
  unfolding evaluate
  evaluate-gate reader req i h = ground arith

  -- An entry is decided only where it holds.
  pub Decides-of_decided :
      (reader : Reader) (req : DataRequest) (i : ℕ) {m : MutationResult} {muts : List StateMutation}
      → evaluate c reader req i ≡ ok (decided m, muts)
      → Decides reader req
  Decides-of_decided reader req i h =
      let (stored, seq, stored_eq, epoch, fits, legal, seq_eq, at_gate) =
        evaluate-gate reader req i h in
      let (next, room, made) = gate_decided reader req i seq at_gate in
      let (current, current_eq) = decide_next_current reader req i made in
      record {
        stored = stored;
        stored_eq = stored_eq;
        epoch = epoch;
        fits = fits;
        legal = legal;
        seq = seq;
        seq_eq = seq_eq;
        next = next;
        room = room;
        current = current;
        current_eq = current_eq;
      }

  decide_next_fresh :
      (reader : Reader) (req : DataRequest) (i : ℕ) {res : ApplyResult} {muts : List StateMutation}
      → decide_next c reader req i ≡ ok (res, muts)
      → is_decided res ≡ true
  unfolding decide_next decide
  decide_next_fresh reader req i h = ground arith

  gate_undecided :
      (reader : Reader) (req : DataRequest) (i : ℕ) (seq : Option SeqRecord) {res : ApplyResult}
      {muts : List StateMutation}
      → gate c reader req i seq ≡ ok (res, muts)
      → is_decided res ≡ false
      → muts ≡ []
  unfolding gate
  gate_undecided reader req i seq {res} {muts} h old =
      ground (arith, decide_next_fresh reader req i {res = res} {muts = muts})

  -- An entry that is not decided writes nothing.
  pub evaluate_undecided :
      (reader : Reader) (req : DataRequest) (i : ℕ) {res : ApplyResult} {muts : List StateMutation}
      → evaluate c reader req i ≡ ok (res, muts)
      → is_decided res ≡ false
      → muts ≡ []
  unfolding evaluate
  evaluate_undecided reader req i {res} {muts} h old = grind (arith, gate_undecided reader req i)
