-- ===== src/Partition/Coalesce/Agreement.antt =====
-- The decision of an entry depends on no key but the epoch's, the client's and the operation's.
use dal_service.Prelude.{ℕ, ◌≡◌, refl, false, Option, List, arith, ◌==◌, nat_eq, list_eq}
use dal_service.Codec.{Bytes}
use dal_service.Types.{DataRequest, op_key}
use dal_service.Keyspace.{raft_applied_key, recovery_epoch_key, user_key, seq_key}
use dal_service.Storage.{StateMutation, put_cf, write_all}
use dal_service.Partition.StateMachine.{
  Codecs, Reader, SeqRecord, key_record, seq_record, decide, decide_next, gate, evaluate,
}
use dal_service.Partition.StateMachine.Effects.{read_state-cong}
use dal_service.Partition.Overlay.Laws.{write_all-cong}

-- Two readers agree except on Raft's applied record.
abbrev pub Agree : Reader → Reader → Type 0
Agree f g = (key : Bytes) → (raft_applied_key == key) ≡ false → f key ≡ g key

module _ (c : Codecs) (f g : Reader) (same : Agree f g) where
  key_record-cong : (k : Bytes) → key_record c f k ≡ key_record c g k
  unfolding key_record
  key_record-cong k = read_state-cong c.key_records f g (user_key k) (same (user_key k) refl)

  seq_record-cong : (client : ℕ) → seq_record c f client ≡ seq_record c g client
  unfolding seq_record
  seq_record-cong client =
      read_state-cong c.seq_records f g (seq_key client) (same (seq_key client) refl)

  decide_next-cong : (req : DataRequest) (i : ℕ) → decide_next c f req i ≡ decide_next c g req i
  unfolding decide_next decide
  decide_next-cong req i = ground (arith, key_record-cong (op_key req.op))

  gate-cong :
      (req : DataRequest) (i : ℕ) (seq : Option SeqRecord) → gate c f req i seq ≡ gate c g req i seq
  unfolding gate
  gate-cong req i seq = ground (arith, decide_next-cong req i)

  pub evaluate-cong : (req : DataRequest) (i : ℕ) → evaluate c f req i ≡ evaluate c g req i
  unfolding evaluate
  evaluate-cong req i = simp (
    read_state-cong c.epochs f g recovery_epoch_key (same recovery_epoch_key refl),
    seq_record-cong,
    gate-cong,
  )

pub write_all-Agree :
    (f g : Reader) (ms : List StateMutation) (bytes : Bytes)
    → Agree f g
    → Agree (write_all f ms) (put_cf (write_all g ms) raft_applied_key bytes)
write_all-Agree f g ms bytes same key h = ground (arith, write_all-cong f g ms key (same key h))
