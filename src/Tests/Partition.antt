-- ===== src/Tests/Partition.antt =====
-- The theorems about data groups, at a group with two clients and one key.
use dal_service.Prelude.{
  ◌≡◌, refl, Option, none, some, List, [], ◌∷◌, ◌==◌, nat_eq, list_eq, if◌then◌else◌, ◌+◌, arith,
}
use dal_service.Codec.{Bytes, ok}
use dal_service.Types.{IfVersion, DataOp, DataRequest, MutationResult, op_key}
use dal_service.Keyspace.{last_applied_key, user_key, seq_key}
use dal_service.Storage.{StateMutation, StateCf, put_cf, write_all, apply_state}
use dal_service.Partition.Register.{step}
use dal_service.Partition.StateMachine.{
  KeyRecord, SeqRecord, RejectReason, decided, replayed, rejected, key_record, seq_record,
  highest_of, read_state, oversized, delete_absent, put_allowed, presence, decide_put, decide_at,
  decide, decide_next, gate, evaluate, apply,
}
use dal_service.Partition.StateMachine.Applied.{
  at_index, seq_of, apply-apply_retry, apply-step, apply-seq_record, apply_undecided,
}
use dal_service.Partition.Overlay
use dal_service.Partition.Overlay.{StateOverlay, Pending}
use dal_service.Partition.Overlay.Laws.{write_all-walk}
use dal_service.Partition.Coalesce.{Entry, Payload, apply_coalesced_chunk, apply_per_entry}
use dal_service.Partition.Coalesce.Loop.{SameOutcome, apply_coalesced_chunk-per_entry}
use dal_service.Partition.Coalesce.Append.{SameEnd}
use dal_service.Partition.Coalesce.Chunks.{apply_coalesced, apply_coalesced-per_entry}
use dal_service.Tests.Fixtures.{codecs, raft}

abbrev empty : StateCf
empty j = none

abbrev put_request : DataRequest
put_request = record {
  recovery_epoch = 0;
  client_id = 7;
  sequence = 1;
  op = DataOp.put (1 ∷ 2 ∷ []) (9 ∷ []) (some IfVersion.absent);
}

abbrev stored_key : StateMutation
stored_key = StateMutation.put (user_key (1 ∷ 2 ∷ [])) (5 ∷ 9 ∷ [])

abbrev stored_seq : StateMutation
stored_seq =
    StateMutation.put (seq_key 7)
      (codecs.seq_records.encode (seq_of codecs put_request (MutationResult.applied 5)))

abbrev after_put : StateCf
after_put = apply_state codecs.log_ids empty (stored_key ∷ stored_seq ∷ []) (at_index codecs 5)

put_applied : apply codecs empty put_request 5 ≡ ok (decided (MutationResult.applied 5), after_put)
unfolding apply evaluate read_state oversized delete_absent seq_record gate decide_next decide
    key_record op_key decide_at decide_put put_allowed presence
put_applied = refl

apply-apply_retry_example :
    apply codecs after_put put_request 8
    ≡ ok (
      replayed (MutationResult.applied 5),
      put_cf after_put last_applied_key (codecs.log_ids.encode (at_index codecs 8)),
    )
apply-apply_retry_example = apply-apply_retry codecs empty put_request 5 8 put_applied

apply-step_example :
    (r : Option KeyRecord) × (key_record codecs empty (1 ∷ 2 ∷ []) ≡ ok r)
    × (MutationResult.applied 5 ≡ (step r put_request.op 5).0)
    × ((k : Bytes)
        → key_record codecs after_put k ≡ (
            if (1 ∷ 2 ∷ []) == k
            then ok (step r put_request.op 5).1
            else key_record codecs empty k))
unfolding op_key
apply-step_example = apply-step codecs empty put_request 5 put_applied

apply-seq_record_example :
    (s : Option SeqRecord) × (seq_record codecs empty 7 ≡ ok s)
    × (1 ≡ highest_of s + 1)
    × (seq_record codecs after_put 7 ≡ (
        if put_request.client_id == 7
        then ok (some (seq_of codecs put_request (MutationResult.applied 5)))
        else seq_record codecs empty 7))
apply-seq_record_example =
    apply-seq_record codecs empty put_request 5 7 put_applied (omega arith) (omega arith)

abbrev gap_request : DataRequest
gap_request = record put_request { sequence = 3 }

abbrev after_gap : StateCf
after_gap = apply_state codecs.log_ids empty [] (at_index codecs 6)

gap_applied :
    apply codecs empty gap_request 6 ≡ ok (rejected (RejectReason.sequence_gap 1 3), after_gap)
unfolding apply evaluate read_state oversized delete_absent seq_record gate
gap_applied = refl

apply_undecided_example :
    after_gap ≡ put_cf empty last_applied_key (codecs.log_ids.encode (at_index codecs 6))
apply_undecided_example = apply_undecided codecs empty gap_request 6 gap_applied refl

-- Two puts of two keys, walked in the other order.
abbrev walked : Pending
walked = (2 ∷ [], none) ∷ (1 ∷ [], some (3 ∷ [])) ∷ []

abbrev overlay : StateOverlay
overlay = record { storage = empty; pending = walked }

write_all-walk_example :
    write_all overlay.storage (Overlay.into_mutations walked) ≡ Overlay.reader overlay
unfolding Overlay.lookup
write_all-walk_example = write_all-walk overlay walked (refl, (refl, tt)) (λ j. refl)

abbrev entries : List (Entry (Unit {0}))
entries =
    record { log_id = record { term = 1; index = 4 }; payload = Payload.membership tt }
    ∷ record { log_id = record { term = 1; index = 5 }; payload = Payload.normal put_request }
    ∷ record { log_id = record { term = 1; index = 6 }; payload = Payload.normal put_request }
    ∷ []

apply_coalesced_chunk-per_entry_example :
    SameOutcome raft empty
      (apply_coalesced_chunk raft empty entries)
      (apply_per_entry raft empty entries)
apply_coalesced_chunk-per_entry_example = apply_coalesced_chunk-per_entry raft empty entries

apply_coalesced-per_entry_example :
    SameEnd (apply_coalesced raft (λ e. 100) empty entries) (apply_per_entry raft empty entries)
apply_coalesced-per_entry_example =
    apply_coalesced-per_entry raft (λ e. 100) empty
      (record { log_id = record { term = 1; index = 4 }; payload = Payload.membership tt })
      (record { log_id = record { term = 1; index = 5 }; payload = Payload.normal put_request }
        ∷ record { log_id = record { term = 1; index = 6 }; payload = Payload.normal put_request }
        ∷ [])
