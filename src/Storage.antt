-- ===== src/Storage.antt =====
-- The state column family of one group, and its atomic write (src/storage/batch.rs). RocksDB is a
-- map from keys to values; a batch puts and deletes in order, and is written as a whole.
use dal_service.Prelude.{Option, none, some, List, [], ◌∷◌, ◌==◌, list_eq, nat_eq, if◌then◌else◌}
use dal_service.Codec.{Bytes, Codec}
use dal_service.Types.{LogId}
use dal_service.Keyspace.{last_applied_key}

pub data StateMutation : Type 0 where
  put : Bytes → Bytes → StateMutation
  delete : Bytes → StateMutation

abbrev pub StateCf : Type 0
StateCf = Bytes → Option Bytes

abbrev pub put_cf : StateCf → Bytes → Bytes → StateCf
put_cf cf key value j = if key == j then some value else cf j

abbrev pub delete_cf : StateCf → Bytes → StateCf
delete_cf cf key j = if key == j then none else cf j

unfoldable pub write : StateCf → StateMutation → StateCf
write cf (put key value) = put_cf cf key value
write cf (delete key) = delete_cf cf key

-- The batch's loop over the mutations.
unfoldable pub write_all : StateCf → List StateMutation → StateCf
unfolding write
write_all cf [] = cf
write_all cf (m ∷ ms) = write_all (write cf m) ms

-- `Storage::apply_state`: the mutations and the group's `last_applied` record, in one batch.
unfoldable pub apply_state : Codec LogId → StateCf → List StateMutation → LogId → StateCf
apply_state log_ids cf mutations last_applied =
    put_cf (write_all cf mutations) last_applied_key (log_ids.encode last_applied)
