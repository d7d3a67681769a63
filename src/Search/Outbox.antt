-- ===== src/Search/Outbox.antt =====
-- The outbox of changed keys that a data group keeps for its search indexes: its row keys and the
-- consumers' records (src/search/outbox.rs), and its pruning (src/storage/rocks.rs). The rows are
-- those under the group's outbox prefix, in RocksDB's order; a message stands for the numbers in it.
pub mod Keys
pub mod Order
pub mod Pruned
use dal_service.Prelude.{
  ℕ, ◌+◌, ◌^◌, ltb, leb, Bool, false, not, ◌||◌, ◌&&◌, Option, none, some, List, [], ◌∷◌, ◌++◌,
  length, is_empty, keep, ◌==◌, nat_eq, if◌then◌else◌,
}
use dal_service.Codec.{Bytes, search, corrupt, Result, ok, err, ◌>>=◌}
use dal_service.Keyspace.BigEndian.{be_bytes, from_be_bytes}
use dal_service.Transport.LittleEndian.{drop, slice}
use dal_service.Durability.LogIds.{RaftLogId}

pub record SearchOutboxEntry : Type 0 where
  pub epoch : ℕ
  pub source_log_id : RaftLogId
  pub user_key : Bytes

pub record IndexCheckpoint : Type 0 where
  pub projection_epoch : ℕ
  pub definition_hash : Bytes
  pub engine_revision : ℕ
  pub source_log_id : Option RaftLogId

pub record SearchConsumerState : Type 0 where
  pub definition_hash : Bytes
  pub engine_revision : ℕ
  pub checkpoint : Option IndexCheckpoint
  pub retention_floor : Option (ℕ × ℕ)
  pub needs_rebuild : Bool

abbrev pub holds_retention : SearchConsumerState → Bool
holds_retention c = not c.needs_rebuild

-- The bytes of an entry in its row's key.
unfoldable pub entry_bytes : SearchOutboxEntry → Bytes
entry_bytes e =
    be_bytes 8 e.epoch
    ++ be_bytes 8 e.source_log_id.index
    ++ be_bytes 8 e.source_log_id.term
    ++ be_bytes 8 e.source_log_id.node_id
    ++ be_bytes 4 (length e.user_key)
    ++ e.user_key

-- The key that `encode_outbox_key` lays out, where `prefix` is `search_outbox_prefix(group)`.
abbrev pub outbox_key : Bytes → SearchOutboxEntry → Bytes
outbox_key prefix e = prefix ++ entry_bytes e

unfoldable pub encode_outbox_key : Bytes → SearchOutboxEntry → Result Bytes
encode_outbox_key prefix e =
    if ltb (length e.user_key) (2 ^ 32)
    then ok (outbox_key prefix e)
    else err (search "user key is too large for search outbox")

-- `key.strip_prefix(prefix)`.
abbrev pub strip_prefix : Bytes → Bytes → Option Bytes
strip_prefix [] key = some key
strip_prefix (p ∷ ps) [] = none
strip_prefix (p ∷ ps) (b ∷ bs) = let rest = strip_prefix ps bs in if p == b then rest else none

abbrev pub header : ℕ
header = 36

unfoldable pub decode_entry : Bytes → Result SearchOutboxEntry
unfolding slice
decode_entry bytes =
    let key_len = from_be_bytes 0 (slice 32 36 bytes) in
    if ltb (length bytes) header
    then err (corrupt "search outbox" "key is shorter than its fixed header")
    else if not (length bytes == header + key_len)
    then err (corrupt "search outbox" "encoded user-key length")
    else ok (record {
      epoch = from_be_bytes 0 (slice 0 8 bytes);
      source_log_id = record {
        term = from_be_bytes 0 (slice 16 24 bytes);
        node_id = from_be_bytes 0 (slice 24 32 bytes);
        index = from_be_bytes 0 (slice 8 16 bytes);
      };
      user_key = drop header bytes;
    })

unfoldable pub decode_outbox_key : Bytes → Bytes → Result SearchOutboxEntry
decode_outbox_key prefix key = elim (strip_prefix prefix key) [
  | none ↦ err (corrupt "search outbox" "key has the wrong group prefix")
  | some bytes ↦ decode_entry bytes
]

-- How far a consumer's claim allows to prune, where it allows any pruning.
unfoldable pub checkpoint_watermark : ℕ → IndexCheckpoint → Option ℕ
checkpoint_watermark epoch c =
    if not (c.projection_epoch == epoch)
    then none
    else elim c.source_log_id [ none ↦ none | some log_id ↦ some log_id.index ]

unfoldable pub floor_watermark : ℕ → Option (ℕ × ℕ) → Option ℕ
floor_watermark epoch none = none
floor_watermark epoch (some floor) = if floor.0 == epoch then some floor.1 else none

unfoldable pub watermark : ℕ → SearchConsumerState → Option ℕ
watermark epoch consumer = elim consumer.checkpoint [
  | none ↦ floor_watermark epoch consumer.retention_floor
  | some c ↦ checkpoint_watermark epoch c
]

-- `minimum.map_or(watermark, |lowest| lowest.min(watermark))`.
abbrev pub min_with : Option ℕ → ℕ → ℕ
min_with none w = w
min_with (some lowest) w = if leb lowest w then lowest else w

-- The loop over the consumers; none where it returns from the function.
unfoldable pub minimum : ℕ → List SearchConsumerState → Option ℕ → Option (Option ℕ)
minimum epoch [] lowest = some lowest
minimum epoch (c ∷ cs) lowest = elim (watermark epoch c) [
  | none ↦ none
  | some w ↦ minimum epoch cs (some (min_with lowest w))
]

abbrev pub is_some_and : Option ℕ → (ℕ → Bool) → Bool
is_some_and none test = false
is_some_and (some m) test = test m

unfoldable pub covered : Bool → ℕ → Option ℕ → SearchOutboxEntry → Bool
covered no_consumers epoch lowest e =
    no_consumers
    || ltb e.epoch epoch
    || ((e.epoch == epoch) && is_some_and lowest (λ m. leb e.source_log_id.index m))

-- The loop over the rows: how many are deleted, and the rows left.
unfoldable pub prune_rows :
    Bytes → (SearchOutboxEntry → Bool) → List Bytes → Result (ℕ × List Bytes)
prune_rows prefix is_covered [] = ok (0, [])
prune_rows prefix is_covered (row ∷ rows) =
    let rest = prune_rows prefix is_covered rows in
    decode_outbox_key prefix row >>= λ entry.
    if is_covered entry
    then (rest >>= λ pruned. ok (pruned.0 + 1, pruned.1))
    else ok (0, row ∷ rows)

-- `prune_search_outbox`, at the group's projection epoch and registered consumers.
unfoldable pub prune_search_outbox :
    Bytes → ℕ → List SearchConsumerState → List Bytes → Result (ℕ × List Bytes)
prune_search_outbox prefix epoch registered rows =
    let consumers = keep holds_retention registered in
    elim (minimum epoch consumers none) [
      | none ↦ ok (0, rows)
      | some lowest ↦ prune_rows prefix (covered (is_empty consumers) epoch lowest) rows
    ]
