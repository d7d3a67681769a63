-- ===== src/Search/Outbox/Keys.antt =====
-- The row keys of the search outbox: what `decode_outbox_key` reads of an encoded key.
use dal_service.Prelude.{
  ◌+◌, ◌^◌, ◌<◌, ◌≡◌, refl, [], ◌∷◌, ◌++◌, some, length, arith, ==_refl, nat_eq,
}
use dal_service.Codec.{Bytes, ok, ◌>>=◌}
use dal_service.Keyspace.BigEndian.{be_bytes, from_be_bytes-be_bytes}
use dal_service.Transport.LittleEndian.{take, drop, slice}
use dal_service.Search.Outbox.{
  SearchOutboxEntry, outbox_key, entry_bytes, encode_outbox_key, decode_outbox_key, decode_entry,
  strip_prefix, header,
}

-- The fields are of their widths in Rust, and the key's length is admitted.
pub record IsEntry (e : SearchOutboxEntry) : Type 0 where
  pub epoch_u64 : e.epoch < 256 ^ 8
  pub index_u64 : e.source_log_id.index < 256 ^ 8
  pub term_u64 : e.source_log_id.term < 256 ^ 8
  pub node_u64 : e.source_log_id.node_id < 256 ^ 8
  pub key_u32 : length e.user_key < 256 ^ 4

strip_prefix-append : (prefix key : Bytes) → strip_prefix prefix (prefix ++ key) ≡ some key
strip_prefix-append [] key = refl
strip_prefix-append (p ∷ ps) key = ground (arith, ==_refl p, strip_prefix-append ps key)

module _ (e : SearchOutboxEntry) where
  length-entry_bytes : length (entry_bytes e) ≡ header + length e.user_key
  unfolding entry_bytes be_bytes
  length-entry_bytes = omega arith

  epoch_slice : slice 0 8 (entry_bytes e) ≡ be_bytes 8 e.epoch
  unfolding entry_bytes be_bytes slice take drop
  epoch_slice = refl

  index_slice : slice 8 16 (entry_bytes e) ≡ be_bytes 8 e.source_log_id.index
  unfolding entry_bytes be_bytes slice take drop
  index_slice = refl

  term_slice : slice 16 24 (entry_bytes e) ≡ be_bytes 8 e.source_log_id.term
  unfolding entry_bytes be_bytes slice take drop
  term_slice = refl

  node_slice : slice 24 32 (entry_bytes e) ≡ be_bytes 8 e.source_log_id.node_id
  unfolding entry_bytes be_bytes slice take drop
  node_slice = refl

  key_len_field : slice 32 36 (entry_bytes e) ≡ be_bytes 4 (length e.user_key)
  unfolding entry_bytes be_bytes slice take drop
  key_len_field = refl

  key_slice : drop header (entry_bytes e) ≡ e.user_key
  unfolding entry_bytes be_bytes drop
  key_slice = refl

  decode_entry-entry_bytes : IsEntry e → decode_entry (entry_bytes e) ≡ ok e
  unfolding decode_entry
  decode_entry-entry_bytes h =
      rw
        (
          length-entry_bytes,
          key_len_field,
          from_be_bytes-be_bytes 4 (length e.user_key) h.key_u32,
          epoch_slice,
          index_slice,
          term_slice,
          node_slice,
          key_slice,
          from_be_bytes-be_bytes 8 e.epoch h.epoch_u64,
          from_be_bytes-be_bytes 8 e.source_log_id.index h.index_u64,
          from_be_bytes-be_bytes 8 e.source_log_id.term h.term_u64,
          from_be_bytes-be_bytes 8 e.source_log_id.node_id h.node_u64,
        )
        ground (arith, ==_refl (header + length e.user_key))

module _ (prefix : Bytes) (e : SearchOutboxEntry) (h : IsEntry e) where
  -- A row that was written for an entry is decoded to the entry.
  pub decode-outbox_key : decode_outbox_key prefix (outbox_key prefix e) ≡ ok e
  unfolding decode_outbox_key
  decode-outbox_key =
      rw (decode_outbox_key, strip_prefix-append prefix (entry_bytes e))
        (decode_entry-entry_bytes e h)

  pub decode-encode : (encode_outbox_key prefix e >>= decode_outbox_key prefix) ≡ ok e
  unfolding encode_outbox_key
  decode-encode = ground (arith, decode-outbox_key, h.key_u32)
