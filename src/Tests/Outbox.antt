-- ===== src/Tests/Outbox.antt =====
-- The theorem about pruning, at four rows and three consumers: one that indexes, one that builds, and
-- one that was released.
use dal_service.Prelude.{
  ◌≡◌, refl, true, false, none, some, List, [], ◌∷◌, ◌++◌, All, map, ℕ, ◌<◌, ◌^◌, arith,
}
use dal_service.Codec.{Bytes, ok}
use dal_service.Keyspace.BigEndian.{be_bytes}
use dal_service.Search.Outbox.{
  SearchOutboxEntry, SearchConsumerState, entry_bytes, outbox_key, prune_search_outbox,
}
use dal_service.Search.Outbox.Keys.{IsEntry}
use dal_service.Search.Outbox.Pruned.{is_retained, prune_search_outbox-keep}

abbrev prefix : Bytes
prefix = 115 ∷ 47 ∷ []

abbrev changed : ℕ → ℕ → Bytes → SearchOutboxEntry
changed e i key = record {
  epoch = e;
  source_log_id = record { term = 3; node_id = 1; index = i };
  user_key = key;
}

abbrev indexing : SearchConsumerState
indexing = record {
  definition_hash = [];
  engine_revision = 1;
  checkpoint = some (record {
    projection_epoch = 2;
    definition_hash = [];
    engine_revision = 1;
    source_log_id = some (record { term = 3; node_id = 1; index = 9 });
  });
  retention_floor = none;
  needs_rebuild = false;
}

abbrev building : SearchConsumerState
building = record indexing { checkpoint = none; retention_floor = some (2, 5) }

abbrev released : SearchConsumerState
released = record indexing { checkpoint = none; needs_rebuild = true }

abbrev earlier : List SearchOutboxEntry
earlier = changed 1 20 (97 ∷ []) ∷ changed 2 4 (98 ∷ []) ∷ []

abbrev later : List SearchOutboxEntry
later = changed 2 7 (97 ∷ []) ∷ changed 2 12 (99 ∷ []) ∷ []

changed_IsEntry : (e i b : ℕ) → e < 256 ^ 8 → i < 256 ^ 8 → IsEntry (changed e i (b ∷ []))
changed_IsEntry e i b he hi = record {
  epoch_u64 = he;
  index_u64 = hi;
  term_u64 = omega arith;
  node_u64 = omega arith;
  key_u32 = omega arith;
}

entries_IsEntry : All IsEntry (earlier ++ later)
entries_IsEntry = (
  changed_IsEntry 1 20 97 (omega arith) (omega arith),
  (
    changed_IsEntry 2 4 98 (omega arith) (omega arith),
    (
      changed_IsEntry 2 7 97 (omega arith) (omega arith),
      (changed_IsEntry 2 12 99 (omega arith) (omega arith), tt),
    ),
  ),
)

prune_search_outbox-keep_example :
    prune_search_outbox prefix 2
      (indexing ∷ building ∷ released ∷ [])
      (map (outbox_key prefix) (earlier ++ later))
    ≡ ok (2, map (outbox_key prefix) later)
unfolding is_retained be_bytes entry_bytes
prune_search_outbox-keep_example =
    prune_search_outbox-keep prefix 2 (indexing ∷ building ∷ released ∷ []) (earlier ++ later)
      entries_IsEntry ((refl, (refl, (refl, tt))), ((refl, (refl, tt)), ((refl, tt), (tt, tt))))
