-- ===== src/Meta/Catalog.antt =====
-- The search-catalog commands of src/meta/state_machine.rs. A catalog record that does not validate
-- when it is read is an error.
pub mod Lifecycle
use dal_service.Prelude.{
  ℕ, ◌+◌, Bool, true, false, not, ◌&&◌, ◌||◌, Option, none, some, List, [], ◌∷◌, ◌++◌, map, ltb,
  leb, ◌==◌, nat_eq, list_eq, option_eq, length, is_empty, any, all, keep, find, contains,
  if◌then◌else◌,
}
use dal_service.Codec.{Bytes, Result, ok, err, ◌>>=◌}
use dal_service.Types.{NodeId, GroupId, LogId, meta, data_group, group_eq}
use dal_service.Types.Meta.{Placement, ClusterConfig}
use dal_service.Search.Definition.{
  Text, Hashing, SearchIndexDefinition, SearchIndexGeneration, SearchIndexRecord, SearchIndexReady,
  search_max_indexes, search_max_retiring_generations, validate_index_name, with_revision,
  validate_record,
}
use dal_service.Meta.Placements.{no_move}
use dal_service.Meta.Store.{
  MetaStore, MetaMutation, MetaReject, ReadyKey, Outcome, applied, put_search_index,
  delete_search_index, put_search_ready, delete_search_ready, reject, invalid, unchanged,
  cluster_not_initialized, search_index_not_found, search_index_exists, search_generation_exists,
  search_generation_mismatch, search_generation_not_ready, observation_mismatch, no_placement,
  ready_key_beq, range_from,
}

abbrev pub log_beq : LogId → LogId → Bool
log_beq a b = a.term == b.term && a.index == b.index

abbrev pub is_none : {A : Type 0} → Option A → Bool
is_none none = true
is_none (some _) = false

-- The generation has the definition and the revision of another.
abbrev pub same_build : Option SearchIndexGeneration → SearchIndexGeneration → Bool
same_build none generation = false
same_build (some g) generation =
    g.definition_hash == generation.definition_hash
    && g.engine_revision == generation.engine_revision

abbrev pub has_name : Text → SearchIndexRecord → Bool
has_name name r = r.name == name

abbrev pub of_generation : Text → ℕ → ReadyKey × SearchIndexReady → Bool
of_generation name generation e = e.0.name == name && e.0.generation == generation

abbrev pub deletions : List (ReadyKey × SearchIndexReady) → List MetaMutation
deletions readiness = map (λ e. delete_search_ready e.0) readiness

module _ (h : Hashing) where
  -- `MetaStateMachine::search_index`.
  unfoldable pub search_index : MetaStore → Text → Result (Option SearchIndexRecord)
  search_index s name = elim (find (has_name name) s.search_indexes) [
    | none ↦ ok none
    | some r ↦ (do _ ← validate_record h r; ok (some r))
  ]

  -- The write of a record that validates.
  unfoldable pub commit_record : SearchIndexRecord → List MetaMutation → Outcome
  commit_record r more = elim (validate_record h r) [
    | err e ↦ invalid "invalid search catalog record"
    | ok _ ↦ (applied, put_search_index r ∷ more)
  ]

  -- The end of `create_search_index`, on the record that the generation is built in.
  unfoldable pub build_in : SearchIndexRecord → SearchIndexGeneration → Bool → Outcome
  build_in r generation update =
      if not (is_none r.building)
      then (if same_build r.building generation then unchanged else reject search_generation_exists)
      else if update && is_none r.active
      then reject search_index_not_found
      else if update && leb search_max_retiring_generations (length r.retiring)
      then invalid "too many retiring search generations; finalize one before updating"
      else commit_record (record r { building = some generation }) []

  -- The match on the record that is there and on the kind of command.
  unfoldable pub build_for :
      MetaStore → Text → SearchIndexGeneration → Bool → Option SearchIndexRecord → Outcome
  build_for s name generation update none =
      if update
      then reject search_index_not_found
      else if leb search_max_indexes (length s.search_indexes)
      then invalid "search catalog has reached its maximum index count"
      else build_in (record { name = name; active = none; building = none; retiring = [] })
          generation update
  build_for s name generation update (some r) =
      if update
      then build_in r generation update
      else if is_none r.active && same_build r.building generation
      then unchanged
      else reject search_index_exists

  unfoldable pub create_named :
      MetaStore → Text → SearchIndexDefinition → ℕ → LogId → Bool → Result Outcome
  create_named s name definition engine_revision log_id update =
      elim (with_revision h log_id.index engine_revision definition) [
        | err e ↦ ok (invalid "invalid search definition")
        | ok generation ↦ (do
          existing ← search_index s name
          ok (build_for s name generation update existing))
      ]

  unfoldable pub create_search_index :
      MetaStore → Text → SearchIndexDefinition → ℕ → LogId → Bool → Result Outcome
  create_search_index s name definition engine_revision log_id update = elim s.cluster [
    | none ↦ ok (reject cluster_not_initialized)
    | some _ ↦ elim (validate_index_name name) [
      | err e ↦ ok (invalid "invalid index name")
      | ok _ ↦ create_named s name definition engine_revision log_id update
    ]
  ]

  -- Against an earlier report of the same replica.
  unfoldable pub report_after :
      ReadyKey → SearchIndexReady → Option (ReadyKey × SearchIndexReady) → Outcome
  report_after key observation none = (applied, put_search_ready key observation ∷ [])
  report_after key observation (some (_, previous)) =
      if previous.generation == observation.generation
        && previous.definition_hash == observation.definition_hash
        && previous.engine_revision == observation.engine_revision
        && previous.group == observation.group
        && previous.node_id == observation.node_id
        && log_beq previous.voters_log_id observation.voters_log_id
        && previous.projection_epoch == observation.projection_epoch
        && log_beq previous.source_log_id observation.source_log_id
      then unchanged
      else if ltb observation.projection_epoch previous.projection_epoch
          || observation.projection_epoch == previous.projection_epoch
            && ltb observation.source_log_id.index previous.source_log_id.index
      then reject observation_mismatch
      else (applied, put_search_ready key observation ∷ [])

  unfoldable pub report_placed : MetaStore → Text → SearchIndexReady → Placement → Outcome
  report_placed s name observation placement =
      let key : ReadyKey = record {
        name = name;
        generation = observation.generation;
        group = observation.group;
        node_id = observation.node_id;
      } in
      if not (no_move placement)
        || not (log_beq placement.voters_log_id observation.voters_log_id)
        || not (contains placement.voters observation.node_id)
      then reject observation_mismatch
      else report_after key observation (find (λ e. ready_key_beq e.0 key) s.search_ready)

  unfoldable pub report_partition : MetaStore → Text → SearchIndexReady → GroupId → Outcome
  report_partition s name observation meta = reject observation_mismatch
  report_partition s name observation (data_group partition) = elim s.cluster [
    | none ↦ reject cluster_not_initialized
    | some config ↦
        if leb config.p partition || observation.projection_epoch == 0
        then reject observation_mismatch
        else elim (s.placement observation.group) [
          | none ↦ reject no_placement
          | some placement ↦ report_placed s name observation placement
        ]
  ]

  unfoldable pub report_building :
      MetaStore → Text → SearchIndexReady → Option SearchIndexRecord → Outcome
  report_building s name observation none = reject search_index_not_found
  report_building s name observation (some r) = elim r.building [
    | none ↦ reject search_generation_mismatch
    | some building ↦
        if not (observation.generation == building.id)
          || not (observation.definition_hash == building.definition_hash)
          || not (observation.engine_revision == building.engine_revision)
        then reject search_generation_mismatch
        else report_partition s name observation observation.group
  ]

  unfoldable pub report_search_ready : MetaStore → Text → SearchIndexReady → Result Outcome
  report_search_ready s name observation = do
    r ← search_index s name
    ok (report_building s name observation r)
