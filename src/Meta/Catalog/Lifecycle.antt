-- ===== src/Meta/Catalog/Lifecycle.antt =====
-- Activation and removal of search generations, of src/meta/state_machine.rs.
use dal_service.Prelude.{
  ℕ, ◌+◌, Bool, false, not, ◌&&◌, Option, none, some, List, [], ◌∷◌, ◌++◌, ltb, leb, ◌==◌, nat_eq,
  list_eq, option_eq, length, is_empty, any, all, keep, contains, if◌then◌else◌,
}
use dal_service.Codec.{Result, ok, ◌>>=◌}
use dal_service.Types.{NodeId, GroupId, data_group, group_eq}
use dal_service.Types.Meta.{Placement}
use dal_service.Search.Definition.{
  Text, Hashing, SearchIndexGeneration, SearchIndexRecord, SearchIndexReady,
  search_max_retiring_generations,
}
use dal_service.Meta.Placements.{no_move}
use dal_service.Meta.Store.{
  MetaStore, ReadyKey, Outcome, applied, put_search_index, delete_search_index, reject, invalid,
  unchanged, cluster_not_initialized, search_index_not_found, search_generation_mismatch,
  search_generation_not_ready, range_from,
}
use dal_service.Meta.Catalog.{
  log_beq, is_none, of_generation, deletions, search_index, commit_record,
}

-- A replica has reported the building generation ready under the placement's configuration.
unfoldable pub reports :
    ℕ → GroupId → Placement → SearchIndexGeneration → NodeId → ReadyKey × SearchIndexReady → Bool
reports generation group placement building node_id (_, ready) =
    ready.generation == generation
    && ready.group == group
    && ready.node_id == node_id
    && log_beq ready.voters_log_id placement.voters_log_id
    && ready.definition_hash == building.definition_hash
    && ready.engine_revision == building.engine_revision

unfoldable pub partition_ready :
    ℕ
    → SearchIndexGeneration
    → List (ReadyKey × SearchIndexReady)
    → GroupId
    → Option Placement
    → Bool
partition_ready generation building readiness group none = false
partition_ready generation building readiness group (some placement) =
    no_move placement
    && all (λ v. any (reports generation group placement building v) readiness) placement.voters

abbrev pub active_id : Option SearchIndexGeneration → Option ℕ
active_id none = none
active_id (some g) = some g.id

-- `retiring` with the id, once.
unfoldable pub retire_id : ℕ → List ℕ → List ℕ
retire_id id retiring = if contains retiring id then retiring else retiring ++ id ∷ []

unfoldable pub retire_all : List SearchIndexGeneration → List ℕ → List ℕ
retire_all [] retiring = retiring
retire_all (g ∷ gs) retiring = retire_all gs (retire_id g.id retiring)

-- The replaced generation has no room among the retiring ones.
unfoldable pub retiring_full : Option SearchIndexGeneration → List ℕ → Bool
retiring_full none retiring = false
retiring_full (some previous) retiring =
    not (contains retiring previous.id) && leb search_max_retiring_generations (length retiring)

abbrev pub to_list : {A : Type 0} → Option A → List A
to_list none = []
to_list (some a) = a ∷ []

-- The readiness records of the generation that was being built.
unfoldable pub building_readiness :
    Text
    → Option SearchIndexGeneration
    → List (ReadyKey × SearchIndexReady)
    → List (ReadyKey × SearchIndexReady)
building_readiness name none ready = []
building_readiness name (some g) ready = keep (of_generation name g.id) ready

unfoldable pub finalize_in : SearchIndexRecord → ℕ → Outcome
finalize_in r generation =
    let retiring = keep (λ id. not (id == generation)) r.retiring in
    if length retiring == length r.retiring
    then unchanged
    else if is_none r.active && is_none r.building && is_empty retiring
    then (applied, delete_search_index r.name ∷ [])
    else (applied, put_search_index (record r { retiring = retiring }) ∷ [])

module _ (h : Hashing) where
  -- The switch: the building generation becomes active, the previous one retires.
  unfoldable pub switch :
      SearchIndexRecord → SearchIndexGeneration → List (ReadyKey × SearchIndexReady) → Outcome
  switch r activated readiness =
      if retiring_full r.active r.retiring
      then invalid "too many retiring search generations; finalize one before activation"
      else commit_record h
          (record r {
            active = some activated;
            building = none;
            retiring = retire_all (to_list r.active) r.retiring;
          })
          (deletions readiness)

  unfoldable pub activate_building :
      MetaStore → Text → ℕ → SearchIndexRecord → SearchIndexGeneration → Outcome
  activate_building s name generation r building =
      if not (building.id == generation)
      then reject search_generation_mismatch
      else elim s.cluster [
        | none ↦ reject cluster_not_initialized
        | some config ↦
            let readiness = keep (of_generation name generation) s.search_ready in
            let ready =
              all
                (λ p.
                  partition_ready generation building readiness (data_group p)
                    (s.placement (data_group p)))
                (range_from 0 config.p) in
            if not ready then reject search_generation_not_ready else switch r building readiness
      ]

  unfoldable pub activate_in : MetaStore → Text → ℕ → Option SearchIndexRecord → Outcome
  activate_in s name generation none = reject search_index_not_found
  activate_in s name generation (some r) =
      if active_id r.active == some generation && is_none r.building
      then unchanged
      else elim r.building [
        | none ↦ reject search_generation_mismatch
        | some building ↦ activate_building s name generation r building
      ]

  unfoldable pub activate_search_generation : MetaStore → Text → ℕ → Result Outcome
  activate_search_generation s name generation = do
    r ← search_index h s name
    ok (activate_in s name generation r)

  unfoldable pub drop_in : MetaStore → Text → Option SearchIndexRecord → Outcome
  drop_in s name none = unchanged
  drop_in s name (some r) =
      let retiring = to_list r.active ++ to_list r.building in
      let additions = length (keep (λ g. not (contains r.retiring g.id)) retiring) in
      if is_none r.active && is_none r.building
      then unchanged
      else if ltb search_max_retiring_generations (length r.retiring + additions)
      then invalid "too many retiring search generations; finalize one before dropping"
      else commit_record h
          (record r { active = none; building = none; retiring = retire_all retiring r.retiring })
          (deletions (building_readiness name r.building s.search_ready))

  unfoldable pub drop_search_index : MetaStore → Text → Result Outcome
  drop_search_index s name = do r ← search_index h s name; ok (drop_in s name r)

  unfoldable pub finalize_search_drop : MetaStore → Text → ℕ → Result Outcome
  finalize_search_drop s name generation = do
    r ← search_index h s name
    elim r [ none ↦ ok unchanged | some found ↦ ok (finalize_in found generation) ]
