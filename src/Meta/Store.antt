-- ===== src/Meta/Store.antt =====
-- The meta group's records and the mutations that a command writes. A key of src/keyspace.rs is a
-- field or a constructor here, and a record is stored as its value. Storage faults are left out.
use Prim.Native.String.{String}
use dal_service.Prelude.{
  ℕ, ◌+◌, Bool, false, not, ◌&&◌, Option, none, some, List, [], ◌∷◌, map, ltb, ◌==◌, nat_eq,
  list_eq, length, keep, if◌then◌else◌,
}
use dal_service.Types.{NodeId, GroupId, LogId, group_eq, meta, data_group}
use dal_service.Types.Meta.{
  ClusterConfig, Placement, NodeState, NodeDirectoryEntry, MaintenanceRecord, state_eq,
}
use dal_service.Search.Definition.{Text, SearchIndexRecord, SearchIndexReady}

-- The node-local identity that the storage is bound to.
pub record Identity : Type 0 where
  pub cluster_id : ℕ
  pub node_id : NodeId

-- The key of a readiness record.
pub record ReadyKey : Type 0 where
  pub name : Text
  pub generation : ℕ
  pub group : GroupId
  pub node_id : NodeId

abbrev pub ready_key_beq : ReadyKey → ReadyKey → Bool
ready_key_beq a b =
    a.name == b.name && a.generation == b.generation && a.group == b.group && a.node_id == b.node_id

pub record MetaStore : Type 0 where
  pub identity : Option Identity
  pub recovery_epoch : ℕ
  pub cluster : Option ClusterConfig
  pub maintenance : Option MaintenanceRecord
  -- In the order of the keys.
  pub directory : List NodeDirectoryEntry
  pub retired : NodeId → Option ℕ
  pub placement : GroupId → Option Placement
  pub search_indexes : List SearchIndexRecord
  pub search_ready : List (ReadyKey × SearchIndexReady)
  pub last_applied : Option LogId

pub data MetaMutation : Type 0 where
  put_cluster : ClusterConfig → MetaMutation
  put_maintenance : MaintenanceRecord → MetaMutation
  put_node : NodeDirectoryEntry → MetaMutation
  delete_node : NodeId → MetaMutation
  put_retired : NodeId → ℕ → MetaMutation
  put_placement : GroupId → Placement → MetaMutation
  put_search_index : SearchIndexRecord → MetaMutation
  delete_search_index : Text → MetaMutation
  put_search_ready : ReadyKey → SearchIndexReady → MetaMutation
  delete_search_ready : ReadyKey → MetaMutation

pub data MetaReject : Type 0 where
  cluster_not_initialized cluster_conflict : MetaReject
  invalid_config : String → MetaReject
  no_placement placement_conflict plan_exists no_plan plan_id_mismatch : MetaReject
  illegal_voter_change : String → MetaReject
  ineligible_target observation_mismatch plan_aborting not_aborting unknown_node : MetaReject
  stale_incarnation seed_meta_forbidden search_index_exists search_index_not_found : MetaReject
  search_generation_exists search_generation_mismatch search_generation_not_ready : MetaReject
  maintenance_active maintenance_busy maintenance_mismatch : MetaReject
  maintenance_topology_mismatch maintenance_policy_mismatch : MetaReject
  maintenance_liveness_mismatch stale_maintenance_process : MetaReject

pub data MetaApplyResult : Type 0 where
  applied no_op : MetaApplyResult
  rejected : MetaReject → MetaApplyResult

-- What a handler returns: the outcome, and the mutations that it decided.
abbrev pub Outcome : Type 0
Outcome = MetaApplyResult × List MetaMutation

abbrev pub reject : MetaReject → Outcome
reject r = (rejected r, [])

abbrev pub invalid : String → Outcome
invalid message = (rejected (invalid_config message), [])

abbrev pub illegal : String → Outcome
illegal message = (rejected (illegal_voter_change message), [])

abbrev pub unchanged : Outcome
unchanged = (no_op, [])

unfoldable pub find_node : NodeId → List NodeDirectoryEntry → Option NodeDirectoryEntry
find_node id [] = none
find_node id (e ∷ es) = if e.node_id == id then some e else find_node id es

-- `MetaStateMachine::node`.
abbrev pub node : MetaStore → NodeId → Option NodeDirectoryEntry
node s id = find_node id s.directory

unfoldable pub put_entry : NodeDirectoryEntry → List NodeDirectoryEntry → List NodeDirectoryEntry
put_entry e [] = e ∷ []
put_entry e (x ∷ xs) =
    let rest = put_entry e xs in
    if ltb e.node_id x.node_id
    then e ∷ x ∷ xs
    else if e.node_id == x.node_id
    then e ∷ xs
    else x ∷ rest

unfoldable pub delete_entry : NodeId → List NodeDirectoryEntry → List NodeDirectoryEntry
delete_entry id [] = []
delete_entry id (x ∷ xs) = let rest = delete_entry id xs in if x.node_id == id then xs else x ∷ rest

unfoldable pub put_index : SearchIndexRecord → List SearchIndexRecord → List SearchIndexRecord
put_index r [] = r ∷ []
put_index r (x ∷ xs) = if x.name == r.name then r ∷ xs else x ∷ put_index r xs

unfoldable pub put_ready :
    ReadyKey
    → SearchIndexReady
    → List (ReadyKey × SearchIndexReady)
    → List (ReadyKey × SearchIndexReady)
put_ready key ready [] = (key, ready) ∷ []
put_ready key ready ((k, v) ∷ xs) =
    if ready_key_beq k key then (key, ready) ∷ xs else (k, v) ∷ put_ready key ready xs

unfoldable pub write : MetaStore → MetaMutation → MetaStore
write s (put_cluster c) = record s { cluster = some c }
write s (put_maintenance m) = record s { maintenance = some m }
write s (put_node e) = record s { directory = put_entry e s.directory }
write s (delete_node id) = record s { directory = delete_entry id s.directory }
write s (put_retired id i) = record s { retired = λ n. if id == n then some i else s.retired n }
write s (put_placement g p) = record s { placement = λ h. if g == h then some p else s.placement h }
write s (put_search_index r) = record s { search_indexes = put_index r s.search_indexes }
write s (delete_search_index name) = record s {
  search_indexes = keep (λ r. not (r.name == name)) s.search_indexes;
}
write s (put_search_ready key ready) = record s {
  search_ready = put_ready key ready s.search_ready;
}
write s (delete_search_ready key) = record s {
  search_ready = keep (λ e. not (ready_key_beq e.0 key)) s.search_ready;
}

unfoldable pub write_all : MetaStore → List MetaMutation → MetaStore
write_all s [] = s
write_all s (m ∷ ms) = write_all (write s m) ms

-- `Storage::apply_state` of the meta group: the mutations with `last_applied`, in one batch.
unfoldable pub apply_state : MetaStore → List MetaMutation → LogId → MetaStore
apply_state s ms log_id = record (write_all s ms) { last_applied = some log_id }

-- `is_active`.
abbrev pub active_entry : Option NodeDirectoryEntry → Bool
active_entry none = false
active_entry (some e) = e.state == NodeState.active

abbrev pub is_active : MetaStore → NodeId → Bool
is_active s id = active_entry (node s id)

-- `eligible_count`.
abbrev pub eligible_count : MetaStore → ℕ
eligible_count s = length (keep (λ e. e.state == NodeState.active) s.directory)

-- `0..p`.
unfoldable pub range_from : ℕ → ℕ → List ℕ
range_from k Prim.Native.Nat.zero = []
range_from k (Prim.Native.Nat.suc n) = k ∷ range_from (k + 1) n

-- `once(Meta).chain((0..p).map(Data))`.
abbrev pub all_groups : ℕ → List GroupId
all_groups p = meta ∷ map data_group (range_from 0 p)
