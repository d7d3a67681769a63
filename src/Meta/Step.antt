-- ===== src/Meta/Step.antt =====
-- What a meta command may write, by what the state holds: the transitions of the directory, of the
-- placements, of the maintenance record and of the search catalog, as a relation between a state and
-- the mutations. Its conditions are written on the records, without the tests of the handlers.
pub mod Nodes
pub mod Moves
pub mod Records
pub mod Catalogs
pub mod Evaluates
use dal_service.Prelude.{
  ℕ, zero, suc, ◌+◌, ◌≤◌, ◌<◌, ◌≡◌, ◌≢◌, ◌⊎◌, Bool, true, false, ◌&&◌, Option, none, some, List, [],
  ◌∷◌, ◌==◌, nat_eq, list_eq, length, find, contains, All, is_empty, u64_max, if◌then◌else◌,
}
use dal_service.Prelude.Sets.{IsStrict, difference, set_insert}
use dal_service.Codec.{Bytes}
use dal_service.Types.{NodeId, GroupId, LogId, meta, data_group, max_cluster_nodes}
use dal_service.Types.Meta.{
  ClusterConfig, MovePlan, Placement, NodeState, NodeDirectoryEntry, MaintenanceRecord,
  MaintenanceStage, voter_set, references_node,
}
use dal_service.Search.Definition.{Text, SearchIndexGeneration, SearchIndexRecord, SearchIndexReady}
use dal_service.Meta.Store.{
  MetaStore, MetaMutation, ReadyKey, put_cluster, put_maintenance, put_node, delete_node,
  put_retired, put_placement, put_search_index, delete_search_index, put_search_ready,
  delete_search_ready, node, all_groups,
}
use dal_service.Meta.Placements.{sort}
pub use dal_service.Meta.Operations.{IsActive, Participates, Proceeds, Maintains}
pub use dal_service.Meta.Generations.{Succeeds, IsSpent, IsReadyFor, IsCataloged, indexed}

-- The size that a voter set of a group must have.
abbrev pub HasSize : Option ClusterConfig → GroupId → List NodeId → Type 0
HasSize none g voters = ⊥
HasSize (some c) meta voters = 3 ≤ length voters
HasSize (some c) (data_group p) voters = length voters ≡ c.r

-- From voters to target one voter leaves, and at most one joins.
abbrev pub OneLeaves : List NodeId → List NodeId → Type 0
OneLeaves voters target =
    (length (difference voters target) ≡ 1) × (length (difference target voters) ≤ 1)

-- The first cluster record, and the meta group's placement with it.
abbrev pub Inits : MetaStore → ClusterConfig → GroupId → Placement → Type 0
Inits s c g p =
    (s.cluster ≡ none)
    × (g ≡ meta)
    × (3 ≤ c.r)
    × (0 < c.p)
    × IsStrict p.voters
    × (3 ≤ length p.voters)
    × (length p.voters ≤ max_cluster_nodes)
    × (p.move ≡ none)

-- The state that an entry has may follow another in the same incarnation: a Draining node stays
-- Draining, and a Down one stays Down or drains.
abbrev pub MayFollow : NodeState → NodeState → Type 0
MayFollow a b =
    (a ≡ NodeState.active)
    ⊎ (a ≡ NodeState.suspect)
    ⊎ (b ≡ NodeState.draining)
    ⊎ ((a ≡ NodeState.down) × (b ≡ NodeState.down))

-- Every entry of another node has its two endpoints apart from those of an entry.
abbrev pub IsApart : NodeDirectoryEntry → List NodeDirectoryEntry → Type 0
IsApart e [] = Unit
IsApart e (x ∷ xs) =
    ((x.node_id ≡ e.node_id)
      ⊎ ((x.control_addr ≢ e.control_addr)
          × (x.control_addr ≢ e.bulk_addr)
          × (x.bulk_addr ≢ e.control_addr)
          × (x.bulk_addr ≢ e.bulk_addr)))
    × IsApart e xs

-- A group has a placement in which a node is neither a voter nor a voter to be.
abbrev pub IsFree : NodeId → Option MovePlan → Type 0
IsFree id none = Unit
IsFree id (some m) = All (λ v. v ≢ id) m.target_voters

abbrev pub IsEvacuated : NodeId → Option Placement → Type 0
IsEvacuated id none = ⊥
IsEvacuated id (some p) = All (λ v. v ≢ id) p.voters × IsFree id p.move

-- A directory entry written over what the directory holds for the node.
abbrev pub Enters : MetaStore → NodeDirectoryEntry → Option NodeDirectoryEntry → Type 0
Enters s e none =
    (e.node_id ≢ 0)
    × (e.state ≡ NodeState.active)
    × (e.incarnation ≡ 1)
    × (s.retired e.node_id ≡ none)
    × (length s.directory < max_cluster_nodes)
    × IsApart e s.directory
Enters s e (some old) =
    ((e.state ≡ NodeState.active)
      × (e.incarnation ≡ old.incarnation + 1)
      × (s.retired e.node_id ≡ none)
      × IsApart e s.directory)
    ⊎ ((e.control_addr ≡ old.control_addr)
        × (e.bulk_addr ≡ old.bulk_addr)
        × (e.incarnation ≡ old.incarnation)
        × MayFollow old.state e.state)

-- A node leaves the directory for good: it was draining, and no placement refers to it.
abbrev pub RetiresFrom :
    MetaStore → NodeId → ℕ → Option NodeDirectoryEntry → Option ClusterConfig → Type 0
RetiresFrom s id i none c = ⊥
RetiresFrom s id i (some e) none = ⊥
RetiresFrom s id i (some e) (some c) =
    (s.retired id ≡ none)
    × (e.state ≡ NodeState.draining)
    × (e.incarnation ≡ i)
    × All (λ g. IsEvacuated id (s.placement g)) (all_groups c.p)

abbrev pub InRange : Option ClusterConfig → GroupId → Type 0
InRange (some c) (data_group k) = k < c.p
InRange _ _ = ⊥

-- What becomes of the move of a group that is placed.
abbrev pub Moves :
    MetaStore → LogId → GroupId → Placement → Placement → Option MovePlan → Option MovePlan → Type 0
Moves s l g q p none none = ⊥
Moves s l g q p none (some m) =
    (p ≡ record q { move = some m })
    × (m.plan_id ≡ l.index)
    × (m.aborting ≡ false)
    × IsStrict m.target_voters
    × HasSize s.cluster g m.target_voters
    × OneLeaves (voter_set q.voters) m.target_voters
    × All (λ n. IsActive (node s n)) (difference m.target_voters (voter_set q.voters))
Moves s l g q p (some m) (some m') =
    (p ≡ record q { move = some m' }) × (m.aborting ≡ false) × (m' ≡ record m { aborting = true })
Moves s l g q p (some m) none =
    (p.voters ≡ sort m.target_voters) ⊎ ((m.aborting ≡ true) × (p.voters ≡ sort q.voters))

-- A placement written over what the group's placement is.
abbrev pub Places : MetaStore → LogId → GroupId → Placement → Option Placement → Type 0
Places s l g p none =
    (g ≢ meta)
    × (p.move ≡ none)
    × IsStrict p.voters
    × HasSize s.cluster g p.voters
    × InRange s.cluster g
    × All (λ n. IsActive (node s n)) p.voters
Places s l g p (some q) = Moves s l g q p q.move p.move

-- The mutations of a command, by their form.
abbrev pub Allowed : MetaStore → LogId → List MetaMutation → Type 0
Allowed s l (put_cluster c ∷ put_placement g p ∷ []) = Inits s c g p
Allowed s l (put_node e ∷ []) = Enters s e (node s e.node_id)
Allowed s l (put_retired id i ∷ delete_node n ∷ []) =
    (n ≡ id) × RetiresFrom s id i (node s id) s.cluster
Allowed s l (put_placement g p ∷ []) = Places s l g p (s.placement g)
Allowed s l (put_maintenance m ∷ []) = Maintains s m s.maintenance
Allowed s l ms = All (IsCataloged s) ms

-- The same as a relation.
pub data Step (s : MetaStore) (l : LogId) : List MetaMutation → Type 0 where
  init :
      (c : ClusterConfig) (g : GroupId) (p : Placement)
      → Inits s c g p
      → Step s l (put_cluster c ∷ put_placement g p ∷ [])
  enter : (e : NodeDirectoryEntry) → Enters s e (node s e.node_id) → Step s l (put_node e ∷ [])
  retire :
      (id n : NodeId) (i : ℕ)
      → n ≡ id
      → RetiresFrom s id i (node s id) s.cluster
      → Step s l (put_retired id i ∷ delete_node n ∷ [])
  place :
      (g : GroupId) (p : Placement)
      → Places s l g p (s.placement g)
      → Step s l (put_placement g p ∷ [])
  maintain :
      (m : MaintenanceRecord) → Maintains s m s.maintenance → Step s l (put_maintenance m ∷ [])
  search : (ms : List MetaMutation) → All (IsCataloged s) ms → Step s l ms

pub Step-of_Allowed :
    (s : MetaStore) (l : LogId) (ms : List MetaMutation) → Allowed s l ms → Step s l ms
Step-of_Allowed s l (put_cluster c ∷ put_placement g p ∷ []) h = Step.init c g p h
Step-of_Allowed s l (put_node e ∷ []) h = Step.enter e h
Step-of_Allowed s l (put_retired id i ∷ delete_node n ∷ []) h = Step.retire id n i h.0 h.1
Step-of_Allowed s l (put_placement g p ∷ []) h = Step.place g p h
Step-of_Allowed s l (put_maintenance m ∷ []) h = Step.maintain m h
Step-of_Allowed s l ms h = Step.search ms h
