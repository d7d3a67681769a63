-- ===== src/Meta/Nodes.antt =====
-- The node-directory commands of src/meta/state_machine.rs.
use dal_service.Prelude.{
  ℕ, Bool, true, false, not, ◌&&◌, ◌||◌, Option, none, some, List, [], ◌∷◌, ltb, leb, ◌==◌, nat_eq,
  list_eq, length, is_empty, any, checked_add_one, if◌then◌else◌,
}
use dal_service.Codec.{Bytes}
use dal_service.Types.{NodeId, GroupId, max_cluster_nodes, max_endpoint_bytes}
use dal_service.Types.Meta.{NodeState, NodeDirectoryEntry, Placement, references_node, state_eq}
use dal_service.Meta.Store.{
  MetaStore, MetaReject, Outcome, applied, put_node, delete_node, put_retired, reject, invalid,
  unchanged, cluster_not_initialized, unknown_node, stale_incarnation, ineligible_target,
  no_placement, invalid_config, node, all_groups,
}

-- Another node of the directory has one of the endpoints, on either lane.
abbrev pub takes_endpoint : NodeId → Bytes → Bytes → NodeDirectoryEntry → Bool
takes_endpoint node_id control_addr bulk_addr other =
    not (other.node_id == node_id)
    && (other.control_addr == control_addr
        || other.bulk_addr == control_addr
        || other.control_addr == bulk_addr
        || other.bulk_addr == bulk_addr)

abbrev pub has_id : NodeId → NodeDirectoryEntry → Bool
has_id node_id e = e.node_id == node_id

unfoldable pub same_endpoints : Bytes → Bytes → NodeDirectoryEntry → Bool
same_endpoints control_addr bulk_addr e = e.control_addr == control_addr && e.bulk_addr == bulk_addr

-- The rejoin of a known node at its next incarnation.
unfoldable pub rejoin : NodeId → Bytes → Bytes → ℕ → Outcome
rejoin node_id control_addr bulk_addr incarnation = elim (checked_add_one incarnation) [
  | none ↦ invalid "node incarnation exhausted"
  | some next ↦ (
    applied,
    put_node (record {
      node_id = node_id;
      control_addr = control_addr;
      bulk_addr = bulk_addr;
      state = NodeState.active;
      incarnation = next;
    })
        ∷ [],
  )
]

unfoldable pub register_entry : NodeId → Bytes → Bytes → Option NodeDirectoryEntry → Outcome
register_entry node_id control_addr bulk_addr none = (
  applied,
  put_node (record {
    node_id = node_id;
    control_addr = control_addr;
    bulk_addr = bulk_addr;
    state = NodeState.active;
    incarnation = 1;
  })
      ∷ [],
)
register_entry node_id control_addr bulk_addr (some e) =
    if same_endpoints control_addr bulk_addr e
    then (if not (e.state == NodeState.down)
        then unchanged
        else rejoin e.node_id e.control_addr e.bulk_addr e.incarnation)
    else rejoin node_id control_addr bulk_addr e.incarnation

-- The tests of `register_node` on the directory.
unfoldable pub register_in : MetaStore → NodeId → Bytes → Bytes → Outcome
register_in s node_id control_addr bulk_addr =
    if any (takes_endpoint node_id control_addr bulk_addr) s.directory
    then invalid "node addresses are already registered to another node"
    else if leb max_cluster_nodes (length s.directory) && not (any (has_id node_id) s.directory)
    then invalid "cluster node count must be <= 8"
    else register_entry node_id control_addr bulk_addr (node s node_id)

unfoldable pub register_node : MetaStore → NodeId → Bytes → Bytes → Outcome
register_node s node_id control_addr bulk_addr = elim s.cluster [
  | none ↦ reject cluster_not_initialized
  | some _ ↦
      if node_id == 0
      then invalid "node_id must be non-zero"
      else if is_empty control_addr || is_empty bulk_addr
      then invalid "node addresses must be non-empty"
      else if ltb max_endpoint_bytes (length control_addr)
          || ltb max_endpoint_bytes (length bulk_addr)
      then invalid "node addresses must be <= 256 bytes"
      else if control_addr == bulk_addr
      then invalid "control_addr and bulk_addr must differ"
      else elim (s.retired node_id) [
        | some _ ↦ invalid "retired node ids cannot be reused"
        | none ↦ register_in s node_id control_addr bulk_addr
      ]
]

-- Down yields only to Down and Draining, and Draining only to Draining.
unfoldable pub revives : NodeState → NodeState → Bool
revives NodeState.down NodeState.down = false
revives NodeState.down NodeState.draining = false
revives NodeState.down _ = true
revives NodeState.draining NodeState.draining = false
revives NodeState.draining _ = true
revives _ _ = false

unfoldable pub set_node_state : MetaStore → NodeId → NodeState → ℕ → Outcome
set_node_state s node_id state incarnation = elim (node s node_id) [
  | none ↦ reject unknown_node
  | some entry ↦
      if not (incarnation == entry.incarnation)
      then reject stale_incarnation
      else if revives entry.state state
      then reject stale_incarnation
      else if entry.state == state
      then unchanged
      else (applied, put_node (record entry { state = state }) ∷ [])
]

-- The loop of `retire_node` over the groups: the first refusal.
unfoldable pub evacuated : (GroupId → Option Placement) → NodeId → List GroupId → Option MetaReject
evacuated placement node_id [] = none
evacuated placement node_id (g ∷ groups) =
    let rest = evacuated placement node_id groups in
    elim (placement g) [
      | none ↦ some no_placement
      | some p ↦
          if references_node p node_id
          then some (invalid_config "node is still referenced by a placement or move")
          else rest
    ]

unfoldable pub retire_entry : MetaStore → NodeId → ℕ → NodeDirectoryEntry → Outcome
retire_entry s node_id incarnation entry =
    if not (entry.incarnation == incarnation)
    then reject stale_incarnation
    else if not (entry.state == NodeState.draining)
    then reject ineligible_target
    else elim s.cluster [
      | none ↦ reject cluster_not_initialized
      | some cluster ↦ elim (evacuated s.placement node_id (all_groups cluster.p)) [
        | some r ↦ reject r
        | none ↦ (applied, put_retired node_id incarnation ∷ delete_node node_id ∷ [])
      ]
    ]

unfoldable pub retire_node : MetaStore → NodeId → ℕ → Outcome
retire_node s node_id incarnation = elim (s.retired node_id) [
  | some retired ↦ if retired == incarnation then unchanged else reject stale_incarnation
  | none ↦ elim (node s node_id) [
    | none ↦ reject unknown_node
    | some entry ↦ retire_entry s node_id incarnation entry
  ]
]
