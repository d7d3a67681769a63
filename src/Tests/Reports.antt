-- ===== src/Tests/Reports.antt =====
-- The theorem about the failure detector, at one entry.
use dal_service.Prelude.{◌≡◌, ◌≤◌, ◌↔◌, ◌⊎◌, refl, none, some, [], ◌∷◌}
use dal_service.Types.Meta.{NodeDirectoryEntry, NodeState}
use dal_service.Meta.Store.{MetaStore, applied, find_node, put_node}
use dal_service.Meta.Nodes.{set_node_state}
use dal_service.Meta.Failure.{Timeouts, classify, next_state, next_state-set_node_state}
use dal_service.Meta.Invariant.History.{bound}

abbrev entry : NodeDirectoryEntry
entry = record {
  node_id = 2;
  control_addr = 21 ∷ [];
  bulk_addr = 22 ∷ [];
  state = NodeState.suspect;
  incarnation = 3;
}

abbrev listed : MetaStore
listed = record (bound none) { directory = entry ∷ [] }

abbrev timeouts : Timeouts
timeouts = record { suspect = 3000; down = 15000; request = 5000; shutdown = 60000 }

entry_listed : find_node 2 (entry ∷ []) ≡ some entry
unfolding find_node
entry_listed = refl

entry_down : next_state NodeState.suspect (classify 20000 timeouts) ≡ some NodeState.down
unfolding next_state classify
entry_down = refl

next_state-set_node_state_example :
    (set_node_state listed 2 NodeState.down 3
      ≡ (applied, put_node (record entry { state = NodeState.down }) ∷ []))
    × ((NodeState.down ≡ NodeState.down) ↔ (15000 ≤ 20000))
    × ((NodeState.suspect ≡ NodeState.active) ⊎ (NodeState.suspect ≡ NodeState.suspect))
next_state-set_node_state_example =
    next_state-set_node_state listed timeouts 20000 entry NodeState.down entry_listed entry_down
