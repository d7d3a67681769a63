-- ===== src/Meta/Failure.antt =====
-- The failure detector's decision (src/meta/failure.rs): how old evidence is read, and the change of
-- a directory entry that it justifies. A duration is a number.
pub mod Tracker
pub mod Stamps
pub mod Verdict
use dal_service.Prelude.{
  ℕ, ◌≡◌, ◌≤◌, ◌↔◌, ◌⊎◌, Option, none, some, [], ◌∷◌, arith, leb, nat_eq, if◌then◌else◌,
}
use dal_service.Types.Meta.{NodeState, NodeDirectoryEntry, state_eq}
use dal_service.Meta.Store.{MetaStore, put_node, applied, node}
use dal_service.Meta.Nodes.{set_node_state, revives}

pub data Liveness : Type 0 where
  alive suspect down : Liveness

pub record Timeouts : Type 0 where
  pub suspect : ℕ
  pub down : ℕ
  pub request : ℕ
  pub shutdown : ℕ

unfoldable pub classify : ℕ → Timeouts → Liveness
classify since_last_heartbeat timeouts =
    if leb timeouts.down since_last_heartbeat
    then Liveness.down
    else if leb timeouts.suspect since_last_heartbeat
    then Liveness.suspect
    else Liveness.alive

unfoldable pub next_state : NodeState → Liveness → Option NodeState
next_state NodeState.suspect Liveness.alive = some NodeState.active
next_state NodeState.active Liveness.suspect = some NodeState.suspect
next_state NodeState.active Liveness.down = some NodeState.down
next_state NodeState.suspect Liveness.down = some NodeState.down
next_state _ _ = none

-- A change of state that the detector derives, from evidence of any age, for the entry that the
-- directory holds is one that `set_node_state` applies at the entry's incarnation: it writes the
-- entry with the new state. It never concerns a Down or Draining node, and goes to Down exactly
-- when the evidence is as old as the down timeout.
pub next_state-set_node_state :
    (s : MetaStore) (timeouts : Timeouts) (age : ℕ) (e : NodeDirectoryEntry) (t : NodeState)
    → node s e.node_id ≡ some e
    → next_state e.state (classify age timeouts) ≡ some t
    → (set_node_state s e.node_id t e.incarnation
        ≡ (applied, put_node (record e { state = t }) ∷ []))
      × ((t ≡ NodeState.down) ↔ (timeouts.down ≤ age))
      × ((e.state ≡ NodeState.active) ⊎ (e.state ≡ NodeState.suspect))
unfolding set_node_state revives next_state classify
next_state-set_node_state s timeouts age e t found h = ground arith
