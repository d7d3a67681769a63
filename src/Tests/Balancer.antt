-- ===== src/Tests/Balancer.antt =====
-- The theorems about the balancer, at a cluster whose third node is down and at three partitions of
-- four nodes.
use dal_service.Prelude.{
  ℕ, ◌+◌, ◌≤◌, ◌≡◌, refl, true, arith, none, some, List, [], ◌∷◌, All, length,
}
use dal_service.Prelude.Sets.{collect_set, set_insert}
use dal_service.Types.{NodeId, data_group}
use dal_service.Types.Meta.{Placement, NodeDirectoryEntry, NodeState, MetaCommand}
use dal_service.Meta.Store.{MetaStore, write_all, write, put_entry, find_node, apply_state}
use dal_service.Config.{validate_routing_shape}
use dal_service.Meta.Cluster.{cluster_init, first_init, init_shape}
use dal_service.Meta.Nodes.{register_node, register_in, register_entry, set_node_state, revives}
use dal_service.Meta.Placements.{
  sort, sort_insert, no_move, seed_placement, seed_group, seed_data, seed_against,
}
use dal_service.Meta.Evaluate.{dispatch, is_maintenance, evaluate, apply}
use dal_service.Meta.Invariant.History.{Reaches, bound-Valid, Reaches-Later}
use dal_service.Balancer.{
  PlanProposal, eligible_nodes, evacuating_voters, add_load, load_from, load_map, least, greatest,
  least_loaded_non_replica, better_rebalance, replacement, drain_at, drain, candidate_at, rebalance,
  placement_at, propose,
}
use dal_service.Balancer.Accepted.{Plans, Reason, propose-create_plan}
use dal_service.Balancer.Spread.{settle}
use dal_service.Balancer.Rounds.{Rounds, measure, Rounds-spread}
use dal_service.Balancer.Quiet.{Settled, propose-none}
use dal_service.Tests.Fixtures.{hashing}
use dal_service.Tests.Meta.{at, run, all_ok, config, fresh, first_init_command, Reaches-run}

abbrev pub failure : List (MetaCommand × ℕ)
failure =
    (first_init_command, 1)
    ∷ (MetaCommand.register_node 1 (11 ∷ []) (12 ∷ []), 2)
    ∷ (MetaCommand.register_node 2 (21 ∷ []) (22 ∷ []), 3)
    ∷ (MetaCommand.register_node 3 (31 ∷ []) (32 ∷ []), 4)
    ∷ (MetaCommand.register_node 4 (41 ∷ []) (42 ∷ []), 5)
    ∷ (MetaCommand.seed_placement (data_group 0) (3 ∷ 2 ∷ 1 ∷ []), 6)
    ∷ (MetaCommand.set_node_state 3 NodeState.down 1, 7)
    ∷ []

failure_ok : all_ok fresh failure ≡ true
unfolding apply evaluate dispatch is_maintenance cluster_init first_init init_shape
    validate_routing_shape collect_set set_insert apply_state write_all write register_node
    register_in register_entry find_node put_entry seed_placement seed_group seed_data seed_against
    set_node_state revives
failure_ok = refl

abbrev failed : MetaStore
failed = run fresh failure

abbrev pub placed : List NodeId → Placement
placed vs = record { voters = vs; voters_log_id = at 6; move = none }

abbrev placements : List (ℕ × Placement)
placements = (0, placed (1 ∷ 2 ∷ 3 ∷ [])) ∷ []

failed_initialised : failed.cluster ≡ some config
unfolding apply evaluate dispatch is_maintenance cluster_init first_init init_shape
    validate_routing_shape collect_set set_insert apply_state write_all write register_node
    register_in register_entry find_node put_entry seed_placement seed_group seed_data seed_against
    set_node_state revives
failed_initialised = refl

failed_placed : failed.placement (data_group 0) ≡ some (placed (1 ∷ 2 ∷ 3 ∷ []))
unfolding apply evaluate dispatch is_maintenance cluster_init first_init init_shape
    validate_routing_shape collect_set set_insert apply_state write_all write register_node
    register_in register_entry find_node put_entry seed_placement seed_group seed_data seed_against
    set_node_state revives
failed_placed = refl

abbrev replaced : PlanProposal
replaced = record { group = data_group 0; target_voters = 1 ∷ 2 ∷ 4 ∷ [] }

failed_proposed : propose failed.directory placements config.r ≡ some replaced
unfolding apply evaluate dispatch is_maintenance cluster_init first_init init_shape
    validate_routing_shape collect_set set_insert apply_state write_all write register_node
    register_in register_entry find_node put_entry seed_placement seed_group seed_data seed_against
    set_node_state revives propose eligible_nodes evacuating_voters add_load load_from least
    greatest least_loaded_non_replica replacement drain_at drain sort sort_insert
failed_proposed = refl

propose-create_plan_example : Plans failed (at 8) (Reason failed placements) replaced
propose-create_plan_example =
    propose-create_plan failed config (at 8) placements
      (Reaches-Later hashing fresh (Reaches-run fresh fresh failure Reaches.here failure_ok)
        (bound-Valid (some (record { cluster_id = 77; node_id = 1 })))).0
      failed_initialised (failed_placed, tt) failed_proposed

abbrev listed : NodeId → NodeDirectoryEntry
listed n = record {
  node_id = n;
  control_addr = n ∷ [];
  bulk_addr = n ∷ [];
  state = NodeState.active;
  incarnation = 1;
}

abbrev four : List NodeDirectoryEntry
four = listed 1 ∷ listed 2 ∷ listed 3 ∷ listed 4 ∷ []

abbrev crowded : List (ℕ × Placement)
crowded =
    (0, placed (1 ∷ 2 ∷ 3 ∷ [])) ∷ (1, placed (1 ∷ 2 ∷ 3 ∷ [])) ∷ (2, placed (1 ∷ 2 ∷ 3 ∷ [])) ∷ []

abbrev relieved : PlanProposal
relieved = record { group = data_group 0; target_voters = 2 ∷ 3 ∷ 4 ∷ [] }

one_round : Rounds four 3 1 crowded (settle 0 (2 ∷ 3 ∷ 4 ∷ []) crowded)
unfolding propose eligible_nodes evacuating_voters add_load load_from least greatest
    least_loaded_non_replica replacement drain_at drain candidate_at rebalance better_rebalance
    placement_at sort sort_insert collect_set set_insert
one_round =
    Rounds.round 0 0 crowded (settle 0 (2 ∷ 3 ∷ 4 ∷ []) crowded) relieved refl refl refl
      (Rounds.done (settle 0 (2 ∷ 3 ∷ 4 ∷ []) crowded))

Rounds-spread_example : 1 + measure four (settle 0 (2 ∷ 3 ∷ 4 ∷ []) crowded) ≤ measure four crowded
Rounds-spread_example =
    Rounds-spread four 3 1 crowded (settle 0 (2 ∷ 3 ∷ 4 ∷ []) crowded)
      (omega arith, (omega arith, tt))
      (
        (omega arith, (omega arith, tt)),
        ((omega arith, (omega arith, tt)), ((omega arith, (omega arith, tt)), tt)),
      )
      one_round

abbrev level : List (ℕ × Placement)
level = (0, placed (1 ∷ 2 ∷ 3 ∷ [])) ∷ (1, placed (2 ∷ 3 ∷ 4 ∷ [])) ∷ []

level_quiet : propose four level 3 ≡ none
unfolding propose eligible_nodes evacuating_voters add_load load_from least greatest
    least_loaded_non_replica replacement drain_at drain candidate_at rebalance better_rebalance
    placement_at sort sort_insert collect_set set_insert
level_quiet = refl

level_enough : 3 ≤ length (eligible_nodes four)
unfolding eligible_nodes collect_set set_insert
level_enough = omega arith

propose-none_example :
    All (λ e. no_move e.1 ≡ true → Settled four (eligible_nodes four) (load_map level) e.1) level
propose-none_example = propose-none four level 3 level_enough refl level_quiet
