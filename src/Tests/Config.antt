-- ===== src/Tests/Config.antt =====
-- The theorems about a validated cluster and about the gate on a move, at a cluster of three nodes.
use dal_service.Prelude.{ℕ, ◌≡◌, ◌≢◌, ◌↔◌, refl, true, false, some, List, [], ◌∷◌}
use dal_service.Prelude.Sets.{collect_set, set_insert}
use dal_service.Codec.{ok}
use dal_service.Config.{validate_routing_shape}
use dal_service.Config.Init.{InitConfig, validate_bootstrap, validate_meta, validate}
use dal_service.Config.Init.Accepted.{cluster_config, founding, validate-cluster_init}
use dal_service.Types.{data_group, meta}
use dal_service.Types.Meta.{HashAlgo, MetaCommand, MovePlan, Placement}
use dal_service.Meta.Store.{
  MetaStore, applied, put_cluster, put_placement, write_all, write, put_entry, find_node,
  apply_state,
}
use dal_service.Meta.Cluster.{cluster_init, first_init, init_shape}
use dal_service.Meta.Nodes.{register_node, register_in, register_entry}
use dal_service.Meta.Placements.{
  sort, sort_insert, seed_placement, seed_group, seed_data, seed_against, create_plan, plan_for,
  plan_refusal, plan_move,
}
use dal_service.Meta.Evaluate.{dispatch, in_maintenance, is_maintenance, evaluate, apply}
use dal_service.Meta.Invariant.Valid.{Valid}
use dal_service.Meta.Invariant.History.{Reaches, bound-Valid, Reaches-Later}
use dal_service.Meta.Reconcile.{GateDecision, gate, ReconcileAction, reconcile, gate-reconcile}
use dal_service.Tests.Fixtures.{hashing}
use dal_service.Tests.Meta.{at, run, all_ok, config, fresh, Reaches-run}
use dal_service.Tests.Balancer.{placed}

abbrev input : InitConfig
input = record {
  p = 1;
  r = 3;
  bootstrap_nodes = 3 ∷ 1 ∷ 2 ∷ [];
  meta_voters = 1 ∷ 2 ∷ 3 ∷ [];
  hash_spec = record { algo = HashAlgo.xxh64; seed = 5 };
}

input_valid : validate input ≡ ok tt
unfolding validate validate_bootstrap validate_meta validate_routing_shape collect_set set_insert
input_valid = refl

validate-cluster_init_example :
    cluster_init fresh (cluster_config input 77) (1 ∷ 2 ∷ 3 ∷ []) (at 1) ≡ (
      applied,
      put_cluster (cluster_config input 77) ∷ put_placement meta (founding input (at 1)) ∷ [],
    )
validate-cluster_init_example =
    validate-cluster_init fresh (record { cluster_id = 77; node_id = 1 }) input (at 1) refl refl
      input_valid

abbrev planning : List (MetaCommand × ℕ)
planning =
    (MetaCommand.cluster_init config (1 ∷ 2 ∷ 3 ∷ []), 1)
    ∷ (MetaCommand.register_node 1 (11 ∷ []) (12 ∷ []), 2)
    ∷ (MetaCommand.register_node 2 (21 ∷ []) (22 ∷ []), 3)
    ∷ (MetaCommand.register_node 3 (31 ∷ []) (32 ∷ []), 4)
    ∷ (MetaCommand.register_node 4 (41 ∷ []) (42 ∷ []), 5)
    ∷ (MetaCommand.seed_placement (data_group 0) (3 ∷ 2 ∷ 1 ∷ []), 6)
    ∷ (MetaCommand.create_plan (data_group 0) 0 (4 ∷ 1 ∷ 2 ∷ []), 7)
    ∷ []

abbrev pub planned : MetaStore
planned = run fresh planning

abbrev pub move : MovePlan
move = record { plan_id = 7; target_voters = 1 ∷ 2 ∷ 4 ∷ []; aborting = false }

abbrev pub moving : Placement
moving = record (placed (1 ∷ 2 ∷ 3 ∷ [])) { move = some move }

planning_ok : all_ok fresh planning ≡ true
unfolding apply evaluate dispatch is_maintenance cluster_init first_init init_shape
    validate_routing_shape collect_set set_insert apply_state write_all write register_node
    register_in register_entry find_node put_entry seed_placement seed_group seed_data seed_against
    create_plan plan_for plan_refusal plan_move sort sort_insert
planning_ok = refl

pub planned_initialised : planned.cluster ≡ some config
unfolding apply evaluate dispatch is_maintenance cluster_init first_init init_shape
    validate_routing_shape collect_set set_insert apply_state write_all write register_node
    register_in register_entry find_node put_entry seed_placement seed_group seed_data seed_against
    create_plan plan_for plan_refusal plan_move sort sort_insert
planned_initialised = refl

pub planned_moving : planned.placement (data_group 0) ≡ some moving
unfolding apply evaluate dispatch is_maintenance cluster_init first_init init_shape
    validate_routing_shape collect_set set_insert apply_state write_all write register_node
    register_in register_entry find_node put_entry seed_placement seed_group seed_data seed_against
    create_plan plan_for plan_refusal plan_move sort sort_insert
planned_moving = refl

pub planned-Valid : Valid planned
planned-Valid =
    (Reaches-Later hashing fresh (Reaches-run fresh fresh planning Reaches.here planning_ok)
      (bound-Valid (some (record { cluster_id = 77; node_id = 1 })))).0

pub planned_calm : in_maintenance planned.maintenance ≡ false
unfolding apply evaluate dispatch is_maintenance cluster_init first_init init_shape
    validate_routing_shape collect_set set_insert apply_state write_all write register_node
    register_in register_entry find_node put_entry seed_placement seed_group seed_data seed_against
    create_plan plan_for plan_refusal plan_move sort sort_insert
planned_calm = refl

gate-reconcile_example :
    ((gate moving (1 ∷ 2 ∷ 3 ∷ []) ≡ GateDecision.accept) ↔ (
      (move.aborting ≡ false)
      × (1 ∷ 2 ∷ 3 ∷ [] ≡ moving.voters)
      × (reconcile moving (1 ∷ 2 ∷ 3 ∷ []) ≡ ReconcileAction.resume_plan)))
    × (gate moving (1 ∷ 2 ∷ 3 ∷ []) ≢ GateDecision.reject_not_single_voter)
gate-reconcile_example =
    gate-reconcile planned config 0 moving move (1 ∷ 2 ∷ 3 ∷ []) planned-Valid planned_initialised
      planned_moving refl
