-- ===== src/Tests/Meta.antt =====
-- The theorems about the meta group, at a cluster of four nodes of which one is retired.
use dal_service.Prelude.{ℕ, ◌≡◌, refl, Bool, true, false, ◌&&◌, arith, none, some, List, [], ◌∷◌}
use dal_service.Codec.{Result, ok, err}
use dal_service.Types.{LogId, data_group}
use dal_service.Types.Meta.{ClusterConfig, HashAlgo, MetaCommand, NodeState, references_node}
use dal_service.Meta.Store.{
  MetaStore, MetaApplyResult, MetaMutation, write_all, write, put_entry, delete_entry, range_from,
  rejected, maintenance_active, node, find_node, apply_state,
}
use dal_service.Config.{validate_routing_shape}
use dal_service.Prelude.Sets.{collect_set, set_insert}
use dal_service.Meta.Cluster.{cluster_init, first_init, init_shape}
use dal_service.Meta.Nodes.{
  register_node, register_in, register_entry, set_node_state, revives, retire_node, retire_entry,
  evacuated,
}
use dal_service.Meta.Placements.{seed_placement, seed_group, seed_data, seed_against}
use dal_service.Meta.Maintenance.{
  begin_maintenance, begin_in, begin_after, fresh_record, active_ids, increasing,
}
use dal_service.Meta.Evaluate.{dispatch, in_maintenance, is_maintenance, evaluate, apply}
use dal_service.Meta.Step.{Step}
use dal_service.Meta.Step.Evaluates.{apply-Step}
use dal_service.Meta.Invariant.Valid.{Valid, apply-Valid}
use dal_service.Meta.Invariant.Later.{Later}
use dal_service.Meta.Invariant.Fence.{apply_fenced}
use dal_service.Meta.Invariant.History.{Reaches, bound, bound-Valid, Reaches-Later, Reaches-retired}
use dal_service.Tests.Fixtures.{hashing}

abbrev pub state_after : Result (MetaApplyResult × MetaStore) → MetaStore
state_after (ok (r, s)) = s
state_after (err e) = bound none

abbrev pub result_after : Result (MetaApplyResult × MetaStore) → MetaApplyResult
result_after (ok (r, s)) = r
result_after (err e) = MetaApplyResult.no_op

abbrev pub at : ℕ → LogId
at i = record { term = 1; index = i }

-- The state after the commands, each at its log id.
abbrev pub run : MetaStore → List (MetaCommand × ℕ) → MetaStore
run s [] = s
run s ((cmd, i) ∷ cmds) = run (state_after (apply hashing s cmd (at i))) cmds

abbrev pub config : ClusterConfig
config = record {
  cluster_id = 77;
  protocol_version = 7;
  p = 1;
  r = 3;
  hash_spec = record { algo = HashAlgo.xxh64; seed = 5 };
}

abbrev pub fresh : MetaStore
fresh = bound (some (record { cluster_id = 77; node_id = 1 }))

abbrev pub first_init_command : MetaCommand
first_init_command = MetaCommand.cluster_init config (1 ∷ 2 ∷ 3 ∷ [])

abbrev again : MetaCommand
again = MetaCommand.register_node 4 (41 ∷ []) (42 ∷ [])

abbrev pub is_ok : Result (MetaApplyResult × MetaStore) → Bool
is_ok (ok x) = true
is_ok (err e) = false

abbrev pub all_ok : MetaStore → List (MetaCommand × ℕ) → Bool
all_ok s [] = true
all_ok s ((cmd, i) ∷ cmds) =
    is_ok (apply hashing s cmd (at i)) && all_ok (state_after (apply hashing s cmd (at i))) cmds

pub is_ok_eq :
    (x : Result (MetaApplyResult × MetaStore))
    → is_ok x ≡ true
    → x ≡ ok (result_after x, state_after x)
is_ok_eq (ok x) h = refl
is_ok_eq (err e) h = ground arith

pub Reaches-run :
    (s t : MetaStore) (cmds : List (MetaCommand × ℕ))
    → Reaches hashing s t
    → all_ok t cmds ≡ true
    → Reaches hashing s (run t cmds)
Reaches-run s t [] path h = path
Reaches-run s t ((cmd, i) ∷ cmds) path h =
    Reaches-run s (state_after (apply hashing t cmd (at i))) cmds
      (Reaches.next t (state_after (apply hashing t cmd (at i))) cmd (at i)
        (result_after (apply hashing t cmd (at i))) path
        (is_ok_eq (apply hashing t cmd (at i)) (ground arith)))
      (ground arith)

abbrev pub commands : List (MetaCommand × ℕ)
commands =
    (first_init_command, 1)
    ∷ (MetaCommand.register_node 1 (11 ∷ []) (12 ∷ []), 2)
    ∷ (MetaCommand.register_node 2 (21 ∷ []) (22 ∷ []), 3)
    ∷ (MetaCommand.register_node 3 (31 ∷ []) (32 ∷ []), 4)
    ∷ (MetaCommand.register_node 4 (41 ∷ []) (42 ∷ []), 5)
    ∷ (MetaCommand.seed_placement (data_group 0) (3 ∷ 2 ∷ 1 ∷ []), 6)
    ∷ (MetaCommand.set_node_state 4 NodeState.draining 1, 7)
    ∷ (MetaCommand.retire_node 4 1, 8)
    ∷ []

pub commands_ok : all_ok fresh commands ≡ true
unfolding apply evaluate dispatch is_maintenance cluster_init first_init init_shape
    validate_routing_shape collect_set set_insert apply_state write_all write register_node
    register_in register_entry find_node put_entry seed_placement seed_group seed_data seed_against
    set_node_state revives retire_node retire_entry evacuated range_from references_node
    delete_entry
commands_ok = refl

retired_recorded : (run fresh commands).retired 4 ≡ some 1
unfolding apply evaluate dispatch is_maintenance cluster_init first_init init_shape
    validate_routing_shape collect_set set_insert apply_state write_all write register_node
    register_in register_entry find_node put_entry seed_placement seed_group seed_data seed_against
    set_node_state revives retire_node retire_entry evacuated range_from references_node
    delete_entry
retired_recorded = refl

abbrev retired_store : MetaStore
retired_store = run fresh commands

abbrev readmission : List (MetaCommand × ℕ)
readmission = (again, 9) ∷ (MetaCommand.set_node_state 4 NodeState.active 1, 10) ∷ []

readmission_ok : all_ok retired_store readmission ≡ true
unfolding apply evaluate dispatch is_maintenance cluster_init first_init init_shape
    validate_routing_shape collect_set set_insert apply_state write_all write register_node
    register_in register_entry find_node put_entry seed_placement seed_group seed_data seed_against
    set_node_state revives retire_node retire_entry evacuated range_from references_node
    delete_entry
readmission_ok = refl

Reaches-Later_example : Valid retired_store × Later fresh retired_store
Reaches-Later_example =
    Reaches-Later hashing fresh (Reaches-run fresh fresh commands Reaches.here commands_ok)
      (bound-Valid (some (record { cluster_id = 77; node_id = 1 })))

Reaches-retired_example :
    ((run retired_store readmission).retired 4 ≡ some 1)
    × (node (run retired_store readmission) 4 ≡ none)
Reaches-retired_example =
    Reaches-retired hashing (some (record { cluster_id = 77; node_id = 1 })) 4
      (Reaches-run fresh fresh commands Reaches.here commands_ok) retired_recorded
      (Reaches-run retired_store retired_store readmission Reaches.here readmission_ok)

abbrev initialised : MetaStore
initialised = run fresh ((first_init_command, 1) ∷ [])

init_applied :
    apply hashing fresh first_init_command (at 1) ≡ ok (MetaApplyResult.applied, initialised)
unfolding apply evaluate dispatch is_maintenance cluster_init first_init init_shape
    validate_routing_shape collect_set set_insert apply_state write_all write register_node
    register_in register_entry find_node put_entry seed_placement seed_group seed_data seed_against
    set_node_state revives retire_node retire_entry evacuated range_from references_node
    delete_entry
init_applied = refl

apply-Step_example :
    (ms : List MetaMutation) × Step fresh (at 1) ms × (initialised ≡ apply_state fresh ms (at 1))
apply-Step_example = apply-Step hashing fresh (at 1) first_init_command init_applied

apply-Valid_example : Valid initialised
apply-Valid_example =
    apply-Valid hashing fresh first_init_command (at 1) init_applied
      (bound-Valid (some (record { cluster_id = 77; node_id = 1 })))

-- Maintenance of the three nodes, in which the fourth asks to join.
abbrev maintained : MetaStore
maintained = run fresh (
    (first_init_command, 1)
    ∷ (MetaCommand.register_node 1 (11 ∷ []) (12 ∷ []), 2)
    ∷ (MetaCommand.register_node 2 (21 ∷ []) (22 ∷ []), 3)
    ∷ (MetaCommand.register_node 3 (31 ∷ []) (32 ∷ []), 4)
    ∷ (MetaCommand.seed_placement (data_group 0) (1 ∷ 2 ∷ 3 ∷ []), 5)
    ∷ (MetaCommand.begin_maintenance 9 1 (1 ∷ 2 ∷ 3 ∷ []), 6)
    ∷ [])

in_progress : in_maintenance maintained.maintenance ≡ true
unfolding apply evaluate dispatch is_maintenance cluster_init first_init init_shape
    validate_routing_shape collect_set set_insert apply_state write_all write register_node
    register_in register_entry find_node put_entry seed_placement seed_group seed_data seed_against
    set_node_state revives retire_node retire_entry evacuated range_from references_node
    delete_entry begin_maintenance begin_in begin_after fresh_record active_ids increasing
in_progress = refl

abbrev fenced_apply : Result (MetaApplyResult × MetaStore)
fenced_apply = apply hashing maintained again (at 7)

fenced_applied : is_ok fenced_apply ≡ true
unfolding apply evaluate dispatch is_maintenance cluster_init first_init init_shape
    validate_routing_shape collect_set set_insert apply_state write_all write register_node
    register_in register_entry find_node put_entry seed_placement seed_group seed_data seed_against
    set_node_state revives retire_node retire_entry evacuated range_from references_node
    delete_entry begin_maintenance begin_in begin_after fresh_record active_ids increasing
fenced_applied = refl

apply_fenced_example :
    (state_after fenced_apply ≡ record maintained {
      maintenance = (state_after fenced_apply).maintenance;
      last_applied = some (at 7);
    })
    × (is_maintenance again ≡ false
        → (result_after fenced_apply ≡ rejected maintenance_active)
          × (state_after fenced_apply ≡ record maintained { last_applied = some (at 7) }))
apply_fenced_example =
    apply_fenced hashing maintained (at 7) again in_progress (is_ok_eq fenced_apply fenced_applied)
