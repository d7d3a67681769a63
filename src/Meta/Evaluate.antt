-- ===== src/Meta/Evaluate.antt =====
-- `MetaStateMachine::evaluate` and `apply`: the maintenance fence, and the dispatch on the command.
use dal_service.Prelude.{ℕ, Bool, true, false, not, ◌&&◌, Option, none, some, ◌==◌, if◌then◌else◌}
use dal_service.Codec.{Result, ok, ◌>>=◌}
use dal_service.Types.{LogId}
use dal_service.Types.Meta.{MetaCommand, MaintenanceRecord, MaintenanceStage, stage_eq}
use dal_service.Search.Definition.{Hashing}
use dal_service.Meta.Store.{
  MetaStore, MetaApplyResult, Outcome, reject, maintenance_active, apply_state,
}
use dal_service.Meta.Cluster.{cluster_init}
use dal_service.Meta.Nodes.{register_node, set_node_state, retire_node}
use dal_service.Meta.Placements.{seed_placement, create_plan, mark_aborting, finalize_plan}
use dal_service.Meta.Maintenance.{
  begin_maintenance, release_maintenance, acknowledge_maintenance, quiesce_maintenance,
  enter_maintenance_verification,
}
use dal_service.Meta.Maintenance.Recovery.{acknowledge_maintenance_recovery}
use dal_service.Meta.Catalog.{create_search_index, report_search_ready}
use dal_service.Meta.Catalog.Lifecycle.{
  activate_search_generation, drop_search_index, finalize_search_drop,
}

-- A maintenance operation is in progress.
abbrev pub in_maintenance : Option MaintenanceRecord → Bool
in_maintenance none = false
in_maintenance (some r) = not (r.stage == MaintenanceStage.released)

-- The commands that maintenance lets through.
unfoldable pub is_maintenance : MetaCommand → Bool
is_maintenance (MetaCommand.begin_maintenance _ _ _) = true
is_maintenance (MetaCommand.release_maintenance _ _ _ _ _) = true
is_maintenance (MetaCommand.acknowledge_maintenance _ _ _ _) = true
is_maintenance (MetaCommand.quiesce_maintenance _ _) = true
is_maintenance (MetaCommand.enter_maintenance_verification _ _) = true
is_maintenance (MetaCommand.acknowledge_maintenance_recovery _ _ _ _ _ _ _ _) = true
is_maintenance _ = false

abbrev pub legacy_search_engine_revision : ℕ
legacy_search_engine_revision = 1

module _ (h : Hashing) where
  -- The match on the command.
  unfoldable pub dispatch : MetaStore → MetaCommand → LogId → Result Outcome
  dispatch s (MetaCommand.cluster_init config meta_voters) log_id =
      ok (cluster_init s config meta_voters log_id)
  dispatch s (MetaCommand.register_node node_id control_addr bulk_addr) log_id =
      ok (register_node s node_id control_addr bulk_addr)
  dispatch s (MetaCommand.seed_placement group voters) log_id =
      ok (seed_placement s group voters log_id)
  dispatch s (MetaCommand.set_node_state node_id state incarnation) log_id =
      ok (set_node_state s node_id state incarnation)
  dispatch s (MetaCommand.retire_node node_id incarnation) log_id =
      ok (retire_node s node_id incarnation)
  dispatch s (MetaCommand.create_plan group plan_id target_voters) log_id =
      ok (create_plan s group target_voters log_id)
  dispatch s (MetaCommand.mark_aborting group plan_id) log_id = ok (mark_aborting s group plan_id)
  dispatch s (MetaCommand.finalize_plan group plan_id observation) log_id =
      ok (finalize_plan s group plan_id observation false)
  dispatch s (MetaCommand.abort_report group plan_id observation) log_id =
      ok (finalize_plan s group plan_id observation true)
  dispatch s (MetaCommand.create_search_index name definition) log_id =
      create_search_index h s name definition legacy_search_engine_revision log_id false
  dispatch s (MetaCommand.create_search_index_generation name definition) log_id =
      create_search_index h s name definition legacy_search_engine_revision log_id true
  dispatch s (MetaCommand.report_search_index_ready name observation) log_id =
      report_search_ready h s name observation
  dispatch s (MetaCommand.activate_search_index_generation name generation) log_id =
      activate_search_generation h s name generation
  dispatch s (MetaCommand.drop_search_index name) log_id = drop_search_index h s name
  dispatch s (MetaCommand.finalize_search_index_drop name generation) log_id =
      finalize_search_drop h s name generation
  dispatch s (MetaCommand.create_search_index_with_revision name definition revision) log_id =
      create_search_index h s name definition revision log_id false
  dispatch s (MetaCommand.create_search_index_generation_with_revision name definition revision)
        log_id =
      create_search_index h s name definition revision log_id true
  dispatch s (MetaCommand.begin_maintenance operation_id generation participants) log_id =
      ok (begin_maintenance s operation_id generation participants)
  dispatch s (MetaCommand.release_maintenance operation_id generation processes incarnations digest)
        log_id =
      ok (release_maintenance s operation_id generation processes incarnations digest)
  dispatch s (MetaCommand.acknowledge_maintenance operation_id generation node_id incarnation)
        log_id =
      ok (acknowledge_maintenance s operation_id generation node_id incarnation)
  dispatch s (MetaCommand.quiesce_maintenance operation_id generation) log_id =
      ok (quiesce_maintenance s operation_id generation)
  dispatch s (MetaCommand.enter_maintenance_verification operation_id generation) log_id =
      ok (enter_maintenance_verification s operation_id generation)
  dispatch s
        (MetaCommand.acknowledge_maintenance_recovery operation_id generation node_id incarnation
          process topology policy epoch)
        log_id =
      ok (
        acknowledge_maintenance_recovery h.sha256 s operation_id generation node_id incarnation
          process topology policy epoch)

  unfoldable pub evaluate : MetaStore → MetaCommand → LogId → Result Outcome
  evaluate s cmd log_id =
      if in_maintenance s.maintenance && not (is_maintenance cmd)
      then ok (reject maintenance_active)
      else dispatch s cmd log_id

  -- `MetaStateMachine::apply`; an error writes nothing.
  unfoldable pub apply : MetaStore → MetaCommand → LogId → Result (MetaApplyResult × MetaStore)
  apply s cmd log_id = do
    (result, mutations) ← evaluate s cmd log_id
    ok (result, apply_state s mutations log_id)
