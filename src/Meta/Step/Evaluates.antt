-- ===== src/Meta/Step/Evaluates.antt =====
-- Every command of the meta group writes what the relation allows.
use dal_service.Prelude.{◌≡◌, true, false, not, ◌&&◌, List, arith, inl, inr, Bool-cases}
use mathlib.Core.Path.{subst}
use dal_service.Codec.{ok, >>=-eq-ok}
use dal_service.Types.{LogId}
use dal_service.Types.Meta.{MetaCommand}
use dal_service.Search.Definition.{Hashing}
use dal_service.Meta.Store.{MetaStore, MetaMutation, MetaApplyResult, Outcome, apply_state}
use dal_service.Meta.Evaluate.{in_maintenance, is_maintenance, dispatch, evaluate, apply}
use dal_service.Meta.Step.{Allowed, Step, Step-of_Allowed}
use dal_service.Meta.Step.Nodes.{set_node_state-Allowed, register_node-Allowed, retire_node-Allowed}
use dal_service.Meta.Step.Moves.{
  seed_placement-Allowed, mark_aborting-Allowed, finalize_plan-Allowed, create_plan-Allowed,
}
use dal_service.Meta.Step.Records.{
  cluster_init-Allowed, begin_maintenance-Allowed, release_maintenance-Allowed,
  acknowledge_maintenance-Allowed, quiesce_maintenance-Allowed, enter_verification-Allowed,
  recovery-Allowed,
}
use dal_service.Meta.Step.Catalogs.{
  Allowed-of_search, create-OnCatalog, report-OnCatalog, activate-OnCatalog, drop-OnCatalog,
  finalize-OnCatalog,
}

outcome_of_ok : {a b : Outcome} → ok a ≡ ok b → a ≡ b
outcome_of_ok e = ground arith

module _ (h : Hashing) (s : MetaStore) (l : LogId) where
  by_handler :
      (made : Outcome) {o : Outcome} → ok made ≡ ok o → Allowed s l made.1 → Allowed s l o.1
  by_handler made e allowed = subst (λ (o : Outcome). Allowed s l o.1) (outcome_of_ok e) allowed

  dispatch-Allowed : (cmd : MetaCommand) {o : Outcome} → dispatch h s cmd l ≡ ok o → Allowed s l o.1
  unfolding dispatch
  dispatch-Allowed (MetaCommand.cluster_init c vs) e =
      by_handler _ e (cluster_init-Allowed s l c vs)
  dispatch-Allowed (MetaCommand.register_node n c b) e =
      by_handler _ e (register_node-Allowed s l n c b)
  dispatch-Allowed (MetaCommand.seed_placement g vs) e =
      by_handler _ e (seed_placement-Allowed s l g vs)
  dispatch-Allowed (MetaCommand.set_node_state n t i) e =
      by_handler _ e (set_node_state-Allowed s l n t i)
  dispatch-Allowed (MetaCommand.retire_node n i) e = by_handler _ e (retire_node-Allowed s l n i)
  dispatch-Allowed (MetaCommand.create_plan g p vs) e =
      by_handler _ e (create_plan-Allowed s l g vs)
  dispatch-Allowed (MetaCommand.mark_aborting g p) e =
      by_handler _ e (mark_aborting-Allowed s l g p)
  dispatch-Allowed (MetaCommand.finalize_plan g p x) e =
      by_handler _ e (finalize_plan-Allowed s l g p x false)
  dispatch-Allowed (MetaCommand.abort_report g p x) e =
      by_handler _ e (finalize_plan-Allowed s l g p x true)
  dispatch-Allowed (MetaCommand.create_search_index n d) e =
      Allowed-of_search s l _ (create-OnCatalog h s n d _ l false e)
  dispatch-Allowed (MetaCommand.create_search_index_generation n d) e =
      Allowed-of_search s l _ (create-OnCatalog h s n d _ l true e)
  dispatch-Allowed (MetaCommand.report_search_index_ready n x) e =
      Allowed-of_search s l _ (report-OnCatalog h s n x e)
  dispatch-Allowed (MetaCommand.activate_search_index_generation n g) e =
      Allowed-of_search s l _ (activate-OnCatalog h s n g e)
  dispatch-Allowed (MetaCommand.drop_search_index n) e =
      Allowed-of_search s l _ (drop-OnCatalog h s n e)
  dispatch-Allowed (MetaCommand.finalize_search_index_drop n g) e =
      Allowed-of_search s l _ (finalize-OnCatalog h s n g e)
  dispatch-Allowed (MetaCommand.create_search_index_with_revision n d r) e =
      Allowed-of_search s l _ (create-OnCatalog h s n d r l false e)
  dispatch-Allowed (MetaCommand.create_search_index_generation_with_revision n d r) e =
      Allowed-of_search s l _ (create-OnCatalog h s n d r l true e)
  dispatch-Allowed (MetaCommand.begin_maintenance i g ps) e =
      by_handler _ e (begin_maintenance-Allowed s l i g ps)
  dispatch-Allowed (MetaCommand.release_maintenance i g ps is d) e =
      by_handler _ e (release_maintenance-Allowed s l i g ps is d)
  dispatch-Allowed (MetaCommand.acknowledge_maintenance i g n j) e =
      by_handler _ e (acknowledge_maintenance-Allowed s l i g n j)
  dispatch-Allowed (MetaCommand.quiesce_maintenance i g) e =
      by_handler _ e (quiesce_maintenance-Allowed s l i g)
  dispatch-Allowed (MetaCommand.enter_maintenance_verification i g) e =
      by_handler _ e (enter_verification-Allowed s l i g)
  dispatch-Allowed (MetaCommand.acknowledge_maintenance_recovery i g n j p t d q) e =
      by_handler _ e (recovery-Allowed s l i g h.sha256 n p t d q j)

  evaluate-Allowed : (cmd : MetaCommand) {o : Outcome} → evaluate h s cmd l ≡ ok o → Allowed s l o.1
  unfolding evaluate
  evaluate-Allowed cmd {o = o} e =
      elim (Bool-cases (in_maintenance s.maintenance && not (is_maintenance cmd))) [
        | inl fenced ↦ ground arith
        | inr passed ↦ dispatch-Allowed cmd {o = o} (ground arith)
      ]

  -- What the handler of any command writes is a step of the relation from the state it read.
  pub evaluate-Step : (cmd : MetaCommand) {o : Outcome} → evaluate h s cmd l ≡ ok o → Step s l o.1
  evaluate-Step cmd e = Step-of_Allowed s l _ (evaluate-Allowed cmd e)

  -- A command that does not fail writes, in one batch with `last_applied`, the mutations of some
  -- transition of the relation `Step` from the state that it read, and no others.
  pub apply-Step :
      (cmd : MetaCommand) {r : MetaApplyResult} {s' : MetaStore}
      → apply h s cmd l ≡ ok (r, s')
      → (ms : List MetaMutation) × Step s l ms × (s' ≡ apply_state s ms l)
  unfolding apply
  apply-Step cmd e =
      let (o, made, state) = >>=-eq-ok (evaluate h s cmd l) _ e in
      (o.1, evaluate-Step cmd made, ground arith)
