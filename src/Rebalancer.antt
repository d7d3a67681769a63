-- ===== src/Rebalancer.antt =====
-- The drivers of a move, src/meta/rebalancer.rs, over the state machine of the meta group and the
-- leader of a data group. The meta group is a store and a count of attempts; what an attempt finds,
-- what other clients commit before it and the log id that an entry gets in it are parameters.
pub mod Healthy
pub mod Leader
pub mod Reports
pub mod Moves
pub mod Aborts
pub mod Resume
use dal_service.Prelude.{
  ℕ, zero, suc, ◌+◌, Bool, true, false, not, Option, none, some, List, [], ◌∷◌, ◌++◌, String, ◌==◌,
  nat_eq, list_eq, keep, if◌then◌else◌,
}
use dal_service.Prelude.Sets.{difference}
use dal_service.Codec.{Error, Result, ok, err, raft}
use dal_service.Types.{NodeId, GroupId, LogId}
use dal_service.Types.Meta.{
  MetaCommand, MovePlan, Placement, NodeState, NodeDirectoryEntry, DataConfigObservation, voter_set,
}
use dal_service.Search.Definition.{Hashing}
use dal_service.Meta.Store.{MetaStore, MetaApplyResult, applied, no_op, rejected, node}
use dal_service.Meta.Placements.{sort}
use dal_service.Meta.Evaluate.{apply}
use dal_service.Meta.Reconcile
use dal_service.Meta.Reconcile.{GateDecision, ReconcileAction, reconcile}
use dal_service.Partition.Membership.{
  Openraft, add_learner, wait_learner_caught_up, remove_learner, change_voters,
  confirmed_committed_config, committed_voter_set,
}

-- What an attempt to reach the meta leader finds.
pub data Turn : Type 0 where
  answers no_leader : Turn
  faults : Error → Turn

pub record MetaGroup : Type 0 where
  pub turn : ℕ → Turn
  pub others : ℕ → MetaStore → MetaStore
  pub log_at : ℕ → LogId

-- The attempts of the loops `for _ in 0..200`, and the polls of 50 ms in `LEARNER_CATCHUP_TIMEOUT`.
abbrev pub max_attempts : ℕ
max_attempts = 200

abbrev pub catchup_polls : ℕ
catchup_polls = 1200

abbrev pub observe : GroupId → ℕ → List NodeId → LogId → DataConfigObservation
observe group plan_id voters config_log_id = record {
  group = group;
  plan_id = plan_id;
  voter_set = voters;
  config_log_id = config_log_id;
}

module _ (h : Hashing) (M : MetaGroup) (R : Openraft) where
  pub record World : Type 0 where
    pub store : MetaStore
    pub attempt : ℕ
    pub leader : R.State

  abbrev pub Driver : Type 0 → Type 0
  Driver A = World → Result A × World

  -- What follows a result.
  abbrev pub continue : {A B : Type 0} → Result A × World → (A → Driver B) → Result B × World
  continue (ok a, w) f = f a w
  continue (err error, w) f = (err error, w)

  infixl 5 ◌>>=◌
  abbrev pub ◌>>=◌ : {A B : Type 0} → Driver A → (A → Driver B) → Driver B
  ◌>>=◌ m f w = continue (m w) f

  abbrev pub return : {A : Type 0} → A → Driver A
  return a w = (ok a, w)

  abbrev pub fail : {A : Type 0} → String → Driver A
  fail message w = (err (raft message), w)

  -- Another attempt: what the other clients committed before it.
  abbrev pub arrive : World → World
  arrive w = record w { store = M.others w.attempt w.store; attempt = w.attempt + 1 }

  -- The loop that asks the meta leader, and sleeps where there is none.
  unfoldable pub ask : {A : Type 0} → ℕ → String → (ℕ → Driver A) → Driver A
  ask zero message request w = (err (raft message), w)
  ask (suc n) message request w =
      let rest = ask n message request (record (arrive w) { leader = R.sleep w.leader }) in
      elim (M.turn w.attempt) [
        | Turn.answers ↦ request w.attempt (arrive w)
        | Turn.no_leader ↦ rest
        | Turn.faults error ↦ (err error, arrive w)
      ]

  unfoldable pub read_placement : GroupId → Driver (Option Placement)
  read_placement group =
      ask max_attempts "no meta leader for placement read" λ n w. (ok (w.store.placement group), w)

  unfoldable pub read_node : NodeId → Driver (Option NodeDirectoryEntry)
  read_node node_id =
      ask max_attempts "no meta leader for node read" λ n w. (ok (node w.store node_id), w)

  -- An entry that the leader commits and applies.
  unfoldable pub commit : MetaCommand → ℕ → Driver MetaApplyResult
  commit cmd n w = elim (apply h w.store cmd (M.log_at n)) [
    | ok (result, store') ↦ (ok result, record w { store = store' })
    | err error ↦ (err error, w)
  ]

  unfoldable pub propose : MetaCommand → Driver MetaApplyResult
  propose cmd = ask max_attempts "no meta leader accepted the command" (commit cmd)

  unfoldable pub accept : MetaApplyResult → String → Driver (Unit {0})
  accept applied what = return tt
  accept no_op what = return tt
  accept (rejected r) what = fail what

  -- `ok_or_else(..)?`.
  abbrev pub some_or : {A : Type 0} → Option A → String → Driver A
  some_or none message = fail message
  some_or (some a) message = return a

  -- A call on the data leader.
  abbrev pub on_leader : (R.State → Result (Unit {0}) × R.State) → Driver (Unit {0})
  on_leader call w = let (result, s) = call w.leader in (result, record w { leader = s })

  unfoldable pub confirmed_voters : Driver (Option LogId × List NodeId)
  confirmed_voters w = elim (confirmed_committed_config R w.leader) [
    | err error ↦ (err error, w)
    | ok (config_log_id, voters) ↦ (ok (config_log_id, voter_set voters), w)
  ]

  unfoldable pub wait_committed : ℕ → List NodeId → Driver (Unit {0})
  wait_committed zero target w = (err (raft "timed out waiting for committed config"), w)
  wait_committed (suc n) target w =
      let rest = wait_committed n target (record w { leader = R.sleep w.leader }) in
      if committed_voter_set R w.leader == target then (ok tt, w) else rest

  unfoldable pub create_plan : GroupId → List NodeId → Driver ℕ
  create_plan group target_voters = do
    result ← propose (MetaCommand.create_plan group 0 target_voters)
    _ ← accept result "CreatePlan rejected"
    found ← read_placement group
    placement ← some_or found "placement missing after CreatePlan"
    plan ← some_or placement.move "move missing after CreatePlan"
    return plan.plan_id

  unfoldable pub mark_aborting : GroupId → ℕ → Driver (Unit {0})
  mark_aborting group plan_id = do
    result ← propose (MetaCommand.mark_aborting group plan_id)
    accept result "MarkAborting rejected"

  unfoldable pub set_node_state : NodeId → NodeState → ℕ → Driver (Unit {0})
  set_node_state node_id state incarnation = do
    result ← propose (MetaCommand.set_node_state node_id state incarnation)
    accept result "SetNodeState rejected"

  unfoldable pub finalize : GroupId → ℕ → List NodeId → Driver (Unit {0})
  finalize group plan_id target = do
    _ ← wait_committed max_attempts (voter_set target)
    (config_log_id, _) ← confirmed_voters
    log_id ← some_or config_log_id "committed config has no log id"
    result ← propose (MetaCommand.finalize_plan group plan_id (observe group plan_id target log_id))
    accept result "FinalizePlan rejected"

  -- The steps of a move, once the gate has accepted it.
  unfoldable pub move_learner : GroupId → ℕ → List NodeId → NodeId → Driver (Unit {0})
  move_learner group plan_id target learner = do
    _ ← on_leader (add_learner R learner)
    _ ← on_leader (wait_learner_caught_up R catchup_polls learner)
    _ ← on_leader (change_voters R target)
    finalize group plan_id target

  -- `target_set.difference(&current).next()`.
  unfoldable pub move_first : GroupId → ℕ → List NodeId → List NodeId → Driver (Unit {0})
  move_first group plan_id target [] = fail "target adds no learner"
  move_first group plan_id target (learner ∷ _) = move_learner group plan_id target learner

  unfoldable pub move_gated : GroupId → ℕ → Placement → GateDecision → Driver (Unit {0})
  move_gated group plan_id placement GateDecision.accept = do
    plan ← some_or placement.move "no move"
    move_first group plan_id plan.target_voters
        (difference (voter_set plan.target_voters) (voter_set placement.voters))
  move_gated group plan_id placement _ = fail "move gate refused"

  unfoldable pub execute_move : GroupId → ℕ → Driver (Unit {0})
  execute_move group plan_id = do
    found ← read_placement group
    placement ← some_or found "no placement for move"
    (_, gate_voters) ← confirmed_voters
    move_gated group plan_id placement (Reconcile.gate placement gate_voters)

  -- The loop that removes the learners.
  unfoldable pub remove_learners : List NodeId → Driver (Unit {0})
  remove_learners [] = return tt
  remove_learners (learner ∷ rest) = do
    _ ← on_leader (remove_learner R learner)
    remove_learners rest

  unfoldable pub report_abort : GroupId → ℕ → List NodeId → LogId → Driver (Unit {0})
  report_abort group plan_id voters log_id = do
    result ← propose (MetaCommand.abort_report group plan_id (observe group plan_id voters log_id))
    accept result "abort resolution rejected"

  -- An abort, from the committed configuration on.
  unfoldable pub abort_from :
      GroupId → ℕ → Placement → MovePlan → LogId → List NodeId → Driver (Unit {0})
  abort_from group plan_id placement plan log_id committed =
      let voters = voter_set placement.voters in
      let target = voter_set plan.target_voters in
      if committed == voters
      then (remove_learners (difference target voters) >>= λ _.
          report_abort group plan_id placement.voters log_id)
      else if committed == target
      then report_abort group plan_id plan.target_voters log_id
      else fail "joint config in flight; leader must complete the change first"

  unfoldable pub execute_abort : GroupId → ℕ → Driver (Unit {0})
  execute_abort group plan_id = do
    found ← read_placement group
    placement ← some_or found "no placement for abort"
    plan ← some_or placement.move "no move to abort"
    _ ← (if plan.aborting then return tt else fail "plan is not marked aborting")
    (config_log_id, committed) ← confirmed_voters
    log_id ← some_or config_log_id "committed config has no log id"
    abort_from group plan_id placement plan log_id committed

  -- The end of a plan whose final configuration is committed.
  unfoldable pub conclude : GroupId → MovePlan → Driver (Unit {0})
  conclude group plan =
      if plan.aborting
      then execute_abort group plan.plan_id
      else finalize group plan.plan_id plan.target_voters

  unfoldable pub resume : GroupId → MovePlan → ReconcileAction → Driver (Unit {0})
  resume group plan ReconcileAction.no_plan = return tt
  resume group plan ReconcileAction.resume_plan =
      if plan.aborting then execute_abort group plan.plan_id else execute_move group plan.plan_id
  resume group plan ReconcileAction.complete_joint =
      on_leader (change_voters R plan.target_voters) >>= λ _. conclude group plan
  resume group plan ReconcileAction.finalize = conclude group plan
  resume group plan ReconcileAction.error = fail "committed config matches no plan phase"

  unfoldable pub resume_placed : GroupId → Placement → Option MovePlan → Driver (Unit {0})
  resume_placed group placement none = return tt
  resume_placed group placement (some plan) = do
    (_, committed) ← confirmed_voters
    resume group plan (reconcile placement committed)

  unfoldable pub resume_found : GroupId → Option Placement → Driver (Unit {0})
  resume_found group none = return tt
  resume_found group (some placement) = resume_placed group placement placement.move

  unfoldable pub resume_move : GroupId → Driver (Unit {0})
  resume_move group = read_placement group >>= resume_found group

  unfoldable pub drain_partition : GroupId → NodeId → NodeId → Driver (Unit {0})
  drain_partition group draining replacement = do
    listed ← read_node draining
    entry ← some_or listed "draining node not in directory"
    _ ← set_node_state draining NodeState.draining entry.incarnation
    found ← read_placement group
    placement ← some_or found "no placement to drain"
    plan_id ←
        create_plan group
          (sort (keep (λ v. not (v == draining)) placement.voters ++ replacement ∷ []))
    execute_move group plan_id
