-- ===== src/Meta/Reconcile.antt =====
-- What a leader and a recovering node do about a group's move (src/meta/reconcile.rs), from the
-- group's committed voters and the meta record. A committed voter set is an increasing list.
use dal_service.Prelude.{
  ℕ, ◌≡◌, ◌≢◌, ◌↔◌, not, ◌||◌, length, false, Option, none, some, List, ◌++◌, arith, ◌==◌, nat_eq,
  list_eq, list_beq_iff, if◌then◌else◌,
}
use mathlib.Core.Path.{subst}
use dal_service.Prelude.Sets.{collect_set, difference, collect_set_strict}
use dal_service.Prelude.Counts.{difference_exchange}
use dal_service.Types.{NodeId, data_group, group_eq}
use dal_service.Types.Meta.{MovePlan, Placement, ClusterConfig, voter_set}
use dal_service.Meta.Store.{MetaStore}
use dal_service.Meta.Step.{HasSize}
use dal_service.Meta.Invariant.Valid.{Valid, IsMoveOf}

pub data GateDecision : Type 0 where
  accept no_plan reject_aborting reject_config_mismatch reject_not_single_voter : GateDecision

-- `gate`, from the placement's move on.
unfoldable pub gate_plan : Placement → List NodeId → Option MovePlan → GateDecision
gate_plan placement committed_voters none = GateDecision.no_plan
gate_plan placement committed_voters (some plan) =
    let voters = voter_set placement.voters in
    let target = voter_set plan.target_voters in
    let added = length (difference target voters) in
    let removed = length (difference voters target) in
    if plan.aborting
    then GateDecision.reject_aborting
    else if not (voters == committed_voters)
    then GateDecision.reject_config_mismatch
    else if not (added == 1) || not (removed == 1)
    then GateDecision.reject_not_single_voter
    else GateDecision.accept

unfoldable pub gate : Placement → List NodeId → GateDecision
gate placement committed_voters = gate_plan placement committed_voters placement.move

pub data ReconcileAction : Type 0 where
  no_plan resume_plan complete_joint finalize error : ReconcileAction

unfoldable pub reconcile_plan : Placement → List NodeId → Option MovePlan → ReconcileAction
reconcile_plan placement committed_voters none = ReconcileAction.no_plan
reconcile_plan placement committed_voters (some plan) =
    let voters = voter_set placement.voters in
    let target = voter_set plan.target_voters in
    let union = collect_set (voters ++ target) in
    if committed_voters == voters
    then ReconcileAction.resume_plan
    else if committed_voters == target
    then ReconcileAction.finalize
    else if committed_voters == union
    then ReconcileAction.complete_joint
    else ReconcileAction.error

unfoldable pub reconcile : Placement → List NodeId → ReconcileAction
reconcile placement committed_voters = reconcile_plan placement committed_voters placement.move

-- A data group's move in a well-formed state replaces one voter.
pub move_swaps :
    (s : MetaStore) (c : ClusterConfig) (k : ℕ) (p : Placement) (m : MovePlan)
    → Valid s
    → s.cluster ≡ some c
    → s.placement (data_group k) ≡ some p
    → p.move ≡ some m
    → (length (difference (voter_set m.target_voters) (voter_set p.voters)) ≡ 1)
      × (length (difference (voter_set p.voters) (voter_set m.target_voters)) ≡ 1)
move_swaps s c k p m v hc placed moving =
    let (strict, size, moves) = v.placed (data_group k) placed in
    let (increasing, target_size, (out, in_)) =
      subst (IsMoveOf s.cluster (data_group k) p.voters) moving moves in
    let size_r : length p.voters ≡ c.r = subst (λ o. HasSize o (data_group k) p.voters) hc size in
    let target_r : length m.target_voters ≡ c.r =
      subst (λ o. HasSize o (data_group k) m.target_voters) hc target_size in
    let same = collect_set_strict p.voters strict in
    let same' = collect_set_strict m.target_voters increasing in
    let exchange = difference_exchange p.voters m.target_voters strict increasing in
    rw (same, same') (omega (arith, exchange, size_r, target_r, out), out)

-- In a well-formed state, of a data group that has a move: the gate accepts it exactly if it is not
-- aborting and the leader's committed voters are the placement's, in which case a recovering node
-- with these voters resumes the plan; the gate never finds that the target is not a replacement of
-- one voter.
pub gate-reconcile :
    (s : MetaStore) (c : ClusterConfig) (k : ℕ) (p : Placement) (m : MovePlan)
    (committed : List NodeId)
    → Valid s
    → s.cluster ≡ some c
    → s.placement (data_group k) ≡ some p
    → p.move ≡ some m
    → ((gate p committed ≡ GateDecision.accept) ↔ (
        (m.aborting ≡ false)
        × (committed ≡ p.voters)
        × (reconcile p committed ≡ ReconcileAction.resume_plan)))
      × (gate p committed ≢ GateDecision.reject_not_single_voter)
unfolding gate gate_plan reconcile reconcile_plan
gate-reconcile s c k p m committed v hc placed moving =
    let (added, removed) = move_swaps s c k p m v hc placed moving in
    let same : voter_set p.voters ≡ p.voters =
      collect_set_strict p.voters (v.placed (data_group k) placed).0 in
    let eq = list_beq_iff (voter_set p.voters) committed in
    let eq' = list_beq_iff committed (voter_set p.voters) in
    (((λ h. ground (arith, eq, eq')), (λ h. ground (arith, eq))), (λ h. ground arith))
