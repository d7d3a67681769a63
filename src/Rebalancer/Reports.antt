-- ===== src/Rebalancer/Reports.antt =====
-- The reports of the drivers of src/meta/rebalancer.rs to the meta group, in a healthy cluster.
use dal_service.Prelude.{
  ◌≡◌, ◌⊎◌, inl, inr, refl, ap, true, false, none, some, List, [], ◌∷◌, arith, nat_eq, list_eq,
  list_beq_iff, ==_refl,
}
use dal_service.Prelude.Sets.{IsStrict, collect_set_strict}
use dal_service.Codec.{ok}
use dal_service.Types.{NodeId, GroupId, LogId, group_eq}
use dal_service.Types.Meta.{MetaCommand, MovePlan, Placement, voter_set}
use dal_service.Search.Definition.{Hashing}
use dal_service.Meta.Store.{MetaStore, applied, put_placement}
use dal_service.Meta.Placements.{
  finalize_plan, finalize_move, resolve_finalize, resolve_abort, resolve,
}
use dal_service.Meta.Step.Moves.{sort_strict}
use dal_service.Meta.Evaluate.{dispatch}
use dal_service.Partition.Membership.{Openraft}
use dal_service.Rebalancer.{MetaGroup, World, Driver, accept, observe, finalize, report_abort}
use dal_service.Rebalancer.Healthy.{IsAnswering, IsServing, At, propose-At, confirmed_voters-At}
use dal_service.Rebalancer.Leader.{wait_committed-At}

-- The placement that a resolved plan leaves.
abbrev pub done : List NodeId → LogId → Placement
done vs l = record { voters = vs; voters_log_id = l; move = none }

module _ (group : GroupId) (p : Placement) (m : MovePlan) (moving : p.move ≡ some m) (s : MetaStore)
    (placed : s.placement group ≡ some p) (l : LogId) where
  finalize_plan-target :
      m.aborting ≡ false
      → IsStrict m.target_voters
      → finalize_plan s group m.plan_id (observe group m.plan_id m.target_voters l) false
        ≡ (applied, put_placement group (done m.target_voters l) ∷ [])
  unfolding finalize_plan finalize_move resolve_finalize resolve
  finalize_plan-target live strict = ground (
    arith,
    ==_refl group,
    ==_refl (voter_set m.target_voters),
    sort_strict m.target_voters strict,
  )

  finalize_plan-abort :
      (vs : List NodeId)
      → m.aborting ≡ true
      → IsStrict p.voters
      → IsStrict m.target_voters
      → (vs ≡ p.voters) ⊎ (vs ≡ m.target_voters)
      → finalize_plan s group m.plan_id (observe group m.plan_id vs l) true
        ≡ (applied, put_placement group (done vs l) ∷ [])
  unfolding finalize_plan finalize_move resolve_abort resolve
  finalize_plan-abort vs aborting strict strict' (inl same) =
      rw same
        (ground (arith, ==_refl group, ==_refl (voter_set p.voters), sort_strict p.voters strict))
  finalize_plan-abort vs aborting strict strict' (inr same) = rw same (
      ground (
        arith,
        ==_refl group,
        ==_refl (voter_set m.target_voters),
        list_beq_iff (voter_set m.target_voters) (voter_set p.voters),
        collect_set_strict p.voters strict,
        collect_set_strict m.target_voters strict',
        sort_strict p.voters strict,
        sort_strict m.target_voters strict',
      ))

module _ (h : Hashing) (M : MetaGroup) (R : Openraft) (group : GroupId)
    (meets : IsAnswering M group) (serves : IsServing R) (p : Placement) (m : MovePlan)
    (moving : p.move ≡ some m) where
  -- A driver has ended with the plan resolved to the voters.
  abbrev pub Ends : Driver h M R (Unit {0}) → World h M R → List NodeId → Type 0
  Ends driver w vs =
      (l : LogId) × (w' : World h M R) × (driver w ≡ (ok tt, w'))
      × At h M R group (some (done vs l)) vs w'

  pub finalize-Ends :
      (w : World h M R)
      → m.aborting ≡ false
      → IsStrict m.target_voters
      → At h M R group (some p) m.target_voters w
      → Ends (finalize h M R group m.plan_id m.target_voters) w m.target_voters
  unfolding finalize accept dispatch
  finalize-Ends w live strict a =
      let (l, confirmed) = confirmed_voters-At h M R group meets serves w a in
      let waited = wait_committed-At h M R group serves 199 w a in
      let (w', proposed, at) =
        propose-At h M R group meets serves
          (MetaCommand.finalize_plan group m.plan_id (observe group m.plan_id m.target_voters l))
          (done m.target_voters l)
          (λ s log placed. ap ok (finalize_plan-target group p m moving s placed l live strict)) w
          a in
      (l, w', rw (waited, confirmed, proposed, finalize) refl, at)

  -- The report of an abort, at one of the two voter sets.
  pub report_abort-Ends :
      (w : World h M R) (vs : List NodeId) (l : LogId)
      → m.aborting ≡ true
      → IsStrict p.voters
      → IsStrict m.target_voters
      → (vs ≡ p.voters) ⊎ (vs ≡ m.target_voters)
      → At h M R group (some p) vs w
      → Ends (report_abort h M R group m.plan_id vs l) w vs
  unfolding report_abort accept dispatch
  report_abort-Ends w vs l aborting strict strict' matches a =
      let (w', proposed, at) =
        propose-At h M R group meets serves
          (MetaCommand.abort_report group m.plan_id (observe group m.plan_id vs l)) (done vs l)
          (λ s log placed.
            ap ok
              (finalize_plan-abort group p m moving s placed l vs aborting strict strict' matches))
          w a in
      (l, w', rw (proposed, report_abort) refl, at)
