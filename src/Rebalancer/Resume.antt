-- ===== src/Rebalancer/Resume.antt =====
-- The resumption of a move from whatever point a crash left, src/meta/rebalancer.rs, in a healthy
-- cluster.
use dal_service.Prelude.{◌≡◌, ◌⊎◌, false, some, List, nat_eq, list_eq}
use dal_service.Prelude.Sets.{IsStrict}
use dal_service.Types.{NodeId, GroupId}
use dal_service.Meta.Invariant.Valid.{Valid}
use dal_service.Types.Meta.{MovePlan, Placement}
use dal_service.Search.Definition.{Hashing}
use dal_service.Partition.Membership.{Openraft}
use dal_service.Rebalancer.{MetaGroup, World, Driver}
use dal_service.Rebalancer.Healthy.{IsAnswering, IsServing}
use dal_service.Rebalancer.Reports.{Ends}

module _ (h : Hashing) (M : MetaGroup) (R : Openraft) (group : GroupId)
    (meets : IsAnswering M group) (serves : IsServing R) (p : Placement) (m : MovePlan)
    (moving : p.move ≡ some m) (strict : IsStrict p.voters)
    (strict' : IsStrict m.target_voters) where
  -- How the driver has ended: at the voters or the target of the plan, and at the target unless the
  -- plan is aborting.
  abbrev pub Resolves : Driver h M R (Unit {0}) → World h M R → Type 0
  Resolves driver w =
      (vs : List NodeId) × Ends h M R group meets serves p m moving driver w vs
      × ((vs ≡ p.voters) ⊎ (vs ≡ m.target_voters))
      × (m.aborting ≡ false → vs ≡ m.target_voters)
