-- ===== src/Rebalancer/Leader.antt =====
-- The calls of the drivers of src/meta/rebalancer.rs on the leader of a healthy data group.
use dal_service.Prelude.{
  ℕ, zero, suc, ◌≡◌, refl, ap, ◌∙◌, inl, inr, true, false, not, Option, List, [], ◌∷◌, arith,
  contains, all, list_eq, nat_eq, ==_refl, Bool-cases,
}
use dal_service.Prelude.Sets.{collect_set}
use dal_service.Codec.{Result, ok}
use dal_service.Types.{NodeId, GroupId}
use dal_service.Types.Meta.{Placement}
use dal_service.Search.Definition.{Hashing}
use dal_service.Partition.Membership.{
  Openraft, add_learner, learner_caught_up, wait_learner_caught_up, remove_learner, change_voters,
}
use dal_service.Rebalancer.{
  MetaGroup, catchup_polls, World, wait_committed, on_leader, remove_learners,
}
use dal_service.Rebalancer.Healthy.{CatchesUp, IsServing, At, bind_ok}

module _ (R : Openraft) (serves : IsServing R) where
  -- A call that succeeds, and the voters after it.
  abbrev pub Succeeds : (R.State → Result (Unit {0}) × R.State) → R.State → List NodeId → Type 0
  Succeeds call s vs = (s' : R.State) × (call s ≡ (ok tt, s')) × (R.voter_ids s' ≡ vs)

  add_learner_served :
      (id : NodeId) (s : R.State)
      → contains (R.voter_ids s) id ≡ false
      → (s' : R.State) × (add_learner R id s ≡ (ok tt, s'))
        × (R.voter_ids s' ≡ R.voter_ids s)
        × (contains (R.learner_ids s') id ≡ true)
  unfolding add_learner
  add_learner_served id s outside = elim (Bool-cases (contains (R.learner_ids s) id)) [
    | inl learns ↦ (s, ground arith, refl, learns)
    | inr fresh ↦ (
      (R.add_learner id s).1,
      ground (arith, serves.add id s),
      serves.add_voters id s,
      serves.add_learners id s,
    )
  ]

  wait_learner_caught_up_served :
      (polls : ℕ) (id : NodeId) (s : R.State)
      → CatchesUp R polls id s
      → Succeeds (wait_learner_caught_up R polls id) s (R.voter_ids s)
  unfolding wait_learner_caught_up CatchesUp
  wait_learner_caught_up_served zero id s now = (s, ground arith, refl)
  wait_learner_caught_up_served (suc polls) id s (inl now) = (s, ground arith, refl)
  wait_learner_caught_up_served (suc polls) id s (inr later) =
      elim (Bool-cases (learner_caught_up R id s)) [
        | inl now ↦ (s, ground arith, refl)
        | inr behind ↦
            let (s', waited, same) = wait_learner_caught_up_served polls id (R.sleep s) later in
            (s', ground (arith, waited), same ∙ serves.sleep_voters s)
      ]

  change_voters_served :
      (vs : List NodeId) (s : R.State) → Succeeds (change_voters R vs) s (collect_set vs)
  unfolding change_voters
  change_voters_served vs s = (
    (R.change_membership (collect_set vs) s).1,
    ground (arith, serves.change (collect_set vs) s),
    serves.change_voters (collect_set vs) s,
  )

  remove_learner_served :
      (id : NodeId) (s : R.State)
      → contains (R.voter_ids s) id ≡ false
      → Succeeds (remove_learner R id) s (R.voter_ids s)
  unfolding remove_learner
  remove_learner_served id s outside = elim (Bool-cases (contains (R.learner_ids s) id)) [
    | inl learns ↦ (
      (R.remove_nodes id s).1,
      ground (arith, serves.remove id s outside),
      serves.remove_voters id s outside,
    )
    | inr absent ↦ (s, ground arith, refl)
  ]

module _ (h : Hashing) (M : MetaGroup) (R : Openraft) (group : GroupId) (serves : IsServing R)
    {p : Option Placement} where
  pub on_leader-At :
      (call : R.State → Result (Unit {0}) × R.State) (us : List NodeId) {vs : List NodeId}
      (w : World h M R)
      → Succeeds R serves call w.leader us
      → At h M R group p vs w
      → (w' : World h M R) × (on_leader h M R call w ≡ (ok tt, w')) × At h M R group p us w'
  on_leader-At call us w (s', done, voters) a = (
    record w { leader = s' },
    ap (λ r. (r.0, record w { leader = r.1 })) done,
    record { placed = a.placed; voters = voters; calm = a.calm },
  )

  -- A learner is admitted, catches up, and a change to the voters is committed.
  pub change_voters-At :
      (target : List NodeId) {vs : List NodeId} (w : World h M R)
      → At h M R group p vs w
      → (w' : World h M R) × (on_leader h M R (change_voters R target) w ≡ (ok tt, w'))
        × At h M R group p (collect_set target) w'
  change_voters-At target w a =
      on_leader-At (change_voters R target) (collect_set target) w
        (change_voters_served R serves target w.leader) a

  pub wait_committed-At :
      (n : ℕ) {vs : List NodeId} (w : World h M R)
      → At h M R group p vs w
      → wait_committed h M R (suc n) (collect_set vs) w ≡ (ok tt, w)
  unfolding wait_committed
  wait_committed-At n {vs} w a = ground (arith, a.voters, ==_refl (collect_set vs))

  pub remove_learners-At :
      (ids : List NodeId) {vs : List NodeId} (w : World h M R)
      → all (λ id. not (contains vs id)) ids ≡ true
      → At h M R group p vs w
      → (w' : World h M R) × (remove_learners h M R ids w ≡ (ok tt, w')) × At h M R group p vs w'
  unfolding remove_learners
  remove_learners-At [] w outside a = (w, refl, a)
  remove_learners-At (id ∷ ids) {vs} w outside a =
      let (s', done, voters) =
        remove_learner_served R serves id w.leader (ground (arith, a.voters)) in
      let (w', removed, a') =
        on_leader-At (remove_learner R id) vs w (s', done, voters ∙ a.voters) a in
      let (w'', rest, a'') = remove_learners-At ids w' (ground arith) a' in
      (
        w'',
        bind_ok h M R (on_leader h M R (remove_learner R id)) (λ _. remove_learners h M R ids)
              removed
            ∙ rest,
        a'',
      )

  -- A node that does not vote is admitted as a learner and catches up.
  pub admit-At :
      (id : NodeId) {vs : List NodeId} (w : World h M R)
      → contains vs id ≡ false
      → At h M R group p vs w
      → (v : World h M R) × (w' : World h M R) × (on_leader h M R (add_learner R id) w ≡ (ok tt, v))
        × (on_leader h M R (wait_learner_caught_up R catchup_polls id) v ≡ (ok tt, w'))
        × At h M R group p vs w'
  admit-At id w outside a =
      let (s, added, same, learns) =
        add_learner_served R serves id w.leader (rw a.voters outside) in
      let (s', waited, same') =
        wait_learner_caught_up_served R serves catchup_polls id s (serves.catch_up id s learns) in
      (
        record w { leader = s },
        record w { leader = s' },
        ap (λ r. (r.0, record w { leader = r.1 })) added,
        ap (λ r. (r.0, record w { leader = r.1 })) waited,
        record { placed = a.placed; voters = same' ∙ same ∙ a.voters; calm = a.calm },
      )
