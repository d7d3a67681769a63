-- ===== src/Rebalancer/Aborts.antt =====
-- An abort in a healthy cluster, `execute_abort` of src/meta/rebalancer.rs, and the end of a plan.
use dal_service.Prelude.{
  ℕ, ◌≡◌, inl, inr, refl, sym, ◌∙◌, Bool, true, false, not, some, List, [], ◌∷◌, arith, ◌==◌,
  nat_eq, list_eq, ==_refl, ==_eq, keep, all, contains, Bool-cases,
}
use mathlib.Core.Path.{subst}
use dal_service.Prelude.Sets.{IsStrict, collect_set_strict, difference}
use dal_service.Types.{NodeId, GroupId, LogId}
use dal_service.Types.Meta.{MovePlan, Placement, voter_set}
use dal_service.Search.Definition.{Hashing}
use dal_service.Partition.Membership.{Openraft}
use dal_service.Rebalancer.{MetaGroup, World, abort_from, execute_abort, conclude}
use dal_service.Rebalancer.Healthy.{
  IsAnswering, IsServing, At, read_placement-At, confirmed_voters-At,
}
use dal_service.Rebalancer.Leader.{remove_learners-At}
use dal_service.Rebalancer.Reports.{Ends, finalize-Ends, report_abort-Ends}

all-keep : (f : ℕ → Bool) (xs : List ℕ) → all f (keep f xs) ≡ true
all-keep f [] = refl
all-keep f (x ∷ xs) = ground (arith, all-keep f xs)

module _ (h : Hashing) (M : MetaGroup) (R : Openraft) (group : GroupId)
    (meets : IsAnswering M group) (serves : IsServing R) (p : Placement) (m : MovePlan)
    (moving : p.move ≡ some m) (strict : IsStrict p.voters)
    (strict' : IsStrict m.target_voters) where
  -- An abort from the placement's voters removes the learner and reports them.
  abort_from_voters :
      (w : World h M R) (l : LogId)
      → m.aborting ≡ true
      → At h M R group (some p) p.voters w
      → Ends h M R group meets serves p m moving
          (abort_from h M R group m.plan_id p m l (voter_set p.voters))
          w
          p.voters
  unfolding abort_from
  abort_from_voters w l aborting a =
      let (w1, removed, a1) =
        remove_learners-At h M R group serves
          (difference (voter_set m.target_voters) (voter_set p.voters)) w none_votes a in
      let (l', w2, reported, a2) =
        report_abort-Ends h M R group meets serves p m moving w1 p.voters l aborting strict strict'
          (inl refl) a1 in
      (l', w2, rw (==_refl (voter_set p.voters), abort_from) (rw removed reported), a2)
    where
      none_votes :
          all
            (λ id. not (contains p.voters id))
            (difference (voter_set m.target_voters) (voter_set p.voters))
          ≡ true
      none_votes =
          subst
            (λ vs.
              all (λ id. not (contains vs id))
                (difference (voter_set m.target_voters) (voter_set p.voters))
              ≡ true)
            (collect_set_strict p.voters strict)
            (all-keep (λ x. not (contains (voter_set p.voters) x)) (voter_set m.target_voters))

  -- An abort from other voters, which are the target, reports them.
  abort_from_target :
      (w : World h M R) (l : LogId)
      → m.aborting ≡ true
      → (voter_set m.target_voters == voter_set p.voters) ≡ false
      → At h M R group (some p) m.target_voters w
      → Ends h M R group meets serves p m moving
          (abort_from h M R group m.plan_id p m l (voter_set m.target_voters))
          w
          m.target_voters
  unfolding abort_from
  abort_from_target w l aborting other a =
      let (l', w2, reported, a2) =
        report_abort-Ends h M R group meets serves p m moving w m.target_voters l aborting strict
          strict' (inr refl) a in
      (l', w2, rw (other, abort_from) (rw (==_refl (voter_set m.target_voters)) reported), a2)

  -- The calls of `execute_abort` before it compares the voters.
  execute_abort_from :
      (w : World h M R) (vs : List NodeId)
      → m.aborting ≡ true
      → ((v : World h M R) (l : LogId)
          → At h M R group (some p) vs v
          → Ends h M R group meets serves p m moving
              (abort_from h M R group m.plan_id p m l (voter_set vs))
              v
              vs)
      → At h M R group (some p) vs w
      → Ends h M R group meets serves p m moving (execute_abort h M R group m.plan_id) w vs
  unfolding execute_abort
  execute_abort_from w vs aborting from a =
      let (w1, found, a1) = read_placement-At h M R group meets serves w a in
      let (l, confirmed) = confirmed_voters-At h M R group meets serves w1 a1 in
      let (l', w2, aborted, a2) = from w1 l a1 in
      (l', w2, rw (found, execute_abort) (simp (moving, aborting, confirmed) aborted), a2)

  pub execute_abort_voters :
      (w : World h M R)
      → m.aborting ≡ true
      → At h M R group (some p) p.voters w
      → Ends h M R group meets serves p m moving (execute_abort h M R group m.plan_id) w p.voters
  execute_abort_voters w aborting a =
      execute_abort_from w p.voters aborting (λ v l at. abort_from_voters v l aborting at) a

  execute_abort_target :
      (w : World h M R)
      → m.aborting ≡ true
      → At h M R group (some p) m.target_voters w
      → Ends h M R group meets serves p m moving
          (execute_abort h M R group m.plan_id)
          w
          m.target_voters
  execute_abort_target w aborting a =
      elim (Bool-cases (voter_set m.target_voters == voter_set p.voters)) [
        | inl same ↦
            let equal : p.voters ≡ m.target_voters =
              sym (collect_set_strict p.voters strict)
              ∙ sym (==_eq (voter_set m.target_voters) (voter_set p.voters) same)
              ∙ (collect_set_strict m.target_voters strict') in
            subst
              (λ vs.
                Ends h M R group meets serves p m moving (execute_abort h M R group m.plan_id) w vs)
              equal
              (execute_abort_voters w aborting
                (subst (λ vs. At h M R group (some p) vs w) (sym equal) a))
        | inr other ↦
            execute_abort_from w m.target_voters aborting
              (λ v l at. abort_from_target v l aborting other at) a
      ]

  -- The end of a plan whose target is committed.
  pub conclude-Ends :
      (w : World h M R)
      → At h M R group (some p) m.target_voters w
      → Ends h M R group meets serves p m moving (conclude h M R group m) w m.target_voters
  unfolding conclude
  conclude-Ends w a = elim (Bool-cases m.aborting) [
    | inl aborting ↦
        let (l, w', ended, at) = execute_abort_target w aborting a in
        (l, w', simp (aborting, conclude) ended, at)
    | inr live ↦
        let (l, w', ended, at) =
          finalize-Ends h M R group meets serves p m moving w live strict' a in
        (l, w', simp (live, conclude) ended, at)
  ]
