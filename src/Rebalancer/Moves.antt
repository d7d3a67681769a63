-- ===== src/Rebalancer/Moves.antt =====
-- A move in a healthy cluster, `execute_move` of src/meta/rebalancer.rs.
use dal_service.Prelude.{
  ℕ, ◌≡◌, inl, inr, refl, ap, Bool, true, false, not, some, List, [], ◌∷◌, arith, nat_eq, list_eq,
  ==_refl, keep, contains, length, Bool-cases,
}
use mathlib.Core.Path.{subst}
use dal_service.Prelude.Sets.{IsStrict, collect_set_strict, difference}
use dal_service.Types.{NodeId, GroupId}
use dal_service.Types.Meta.{MovePlan, Placement, voter_set}
use dal_service.Search.Definition.{Hashing}
use dal_service.Meta.Reconcile.{GateDecision, gate, gate_plan}
use dal_service.Partition.Membership.{Openraft}
use dal_service.Rebalancer.{MetaGroup, World, move_learner, move_first, move_gated, execute_move}
use dal_service.Rebalancer.Healthy.{
  IsAnswering, IsServing, At, read_placement-At, confirmed_voters-At,
}
use dal_service.Rebalancer.Leader.{change_voters-At, admit-At}
use dal_service.Rebalancer.Reports.{Ends, finalize-Ends}

length_zero : (xs : List ℕ) → length xs ≡ 0 → xs ≡ []
length_zero [] h = refl
length_zero (x ∷ xs) h = ground arith

-- The first of the elements kept passes the test, and so do all.
one_kept :
    (f : ℕ → Bool) (xs : List ℕ)
    → length (keep f xs) ≡ 1
    → (x : ℕ) × (keep f xs ≡ x ∷ []) × (f x ≡ true)
one_kept f [] one = ground arith
one_kept f (x ∷ xs) one = elim (Bool-cases (f x)) [
  | inl kept ↦ (x, ground (arith, length_zero (keep f xs)), kept)
  | inr dropped ↦ let (y, same, kept) = one_kept f xs (ground arith) in (y, ground arith, kept)
]

module _ (h : Hashing) (M : MetaGroup) (R : Openraft) (group : GroupId)
    (meets : IsAnswering M group) (serves : IsServing R) (p : Placement) (m : MovePlan)
    (moving : p.move ≡ some m) (strict : IsStrict p.voters)
    (strict' : IsStrict m.target_voters) where
  move_learner-Ends :
      (w : World h M R) (x : NodeId)
      → m.aborting ≡ false
      → contains p.voters x ≡ false
      → At h M R group (some p) p.voters w
      → Ends h M R group meets serves p m moving
          (move_learner h M R group m.plan_id m.target_voters x)
          w
          m.target_voters
  unfolding move_learner
  move_learner-Ends w x live outside a =
      let (w1, w2, admitted, waited, a2) = admit-At h M R group serves x w outside a in
      let (w3, changed, a3) = change_voters-At h M R group serves m.target_voters w2 a2 in
      let (l, w4, finalized, a4) =
        finalize-Ends h M R group meets serves p m moving w3 live strict' (
          subst (λ vs. At h M R group (some p) vs w3) (collect_set_strict m.target_voters strict')
            a3) in
      (l, w4, rw (admitted, waited, changed, move_learner) finalized, a4)

  gate_accepts :
      m.aborting ≡ false
      → length (difference (voter_set m.target_voters) (voter_set p.voters)) ≡ 1
      → length (difference (voter_set p.voters) (voter_set m.target_voters)) ≡ 1
      → gate p (voter_set p.voters) ≡ GateDecision.accept
  unfolding gate gate_plan
  gate_accepts live joins leaves = ground (arith, ==_refl (voter_set p.voters))

  move_gated-Ends :
      (w : World h M R)
      → m.aborting ≡ false
      → length (difference (voter_set m.target_voters) (voter_set p.voters)) ≡ 1
      → At h M R group (some p) p.voters w
      → Ends h M R group meets serves p m moving
          (move_gated h M R group m.plan_id p GateDecision.accept)
          w
          m.target_voters
  unfolding move_gated move_first
  move_gated-Ends w live joins a =
      let (x, first, outside) = one_kept _ (voter_set m.target_voters) joins in
      let (l, w', moved, at) = move_learner-Ends w x live (outsider x outside) a in
      (l, w', rw (moving, move_gated) (rw (first, move_first) moved), at)
    where
      outsider :
          (x : NodeId) → not (contains (voter_set p.voters) x) ≡ true → contains p.voters x ≡ false
      outsider x out = ground (arith, ap (λ vs. contains vs x) (collect_set_strict p.voters strict))

  -- A move from the placement's voters, which replaces one voter.
  pub execute_move-Ends :
      (w : World h M R)
      → m.aborting ≡ false
      → length (difference (voter_set m.target_voters) (voter_set p.voters)) ≡ 1
      → length (difference (voter_set p.voters) (voter_set m.target_voters)) ≡ 1
      → At h M R group (some p) p.voters w
      → Ends h M R group meets serves p m moving
          (execute_move h M R group m.plan_id)
          w
          m.target_voters
  unfolding execute_move
  execute_move-Ends w live joins leaves a =
      let (w1, found, a1) = read_placement-At h M R group meets serves w a in
      let (l, confirmed) = confirmed_voters-At h M R group meets serves w1 a1 in
      let (l', w2, moved, a2) = move_gated-Ends w1 live joins a1 in
      (l', w2, rw (found, confirmed, gate_accepts live joins leaves, execute_move) moved, a2)
