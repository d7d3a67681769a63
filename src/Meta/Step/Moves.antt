-- ===== src/Meta/Step/Moves.antt =====
-- The placement commands write what the relation allows.
use dal_service.Prelude.{
  ℕ, ◌≡◌, refl, inl, inr, Bool, none, some, List, [], ◌∷◌, arith, nat_eq, list_eq, length, all, All,
  ◌<◌, true, Bool-cases, Option-cases,
}
use dal_service.Prelude.Sets.{
  IsStrict, Above, difference, set_insert, collect_set, collect_set-IsStrict,
}
use dal_service.Types.{NodeId, GroupId, LogId, meta, data_group}
use dal_service.Types.Meta.{ClusterConfig, Placement, DataConfigObservation, voter_set}
use dal_service.Meta.Store.{MetaStore, Outcome, is_active, node}
use dal_service.Meta.Placements.{
  sort_insert, sort, seed_against, seed_data, seed_group, seed_placement, plan_refusal, plan_move,
  plan_for, create_plan, mark_plan, mark_aborting, resolve, resolve_abort, resolve_finalize,
  finalize_move, finalize_plan,
}
use dal_service.Meta.Step.{Allowed, HasSize, OneLeaves, IsActive}

pub sort_insert-Above : (x : ℕ) (xs : List ℕ) → Above x xs → sort_insert x xs ≡ x ∷ xs
unfolding sort_insert
sort_insert-Above x [] h = refl
sort_insert-Above x (y ∷ ys) h = ground arith

pub Above-tail : (x : ℕ) (xs : List ℕ) → Above x xs → IsStrict xs
Above-tail x [] h = tt
Above-tail x (y ∷ ys) h = h.1

-- Sorting an increasing list changes nothing.
pub sort_strict : (xs : List ℕ) → IsStrict xs → sort xs ≡ xs
unfolding sort
sort_strict [] h = refl
sort_strict (x ∷ xs) h =
    ground (arith, sort_strict xs (Above-tail x xs h), sort_insert-Above x xs h)

IsActive-All :
    (s : MetaStore) (ns : List NodeId)
    → all (is_active s) ns ≡ true
    → All (λ n. IsActive (node s n)) ns
IsActive-All s [] h = tt
IsActive-All s (n ∷ ns) h = ground (arith, IsActive-All s ns)

All-set_insert :
    (s : MetaStore) (n : NodeId) (ns : List NodeId)
    → IsActive (node s n)
    → All (λ n. IsActive (node s n)) ns
    → All (λ n. IsActive (node s n)) (set_insert n ns)
unfolding set_insert
All-set_insert s n [] h k = (h, tt)
All-set_insert s n (x ∷ xs) h k = ground (arith, All-set_insert s n xs h)

All-collect_set :
    (s : MetaStore) (ns : List NodeId)
    → All (λ n. IsActive (node s n)) ns
    → All (λ n. IsActive (node s n)) (voter_set ns)
unfolding collect_set
All-collect_set s [] h = tt
All-collect_set s (n ∷ ns) h = All-set_insert s n (voter_set ns) h.0 (All-collect_set s ns h.1)

seed_against-Allowed :
    (s : MetaStore) (l : LogId) (c : ClusterConfig) (k : ℕ) (vs : List NodeId)
    → s.cluster ≡ some c
    → IsStrict vs
    → length vs ≡ c.r
    → k < c.p
    → All (λ n. IsActive (node s n)) vs
    → Allowed s l (seed_against (data_group k) vs l (s.placement (data_group k))).1
unfolding seed_against
seed_against-Allowed s l c k vs hc strict size range live =
    elim (Option-cases (s.placement (data_group k))) [
      | inl fresh ↦
          rw (fresh, seed_against)
            (rw (fresh, hc) ((λ e. ground arith), refl, strict, size, range, live))
      | inr (p, placed) ↦ rw (placed, seed_against) (ground arith)
    ]

seed_data-Allowed :
    (s : MetaStore) (l : LogId) (c : ClusterConfig) (k : ℕ) (voters : List NodeId)
    → s.cluster ≡ some c
    → Allowed s l (seed_data s c k voters l).1
unfolding seed_data
seed_data-Allowed s l c k voters hc = ground (
  arith,
  seed_against-Allowed s l c k (voter_set voters) hc (collect_set-IsStrict voters),
  IsActive-All s voters,
  All-collect_set s voters,
)

pub seed_placement-Allowed :
    (s : MetaStore) (l : LogId) (g : GroupId) (voters : List NodeId)
    → Allowed s l (seed_placement s g voters l).1
unfolding seed_placement seed_group
seed_placement-Allowed s l meta voters = ground arith
seed_placement-Allowed s l (data_group k) voters = elim (Option-cases s.cluster) [
  | inl uninit ↦ ground arith
  | inr (c, hc) ↦ ground (arith, seed_data-Allowed s l c k voters hc)
]

pub mark_aborting-Allowed :
    (s : MetaStore) (l : LogId) (g : GroupId) (id : ℕ) → Allowed s l (mark_aborting s g id).1
unfolding mark_aborting mark_plan
mark_aborting-Allowed s l g id = ground arith

pub finalize_plan-Allowed :
    (s : MetaStore) (l : LogId) (g : GroupId) (id : ℕ) (o : DataConfigObservation) (abort : Bool)
    → Allowed s l (finalize_plan s g id o abort).1
unfolding finalize_plan finalize_move resolve_abort resolve_finalize resolve
finalize_plan-Allowed s l g id o abort = ground arith

-- What the tests of `create_plan` leave.
plan_refusal-none :
    (s : MetaStore) (c : ClusterConfig) (g : GroupId) (current target : List NodeId)
    → plan_refusal s c g current target ≡ none
    → HasSize (some c) g target × OneLeaves current target
unfolding plan_refusal
plan_refusal-none s c meta current target h = ground arith
plan_refusal-none s c (data_group k) current target h = ground arith

plan_refusal_writes :
    (s : MetaStore) (c : ClusterConfig) (g : GroupId) (current target : List NodeId) (o : Outcome)
    → plan_refusal s c g current target ≡ some o
    → o.1 ≡ []
unfolding plan_refusal
plan_refusal_writes s c meta current target o h = ground arith
plan_refusal_writes s c (data_group k) current target o h = ground arith

-- A move that passed the tests, of a group at rest.
module _ (s : MetaStore) (l : LogId) (g : GroupId) (q : Placement)
    (placed : s.placement g ≡ some q) where
  plan_move-Allowed :
      (target : List NodeId)
      → q.move ≡ none
      → IsStrict target
      → HasSize s.cluster g target
      → OneLeaves (voter_set q.voters) target
      → Allowed s l (plan_move s g q (voter_set q.voters) target l).1
  unfolding plan_move
  plan_move-Allowed target rest strict size one =
      elim (Bool-cases (all (is_active s) (difference target (voter_set q.voters)))) [
        | inr idle ↦ rw (idle, plan_move) tt
        | inl live ↦ ground (
          arith,
          sort_strict target strict,
          IsActive-All s (difference target (voter_set q.voters)),
        )
      ]

  plan_for-Allowed :
      (c : ClusterConfig) (targets : List NodeId)
      → s.cluster ≡ some c
      → Allowed s l (plan_for s c g targets l q).1
  unfolding plan_for
  plan_for-Allowed c targets hc =
      let target = voter_set targets in
      let current = voter_set q.voters in
      elim (Option-cases (plan_refusal s c g current target)) [
        | inl fits ↦ ground (
          arith,
          plan_refusal-none s c g current target fits,
          plan_move-Allowed target,
          collect_set-IsStrict targets,
        )
        | inr (o, refused) ↦ ground (arith, plan_refusal_writes s c g current target o refused)
      ]

pub create_plan-Allowed :
    (s : MetaStore) (l : LogId) (g : GroupId) (targets : List NodeId)
    → Allowed s l (create_plan s g targets l).1
unfolding create_plan
create_plan-Allowed s l g targets = elim (Option-cases s.cluster) [
  | inl uninit ↦ ground arith
  | inr (c, hc) ↦ elim (Option-cases (s.placement g)) [
    | inl unplaced ↦ ground arith
    | inr (q, placed) ↦ ground (arith, plan_for-Allowed s l g q placed c targets hc)
  ]
]
