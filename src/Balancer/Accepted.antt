-- ===== src/Balancer/Accepted.antt =====
-- The meta group accepts what the balancer proposes.
use dal_service.Prelude.{
  ℕ, ◌+◌, ◌≤◌, ◌≡◌, ◌⊎◌, refl, sym, ap, ◌∙◌, true, false, not, none, some, List, [], ◌∷◌, arith,
  ◌==◌, nat_eq, ==_refl, list_eq, All, length, keep, find, contains, inl, inr, Option-cases,
}
use mathlib.Core.Path.{subst}
use dal_service.Prelude.Sets.{
  IsStrict, set_insert, difference, contains-collect_set, collect_set_strict,
}
use dal_service.Types.{NodeId, LogId, data_group, group_eq}
use dal_service.Types.Meta.{ClusterConfig, Placement, NodeDirectoryEntry, state_eq}
use dal_service.Meta.Store.{
  MetaStore, Outcome, applied, put_placement, node, find_node, is_active, eligible_count,
}
use dal_service.Meta.Placements.{no_move, plan_refusal, plan_move, plan_for, create_plan}
use dal_service.Meta.Step.{HasSize}
use dal_service.Meta.Step.Moves.{sort_strict}
use dal_service.Meta.Invariant.Valid.{Valid}
use dal_service.Balancer.{
  PlanProposal, eligible_nodes, leaves, load_map, replacement, drain, rebalance, propose_best,
  propose,
}
use dal_service.Balancer.Eligible.{length-eligible_nodes, eligible_nodes-active}
use dal_service.Balancer.Replacement.{target_voters, IsSwap, set_insert-IsSwap}
use dal_service.Balancer.Proposal.{Swap, drain-Proposes}
use dal_service.Balancer.Candidates.{propose_best-Proposes}

find-node :
    (n : NodeId) (es : List NodeDirectoryEntry) → find (λ e. e.node_id == n) es ≡ find_node n es
unfolding find_node
find-node n [] = refl
find-node n (e ∷ es) = ground (arith, find-node n es)

-- A plan by one voter on a group at rest passes the tests of `create_plan`.
module _ (s : MetaStore) (c : ClusterConfig) (l : LogId) (k : ℕ) (p : Placement) where
  abbrev planned : List NodeId → Outcome
  planned target = (
    applied,
    put_placement (data_group k) (record p {
      move = some (record { plan_id = l.index; target_voters = target; aborting = false });
    })
        ∷ [],
  )

  module _ (drop dest : NodeId) (target : List NodeId)
      (swap : IsSwap drop dest p.voters target) where
    refusal-none :
        length p.voters ≡ c.r
        → c.r ≤ eligible_count s
        → plan_refusal s c (data_group k) p.voters target ≡ none
    unfolding plan_refusal
    refusal-none size enough = ground arith

    plan_move-planned :
        is_active s dest ≡ true → plan_move s (data_group k) p p.voters target l ≡ planned target
    unfolding plan_move
    plan_move-planned live = rw (swap.3, live, sort_strict target swap.0) refl

    plan_for-planned :
        IsStrict p.voters
        → length p.voters ≡ c.r
        → no_move p ≡ true
        → c.r ≤ eligible_count s
        → is_active s dest ≡ true
        → plan_for s c (data_group k) target l p ≡ planned target
    unfolding plan_for
    plan_for-planned strict size still enough live = ground (
      arith,
      collect_set_strict p.voters strict,
      collect_set_strict target swap.0,
      ==_refl (length target),
      refusal-none size enough,
      plan_move-planned live,
    )

create_plan_at :
    (s : MetaStore) (c : ClusterConfig) (l : LogId) (k : ℕ) (p : Placement) (target : List NodeId)
    → s.cluster ≡ some c
    → s.placement (data_group k) ≡ some p
    → create_plan s (data_group k) target l ≡ plan_for s c (data_group k) target l p
unfolding create_plan
create_plan_at s c l k p target hc held = ground arith

-- What `create_plan` answers to a proposal in the state: a plan for the proposed voters, of a group
-- at rest, in which the voter that satisfies the condition makes place for an active node.
pub Plans : MetaStore → LogId → (NodeId → NodeId → Type 0) → PlanProposal → Type 0
Plans s l Why q =
    (p : Placement) × (drop : NodeId) × (dest : NodeId) × (s.placement q.group ≡ some p)
    × (p.move ≡ none)
    × (difference p.voters q.target_voters ≡ drop ∷ [])
    × (difference q.target_voters p.voters ≡ dest ∷ [])
    × (is_active s dest ≡ true)
    × Why drop dest
    × (create_plan s q.group q.target_voters l ≡ (
      applied,
      put_placement q.group (record p {
        move =
            some (record { plan_id = l.index; target_voters = q.target_voters; aborting = false });
      })
          ∷ [],
    ))

module _ (s : MetaStore) (c : ClusterConfig) (l : LogId) (v : Valid s) (hc : s.cluster ≡ some c)
    (Why : NodeId → NodeId → Type 0) where
  swapped-planned :
      (k : ℕ) (p : Placement) (drop dest : NodeId)
      → s.placement (data_group k) ≡ some p
      → c.r ≤ eligible_count s
      → Swap (eligible_nodes s.directory) p drop dest
      → Why drop dest
      → Plans s l Why (replacement (data_group k) p.voters drop dest)
  unfolding Plans replacement
  swapped-planned k p drop dest held enough swap why =
      let (strict, size, _) = v.placed (data_group k) held in
      let fresh : contains p.voters dest ≡ false =
        ground (arith, swap.fresh, contains-collect_set p.voters dest) in
      let target : List NodeId = set_insert dest (keep (λ x. not (x == drop)) p.voters) in
      let is : IsSwap drop dest p.voters target =
        set_insert-IsSwap drop dest p.voters strict swap.leaves fresh in
      let of_size : length p.voters ≡ c.r =
        subst (λ o. HasSize o (data_group k) p.voters) hc size in
      let live : is_active s dest ≡ true = eligible_nodes-active s dest v.ordered swap.joins in
      let made : create_plan s (data_group k) target l ≡ planned s c l k p target =
        create_plan_at s c l k p target hc held
        ∙ (plan_for-planned s c l k p drop dest target is strict of_size swap.rest enough live) in
      subst (λ t. Plans s l Why (record { group = data_group k; target_voters = t }))
        (sym (target_voters drop dest p.voters strict swap.leaves fresh))
        (p, drop, dest, held, ground (arith, swap.rest), is.2, is.3, live, why, made)

abbrev pub Reason : MetaStore → List (ℕ × Placement) → NodeId → NodeId → Type 0
Reason s ps drop dest =
    (leaves (node s drop) ≡ true)
    ⊎ ((is_active s drop ≡ true) × (load_map ps dest + 2 ≤ load_map ps drop))

module _ (s : MetaStore) (c : ClusterConfig) (l : LogId) (v : Valid s) (hc : s.cluster ≡ some c)
    (ps : List (ℕ × Placement)) (enough : c.r ≤ eligible_count s)
    (held : All (λ e. s.placement (data_group e.0) ≡ some e.1) ps) where
  abbrev eligible : List NodeId
  eligible = eligible_nodes s.directory

  abbrev IsPlacedAt : ℕ → Placement → Type 0
  IsPlacedAt k p = s.placement (data_group k) ≡ some p

  drained_planned :
      {q : PlanProposal}
      → drain s.directory eligible (load_map ps) ps ≡ some q
      → Plans s l (Reason s ps) q
  drained_planned h =
      let (k, p, drop, dest, at, swap, why, made) =
        drain-Proposes IsPlacedAt s.directory eligible (load_map ps) ps held h in
      subst (Plans s l (Reason s ps)) (sym made) (
        swapped-planned s c l v hc (Reason s ps) k p drop dest at enough swap
          (inl (ap leaves (sym (find-node drop s.directory)) ∙ why)))

  balanced_planned :
      {q : PlanProposal}
      → propose_best ps (rebalance eligible (load_map ps) none ps) ≡ some q
      → Plans s l (Reason s ps) q
  balanced_planned h =
      let (k, p, drop, dest, at, swap, why, made) =
        propose_best-Proposes IsPlacedAt s.directory eligible (load_map ps) ps
          (λ k p p' a b. ground arith) held h in
      subst (Plans s l (Reason s ps)) (sym made) (
        swapped-planned s c l v hc (Reason s ps) k p drop dest at enough swap
          (inr (eligible_nodes-active s drop v.ordered why.0, why.1)))

-- In a well-formed state with a cluster record, of which the balancer is given the directory, the
-- replication factor and placements that the state has: `create_plan` applies what it proposes. It
-- writes a plan with the proposed voters for a data group without a move, in which exactly one
-- voter makes place for exactly one node, which is active. The voter is listed as Down or
-- Draining, or not at all, or it is active and carries at least two replicas more than the node.
pub propose-create_plan :
    (s : MetaStore) (c : ClusterConfig) (l : LogId) (ps : List (ℕ × Placement)) {q : PlanProposal}
    → Valid s
    → s.cluster ≡ some c
    → All (λ e. s.placement (data_group e.0) ≡ some e.1) ps
    → propose s.directory ps c.r ≡ some q
    → Plans s l (Reason s ps) q
unfolding propose
propose-create_plan s c l ps {q} v hc held h =
    let enough : c.r ≤ eligible_count s = ground (arith, length-eligible_nodes s) in
    elim (Option-cases (drain s.directory (eligible_nodes s.directory) (load_map ps) ps)) [
      | inl none_drains ↦ balanced_planned s c l v hc ps enough held (ground arith)
      | inr (r, drains) ↦ drained_planned s c l v hc ps enough held (ground arith)
    ]
