-- ===== src/Balancer/Eligible.antt =====
-- The eligible nodes are the active ones of the directory.
use dal_service.Prelude.{
  ℕ, ◌+◌, ◌≤◌, ◌≡◌, refl, true, false, List, [], ◌∷◌, arith, ◌==◌, nat_eq, list_eq, map, length,
  keep, contains,
}
use dal_service.Prelude.Sets.{set_insert, collect_set, contains-collect_set}
use dal_service.Types.{NodeId, group_eq}
use dal_service.Types.Meta.{NodeDirectoryEntry, NodeState, state_eq}
use dal_service.Meta.Store.{MetaStore, find_node, is_active, active_entry, eligible_count}
use dal_service.Meta.Invariant.Directory.{IdsAbove, IsOrdered}
use dal_service.Balancer.{eligible_nodes}

length-map : (es : List NodeDirectoryEntry) → length (map (λ e. e.node_id) es) ≡ length es
length-map [] = refl
length-map (e ∷ es) = ground (arith, length-map es)

length-set_insert_le : (a : ℕ) (xs : List ℕ) → length (set_insert a xs) ≤ length xs + 1
unfolding set_insert
length-set_insert_le a [] = ground arith
length-set_insert_le a (x ∷ xs) = ground (arith, length-set_insert_le a xs)

length-collect_set : (xs : List ℕ) → length (collect_set xs) ≤ length xs
unfolding collect_set
length-collect_set [] = ground arith
length-collect_set (x ∷ xs) =
    ground (arith, length-collect_set xs, length-set_insert_le x (collect_set xs))

abbrev active_ids : List NodeDirectoryEntry → List NodeId
active_ids es = map (λ e. e.node_id) (keep (λ e. e.state == NodeState.active) es)

-- The eligible nodes are at most the active entries.
pub length-eligible_nodes : (s : MetaStore) → length (eligible_nodes s.directory) ≤ eligible_count s
unfolding eligible_nodes
length-eligible_nodes s = ground (
  arith,
  length-collect_set (active_ids s.directory),
  length-map (keep (λ e. e.state == NodeState.active) s.directory),
)

active_ids-above :
    (a n : NodeId) (es : List NodeDirectoryEntry)
    → n ≤ a
    → IdsAbove a es
    → contains (active_ids es) n ≡ false
active_ids-above a n [] h k = refl
active_ids-above a n (e ∷ es) h k = ground (arith, active_ids-above e.node_id n es)

active_ids-active :
    (n : NodeId) (es : List NodeDirectoryEntry)
    → IsOrdered es
    → contains (active_ids es) n ≡ true
    → active_entry (find_node n es) ≡ true
unfolding find_node
active_ids-active n [] k h = ground arith
active_ids-active n (e ∷ []) k h = ground arith
active_ids-active n (e ∷ f ∷ es) k h =
    ground (arith, active_ids-active n (f ∷ es), active_ids-above e.node_id n (f ∷ es))

pub eligible_nodes-active :
    (s : MetaStore) (n : NodeId)
    → IsOrdered s.directory
    → contains (eligible_nodes s.directory) n ≡ true
    → is_active s n ≡ true
unfolding eligible_nodes
eligible_nodes-active s n k h =
    active_ids-active n s.directory k
      (ground (arith, contains-collect_set (active_ids s.directory) n))
