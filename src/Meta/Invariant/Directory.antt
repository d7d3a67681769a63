-- ===== src/Meta/Invariant/Directory.antt =====
-- The node directory: its order, the nodes that were retired, and incarnations.
use dal_service.Prelude.{
  ℕ, ◌≤◌, ◌<◌, ◌≡◌, refl, none, some, List, [], ◌∷◌, arith, ◌==◌, nat_eq, if◌then◌else◌,
}
use dal_service.Types.{NodeId}
use dal_service.Types.Meta.{NodeDirectoryEntry}
use dal_service.Meta.Store.{find_node, put_entry, delete_entry}

-- The entries' node ids lie above `a`, and increase.
abbrev pub IdsAbove : ℕ → List NodeDirectoryEntry → Type 0
IdsAbove a [] = Unit
IdsAbove a (e ∷ es) = (a < e.node_id) × IdsAbove e.node_id es

abbrev pub IsOrdered : List NodeDirectoryEntry → Type 0
IsOrdered [] = Unit
IsOrdered (e ∷ es) = IdsAbove e.node_id es

IdsAbove-weaken : (a b : ℕ) (es : List NodeDirectoryEntry) → b ≤ a → IdsAbove a es → IdsAbove b es
IdsAbove-weaken a b [] h k = tt
IdsAbove-weaken a b (x ∷ xs) h k = (omega arith, k.1)

IdsAbove-put_entry :
    (b : ℕ) (e : NodeDirectoryEntry) (es : List NodeDirectoryEntry)
    → b < e.node_id
    → IdsAbove b es
    → IdsAbove b (put_entry e es)
unfolding put_entry
IdsAbove-put_entry b e [] h k = (h, tt)
IdsAbove-put_entry b e (x ∷ xs) h k = ground (arith, IdsAbove-put_entry x.node_id e xs)

pub put_entry-IsOrdered :
    (e : NodeDirectoryEntry) (es : List NodeDirectoryEntry)
    → IsOrdered es
    → IsOrdered (put_entry e es)
unfolding put_entry
put_entry-IsOrdered e [] k = tt
put_entry-IsOrdered e (x ∷ xs) k = ground (arith, IdsAbove-put_entry x.node_id e xs)

IdsAbove-delete_entry :
    (b : ℕ) (id : NodeId) (es : List NodeDirectoryEntry)
    → IdsAbove b es
    → IdsAbove b (delete_entry id es)
unfolding delete_entry
IdsAbove-delete_entry b id [] k = tt
IdsAbove-delete_entry b id (x ∷ xs) k =
    ground (arith, IdsAbove-delete_entry x.node_id id xs, IdsAbove-weaken x.node_id b xs)

pub delete_entry-IsOrdered :
    (id : NodeId) (es : List NodeDirectoryEntry) → IsOrdered es → IsOrdered (delete_entry id es)
unfolding delete_entry
delete_entry-IsOrdered id [] k = tt
delete_entry-IsOrdered id (x ∷ []) k = ground arith
delete_entry-IsOrdered id (x ∷ y ∷ ys) k =
    ground (arith, IdsAbove-delete_entry x.node_id id (y ∷ ys))

pub find_node-put_entry :
    (n : NodeId) (e : NodeDirectoryEntry) (es : List NodeDirectoryEntry)
    → find_node n (put_entry e es) ≡ (if e.node_id == n then some e else find_node n es)
unfolding find_node put_entry
find_node-put_entry n e [] = refl
find_node-put_entry n e (x ∷ xs) = ground (arith, find_node-put_entry n e xs)

find_node_above :
    (a n : NodeId) (es : List NodeDirectoryEntry) → n ≤ a → IdsAbove a es → find_node n es ≡ none
unfolding find_node
find_node_above a n [] h k = refl
find_node_above a n (x ∷ xs) h k = ground (arith, find_node_above x.node_id n xs)

pub find_node-delete_entry :
    (n id : NodeId) (es : List NodeDirectoryEntry)
    → IsOrdered es
    → find_node n (delete_entry id es) ≡ (if id == n then none else find_node n es)
unfolding find_node delete_entry
find_node-delete_entry n id [] k = ground arith
find_node-delete_entry n id (x ∷ []) k = ground arith
find_node-delete_entry n id (x ∷ y ∷ ys) k =
    ground (arith, find_node-delete_entry n id (y ∷ ys), find_node_above x.node_id n (y ∷ ys))
