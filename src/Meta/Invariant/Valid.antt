-- ===== src/Meta/Invariant/Valid.antt =====
-- A state of the meta group is well formed, and every command keeps it so.
use dal_service.Prelude.{
  All, ℕ, ◌≡◌, refl, sym, Option, none, some, List, [], ◌∷◌, arith, ◌==◌, nat_eq, inl, inr,
  Bool-cases, if◌then◌else◌,
}
use mathlib.Core.Path.{subst}
use dal_service.Prelude.Sets.{IsStrict, collect_set_strict}
use dal_service.Codec.{ok}
use dal_service.Types.{NodeId, GroupId, LogId, group_eq}
use dal_service.Types.Meta.{
  NodeDirectoryEntry, ClusterConfig, Placement, MovePlan, MetaCommand, MaintenanceRecord,
}
use dal_service.Search.Definition.{Hashing}
use dal_service.Meta.Store.{
  MetaStore, MetaMutation, MetaApplyResult, node, find_node, put_entry, delete_entry, write,
  write_all, apply_state,
}
use dal_service.Meta.Evaluate.{apply}
use dal_service.Meta.Step.{Step, HasSize, OneLeaves, Inits, Enters, Moves, Places, IsCataloged}
use dal_service.Meta.Step.Moves.{sort_strict}
use dal_service.Meta.Step.Evaluates.{apply-Step}
use dal_service.Meta.Invariant.Frame.{write_all-IsCataloged}
use dal_service.Meta.Invariant.Directory.{
  IsOrdered, put_entry-IsOrdered, delete_entry-IsOrdered, find_node-put_entry,
  find_node-delete_entry,
}

-- A move in progress: its target set is increasing, of the group's size, and one change away.
abbrev pub IsMoveOf : Option ClusterConfig → GroupId → List NodeId → Option MovePlan → Type 0
IsMoveOf c g voters none = Unit
IsMoveOf c g voters (some m) =
    IsStrict m.target_voters × HasSize c g m.target_voters × OneLeaves voters m.target_voters

abbrev pub IsPlaced : Option ClusterConfig → GroupId → Placement → Type 0
IsPlaced c g p = IsStrict p.voters × HasSize c g p.voters × IsMoveOf c g p.voters p.move

-- The directory increases, a retired node is not in it, and the placements have their sizes.
pub record Valid (s : MetaStore) : Type 0 where
  pub ordered : IsOrdered s.directory
  pub gone : (n : NodeId) {i : ℕ} → s.retired n ≡ some i → node s n ≡ none
  pub placed : (g : GroupId) {p : Placement} → s.placement g ≡ some p → IsPlaced s.cluster g p

Moves-IsPlaced :
    (s : MetaStore) (l : LogId) (g : GroupId) (q p : Placement) (a b : Option MovePlan)
    → Moves s l g q p a b
    → q.move ≡ a
    → p.move ≡ b
    → IsPlaced s.cluster g q
    → IsPlaced s.cluster g p
Moves-IsPlaced s l g q p none none h qa pb k = absurd h
Moves-IsPlaced s l g q p none (some m) h qa pb k = ground (arith, collect_set_strict q.voters)
Moves-IsPlaced s l g q p (some m) (some m') h qa pb k = ground arith
Moves-IsPlaced s l g q p (some m) none h qa pb k =
    ground (arith, sort_strict m.target_voters, sort_strict q.voters)

Places-IsPlaced :
    (s : MetaStore) (l : LogId) (g : GroupId) (p : Placement)
    → Valid s
    → Places s l g p (s.placement g)
    → IsPlaced s.cluster g p
Places-IsPlaced s l g p v = by_placement (s.placement g) refl
  where
    by_placement :
        (o : Option Placement) → s.placement g ≡ o → Places s l g p o → IsPlaced s.cluster g p
    by_placement none fresh h = ground arith
    by_placement (some q) held h =
        Moves-IsPlaced s l g q p q.move p.move h refl refl (v.placed g held)

init_group :
    (s : MetaStore) (c : ClusterConfig) (g k : GroupId) (p q : Placement)
    → Valid s
    → Inits s c g p
    → (if g == k then some p else s.placement k) ≡ some q
    → IsPlaced (some c) k q
init_group s c g k p q v h e = elim (Bool-cases (g == k)) [
  | inl here ↦ ground (arith, group_eq.beq_iff g k)
  | inr away ↦ let held : s.placement k ≡ some q = ground arith in ground (arith, v.placed k held)
]

enter_gone :
    (s : MetaStore) (e : NodeDirectoryEntry) (n : NodeId) (i : ℕ) (o : Option NodeDirectoryEntry)
    → Valid s
    → node s e.node_id ≡ o
    → Enters s e o
    → s.retired n ≡ some i
    → find_node n (put_entry e s.directory) ≡ none
enter_gone s e n i none v at h r = ground (arith, find_node-put_entry n e s.directory, v.gone n r)
enter_gone s e n i (some x) v at h r =
    ground (arith, find_node-put_entry n e s.directory, v.gone n r)

retire_gone :
    (s : MetaStore) (id n : NodeId) (i j : ℕ)
    → Valid s
    → (if id == n then some i else s.retired n) ≡ some j
    → find_node n (delete_entry id s.directory) ≡ none
retire_gone s id n i j v r = elim (Bool-cases (id == n)) [
  | inl here ↦ ground (arith, find_node-delete_entry n id s.directory v.ordered)
  | inr away ↦
      let left : s.retired n ≡ some j = ground arith in
      ground (arith, find_node-delete_entry n id s.directory v.ordered, v.gone n left)
]

place_group :
    (s : MetaStore) (l : LogId) (g k : GroupId) (p q : Placement)
    → Valid s
    → Places s l g p (s.placement g)
    → (if g == k then some p else s.placement k) ≡ some q
    → IsPlaced s.cluster k q
place_group s l g k p q v h e = elim (Bool-cases (g == k)) [
  | inl here ↦ ground (arith, group_eq.beq_iff g k, Places-IsPlaced s l g p v h)
  | inr away ↦ let held : s.placement k ≡ some q = ground arith in v.placed k held
]

-- The steps, one by one.
module _ (s : MetaStore) (v : Valid s) where
  init-Valid :
      (c : ClusterConfig) (g : GroupId) (p : Placement)
      → Inits s c g p
      → Valid (write_all s (MetaMutation.put_cluster c ∷ MetaMutation.put_placement g p ∷ []))
  unfolding write_all write
  init-Valid c g p h = record {
    ordered = v.ordered;
    gone = v.gone;
    placed = λ k {p = q} e. init_group s c g k p q v h e;
  }

  enter-Valid :
      (e : NodeDirectoryEntry)
      → Enters s e (node s e.node_id)
      → Valid (write_all s (MetaMutation.put_node e ∷ []))
  unfolding write_all write
  enter-Valid e h = record {
    ordered = put_entry-IsOrdered e s.directory v.ordered;
    gone = λ n {i} r. enter_gone s e n i (node s e.node_id) v refl h r;
    placed = v.placed;
  }

  retire-Valid :
      (id : NodeId) (i : ℕ)
      → Valid (write_all s (MetaMutation.put_retired id i ∷ MetaMutation.delete_node id ∷ []))
  unfolding write_all write
  retire-Valid id i = record {
    ordered = delete_entry-IsOrdered id s.directory v.ordered;
    gone = λ n {i = j} r. retire_gone s id n i j v r;
    placed = v.placed;
  }

  place-Valid :
      (l : LogId) (g : GroupId) (p : Placement)
      → Places s l g p (s.placement g)
      → Valid (write_all s (MetaMutation.put_placement g p ∷ []))
  unfolding write_all write
  place-Valid l g p h = record {
    ordered = v.ordered;
    gone = v.gone;
    placed = λ k {p = q} e. place_group s l g k p q v h e;
  }

  maintain-Valid :
      (m : MaintenanceRecord) → Valid (write_all s (MetaMutation.put_maintenance m ∷ []))
  unfolding write_all write
  maintain-Valid m = record { ordered = v.ordered; gone = v.gone; placed = v.placed }

  search-Valid : (ms : List MetaMutation) → All (IsCataloged s) ms → Valid (write_all s ms)
  search-Valid ms h =
      let (cluster, maintenance, directory, retired, placement) = write_all-IsCataloged s s ms h in
      record {
        ordered = subst IsOrdered (sym directory) v.ordered;
        gone = λ n {i} r. ground (arith, v.gone n {i = i});
        placed = λ g {p} e. ground (arith, v.placed g {p = p});
      }

Step-Valid :
    (s : MetaStore) (l : LogId) (ms : List MetaMutation)
    → Valid s
    → Step s l ms
    → Valid (write_all s ms)
Step-Valid s l ms v (Step.init c g p h) = init-Valid s v c g p h
Step-Valid s l ms v (Step.enter e h) = enter-Valid s v e h
Step-Valid s l ms v (Step.retire id n i same h) =
    subst
      (λ k. Valid (write_all s (MetaMutation.put_retired id i ∷ MetaMutation.delete_node k ∷ [])))
      (sym same) (retire-Valid s v id i)
Step-Valid s l ms v (Step.place g p h) = place-Valid s v l g p h
Step-Valid s l ms v (Step.maintain m h) = maintain-Valid s v m
Step-Valid s l _ v (Step.search ms h) = search-Valid s v ms h

pub apply_state-Valid :
    (s : MetaStore) (ms : List MetaMutation) (l : LogId)
    → Valid (write_all s ms)
    → Valid (apply_state s ms l)
unfolding apply_state
apply_state-Valid s ms l v = record { ordered = v.ordered; gone = v.gone; placed = v.placed }

-- In a state where the directory increases by node id, no retired node is in it, and every
-- placement has increasing voters of the group's size and at most a move by one voter to a target
-- that has them too, any command that does not fail leads to such a state.
pub apply-Valid :
    (h : Hashing) (s : MetaStore) (cmd : MetaCommand) (l : LogId) {r : MetaApplyResult}
    {s' : MetaStore}
    → apply h s cmd l ≡ ok (r, s')
    → Valid s
    → Valid s'
apply-Valid h s cmd l e v =
    let (ms, step, state) = apply-Step h s l cmd e in
    subst Valid (sym state) (apply_state-Valid s ms l (Step-Valid s l ms v step))
