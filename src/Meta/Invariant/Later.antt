-- ===== src/Meta/Invariant/Later.antt =====
-- What a state of the meta group promises about every later one: a preorder that commands respect.
use mathlib.Core.Path.{subst}
use dal_service.Prelude.{
  ℕ, ◌≤◌, ◌≡◌, refl, sym, ap, ◌∙◌, inl, inr, Option, none, some, List, [], ◌∷◌, arith, ◌==◌, nat_eq,
  if◌then◌else◌,
}
use dal_service.Codec.{ok}
use dal_service.Types.{NodeId, GroupId, LogId}
use dal_service.Types.Meta.{
  NodeDirectoryEntry, NodeState, ClusterConfig, Placement, MetaCommand, MaintenanceRecord,
}
use dal_service.Search.Definition.{Hashing}
use dal_service.Meta.Store.{
  MetaStore, MetaMutation, MetaApplyResult, node, find_node, put_entry, delete_entry, write,
  write_all, apply_state,
}
use dal_service.Meta.Evaluate.{apply}
use dal_service.Meta.Step.{Step, MayFollow, Inits, Enters, RetiresFrom, Proceeds, Maintains}
use dal_service.Meta.Step.Evaluates.{apply-Step}
use dal_service.Meta.Invariant.Frame.{SameCore, write_all-IsCataloged}
use dal_service.Meta.Invariant.Directory.{find_node-put_entry, find_node-delete_entry}
use dal_service.Meta.Invariant.Valid.{Valid}

-- What may follow a directory entry: its removal, recorded at an incarnation that is not older, or
-- an entry of a later incarnation, or one of the same with its endpoints, whose
-- state may follow.
abbrev pub Follows : NodeDirectoryEntry → Option NodeDirectoryEntry → Option ℕ → Type 0
Follows e none none = ⊥
Follows e none (some i) = e.incarnation ≤ i
Follows e (some e') r =
    (e.incarnation ≤ e'.incarnation)
    × (e.incarnation ≡ e'.incarnation
        → (e.control_addr ≡ e'.control_addr)
          × (e.bulk_addr ≡ e'.bulk_addr)
          × MayFollow e.state e'.state)

-- What may follow a maintenance record: one of a later generation, or the same operation's.
abbrev pub Continues : MaintenanceRecord → Option MaintenanceRecord → Type 0
Continues r none = ⊥
Continues r (some r') =
    (r.generation ≤ r'.generation)
    × (r.generation ≡ r'.generation
        → (r.operation_id ≡ r'.operation_id) × (r.participants ≡ r'.participants))

pub record Later (s t : MetaStore) : Type 0 where
  pub cluster : {c : ClusterConfig} → s.cluster ≡ some c → t.cluster ≡ some c
  pub retired : (n : NodeId) {i : ℕ} → s.retired n ≡ some i → t.retired n ≡ some i
  pub nodes :
      (n : NodeId) {e : NodeDirectoryEntry} → node s n ≡ some e → Follows e (node t n) (t.retired n)
  pub maintenance : {r : MaintenanceRecord} → s.maintenance ≡ some r → Continues r t.maintenance

MayFollow-refl : (a : NodeState) → MayFollow a a
MayFollow-refl a = ground arith

pub MayFollow-trans : (a b c : NodeState) → MayFollow a b → MayFollow b c → MayFollow a c
MayFollow-trans a b c h k = ground arith

pub Follows-self :
    (e : NodeDirectoryEntry) (o : Option NodeDirectoryEntry) (r : Option ℕ)
    → o ≡ some e
    → Follows e o r
Follows-self e o r h = ground (arith, MayFollow-refl e.state)

pub Continues-self :
    (r : MaintenanceRecord) (o : Option MaintenanceRecord) → o ≡ some r → Continues r o
Continues-self r o h = ground arith

-- States with the same records.
same-Later : (s t : MetaStore) → SameCore s t → Later s t
same-Later s t (cluster, maintenance, directory, retired, placement) = record {
  cluster = λ e. cluster ∙ e;
  retired = λ n e. ground arith;
  nodes = λ n {e} h. Follows-self e (node t n) (t.retired n) (ground arith);
  maintenance = λ {r} h. Continues-self r t.maintenance (maintenance ∙ h);
}

Follows-enter :
    (s : MetaStore) (e : NodeDirectoryEntry) (n : NodeId) (x : NodeDirectoryEntry)
    (o : Option NodeDirectoryEntry) (r : Option ℕ)
    → node s e.node_id ≡ o
    → Enters s e o
    → node s n ≡ some x
    → Follows x (find_node n (put_entry e s.directory)) r
Follows-enter s e n x none r at h k =
    ground (arith, find_node-put_entry n e s.directory, MayFollow-refl x.state)
Follows-enter s e n x (some old) r at h k =
    ground (arith, find_node-put_entry n e s.directory, MayFollow-refl x.state)

Follows-retire :
    (s : MetaStore) (id : NodeId) (i : ℕ) (n : NodeId) (x : NodeDirectoryEntry)
    → Valid s
    → RetiresFrom s id i (node s id) s.cluster
    → node s n ≡ some x
    → Follows x
        (find_node n (delete_entry id s.directory))
        (if id == n then some i else s.retired n)
Follows-retire s id i n x v h k =
    ground (arith, find_node-delete_entry n id s.directory v.ordered, MayFollow-refl x.state)

-- A step of an operation keeps what identifies it.
Proceeds-same :
    (s : MetaStore) (r : MaintenanceRecord) {m : MaintenanceRecord}
    → Proceeds s r m
    → (m.generation ≡ r.generation)
      × (m.operation_id ≡ r.operation_id)
      × (m.participants ≡ r.participants)
Proceeds-same s r (Proceeds.acknowledges n h k) = (refl, refl, refl)
Proceeds-same s r (Proceeds.quiesces h k) = (refl, refl, refl)
Proceeds-same s r (Proceeds.verifies h) = (refl, refl, refl)
Proceeds-same s r (Proceeds.recovers n ps ds d e h k f) = (refl, refl, refl)
Proceeds-same s r (Proceeds.gives_up h) = (refl, refl, refl)
Proceeds-same s r (Proceeds.releases h k e) = (refl, refl, refl)

Continues-maintain :
    (s : MetaStore) (m r : MaintenanceRecord) (o : Option MaintenanceRecord)
    → Maintains s m o
    → o ≡ some r
    → Continues r (some m)
Continues-maintain s m r none h e = absurd (ground arith)
Continues-maintain s m r (some x) (inl begun) e = ground arith
Continues-maintain s m r (some x) (inr proceeds) e = ground (arith, Proceeds-same s x proceeds)

-- The steps, one by one.
module _ (s : MetaStore) where
  init-Later :
      (c : ClusterConfig) (g : GroupId) (p : Placement)
      → Inits s c g p
      → Later s (write_all s (MetaMutation.put_cluster c ∷ MetaMutation.put_placement g p ∷ []))
  unfolding write_all write
  init-Later c g p h = record {
    cluster = λ e. ground arith;
    retired = λ n e. e;
    nodes = λ n {e} k. Follows-self e (node s n) (s.retired n) k;
    maintenance = λ {r} k. Continues-self r s.maintenance k;
  }

  enter-Later :
      (e : NodeDirectoryEntry)
      → Enters s e (node s e.node_id)
      → Later s (write_all s (MetaMutation.put_node e ∷ []))
  unfolding write_all write
  enter-Later e h = record {
    cluster = λ k. k;
    retired = λ n k. k;
    nodes = λ n {e = x} k. Follows-enter s e n x (node s e.node_id) (s.retired n) refl h k;
    maintenance = λ {r} k. Continues-self r s.maintenance k;
  }

  retired_kept :
      (id n : NodeId) (i j : ℕ)
      → s.retired id ≡ none
      → s.retired n ≡ some j
      → (if id == n then some i else s.retired n) ≡ some j
  retired_kept id n i j h k = ground (arith, ap s.retired, nat_eq.beq_iff id n)

  retires_unretired :
      (id : NodeId) (i : ℕ) (o : Option NodeDirectoryEntry) (c : Option ClusterConfig)
      → RetiresFrom s id i o c
      → s.retired id ≡ none
  retires_unretired id i o c h = ground arith

  retire-Later :
      (id : NodeId) (i : ℕ)
      → Valid s
      → RetiresFrom s id i (node s id) s.cluster
      → Later s (write_all s (MetaMutation.put_retired id i ∷ MetaMutation.delete_node id ∷ []))
  unfolding write_all write
  retire-Later id i v h = record {
    cluster = λ k. k;
    retired =
        λ n {i = j} k. retired_kept id n i j (retires_unretired id i (node s id) s.cluster h) k;
    nodes = λ n {e = x} k. Follows-retire s id i n x v h k;
    maintenance = λ {r} k. Continues-self r s.maintenance k;
  }

  place-Later :
      (g : GroupId) (p : Placement) → Later s (write_all s (MetaMutation.put_placement g p ∷ []))
  unfolding write_all write
  place-Later g p = record {
    cluster = λ k. k;
    retired = λ n k. k;
    nodes = λ n {e} k. Follows-self e (node s n) (s.retired n) k;
    maintenance = λ {r} k. Continues-self r s.maintenance k;
  }

  maintain-Later :
      (m : MaintenanceRecord)
      → Maintains s m s.maintenance
      → Later s (write_all s (MetaMutation.put_maintenance m ∷ []))
  unfolding write_all write
  maintain-Later m h = record {
    cluster = λ k. k;
    retired = λ n k. k;
    nodes = λ n {e} k. Follows-self e (node s n) (s.retired n) k;
    maintenance = λ {r} k. Continues-maintain s m r s.maintenance h k;
  }

Step-Later :
    (s : MetaStore) (l : LogId) (ms : List MetaMutation)
    → Valid s
    → Step s l ms
    → Later s (write_all s ms)
Step-Later s l ms v (Step.init c g p h) = init-Later s c g p h
Step-Later s l ms v (Step.enter e h) = enter-Later s e h
Step-Later s l ms v (Step.retire id n i same h) =
    subst
      (λ k. Later s (write_all s (MetaMutation.put_retired id i ∷ MetaMutation.delete_node k ∷ [])))
      (sym same) (retire-Later s id i v h)
Step-Later s l ms v (Step.place g p h) = place-Later s g p
Step-Later s l ms v (Step.maintain m h) = maintain-Later s m h
Step-Later s l _ v (Step.search ms h) =
    same-Later s (write_all s ms) (write_all-IsCataloged s s ms h)

apply_state-Later :
    (s : MetaStore) (ms : List MetaMutation) (l : LogId)
    → Later s (write_all s ms)
    → Later s (apply_state s ms l)
unfolding apply_state
apply_state-Later s ms l v = record {
  cluster = v.cluster;
  retired = v.retired;
  nodes = v.nodes;
  maintenance = v.maintenance;
}

-- Any command that does not fail, from a well-formed state, keeps the cluster record and every
-- retirement, follows every directory entry by its removal or by an entry that is no older and
-- fences it, and continues the maintenance record.
pub apply-Later :
    (h : Hashing) (s : MetaStore) (cmd : MetaCommand) (l : LogId) {r : MetaApplyResult}
    {s' : MetaStore}
    → apply h s cmd l ≡ ok (r, s')
    → Valid s
    → Later s s'
apply-Later h s cmd l e v =
    let (ms, step, state) = apply-Step h s l cmd e in
    subst (Later s) (sym state) (apply_state-Later s ms l (Step-Later s l ms v step))
