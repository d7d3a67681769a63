-- ===== src/Meta/Invariant/History.antt =====
-- Histories of the meta group: any sequence of commands applied without an error.
use dal_service.Prelude.{ℕ, ◌≡◌, refl, Option, none, some, [], arith}
use dal_service.Codec.{ok}
use dal_service.Types.{NodeId, LogId}
use dal_service.Types.Meta.{NodeDirectoryEntry, MetaCommand, MaintenanceRecord}
use dal_service.Search.Definition.{Hashing}
use dal_service.Meta.Store.{MetaStore, MetaApplyResult, Identity, node, find_node}
use dal_service.Meta.Evaluate.{apply}
use dal_service.Meta.Invariant.Valid.{Valid, apply-Valid}
use dal_service.Meta.Invariant.Later.{
  Later, Follows, Continues, MayFollow-trans, Follows-self, Continues-self, apply-Later,
}

-- Storage bound to an identity, before the cluster's first command.
abbrev pub bound : Option Identity → MetaStore
bound identity = record {
  identity = identity;
  recovery_epoch = 0;
  cluster = none;
  maintenance = none;
  directory = [];
  retired = λ n. none;
  placement = λ g. none;
  search_indexes = [];
  search_ready = [];
  last_applied = none;
}

-- The second state is the first after some commands, each at its log id.
pub data Reaches (h : Hashing) (s : MetaStore) : MetaStore → Type 0 where
  here : Reaches h s s
  next :
      (t u : MetaStore) (cmd : MetaCommand) (l : LogId) (r : MetaApplyResult)
      → Reaches h s t
      → apply h t cmd l ≡ ok (r, u)
      → Reaches h s u

pub bound-Valid : (i : Option Identity) → Valid (bound i)
unfolding find_node
bound-Valid i = record { ordered = tt; gone = λ n e. refl; placed = λ g e. ground arith }

Follows-trans :
    (a b : NodeDirectoryEntry) (o : Option NodeDirectoryEntry) (r : Option ℕ)
    → Follows a (some b) none
    → Follows b o r
    → Follows a o r
Follows-trans a b none none h k = absurd k
Follows-trans a b none (some i) h k = ground arith
Follows-trans a b (some c) r h k = ground (arith, MayFollow-trans a.state b.state c.state)

Later-trans_node :
    (s t u : MetaStore)
    → Valid u
    → Later s t
    → Later t u
    → (n : NodeId) (e : NodeDirectoryEntry) → node s n ≡ some e
    → Follows e (node u n) (u.retired n)
Later-trans_node s t u v a b n e k = by_entry (node t n) (t.retired n) refl refl (a.nodes n k)
  where
    by_entry :
        (o : Option NodeDirectoryEntry) (r : Option ℕ)
        → node t n ≡ o
        → t.retired n ≡ r
        → Follows e o r
        → Follows e (node u n) (u.retired n)
    by_entry none none at gone f = absurd f
    by_entry none (some i) at gone f = let left = b.retired n gone in ground (arith, v.gone n left)
    by_entry (some x) r at gone f = Follows-trans e x (node u n) (u.retired n) f (b.nodes n at)

Continues-trans :
    (a b : MaintenanceRecord) (o : Option MaintenanceRecord)
    → Continues a (some b)
    → Continues b o
    → Continues a o
Continues-trans a b none h k = absurd k
Continues-trans a b (some c) h k = ground arith

Later-trans_maintenance :
    (s t u : MetaStore)
    → Later s t
    → Later t u
    → (r : MaintenanceRecord) → s.maintenance ≡ some r
    → Continues r u.maintenance
Later-trans_maintenance s t u a b r k = by_record t.maintenance refl (a.maintenance k)
  where
    by_record :
        (o : Option MaintenanceRecord)
        → t.maintenance ≡ o
        → Continues r o
        → Continues r u.maintenance
    by_record none at f = absurd f
    by_record (some x) at f = Continues-trans r x u.maintenance f (b.maintenance at)

Later-trans : (s t u : MetaStore) → Valid u → Later s t → Later t u → Later s u
Later-trans s t u v a b = record {
  cluster = λ k. b.cluster (a.cluster k);
  retired = λ n k. b.retired n (a.retired n k);
  nodes = λ n {e} k. Later-trans_node s t u v a b n e k;
  maintenance = λ {r} k. Later-trans_maintenance s t u a b r k;
}

Later-refl : (s : MetaStore) → Later s s
Later-refl s = record {
  cluster = λ k. k;
  retired = λ n k. k;
  nodes = λ n {e} k. Follows-self e (node s n) (s.retired n) k;
  maintenance = λ {r} k. Continues-self r s.maintenance k;
}

-- After any commands that do not fail, from a well-formed state: the state is well formed, the
-- cluster record and every retirement are as they were, every directory entry is followed by its
-- removal or by an entry that is no older and fences it, and the maintenance record continues.
pub Reaches-Later :
    (h : Hashing) (s : MetaStore) {t : MetaStore} → Reaches h s t → Valid s → Valid t × Later s t
Reaches-Later h s Reaches.here v = (v, Later-refl s)
Reaches-Later h s (Reaches.next t u cmd l r path e) v =
    let (vt, later) = Reaches-Later h s path v in
    let vu = apply-Valid h t cmd l e vt in
    (vu, Later-trans s t u vu later (apply-Later h t cmd l e vt))

-- From storage bound to an identity, in every state that commands reach: once a node is retired,
-- no later state has it in its directory, and no later command changes its retirement.
pub Reaches-retired :
    (h : Hashing) (i : Option Identity) {t u : MetaStore} (n : NodeId) {k : ℕ}
    → Reaches h (bound i) t
    → t.retired n ≡ some k
    → Reaches h t u
    → (u.retired n ≡ some k) × (node u n ≡ none)
Reaches-retired h i {t} n path gone more =
    let (vt, first) = Reaches-Later h (bound i) path (bound-Valid i) in
    let (vu, later) = Reaches-Later h t more vt in
    (later.retired n gone, vu.gone n (later.retired n gone))
