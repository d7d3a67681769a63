-- ===== src/Meta/Step/Nodes.antt =====
-- The directory commands write what the relation allows.
use dal_service.Prelude.{
  ℕ, ◌≡◌, refl, true, false, Option, none, some, List, [], ◌∷◌, arith, ◌==◌, nat_eq, list_beq_iff,
  Option-cases, Bool-cases, sym, ap, leb, ◌&&◌, not, checked_add_one, list_eq, inl, inr, any,
  length, All, contains, ◌≢◌,
}
use mathlib.Core.Path.{subst}
use dal_service.Codec.{Bytes}
use dal_service.Types.{NodeId, GroupId, LogId, max_cluster_nodes}
use dal_service.Types.Meta.{NodeState, NodeDirectoryEntry, Placement, state_eq, references_node}
use dal_service.Meta.Store.{MetaStore, Outcome, node, find_node, all_groups}
use dal_service.Meta.Nodes.{
  takes_endpoint, has_id, rejoin, same_endpoints, register_entry, register_in, register_node,
  set_node_state, retire_entry, retire_node, revives, evacuated,
}
use dal_service.Meta.Step.{Allowed, MayFollow, IsApart, IsFree, IsEvacuated}

find_node_id :
    (id : NodeId) (es : List NodeDirectoryEntry) {e : NodeDirectoryEntry}
    → find_node id es ≡ some e
    → e.node_id ≡ id
unfolding find_node
find_node_id id [] h = ground arith
find_node_id id (x ∷ es) {e} h = ground (arith, find_node_id id es {e = e})

find_node-none :
    (id : NodeId) (es : List NodeDirectoryEntry)
    → find_node id es ≡ none
    → any (has_id id) es ≡ false
unfolding find_node
find_node-none id [] h = refl
find_node-none id (x ∷ es) h = ground (arith, find_node-none id es)

revives-MayFollow : (a b : NodeState) → revives a b ≡ false → MayFollow a b
unfolding revives
revives-MayFollow a b h = ground arith

-- No entry that takes an endpoint: all entries of other nodes are apart.
untaken-IsApart :
    (e : NodeDirectoryEntry) (es : List NodeDirectoryEntry)
    → any (takes_endpoint e.node_id e.control_addr e.bulk_addr) es ≡ false
    → IsApart e es
untaken-IsApart e [] h = tt
untaken-IsApart e (x ∷ xs) h = ground (
  arith,
  untaken-IsApart e xs,
  list_beq_iff x.control_addr e.control_addr,
  list_beq_iff x.control_addr e.bulk_addr,
  list_beq_iff x.bulk_addr e.control_addr,
  list_beq_iff x.bulk_addr e.bulk_addr,
)

missing-All :
    (id : NodeId) (voters : List NodeId) → contains voters id ≡ false → All (λ v. v ≢ id) voters
missing-All id [] h = tt
missing-All id (v ∷ vs) h = ground (arith, missing-All id vs)

unreferenced-IsEvacuated :
    (id : NodeId) (p : Placement)
    → references_node p id ≡ false
    → All (λ v. v ≢ id) p.voters × IsFree id p.move
unfolding references_node
unreferenced-IsEvacuated id p h = elim (Option-cases p.move) [
  | inl rest ↦ ground (arith, missing-All id p.voters)
  | inr (m, moving) ↦ ground (arith, missing-All id p.voters, missing-All id m.target_voters)
]

evacuated-All :
    (placement : GroupId → Option Placement) (id : NodeId) (gs : List GroupId)
    → evacuated placement id gs ≡ none
    → All (λ g. IsEvacuated id (placement g)) gs
unfolding evacuated
evacuated-All placement id [] h = tt
evacuated-All placement id (g ∷ gs) h = elim (Option-cases (placement g)) [
  | inl missing ↦ absurd (ground arith)
  | inr (p, at) ↦ ground (arith, at, unreferenced-IsEvacuated id p, evacuated-All placement id gs)
]

pub set_node_state-Allowed :
    (s : MetaStore) (l : LogId) (id : NodeId) (state : NodeState) (i : ℕ)
    → Allowed s l (set_node_state s id state i).1
unfolding set_node_state
set_node_state-Allowed s l id state i = elim (Option-cases (node s id)) [
  | inl missing ↦ rw (missing, set_node_state) tt
  | inr (e, found) ↦
      let same = find_node_id id s.directory found in
      ground (arith, ap (node s) same, revives-MayFollow e.state state)
]

-- The tests that `register_node` has passed when it writes.
module _ (s : MetaStore) (l : LogId) (id : NodeId) (c b : Bytes) (nonzero : (id == 0) ≡ false)
    (unretired : s.retired id ≡ none) (untaken : any (takes_endpoint id c b) s.directory ≡ false)
    (room : (leb max_cluster_nodes (length s.directory) && not (any (has_id id) s.directory))
      ≡ false) where
  abbrev entered : ℕ → NodeDirectoryEntry
  entered incarnation = record {
    node_id = id;
    control_addr = c;
    bulk_addr = b;
    state = NodeState.active;
    incarnation = incarnation;
  }

  register_new-Allowed : node s id ≡ none → Allowed s l (register_entry id c b none).1
  unfolding register_entry
  register_new-Allowed missing = rw missing (
      ground
        (arith, find_node-none id s.directory, untaken-IsApart (entered 1) s.directory untaken))

  rejoin-Allowed :
      (e : NodeDirectoryEntry) → node s id ≡ some e → Allowed s l (rejoin id c b e.incarnation).1
  unfolding rejoin
  rejoin-Allowed e found = elim (Option-cases (checked_add_one e.incarnation)) [
    | inl full ↦ rw (full, rejoin) tt
    | inr (next, more) ↦
        rw (more, rejoin)
          (rw found (ground (arith, untaken-IsApart (entered next) s.directory untaken)))
  ]

  rejoin_same :
      (e : NodeDirectoryEntry)
      → e.node_id ≡ id
      → same_endpoints c b e ≡ true
      → rejoin e.node_id e.control_addr e.bulk_addr e.incarnation ≡ rejoin id c b e.incarnation
  unfolding same_endpoints
  rejoin_same e same h =
      let ec : e.control_addr ≡ c = ground (arith, list_beq_iff e.control_addr c) in
      let eb : e.bulk_addr ≡ b = ground (arith, list_beq_iff e.bulk_addr b) in cc

  register_known-Allowed :
      (e : NodeDirectoryEntry) → node s id ≡ some e → Allowed s l (register_entry id c b (some e)).1
  unfolding register_entry
  register_known-Allowed e found =
      let same = find_node_id id s.directory found in
      let again = rejoin-Allowed e found in
      elim (Bool-cases (same_endpoints c b e)) [
        | inr moved ↦ rw moved again
        | inl kept ↦ rw kept (elim (Bool-cases (e.state == NodeState.down)) [
          | inl down ↦
              rw down
                (subst (λ (o : Outcome). Allowed s l o.1) (sym (rejoin_same e same kept)) again)
          | inr up ↦ rw up tt
        ])
      ]

  register_entry-Allowed : Allowed s l (register_entry id c b (node s id)).1
  register_entry-Allowed = by_entry (node s id) refl
    where
      by_entry :
          (o : Option NodeDirectoryEntry) → node s id ≡ o → Allowed s l (register_entry id c b o).1
      by_entry none missing = register_new-Allowed missing
      by_entry (some e) found = register_known-Allowed e found

register_in-Allowed :
    (s : MetaStore) (l : LogId) (id : NodeId) (c b : Bytes)
    → (id == 0) ≡ false
    → s.retired id ≡ none
    → Allowed s l (register_in s id c b).1
unfolding register_in
register_in-Allowed s l id c b nonzero unretired =
    elim (Bool-cases (any (takes_endpoint id c b) s.directory)) [
      | inl taken ↦ rw taken tt
      | inr untaken ↦
          rw untaken
            (elim (Bool-cases
              (leb max_cluster_nodes (length s.directory) && not (any (has_id id) s.directory))) [
                | inl full ↦ rw full tt
                | inr room ↦
                    rw room (register_entry-Allowed s l id c b nonzero unretired untaken room)
              ])
    ]

pub register_node-Allowed :
    (s : MetaStore) (l : LogId) (id : NodeId) (c b : Bytes) → Allowed s l (register_node s id c b).1
unfolding register_node
register_node-Allowed s l id c b = ground (arith, register_in-Allowed s l id c b)

retire_entry-Allowed :
    (s : MetaStore) (l : LogId) (id : NodeId) (i : ℕ) (e : NodeDirectoryEntry)
    → node s id ≡ some e
    → s.retired id ≡ none
    → Allowed s l (retire_entry s id i e).1
unfolding retire_entry
retire_entry-Allowed s l id i e found unretired = elim (Option-cases s.cluster) [
  | inl uninit ↦ ground arith
  | inr (c, hc) ↦ ground (arith, evacuated-All s.placement id (all_groups c.p))
]

pub retire_node-Allowed :
    (s : MetaStore) (l : LogId) (id : NodeId) (i : ℕ) → Allowed s l (retire_node s id i).1
unfolding retire_node
retire_node-Allowed s l id i = elim (Option-cases (s.retired id)) [
  | inr (x, gone) ↦ rw (gone, retire_node) (ground arith)
  | inl unretired ↦ elim (Option-cases (node s id)) [
    | inl missing ↦ rw (unretired, retire_node) (rw missing tt)
    | inr (e, found) ↦ ground (arith, retire_entry-Allowed s l id i e found unretired)
  ]
]
