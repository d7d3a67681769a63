-- ===== src/Config/Init/Accepted.antt =====
-- The meta group accepts a validated cluster.
use dal_service.Prelude.{
  ℕ, ◌%◌, ◌≤◌, ◌≡◌, refl, true, false, none, some, List, [], ◌∷◌, arith, ◌==◌, nat_eq, length, all,
  contains,
}
use dal_service.Prelude.Sets.{collect_set, collect_set-IsStrict}
use dal_service.Prelude.Counts.{subset-length}
use dal_service.Codec.{Result, ok, err, ◌>>=◌}
use dal_service.Config.{min_replication, min_meta_voters, validate_routing_shape}
use dal_service.Config.Init.{InitConfig, validate_bootstrap, validate_meta, validate}
use dal_service.Types.{NodeId, LogId, meta, max_cluster_nodes, protocol_version}
use dal_service.Types.Meta.{ClusterConfig, Placement, voter_set}
use dal_service.Meta.Store.{Identity, MetaStore, applied, put_cluster, put_placement}
use dal_service.Meta.Cluster.{init_shape, first_init, cluster_init}

-- The cluster record of an init.
abbrev pub cluster_config : InitConfig → ℕ → ClusterConfig
cluster_config config cluster_id = record {
  cluster_id = cluster_id;
  protocol_version = protocol_version;
  p = config.p;
  r = config.r;
  hash_spec = config.hash_spec;
}

abbrev pub founding : InitConfig → LogId → Placement
founding config log_id = record {
  voters = voter_set config.meta_voters;
  voters_log_id = log_id;
  move = none;
}

-- What the tests of `validate` leave.
abbrev Validated : InitConfig → Type 0
Validated config =
    ((config.p == 0) ≡ false)
    × (min_replication ≤ config.r)
    × (validate_routing_shape config.p config.r ≡ ok tt)
    × (length (collect_set config.meta_voters) ≡ length config.meta_voters)
    × (min_meta_voters ≤ length (collect_set config.meta_voters))
    × ((length (collect_set config.meta_voters) % 2 == 0) ≡ false)
    × (length (collect_set config.meta_voters) ≤ max_cluster_nodes)

bootstrap_size :
    (config : InitConfig) (nodes : List NodeId)
    → validate_bootstrap config nodes ≡ ok tt
    → length nodes ≤ max_cluster_nodes
unfolding validate_bootstrap
bootstrap_size config nodes h = ground arith

meta_tests :
    (config : InitConfig) (nodes voters : List NodeId)
    → validate_meta config nodes voters ≡ ok tt
    → (length voters ≡ length config.meta_voters)
      × (min_meta_voters ≤ length voters)
      × ((length voters % 2 == 0) ≡ false)
      × (all (contains nodes) voters ≡ true)
unfolding validate_meta
meta_tests config nodes voters h = ground arith

-- Three tests that pass.
chained :
    (a b c : Result (Unit {0}))
    → (a >>= λ _. b >>= λ _. c) ≡ ok tt
    → (a ≡ ok tt) × (b ≡ ok tt) × (c ≡ ok tt)
chained (ok _) (ok _) c h = (refl, refl, h)
chained (ok _) (err x) c h = absurd (ground arith)
chained (err x) b c h = absurd (ground arith)

validate-Validated : (config : InitConfig) → validate config ≡ ok tt → Validated config
unfolding validate
validate-Validated config h =
    let nodes = collect_set config.bootstrap_nodes in
    let voters = collect_set config.meta_voters in
    let some_p : (config.p == 0) ≡ false = ground arith in
    let enough : min_replication ≤ config.r = ground arith in
    let (shape, bootstrap, metas) =
      chained (validate_routing_shape config.p config.r) (validate_bootstrap config nodes)
        (validate_meta config nodes voters) (ground arith) in
    let (distinct, quorum, odd, sub) = meta_tests config nodes voters metas in
    let few = bootstrap_size config nodes bootstrap in
    let fits =
      subset-length voters nodes (collect_set-IsStrict config.meta_voters)
        (collect_set-IsStrict config.bootstrap_nodes) sub in
    (some_p, enough, shape, distinct, quorum, odd, omega (arith, few, fits))

-- A validated cluster, first on a storage that is bound to its id: `cluster_init` applies it, and
-- writes its record and the meta group's placement with the meta voters.
pub validate-cluster_init :
    (s : MetaStore) (identity : Identity) (config : InitConfig) (log_id : LogId)
    → s.cluster ≡ none
    → s.identity ≡ some identity
    → validate config ≡ ok tt
    → cluster_init s (cluster_config config identity.cluster_id) config.meta_voters log_id ≡ (
      applied,
      put_cluster (cluster_config config identity.cluster_id)
          ∷ put_placement meta (founding config log_id)
          ∷ [],
    )
unfolding cluster_init first_init init_shape
validate-cluster_init s identity config log_id fresh bound h =
    let (some_p, enough, shape, distinct, quorum, odd, fits) = validate-Validated config h in
    ground arith
