-- ===== src/Meta/Cluster.antt =====
-- `cluster_init` of src/meta/state_machine.rs.
use dal_service.Prelude.{
  ◌%◌, Bool, not, ◌&&◌, ◌||◌, Option, none, some, List, [], ◌∷◌, ltb, ◌==◌, nat_eq, list_eq,
  option_eq, length, if◌then◌else◌,
}
use dal_service.Codec.{ok, err}
use dal_service.Config.{min_replication, min_meta_voters, validate_routing_shape}
use dal_service.Types.{NodeId, LogId, meta, max_cluster_nodes, protocol_version}
use dal_service.Types.Meta.{ClusterConfig, Placement, voter_set}
use dal_service.Meta.Store.{
  Identity, MetaStore, Outcome, applied, put_cluster, put_placement, reject, invalid, unchanged,
  cluster_conflict,
}

-- The derived equality of `ClusterConfig`; there is one hash algorithm.
abbrev pub config_beq : ClusterConfig → ClusterConfig → Bool
config_beq a b =
    a.cluster_id == b.cluster_id
    && a.protocol_version == b.protocol_version
    && a.p == b.p
    && a.r == b.r
    && a.hash_spec.seed == b.hash_spec.seed

abbrev pub placed_voters : Option Placement → Option (List NodeId)
placed_voters none = none
placed_voters (some p) = some (voter_set p.voters)

-- A second init: the same record again, or a fork.
unfoldable pub reinit : MetaStore → ClusterConfig → List NodeId → ClusterConfig → Outcome
reinit s config meta_voters existing =
    if config_beq existing config
      && placed_voters (s.placement meta) == some (voter_set meta_voters)
    then unchanged
    else reject cluster_conflict

-- The tests of a first init, from the shape on.
unfoldable pub init_shape : ClusterConfig → List NodeId → LogId → Outcome
init_shape config meta_voters log_id =
    if ltb config.r min_replication
    then invalid "R below minimum"
    else if config.p == 0
    then invalid "P must be non-zero"
    else elim (validate_routing_shape config.p config.r) [
      | err e ↦ invalid "routing shape"
      | ok _ ↦
          let mv = voter_set meta_voters in
          if not (length mv == length meta_voters)
          then invalid "duplicate meta voter"
          else if ltb (length mv) min_meta_voters || length mv % 2 == 0
          then invalid "meta voters must be an odd set of >= 3"
          else if ltb max_cluster_nodes (length mv)
          then invalid "meta voter set exceeds the cluster node limit"
          else (
            applied,
            put_cluster config
                ∷ put_placement meta (record { voters = mv; voters_log_id = log_id; move = none })
                ∷ [],
          )
    ]

unfoldable pub first_init : Option Identity → ClusterConfig → List NodeId → LogId → Outcome
first_init none config meta_voters log_id = invalid "cluster init requires a bound storage identity"
first_init (some identity) config meta_voters log_id =
    if not (config.cluster_id == identity.cluster_id)
    then invalid "cluster_id differs from the storage identity"
    else if not (config.protocol_version == protocol_version)
    then invalid "unsupported protocol version"
    else init_shape config meta_voters log_id

unfoldable pub cluster_init : MetaStore → ClusterConfig → List NodeId → LogId → Outcome
cluster_init s config meta_voters log_id = elim s.cluster [
  | some existing ↦ reinit s config meta_voters existing
  | none ↦ first_init s.identity config meta_voters log_id
]
