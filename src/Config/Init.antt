-- ===== src/Config/Init.antt =====
-- The cluster-creation input of src/config.rs, and its validation.
pub mod Accepted
use dal_service.Prelude.{
  ℕ, ◌+◌, ◌*◌, ◌^◌, ◌-◌, ◌%◌, ◌≤◌, ◌<◌, ◌≡◌, Bool, true, false, not, ◌&&◌, ◌||◌, Option, none, some,
  List, [], ◌∷◌, arith, ltb, ◌==◌, nat_eq, length, all, contains, if◌then◌else◌,
}
use dal_service.Prelude.Sets.{collect_set}
use dal_service.Codec.{Error, Result, ok, err, ◌>>=◌}
use dal_service.Config.{min_replication, min_meta_voters, validate_routing_shape}
use dal_service.Types.{NodeId, max_cluster_nodes}
use dal_service.Types.Meta.{HashSpec}

pub record InitConfig : Type 0 where
  pub p : ℕ
  pub r : ℕ
  pub bootstrap_nodes : List NodeId
  pub meta_voters : List NodeId
  pub hash_spec : HashSpec

-- `u16::MAX`.
abbrev pub u16_max : ℕ
u16_max = 2 ^ 16 - 1

unfoldable pub parse_partition_count : ℕ → Result ℕ
parse_partition_count n =
    if n == 0
    then err (Error.config "P must be > 0")
    else if ltb u16_max n
    then err (Error.config "P must be <= 65535 (u16 bound)")
    else ok (n % 2 ^ 16)

-- The tests of `validate` on the bootstrap nodes.
unfoldable pub validate_bootstrap : InitConfig → List NodeId → Result (Unit {0})
validate_bootstrap config bootstrap =
    if not (length bootstrap == length config.bootstrap_nodes)
    then err (Error.config "bootstrap_nodes must be distinct")
    else if ltb max_cluster_nodes (length bootstrap)
    then err (Error.config "bootstrap node count must be <= 8")
    else if contains bootstrap 0
    then err (Error.config "node ids must be non-zero")
    else if ltb (length bootstrap) config.r
    then err (Error.config "need at least R distinct bootstrap nodes")
    else ok tt

-- The tests of `validate` on the meta voters.
unfoldable pub validate_meta : InitConfig → List NodeId → List NodeId → Result (Unit {0})
validate_meta config bootstrap meta =
    if not (length meta == length config.meta_voters)
    then err (Error.config "meta_voters must be distinct")
    else if ltb (length meta) min_meta_voters
    then err (Error.config "meta voter set must have >= 3 distinct nodes")
    else if length meta % 2 == 0
    then err (Error.config "meta voter set must be odd")
    else if not (all (contains bootstrap) meta)
    then err (Error.config "every meta voter must be a bootstrap node")
    else ok tt

unfoldable pub validate : InitConfig → Result (Unit {0})
validate config =
    if config.p == 0
    then err (Error.config "P must be > 0")
    else if ltb config.r min_replication
    then err (Error.config "R must be >= 3")
    else do
      _ ← validate_routing_shape config.p config.r
      _ ← validate_bootstrap config (collect_set config.bootstrap_nodes)
      validate_meta config (collect_set config.bootstrap_nodes) (collect_set config.meta_voters)
