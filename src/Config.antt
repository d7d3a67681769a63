-- ===== src/Config.antt =====
-- The bound on the routing snapshot of a cluster's shape (src/config.rs).
pub mod Init
use dal_service.Prelude.{ℕ, ◌+◌, ◌*◌, ◌^◌, ltb, if◌then◌else◌}
use dal_service.Codec.{Error, Result, ok, err, ◌>>=◌}
use dal_service.Types.{max_cluster_nodes, max_endpoint_bytes}

abbrev pub min_replication : ℕ
min_replication = 3

abbrev pub min_meta_voters : ℕ
min_meta_voters = 3

abbrev pub max_routing_payload_bytes : ℕ
max_routing_payload_bytes = 4 * 1024 * 1024

abbrev pub routing_fixed_headroom : ℕ
routing_fixed_headroom = 64 * 1024

abbrev pub directory_entry_budget : ℕ
directory_entry_budget = 64 + 2 * max_endpoint_bytes

abbrev pub placement_fixed_budget : ℕ
placement_fixed_budget = 64

-- A `usize` sum or product, which must fit 64 bits.
abbrev pub checked : ℕ → Prim.Native.String.String → Result ℕ
checked n message = if ltb n (2 ^ 64) then ok n else err (Error.config message)

unfoldable pub validate_routing_shape : ℕ → ℕ → Result (Unit {0})
validate_routing_shape p r =
    if ltb max_cluster_nodes r then err (Error.config "R must be <= 8") else do
      directory ←
          checked (max_cluster_nodes * directory_entry_budget) "routing directory size overflow"
      placement ←
          checked (p * (placement_fixed_budget + 2 * r * 8)) "routing placement size overflow"
      with_directory ← checked (routing_fixed_headroom + directory) "routing snapshot size overflow"
      estimate ← checked (with_directory + placement) "routing snapshot size overflow"
      if ltb max_routing_payload_bytes estimate
          then err (Error.config "routing snapshot larger than the payload bound")
          else ok tt
