-- ===== src/Types.antt =====
-- The shared types of src/types.rs: those of the data groups here, those of the meta group below.
pub mod Meta
use dal_service.Prelude.{
  ℕ, ◌+◌, ◌*◌, ◌≡◌, refl, ◌↔◌, Bool, true, false, Option, none, some, arith, Eq, ◌==◌, nat_eq,
}
use dal_service.Codec.{Bytes}

abbrev pub NodeId : Type 0
NodeId = ℕ

-- 1 MiB.
abbrev pub max_value_bytes : ℕ
max_value_bytes = 1024 * 1024

abbrev pub max_cluster_nodes : ℕ
max_cluster_nodes = 8

abbrev pub max_endpoint_bytes : ℕ
max_endpoint_bytes = 256

abbrev pub protocol_version : ℕ
protocol_version = 7

pub data GroupId : Type 0 where
  meta : GroupId
  data_group : ℕ → GroupId

abbrev pub group_beq : GroupId → GroupId → Bool
group_beq meta meta = true
group_beq meta (data_group q) = false
group_beq (data_group p) meta = false
group_beq (data_group p) (data_group q) = p == q

pub group_beq_iff : (a b : GroupId) → (group_beq a b ≡ true) ↔ (a ≡ b)
group_beq_iff meta meta = ground arith
group_beq_iff meta (data_group q) = ground arith
group_beq_iff (data_group p) meta = ground arith
group_beq_iff (data_group p) (data_group q) = ground arith

instance abbrev pub group_eq : Eq GroupId
group_eq = record { beq = group_beq; beq_iff = group_beq_iff }

pub record LogId : Type 0 where
  pub term : ℕ
  pub index : ℕ

pub data IfVersion : Type 0 where
  number : ℕ → IfVersion
  absent : IfVersion

pub data DataOp : Type 0 where
  put : Bytes → Bytes → Option IfVersion → DataOp
  delete : Bytes → Option IfVersion → DataOp

unfoldable pub op_key : DataOp → Bytes
op_key (put key value if_version) = key
op_key (delete key if_version) = key

pub record DataRequest : Type 0 where
  pub recovery_epoch : ℕ
  pub client_id : ℕ
  pub sequence : ℕ
  pub op : DataOp

pub data KeyPresence : Type 0 where
  absent : KeyPresence
  present : ℕ → KeyPresence

pub data MutationResult : Type 0 where
  applied : ℕ → MutationResult
  condition_failed : KeyPresence → MutationResult
