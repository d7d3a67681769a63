-- ===== src/Keyspace.antt =====
-- Keys of a state column family (src/keyspace.rs): a tag byte, then the record's own key. Only the
-- data group's keys are used as bytes; the meta group's keys are the constructors of `Meta.Store`.
pub mod BigEndian
use dal_service.Prelude.{ℕ, ◌≡◌, Bool, false, List, [], ◌∷◌, arith, ◌==◌, list_eq, nat_eq}
use dal_service.Codec.{Bytes}
use BigEndian.{be_bytes}

abbrev pub tag_internal : ℕ
tag_internal = 0x00

abbrev pub tag_user : ℕ
tag_user = 0x01

abbrev pub tag_seq : ℕ
tag_seq = 0x02

abbrev pub last_applied_key : Bytes
last_applied_key = tag_internal ∷ b'L' ∷ []

abbrev pub raft_applied_key : Bytes
raft_applied_key = tag_internal ∷ b'R' ∷ []

abbrev pub recovery_epoch_key : Bytes
recovery_epoch_key = tag_internal ∷ b'E' ∷ []

abbrev pub user_key : Bytes → Bytes
user_key key = tag_user ∷ key

-- `client_id.to_be_bytes()` of a `u128`.
abbrev pub seq_key : ℕ → Bytes
seq_key client_id = tag_seq ∷ be_bytes 16 client_id
