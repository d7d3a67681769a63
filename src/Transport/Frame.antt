-- ===== src/Transport/Frame.antt =====
-- The envelope of a message and its frame, src/transport/codec.rs: `Envelope::encode` and
-- `Envelope::decode`. Their profiling is left out.
pub mod RoundTrip
pub mod Sizes
pub mod Slices
pub mod Unique
use dal_service.Prelude.{
  ℕ, ◌+◌, ◌-◌, ◌^◌, ◌%◌, Bool, not, true, false, none, some, [], ◌∷◌, ◌++◌, ltb, length, ◌==◌,
  nat_eq, if◌then◌else◌,
}
use dal_service.Codec.{Bytes}
use dal_service.Types.{GroupId, meta, data_group, protocol_version}
use dal_service.Transport.LittleEndian.{le_bytes, from_le_bytes, slice}
use dal_service.Transport.MsgType.{MsgType, as_u8, from_u8, max_payload, header_len}

pub data FrameError : Type 0 where
  -- The bytes needed and the bytes got.
  truncated : ℕ → ℕ → FrameError
  unsupported_version bad_msg_type bad_group_id : ℕ → FrameError
  -- The limit and the bytes got.
  oversized : MsgType → ℕ → ℕ → FrameError
  trailing_bytes : ℕ → FrameError

pub data FrameResult {μ} (T : Type μ) : Type μ where
  ok : T → FrameResult T
  err : FrameError → FrameResult T

infixl 5 ◌>>=◌
abbrev pub ◌>>=◌ {μ ν} :
    {T : Type μ} {U : Type ν} → FrameResult T → (T → FrameResult U) → FrameResult U
ok t >>= next = next t
err x >>= next = err x

pub record Envelope : Type 0 where
  pub cluster_id : ℕ
  pub msg_type : MsgType
  pub group_id : GroupId
  pub request_id : ℕ
  pub payload : Bytes

unfoldable pub validate_payload_len : MsgType → ℕ → FrameResult Bool
validate_payload_len msg_type len =
    if ltb (max_payload msg_type) len
    then err (oversized msg_type (max_payload msg_type) len)
    else ok true

-- The tag and the partition of a group.
abbrev pub tag_of : GroupId → ℕ
tag_of meta = 0
tag_of (data_group p) = 1

abbrev pub partition_of : GroupId → ℕ
partition_of meta = 0
partition_of (data_group p) = p

-- The buffer that `encode` fills.
unfoldable pub frame_of : Envelope → Bytes
frame_of e =
    le_bytes 4 protocol_version
    ++ le_bytes 16 e.cluster_id
    ++ (as_u8 e.msg_type ∷ [])
    ++ (tag_of e.group_id ∷ [])
    ++ le_bytes 2 (partition_of e.group_id)
    ++ le_bytes 8 e.request_id
    ++ le_bytes 4 (length e.payload % 2 ^ 32)
    ++ e.payload

unfoldable pub encode : Envelope → FrameResult Bytes
encode e = validate_payload_len e.msg_type (length e.payload) >>= λ _. ok (frame_of e)

-- The byte at an index below the length.
abbrev pub byte_at : ℕ → Bytes → ℕ
byte_at i bytes = from_le_bytes (slice i (i + 1) bytes)

unfoldable pub msg_type_of : ℕ → FrameResult MsgType
msg_type_of byte = elim (from_u8 byte) [ none ↦ err (bad_msg_type byte) | some m ↦ ok m ]

unfoldable pub group_of : ℕ → ℕ → FrameResult GroupId
group_of tag partition =
    if tag == 0
    then ok meta
    else if tag == 1
    then ok (data_group partition)
    else err (bad_group_id tag)

-- The payload of a frame whose header is read.
unfoldable pub payload_of : MsgType → ℕ → Bytes → FrameResult Bytes
payload_of msg_type payload_len bytes =
    if ltb (max_payload msg_type) payload_len
    then err (oversized msg_type (max_payload msg_type) payload_len)
    else if ltb (length bytes) (header_len + payload_len)
    then err (truncated (header_len + payload_len) (length bytes))
    else if ltb (header_len + payload_len) (length bytes)
    then err (trailing_bytes (length bytes - (header_len + payload_len)))
    else ok (slice header_len (header_len + payload_len) bytes)

-- The fields that are read where the header is accepted.
abbrev pub envelope_of : Bytes → MsgType → GroupId → Bytes → Envelope
envelope_of bytes kind group content = record {
  cluster_id = from_le_bytes (slice 4 20 bytes);
  msg_type = kind;
  group_id = group;
  request_id = from_le_bytes (slice 24 32 bytes);
  payload = content;
}

-- What is read after the version.
unfoldable pub decode_body : Bytes → FrameResult Envelope
decode_body bytes = msg_type_of (byte_at 20 bytes) >>= λ kind.
    group_of (byte_at 21 bytes) (from_le_bytes (slice 22 24 bytes)) >>= λ group.
    payload_of kind (from_le_bytes (slice 32 36 bytes)) bytes >>= λ content.
    ok (envelope_of bytes kind group content)

unfoldable pub decode : Bytes → FrameResult Envelope
decode bytes =
    if ltb (length bytes) header_len
    then err (truncated header_len (length bytes))
    else if not (from_le_bytes (slice 0 4 bytes) == protocol_version)
    then err (unsupported_version (from_le_bytes (slice 0 4 bytes)))
    else decode_body bytes
