-- ===== src/Transport/Frame/RoundTrip.antt =====
-- What `Envelope::decode` reads of an encoded frame.
use dal_service.Prelude.{◌+◌, ◌%◌, ◌^◌, ◌<◌, ◌≤◌, ◌≡◌, refl, ap, ◌∙◌, arith, length}
use dal_service.Types.{GroupId, meta, data_group, protocol_version}
use dal_service.Transport.LittleEndian.{
  le_bytes, from_le_bytes, from_le_bytes-le_bytes, take, drop, slice, take-length,
}
use dal_service.Transport.MsgType.{
  MsgType, as_u8, max_payload, header_len, from_u8-as_u8, max_payload-max_frame_bytes,
}
use dal_service.Transport.Frame.{
  ok, ◌>>=◌, Envelope, tag_of, partition_of, frame_of, encode, decode, decode_body, byte_at,
  msg_type_of, group_of, payload_of, validate_payload_len,
}

-- The fields are of their widths in Rust.
pub record IsEnvelope (e : Envelope) : Type 0 where
  pub is_u128 : e.cluster_id < 256 ^ 16
  pub is_u16 : partition_of e.group_id < 256 ^ 2
  pub is_u64 : e.request_id < 256 ^ 8

pub length-frame_of : (e : Envelope) → length (frame_of e) ≡ header_len + length e.payload
unfolding frame_of le_bytes
length-frame_of e = omega arith

module _ (e : Envelope) where
  cluster_slice : slice 4 20 (frame_of e) ≡ le_bytes 16 e.cluster_id
  unfolding frame_of le_bytes slice take drop
  cluster_slice = refl

  version_read : from_le_bytes (slice 0 4 (frame_of e)) ≡ protocol_version
  unfolding frame_of le_bytes slice take drop from_le_bytes
  version_read = refl

  partition_slice : slice 22 24 (frame_of e) ≡ le_bytes 2 (partition_of e.group_id)
  unfolding frame_of le_bytes slice take drop
  partition_slice = refl

  request_slice : slice 24 32 (frame_of e) ≡ le_bytes 8 e.request_id
  unfolding frame_of le_bytes slice take drop
  request_slice = refl

  payload_len_field : slice 32 36 (frame_of e) ≡ le_bytes 4 (length e.payload % 2 ^ 32)
  unfolding frame_of le_bytes slice take drop
  payload_len_field = refl

  payload_slice : slice header_len (header_len + length e.payload) (frame_of e) ≡ e.payload
  unfolding frame_of le_bytes slice take drop
  payload_slice = ap (λ n. take n e.payload) (omega arith) ∙ take-length e.payload

  kind_byte : byte_at 20 (frame_of e) ≡ as_u8 e.msg_type
  unfolding frame_of le_bytes slice take drop from_le_bytes
  kind_byte = omega arith

  tag_byte : byte_at 21 (frame_of e) ≡ tag_of e.group_id
  unfolding frame_of le_bytes slice take drop from_le_bytes
  tag_byte = omega arith

msg_type_of-as_u8 : (m : MsgType) → msg_type_of (as_u8 m) ≡ ok m
unfolding msg_type_of
msg_type_of-as_u8 m = ground (arith, from_u8-as_u8 m)

group_of-tag_of : (g : GroupId) → group_of (tag_of g) (partition_of g) ≡ ok g
unfolding group_of
group_of-tag_of meta = refl
group_of-tag_of (data_group p) = refl

pub max_payload-u32 : (m : MsgType) → max_payload m < 2 ^ 32
max_payload-u32 m = ground (arith, max_payload-max_frame_bytes m)

module _ (e : Envelope) (is_envelope : IsEnvelope e)
    (fits : length e.payload ≤ max_payload e.msg_type) where
  length_read : from_le_bytes (slice 32 36 (frame_of e)) ≡ length e.payload
  length_read =
      ap from_le_bytes (payload_len_field e)
      ∙ from_le_bytes-le_bytes 4 (length e.payload % 2 ^ 32) (omega arith)
      ∙ omega (arith, max_payload-u32 e.msg_type)

  payload_of-frame_of : payload_of e.msg_type (length e.payload) (frame_of e) ≡ ok e.payload
  unfolding payload_of
  payload_of-frame_of = ground (arith, length-frame_of e, payload_slice e)

  decode_body-frame_of : decode_body (frame_of e) ≡ ok e
  unfolding decode_body
  decode_body-frame_of =
      rw
        (
          kind_byte e,
          msg_type_of-as_u8,
          tag_byte e,
          partition_slice e,
          from_le_bytes-le_bytes 2 (partition_of e.group_id) is_envelope.is_u16,
          group_of-tag_of,
          length_read,
          payload_of-frame_of,
          cluster_slice e,
          request_slice e,
          from_le_bytes-le_bytes 16 e.cluster_id is_envelope.is_u128,
          from_le_bytes-le_bytes 8 e.request_id is_envelope.is_u64,
        )
        refl

  decode-frame_of : decode (frame_of e) ≡ ok e
  unfolding decode
  decode-frame_of = ground (arith, version_read e, length-frame_of e, decode_body-frame_of)

  -- `decode` gives back an envelope whose payload is within the limit of its kind, which `encode`
  -- accepts.
  pub decode-encode : (encode e >>= decode) ≡ ok e
  unfolding encode validate_payload_len
  decode-encode = ground (arith, decode-frame_of)
