-- ===== src/Transport/Frame/Unique.antt =====
-- Which frames `Envelope::decode` accepts.
use dal_service.Prelude.{
  ℕ, ◌+◌, ◌-◌, ◌%◌, ◌^◌, ◌≤◌, ◌<◌, ◌≡◌, refl, sym, ap, ◌∙◌, true, some, [], ◌∷◌, ◌++◌, arith,
  length, nat_eq,
}
use mathlib.Core.Path.{subst}
use mathlib.Core.List.{append_assoc}
use dal_service.Codec.{Bytes}
use dal_service.Types.{GroupId, meta, data_group, protocol_version}
use dal_service.Transport.LittleEndian.{le_bytes, from_le_bytes, drop, slice}
use dal_service.Transport.MsgType.{MsgType, as_u8, from_u8, max_payload, header_len}
use dal_service.Transport.Frame.{
  FrameResult, ok, err, ◌>>=◌, Envelope, tag_of, partition_of, frame_of, encode, decode,
  decode_body, byte_at, envelope_of, msg_type_of, group_of, payload_of, validate_payload_len,
}
use dal_service.Transport.Frame.RoundTrip.{max_payload-u32}
use dal_service.Transport.Frame.Slices.{
  is_octets, slice_then, length-slice, le_bytes-slice, slice_last, single,
}

>>=-eq-ok {μ ν} :
    {T : Type μ} {U : Type ν} (first : FrameResult T) (next : T → FrameResult U) {result : U}
    → (first >>= next) ≡ ok result
    → (t : T) × (first ≡ ok t) × (next t ≡ ok result)
>>=-eq-ok (ok t) next done = (t, refl, done)
>>=-eq-ok (err x) next done = ground arith

as_u8-from_u8 : (v : ℕ) (m : MsgType) → from_u8 v ≡ some m → as_u8 m ≡ v
unfolding as_u8 from_u8
as_u8-from_u8 v m h = ground arith

msg_type_of-eq-ok : (v : ℕ) (m : MsgType) → msg_type_of v ≡ ok m → as_u8 m ≡ v
unfolding msg_type_of
msg_type_of-eq-ok v m h = ground (arith, as_u8-from_u8 v m)

group_of-eq-ok : (tag p : ℕ) (g : GroupId) → group_of tag p ≡ ok g → tag_of g ≡ tag
unfolding group_of
group_of-eq-ok tag p g h = ground arith

partition_of-eq-ok :
    (tag p : ℕ) (g : GroupId) → group_of tag p ≡ ok g → (g ≡ meta → p ≡ 0) → p ≡ partition_of g
unfolding group_of
partition_of-eq-ok tag p meta h unused = unused refl
partition_of-eq-ok tag p (data_group q) h unused = ground arith

payload_of-eq-ok :
    (m : MsgType) (n : ℕ) (bytes content : Bytes)
    → payload_of m n bytes ≡ ok content
    → (n ≤ max_payload m)
      × (length bytes ≡ header_len + n)
      × (slice header_len (header_len + n) bytes ≡ content)
unfolding payload_of
payload_of-eq-ok m n bytes content h = ground arith

-- What an envelope says of the frame it was read from.
record IsRead (bytes : Bytes) (e : Envelope) : Type 0 where
  kind : as_u8 e.msg_type ≡ byte_at 20 bytes
  tag : tag_of e.group_id ≡ byte_at 21 bytes
  partition :
      (e.group_id ≡ meta → from_le_bytes (slice 22 24 bytes) ≡ 0)
      → from_le_bytes (slice 22 24 bytes) ≡ partition_of e.group_id
  fits : from_le_bytes (slice 32 36 bytes) ≤ max_payload e.msg_type
  size : length bytes ≡ header_len + from_le_bytes (slice 32 36 bytes)
  content : slice header_len (header_len + from_le_bytes (slice 32 36 bytes)) bytes ≡ e.payload
  cluster : from_le_bytes (slice 4 20 bytes) ≡ e.cluster_id
  request : from_le_bytes (slice 24 32 bytes) ≡ e.request_id

abbrev value_or : FrameResult Envelope → Envelope → Envelope
value_or (ok x) y = x
value_or (err x) y = y

envelope_of-IsRead :
    (bytes : Bytes) (m : MsgType) (g : GroupId) (content : Bytes)
    → msg_type_of (byte_at 20 bytes) ≡ ok m
    → group_of (byte_at 21 bytes) (from_le_bytes (slice 22 24 bytes)) ≡ ok g
    → payload_of m (from_le_bytes (slice 32 36 bytes)) bytes ≡ ok content
    → IsRead bytes (envelope_of bytes m g content)
envelope_of-IsRead bytes m g content kind_read group_read content_read =
    let (fits, size, content_is) = payload_of-eq-ok m _ bytes content content_read in
    record {
      kind = msg_type_of-eq-ok _ m kind_read;
      tag = group_of-eq-ok _ _ g group_read;
      partition = partition_of-eq-ok _ _ g group_read;
      fits = fits;
      size = size;
      content = content_is;
      cluster = refl;
      request = refl;
    }

decode_body-IsRead : (bytes : Bytes) (e : Envelope) → decode_body bytes ≡ ok e → IsRead bytes e
unfolding decode_body
decode_body-IsRead bytes e decoded =
    let (m, kind_read, rest) = >>=-eq-ok (msg_type_of (byte_at 20 bytes)) _ decoded in
    let (g, group_read, more) =
      >>=-eq-ok (group_of (byte_at 21 bytes) (from_le_bytes (slice 22 24 bytes))) _ rest in
    let (content, content_read, done) =
      >>=-eq-ok (payload_of m (from_le_bytes (slice 32 36 bytes)) bytes) _ more in
    subst (IsRead bytes) (ap (λ r. value_or r e) done)
      (envelope_of-IsRead bytes m g content kind_read group_read content_read)

decode-eq-ok :
    (bytes : Bytes) (e : Envelope)
    → decode bytes ≡ ok e
    → (header_len ≤ length bytes)
      × (from_le_bytes (slice 0 4 bytes) ≡ protocol_version)
      × (decode_body bytes ≡ ok e)
unfolding decode
decode-eq-ok bytes e decoded = ground arith

-- The bytes of a frame are its slices.
frame_slices :
    (bytes : Bytes)
    → slice 0 4 bytes
        ++ (slice 4 20 bytes
            ++ (slice 20 21 bytes
                ++ (slice 21 22 bytes
                    ++ (slice 22 24 bytes
                        ++ (slice 24 32 bytes ++ (slice 32 36 bytes ++ drop 36 bytes))))))
      ≡ bytes
unfolding drop
frame_slices bytes =
    rw
      (
        slice_then bytes 32 36 (omega arith),
        slice_then bytes 24 32 (omega arith),
        slice_then bytes 22 24 (omega arith),
        slice_then bytes 21 22 (omega arith),
        slice_then bytes 20 21 (omega arith),
        slice_then bytes 4 20 (omega arith),
        slice_then bytes 0 4 (omega arith),
      )
      refl

module _ (bytes : Bytes) (e : Envelope) (octets : is_octets bytes ≡ true)
    (version : from_le_bytes (slice 0 4 bytes) ≡ protocol_version)
    (unused : e.group_id ≡ meta → from_le_bytes (slice 22 24 bytes) ≡ 0)
    (is_read : IsRead bytes e) where
  -- A field that was read from a slice is written as that slice.
  field_slice :
      (from to x : ℕ)
      → from ≤ to
      → to ≤ header_len
      → from_le_bytes (slice from to bytes) ≡ x
      → le_bytes (to - from) x ≡ slice from to bytes
  field_slice from to x order below is_x =
      ap (le_bytes (to - from)) (sym is_x)
      ∙ le_bytes-slice bytes from to order (omega (arith, is_read.size)) octets

  byte_slice : (i x : ℕ) → i < header_len → x ≡ byte_at i bytes → x ∷ [] ≡ slice i (i + 1) bytes
  byte_slice i x below is_x =
      ap (λ b. b ∷ []) is_x
      ∙ single (slice i (i + 1) bytes)
          (length-slice bytes i (i + 1) (omega arith) (omega (arith, is_read.size)) ∙ omega arith)

  payload_length : length e.payload ≡ from_le_bytes (slice 32 36 bytes)
  payload_length =
      ap length (sym is_read.content)
      ∙ length-slice bytes 36 (36 + from_le_bytes (slice 32 36 bytes)) (omega arith)
          (omega (arith, is_read.size))
      ∙ omega arith

  length_field : from_le_bytes (slice 32 36 bytes) ≡ length e.payload % 2 ^ 32
  length_field = omega (arith, payload_length, is_read.fits, max_payload-u32 e.msg_type)

  payload_rest : e.payload ≡ drop 36 bytes
  payload_rest =
      sym is_read.content ∙ ap (λ n. slice 36 n bytes) (sym is_read.size) ∙ slice_last bytes 36

  frame_of-IsRead : frame_of e ≡ bytes
  unfolding frame_of
  frame_of-IsRead =
      rw
        (
          field_slice 0 4 protocol_version (omega arith) (omega arith) version,
          field_slice 4 20 e.cluster_id (omega arith) (omega arith) is_read.cluster,
          byte_slice 20 (as_u8 e.msg_type) (omega arith) is_read.kind,
          byte_slice 21 (tag_of e.group_id) (omega arith) is_read.tag,
          field_slice 22 24 (partition_of e.group_id) (omega arith) (omega arith)
              (is_read.partition unused),
          field_slice 24 32 e.request_id (omega arith) (omega arith) is_read.request,
          field_slice 32 36 (length e.payload % 2 ^ 32) (omega arith) (omega arith) length_field,
          payload_rest,
        )
        (simp append_assoc (frame_slices bytes))

-- Of octets, `decode` accepts only the frame that `encode` makes of the envelope, where a frame of
-- the meta group has partition 0.
pub encode-decode :
    (bytes : Bytes) (e : Envelope)
    → is_octets bytes ≡ true
    → (e.group_id ≡ meta → from_le_bytes (slice 22 24 bytes) ≡ 0)
    → decode bytes ≡ ok e
    → encode e ≡ ok bytes
unfolding encode validate_payload_len
encode-decode bytes e octets unused decoded =
    let (long, version, body) = decode-eq-ok bytes e decoded in
    let is_read = decode_body-IsRead bytes e body in
    ground (
      arith,
      frame_of-IsRead bytes e octets version unused is_read,
      payload_length bytes e octets version unused is_read,
      is_read.fits,
    )
