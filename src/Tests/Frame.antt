-- ===== src/Tests/Frame.antt =====
-- The theorems about frames, at a client operation for a data group.
use dal_service.Prelude.{◌≤◌, ◌≡◌, refl, [], ◌∷◌, ◌++◌, arith, length}
use dal_service.Codec.{Bytes}
use dal_service.Types.{data_group}
use dal_service.Transport.LittleEndian.{le_bytes, from_le_bytes, take, drop, slice}
use dal_service.Transport.MsgType.{
  MsgType, as_u8, from_u8, max_payload, header_len, max_frame_bytes, lane_of,
}
use dal_service.Transport.Frame.{
  ok, err, ◌>>=◌, Envelope, truncated, trailing_bytes, frame_of, encode, decode, decode_body,
  msg_type_of, group_of, payload_of, validate_payload_len,
}
use dal_service.Transport.Frame.RoundTrip.{IsEnvelope, decode-encode}
use dal_service.Transport.Frame.Sizes.{encode-max_frame_bytes}
use dal_service.Transport.Frame.Unique.{encode-decode}

abbrev sent : Envelope
sent = record {
  cluster_id = 70000;
  msg_type = MsgType.client_op;
  group_id = data_group 300;
  request_id = 42;
  payload = 9 ∷ 8 ∷ [];
}

abbrev frame : Bytes
frame =
    7 ∷ 0 ∷ 0 ∷ 0 ∷ 112 ∷ 17 ∷ 1 ∷ 0 ∷ 0 ∷ 0 ∷ 0 ∷ 0 ∷ 0 ∷ 0 ∷ 0 ∷ 0 ∷ 0 ∷ 0 ∷ 0 ∷ 0 ∷ 0 ∷ 1 ∷ 44
    ∷ 1 ∷ 42 ∷ 0 ∷ 0 ∷ 0 ∷ 0 ∷ 0 ∷ 0 ∷ 0 ∷ 2 ∷ 0 ∷ 0 ∷ 0 ∷ 9 ∷ 8 ∷ []

sent-IsEnvelope : IsEnvelope sent
sent-IsEnvelope = record { is_u128 = omega arith; is_u16 = omega arith; is_u64 = omega arith }

sent_fits : length sent.payload ≤ max_payload sent.msg_type
unfolding max_payload
sent_fits = omega arith

encodes : encode sent ≡ ok frame
unfolding encode validate_payload_len max_payload frame_of le_bytes as_u8
encodes = refl

decodes : decode frame ≡ ok sent
unfolding decode decode_body msg_type_of from_u8 group_of payload_of max_payload slice take drop
    from_le_bytes
decodes = refl

refuses_trailing : decode (frame ++ 5 ∷ []) ≡ err (trailing_bytes 1)
unfolding decode decode_body msg_type_of from_u8 group_of payload_of max_payload slice take drop
    from_le_bytes
refuses_trailing = refl

refuses_short : decode (7 ∷ []) ≡ err (truncated header_len 1)
unfolding decode
refuses_short = refl

decode-encode_example : (encode sent >>= decode) ≡ ok sent
decode-encode_example = decode-encode sent sent-IsEnvelope sent_fits

encode-max_frame_bytes_example : length frame ≤ max_frame_bytes (lane_of sent.msg_type)
encode-max_frame_bytes_example = encode-max_frame_bytes sent encodes

encode-decode_example : encode sent ≡ ok frame
encode-decode_example = encode-decode frame sent refl (λ h. ground arith) decodes
