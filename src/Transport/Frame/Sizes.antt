-- ===== src/Transport/Frame/Sizes.antt =====
-- The lengths of the frames of src/transport/codec.rs.
use dal_service.Prelude.{◌≤◌, ◌≡◌, arith, length}
use dal_service.Codec.{Bytes}
use dal_service.Transport.MsgType.{
  max_payload, max_payload-max_frame_bytes, max_frame_bytes, lane_of,
}
use dal_service.Transport.Frame.{ok, Envelope, frame_of, encode, validate_payload_len}
use dal_service.Transport.Frame.RoundTrip.{length-frame_of}

-- `encode` succeeds only on a payload within the limit of its kind, with the buffer it filled.
pub encode-eq-ok :
    (e : Envelope) {frame : Bytes}
    → encode e ≡ ok frame
    → (length e.payload ≤ max_payload e.msg_type) × (frame_of e ≡ frame)
unfolding encode validate_payload_len
encode-eq-ok e encoded = ground arith

-- A frame that `encode` returns is no longer than the lane of its kind admits.
pub encode-max_frame_bytes :
    (e : Envelope) {frame : Bytes}
    → encode e ≡ ok frame
    → length frame ≤ max_frame_bytes (lane_of e.msg_type)
encode-max_frame_bytes e encoded =
    ground
      (arith, encode-eq-ok e encoded, length-frame_of e, max_payload-max_frame_bytes e.msg_type)
