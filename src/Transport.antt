-- ===== src/Transport.antt =====
-- The frames of the transport, src/transport/codec.rs.
pub mod LittleEndian
pub mod MsgType
pub mod Frame
