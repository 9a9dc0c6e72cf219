-- ===== src/Ws.antt =====
-- rust/crates/grpc-webnext/src/ws.rs and json_frame.rs: one gRPC stream over one WebSocket.
pub mod Frame
pub mod Json
pub mod Codec
pub mod Stream
pub mod Serve
pub mod Writer
