-- ===== src/Client.antt =====
-- The client crate: rust/crates/grpc-webnext-client/src.
pub mod Status
pub mod Deframer
pub mod Metadata
pub mod Terminal
pub mod Watch
pub mod Channel
pub mod Call
pub mod Methods
pub mod Typed
pub mod Streaming
pub mod Tonic
pub mod Url
