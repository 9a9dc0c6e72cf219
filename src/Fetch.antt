-- ===== src/Fetch.antt =====
-- rust/crates/grpc-webnext/src/fetch.rs: the HTTP surface of the server.
pub mod Response
pub mod Request
pub mod Upstream
pub mod Unary
pub mod Json
pub mod Upgrade
pub mod Handle
