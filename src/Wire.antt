-- ===== src/Wire.antt =====
-- The byte formats of the server crate: src of rust/crates/grpc-webnext.
pub mod BigEndian
pub mod Grpc
pub mod Fetch
pub mod SizeLimit
