-- ===== src/Text.antt =====
-- What the code uses of Rust's `str`, as functions on the UTF-8 bytes, and the percent codec of
-- rust/crates/grpc-webnext/src/metadata.rs and httprule.rs.
pub mod Str
pub mod Utf8
pub mod Percent
pub mod Decimal
pub mod Signed
