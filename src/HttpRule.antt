-- ===== src/HttpRule.antt =====
-- rust/crates/grpc-webnext/src/httprule.rs: `google.api.http` routes.
pub mod Template
pub mod Match
pub mod Router
pub mod Message
pub mod Build
