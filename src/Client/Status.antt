-- ===== src/Client/Status.antt =====
-- rust/crates/grpc-webnext-client/src/status.rs: the canonical codes.
use grpc_webnext.Prelude.{Bytes}

pub data Code : Type 0 where
  ok cancelled unknown invalid_argument deadline_exceeded not_found : Code
  already_exists permission_denied resource_exhausted failed_precondition : Code
  aborted out_of_range unimplemented internal unavailable data_loss unauthenticated : Code

-- `Status`, less its metadata. A message is the text that the code builds.
pub record Status : Type 0 where
  pub code : Code
  pub message : Bytes
