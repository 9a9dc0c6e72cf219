-- ===== src/Transcoding.antt =====
-- What the handlers of rust/crates/grpc-webnext/src/fetch.rs use of a `Transcoder`
-- (rust/crates/grpc-webnext/src/transcode.rs).
use grpc_webnext.Prelude.{Bool, Option, Bytes}
use grpc_webnext.Text.Percent.{Outcome}
use grpc_webnext.Client.Status.{Code}
use grpc_webnext.HttpRule.Router.{WsBinding}

-- A result, or an error by its text.
pub data Attempt (A : Type 0) : Type 0 where
  done : A → Attempt A
  fault : Bytes → Attempt A

-- `HttpCall`.
pub record HttpCall : Type 0 where
  pub grpc_method : Bytes
  pub message : Bytes
  pub response_body : Bytes

pub record Transcoding : Type 0 where
  pub transcode_http_request :
      Bytes → Bytes → Option Bytes → Bytes → Outcome (Attempt (Option HttpCall))
  pub match_ws : Bytes → Option Bytes → Outcome (Option WsBinding)
  pub has_method : Bytes → Bool
  pub request_json_to_proto : Bytes → Bytes → Outcome (Attempt Bytes)
  pub response_proto_to_json_body : Bytes → Bytes → Bytes → Outcome (Attempt Bytes)

-- `rt.schema.transcoder_any().await`.
pub data Snapshot : Type 0 where
  current : Transcoding → Snapshot
  absent : Code → Bytes → Snapshot
