-- ===== src/Backend.antt =====
-- What the server code sees of a call of rust/crates/grpc-webnext/src/backend.rs: HTTP bodies as the
-- lists of their frames, and the reply of the gRPC service or of the upstream.
use grpc_webnext.Prelude.{List, Option, Bytes}

-- `frame.is_data()`, `frame.is_trailers()`, or an error of the body, by its text.
pub data BodyFrame (H : Type 0) : Type 0 where
  body_data : Bytes → BodyFrame H
  body_trailers : H → BodyFrame H
  body_error : Bytes → BodyFrame H

-- `rt.backend.call(request).await`: an error's text, or the headers and the frames of the body.
pub data Reply (H : Type 0) : Type 0 where
  refused : Bytes → Reply H
  response : H → List (BodyFrame H) → Reply H

-- `http::uri::PathAndQuery`.
pub record PathAndQuery : Type 0 where
  pub path : Bytes
  pub query : Option Bytes

-- What a request carries, in the order in which the handlers read it.
pub record Incoming (H : Type 0) : Type 0 where
  pub method : Bytes
  pub path_and_query : Option PathAndQuery
  pub headers : H
  pub body : List (BodyFrame H)
