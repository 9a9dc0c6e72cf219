-- ===== src/Ws/Frame.antt =====
-- The frames of proto/grpc_webnext.proto, as prost generates them, and WebSocket messages.
use grpc_webnext.Prelude.{ℕ, List, Option, Bytes}

pub data MetadataValue : Type 0 where
  ascii_value bin_value : Bytes → MetadataValue

pub record Metadatum : Type 0 where
  pub key : Bytes
  pub value : Option MetadataValue

pub record Subscribe : Type 0 where
  pub method : Bytes
  pub headers : List Metadatum
  pub timeout_millis : ℕ
  pub initial_payload : Bytes

pub record Trailer : Type 0 where
  pub status_code : ℕ
  pub status_message : Bytes
  pub trailers : List Metadatum

pub data Kind : Type 0 where
  subscribe : Subscribe → Kind
  header : List Metadatum → Kind
  message : Bytes → Kind
  half_close : Kind
  trailer : Trailer → Kind
  reset : ℕ → Bytes → Kind

-- `Frame { kind: Option<Kind> }`.
abbrev pub Frame : Type 0
Frame = Option Kind

-- tungstenite's `Message`, with the close code as its number.
pub data TungMessage : Type 0 where
  text : Bytes → TungMessage
  binary : Bytes → TungMessage
  close : Option (ℕ × Bytes) → TungMessage
  ping : TungMessage
  pong : TungMessage
