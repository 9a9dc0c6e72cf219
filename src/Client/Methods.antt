-- ===== src/Client/Methods.antt =====
-- The four kinds of call of rust/crates/grpc-webnext-client/src/client.rs: `unary`, `client_streaming`,
-- `server_streaming` and `bidi_streaming`, and `request`. A connection is given by what it answers.
pub mod Tunnelled
use grpc_webnext.Prelude.{
  ℕ, List, [], ◌∷◌, Option, none, some, Bool, true, false, if◌then◌else◌, Bytes, map, flatten,
}
use grpc_webnext.Client.Status.{Code}
use grpc_webnext.Client.Deframer.{encode_message}
use grpc_webnext.Client.Metadata.{Base64}
use grpc_webnext.Client.Terminal.{Texts}
use grpc_webnext.Client.Channel.{Channel}
use grpc_webnext.Client.Call.{
  CallOptions, Requested, Response, Result, UnaryResponse, Whole, request_headers, send_on,
  single_response, open_stream,
}
use grpc_webnext.Client.Streaming.{Streaming}

-- `h2ts_client::RequestBody`: at once, or as a stream yields it.
pub data RequestBody : Type 0 where
  at_once : Bytes → RequestBody
  yielded : List Bytes → RequestBody

-- What `conn.request` answers for a path, headers and a body.
abbrev pub Exchange : Type 0
Exchange = Bytes → List (Bytes × Bytes) → RequestBody → Requested

pub message_body : Bytes → RequestBody
message_body request = at_once (encode_message request)

unfoldable pub stream_body : List Bytes → RequestBody
stream_body requests = yielded (map encode_message requests)

-- The bytes of a body on the wire.
unfoldable pub body_bytes : RequestBody → Bytes
body_bytes (at_once b) = b
body_bytes (yielded chunks) = flatten chunks

-- Whether the timer of a call won, which drops the request before its tunnel could fail it.
pub expired : Bool → Option ℕ → Bool
expired false timeout = false
expired true none = false
expired true (some timeout) = true

module _ (describe : Code → Bytes) (base64 : Base64) (texts : Texts) where
  pub request :
      Channel → ℕ → Exchange → Bytes → RequestBody → CallOptions → Channel × Result Response
  request ch conn exchange path body options =
      send_on ch conn (exchange path (request_headers describe base64 texts options) body)

  -- `single_response`: `late` where the deadline passes first, `whole` what is read of the body.
  pub call_once :
      Channel
      → ℕ
      → Exchange
      → Bytes
      → RequestBody
      → CallOptions
      → Bool
      → Whole
      → Channel × Result UnaryResponse
  unfolding request expired
  call_once ch conn exchange path body options late whole =
      let (ch', sent) = request ch conn exchange path body options in
      (
        if expired late options.timeout then ch else ch',
        single_response describe base64 texts options late sent whole,
      )

  -- `open_stream`: `left` are the reads that are left to the timer.
  unfoldable pub call_stream :
      Channel
      → ℕ
      → Exchange
      → Bytes
      → RequestBody
      → CallOptions
      → Bool
      → ℕ
      → Channel × Result Streaming
  unfolding request expired
  call_stream ch conn exchange path body options late left =
      let (ch', sent) = request ch conn exchange path body options in
      (
        if expired late options.timeout then ch else ch',
        open_stream describe base64 texts options late left sent,
      )

  unfoldable pub unary :
      Channel
      → ℕ
      → Exchange
      → Bytes
      → Bytes
      → CallOptions
      → Bool
      → Whole
      → Channel × Result UnaryResponse
  unfolding call_once message_body
  unary ch conn exchange path message options late whole =
      call_once ch conn exchange path (message_body message) options late whole

  pub client_streaming :
      Channel
      → ℕ
      → Exchange
      → Bytes
      → List Bytes
      → CallOptions
      → Bool
      → Whole
      → Channel × Result UnaryResponse
  unfolding call_once stream_body
  client_streaming ch conn exchange path messages options late whole =
      call_once ch conn exchange path (stream_body messages) options late whole

  server_streaming :
      Channel → ℕ → Exchange → Bytes → Bytes → CallOptions → Bool → ℕ → Channel × Result Streaming
  server_streaming ch conn exchange path message options late left =
      call_stream ch conn exchange path (message_body message) options late left

  bidi_streaming :
      Channel
      → ℕ
      → Exchange
      → Bytes
      → List Bytes
      → CallOptions
      → Bool
      → ℕ
      → Channel × Result Streaming
  bidi_streaming ch conn exchange path messages options late left =
      call_stream ch conn exchange path (stream_body messages) options late left
