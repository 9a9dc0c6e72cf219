-- ===== src/Client/Tonic/Send.antt =====
-- A call of a generated stub (`send`, `to_wire_headers` and the conversion of a status in
-- rust/crates/grpc-webnext-client/src/tonic_service.rs). What the connection answers is given, and
-- whether the deadline passes first.
use grpc_webnext.Prelude.{
  ℕ, List, [], ◌∷◌, ◌++◌, Option, none, some, Bool, false, not, Bytes, codes, starts_with, retain,
  if◌then◌else◌,
}
use grpc_webnext.Text.Signed.{ℤ, pos}
use grpc_webnext.Backend.{BodyFrame}
use grpc_webnext.Metadata.{Http}
use grpc_webnext.Schema.{Built, built, not_built}
use grpc_webnext.Client.Status.{Code, deadline_exceeded, internal}
use grpc_webnext.Client.Metadata.{Base64, to_headers}
use grpc_webnext.Client.Terminal.{Status}
use grpc_webnext.Client.Channel.{Channel}
use grpc_webnext.Client.Call.{Response, Requested, Result, answered, rejected, unfinished, send_on}
use grpc_webnext.Client.Streaming.{Chunk}
use grpc_webnext.Client.Tonic.{Headers, Inner, request_chunks, grpc_timeout, append_all}
use grpc_webnext.Ws.Codec.{code_number}

-- What is used of tonic, of the http builder and of the polls of an h2ts response.
pub record Transport (http : Http) : Type 1 where
  pub headers : Headers http
  pub code_from : ℤ → Code
  pub Head : Type 0
  pub head : ℕ → List (Bytes × Bytes) → Built Head
  pub raw_headers : Response → List (Bytes × Bytes)
  pub polls : Response → List (Option Chunk)

-- A request of tonic: the path of its URI, its headers and its body.
pub record Outgoing (H : Type 0) : Type 0 where
  pub path : Bytes
  pub headers : H
  pub body : List (BodyFrame H)

module _ (http : Http) (base64 : Base64) (transport : Transport http) where
  open http use {HeaderMap, HeaderValue, MetadataMap}
  open transport use {Head}

  -- `tonic::Status`.
  pub record TonicStatus : Type 0 where
    pub code : Code
    pub message : Bytes
    pub metadata : MetadataMap

  plain_status : Code → Bytes → TonicStatus
  plain_status code message = record {
    code = code;
    message = message;
    metadata = http.new_metadata;
  }

  -- `From<crate::Status>`.
  from_status : Status → TonicStatus
  from_status status = record {
    code = transport.code_from (pos (code_number status.code));
    message = status.message;
    metadata =
        http.from_headers
          (append_all http transport.headers http.empty (to_headers base64 status.metadata));
  }

  pub data Wired : Type 0 where
    wired : List (Bytes × Bytes) → Wired
    not_ascii : TonicStatus → Wired

  wire_cons : Bytes → Option Bytes → Wired → Wired
  wire_cons name none rest = not_ascii (
      plain_status internal (
        codes "metadata value for `"
        ++ (name ++ codes "` is not valid ASCII; binary metadata must use a `-bin` key")))
  wire_cons name (some value) (wired headers) = wired ((name, value) ∷ headers)
  wire_cons name (some value) (not_ascii status) = not_ascii status

  wire_all : List (Bytes × HeaderValue) → Wired
  wire_all [] = wired []
  wire_all ((name, value) ∷ headers) = wire_cons name (http.to_str value) (wire_all headers)

  to_wire_headers : HeaderMap → Wired
  to_wire_headers headers = wire_all (http.header_iter headers)

  -- `Result<http::Response<ResponseBody>, tonic::Status>`, and a call out of fuel.
  pub data Opened : Type 0 where
    opened : Head → Inner → Opened
    failed : TonicStatus → Opened
    stuck : Opened

  -- The pseudo-headers of HTTP/2 are left out.
  response_of : Option ℕ → Response → Opened
  response_of deadline response =
      let kept = retain (λ h. not (starts_with h.0 (codes ":"))) (transport.raw_headers response) in
      elim (transport.head response.status kept) [
        | not_built e ↦ failed (plain_status internal (codes "malformed response headers: " ++ e))
        | built head ↦ opened head (record {
          body = transport.polls response;
          trailers = response.trailers;
          deadline = deadline;
          ended = false;
        })
      ]

  opened_with : Option ℕ → Result Response → Opened
  opened_with deadline (answered response) = response_of deadline response
  opened_with deadline (rejected status) = failed (from_status status)
  opened_with deadline unfinished = stuck

  -- `send`, behind the tunnel: `late` where the timer wins, and otherwise `left` are the polls that
  -- are left to it.
  pub send :
      Channel
      → ℕ
      → (Bytes → List (Bytes × Bytes) → List Bytes → Requested)
      → Bool
      → ℕ
      → Outgoing HeaderMap
      → Channel × Opened
  send ch conn exchange late left request = elim (to_wire_headers request.headers) [
    | not_ascii status ↦ (ch, failed status)
    | wired headers ↦
        let timeout = grpc_timeout http transport.headers request.headers in
        let (ch', result) =
          send_on ch conn (exchange request.path headers (request_chunks request.body)) in
        elim timeout [
          | none ↦ (ch', opened_with none result)
          | some d ↦
              if late
              then (ch, failed (plain_status deadline_exceeded (codes "deadline exceeded")))
              else (ch', opened_with (some left) result)
        ]
  ]
