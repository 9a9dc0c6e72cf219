-- ===== src/Client/Call.antt =====
-- A call of the client (rust/crates/grpc-webnext-client/src/client.rs): `send`, `request`,
-- `single_response`, `open_stream` and what they send. Whether a deadline passes first is given.
pub mod Answers
use grpc_webnext.Prelude.{
  ℕ, ◌/◌, max, List, [], ◌∷◌, ◌++◌, Option, none, some, Bool, true, false, not, ◌&&◌, ◌==◌, Bytes,
  codes, is_empty, if◌then◌else◌,
}
use grpc_webnext.Text.Decimal.{decimal}
use grpc_webnext.Client.Status.{Code, deadline_exceeded, internal, unavailable}
use grpc_webnext.Client.Deframer
use grpc_webnext.Client.Deframer.{Pushed, messages, error, no_fuel, push}
use grpc_webnext.Client.Metadata
use grpc_webnext.Client.Metadata.{Metadata, Base64, to_headers}
use grpc_webnext.Client.Terminal.{Status, status_new, is_ok, Texts, from_headers}
use grpc_webnext.Client.Channel.{Channel, conn_closed, forget}
use grpc_webnext.Client.Streaming.{Chunk, Streaming, trailers_status}

abbrev pub content_type : Bytes
content_type = codes "application/grpc+proto"

-- `CallOptions`. A timeout is in nanoseconds.
pub record CallOptions : Type 0 where
  pub metadata : Metadata
  pub timeout : Option ℕ
  pub max_message_bytes : Option ℕ

-- `Result<A, Status>`, and a call whose deframer runs out of fuel.
pub data Result (A : Type 0) : Type 0 where
  answered : A → Result A
  rejected : Status → Result A
  unfinished : Result A

infixl 5 ◌>>=◌
abbrev pub ◌>>=◌ : {A B : Type 0} → Result A → (A → Result B) → Result B
answered a >>= f = f a
rejected st >>= f = rejected st
unfinished >>= f = unfinished

-- `h2ts_client::Response`: the body is what it yields.
pub record Response : Type 0 where
  pub status : ℕ
  pub headers : List (Bytes × Bytes)
  pub body : List Chunk
  pub trailers : Option (List (Bytes × Bytes))

pub record UnaryResponse : Type 0 where
  pub message : Bytes
  pub headers : Metadata
  pub trailers : Metadata

pub options_millis : ℕ → ℕ
options_millis timeout = max (timeout / 1000000) 1

unfoldable pub timeout_header : Option ℕ → List (Bytes × Bytes)
timeout_header none = []
timeout_header (some timeout) =
    (codes "grpc-timeout", decimal (options_millis timeout) ++ codes "m") ∷ []

-- `conn.request(..).await`: a response, or an error by its text.
pub data Requested : Type 0 where
  responded : Response → Requested
  not_sent : Bytes → Requested

-- `send`, behind the tunnel: a call that finds its tunnel dead drops it.
unfoldable pub send_on : Channel → ℕ → Requested → Channel × Result Response
send_on ch conn (responded response) = (ch, answered response)
send_on ch conn (not_sent e) = (
  if conn_closed ch conn then forget ch conn else ch,
  rejected (status_new unavailable (codes "request failed: " ++ e)),
)

-- `response.bytes().await`: all of the body, or an error by its text.
pub data Whole : Type 0 where
  bytes : Bytes → Whole
  broken_off : Bytes → Whole

-- `deadline(timeout, work)`, where there is a timeout: `late` where the timer wins.
pub race : {A : Type 0} → Option ℕ → Bool → Result A → Result A
race none late work = work
race (some timeout) late work =
    if late then rejected (status_new deadline_exceeded (codes "deadline exceeded")) else work

-- `messages.into_iter().next()`.
pub first_or : List Bytes → Result Bytes
first_or [] = rejected (status_new internal (codes "response carried no message"))
first_or (m ∷ ms) = answered m

module _ (describe : Code → Bytes) (base64 : Base64) (texts : Texts) where
  unfoldable pub request_headers : CallOptions → List (Bytes × Bytes)
  request_headers options =
      (codes "content-type", content_type)
      ∷ (codes "te", codes "trailers")
      ∷ (timeout_header options.timeout ++ to_headers base64 options.metadata)

  -- A status in the headers ends the call, also one of success.
  unfoldable pub trailers_only : Status → Status
  trailers_only st =
      if is_ok st
      then status_new internal (codes "trailers-only response reported OK with no message")
      else st

  -- `request`, behind `send`.
  pub check_response : Response → Result Response
  check_response response =
      if not (response.status == 200)
      then rejected (status_new unavailable (codes "HTTP " ++ decimal response.status))
      else elim (from_headers base64 texts response.headers) [
        | some st ↦ rejected (trailers_only st)
        | none ↦ answered response
      ]

  -- All messages of a body that does not stop within one.
  pub whole_messages : Pushed → Result (List Bytes)
  whole_messages (messages ms d) =
      if is_empty d.buffer
      then answered ms
      else rejected (status_new internal (codes "response body ended mid-message (truncated)"))
  whole_messages (error code d) = rejected (status_new code (describe code))
  whole_messages no_fuel = unfinished

  -- The status comes before the message.
  pub with_status : Response → Status → List Bytes → Result UnaryResponse
  with_status response st ms =
      if is_ok st
      then first_or ms >>= (λ m. answered (record {
        message = m;
        headers = Metadata.from_headers base64 response.headers;
        trailers = st.metadata;
      }))
      else rejected st

  -- `single_response_inner`, behind `request`.
  pub read_response : CallOptions → Response → Whole → Result UnaryResponse
  read_response options response (broken_off e) =
      rejected (status_new unavailable (codes "response body failed: " ++ e))
  read_response options response (bytes b) =
      whole_messages (push (Deframer.new options.max_message_bytes) b) >>= λ ms.
      with_status response (trailers_status describe base64 texts response.trailers) ms

  -- `single_response`, once a request was sent.
  pub single_response : CallOptions → Bool → Result Response → Whole → Result UnaryResponse
  single_response options late sent whole =
      race options.timeout late
        (sent >>= (λ r. check_response r) >>= λ response. read_response options response whole)

  -- `Streaming::new`.
  unfoldable pub streaming_new : Response → CallOptions → Option ℕ → Streaming
  streaming_new response options timer = record {
    headers = Metadata.from_headers base64 response.headers;
    body = response.body;
    trailers = response.trailers;
    deframer = Deframer.new options.max_message_bytes;
    ready = [];
    ended = false;
    failed = none;
    deadline = timer;
  }

  -- The timer of a stream is the timer of the call, where it has a timeout.
  unfoldable pub timer_of : Option ℕ → ℕ → Option ℕ
  timer_of none reads = none
  timer_of (some timeout) reads = some reads

  -- `open_stream`, once a request was sent: `late` where the timer wins, and otherwise the reads that
  -- are left to it.
  unfoldable pub open_stream : CallOptions → Bool → ℕ → Result Response → Result Streaming
  open_stream options late reads sent = race options.timeout late (
      sent >>= (λ r. check_response r) >>= λ response.
      answered (streaming_new response options (timer_of options.timeout reads)))
