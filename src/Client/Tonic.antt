-- ===== src/Client/Tonic.antt =====
-- The transport of generated stubs: rust/crates/grpc-webnext-client/src/tonic_service.rs. The timer of
-- the deadline is given by the number of polls before it fires, and a body by what its polls yield.
pub mod Send
pub mod Body
pub mod Timeout
use grpc_webnext.Prelude.{
  ℕ, zero, suc, ◌+◌, ◌*◌, List, [], ◌∷◌, ◌++◌, Option, none, some, Bool, true, false, Bytes, codes,
  length, take, drop, starts_with, str_eq, if◌then◌else◌,
}
use grpc_webnext.Text.Decimal.{parse_uint}
use grpc_webnext.Text.Percent.{is_boundary}
use grpc_webnext.Text.Signed.{ℤ, pos}
use grpc_webnext.Backend.{BodyFrame, body_data, body_trailers, body_error}
use grpc_webnext.Metadata.{Http, u64_max, checked_secs}
use grpc_webnext.Client.Status.{Code, Status, deadline_exceeded, internal, unavailable}
use grpc_webnext.Client.Metadata.{Base64, to_headers}
use grpc_webnext.Client.Streaming.{Chunk, chunk, broken, fired, tick}

-- `request_chunks`: the data of the request's body, up to an error.
unfoldable pub request_chunks : {H : Type 0} → List (BodyFrame H) → List Bytes
request_chunks [] = []
request_chunks (body_data b ∷ frames) = b ∷ request_chunks frames
request_chunks (body_trailers t ∷ frames) = request_chunks frames
request_chunks (body_error e ∷ frames) = []

-- The unit of a timeout.
pub unit_timeout : Bytes → ℕ → Option ℕ
unit_timeout unit' value =
    if str_eq unit' (codes "n")
    then some value
    else if str_eq unit' (codes "u")
    then some (value * 1000)
    else if str_eq unit' (codes "m")
    then some (value * 1000000)
    else if str_eq unit' (codes "S")
    then some (value * 1000000000)
    else if str_eq unit' (codes "M")
    then checked_secs value 60
    else if str_eq unit' (codes "H")
    then checked_secs value 3600
    else none

pub parse_parts : Bytes → Bytes → Option ℕ
parse_parts digits unit' = elim (parse_uint u64_max digits) [
  | none ↦ none
  | some value ↦ unit_timeout unit' value
]

-- `grpc_timeout` on the text of the header: the split must be at a character.
pub split_timeout : Bytes → Option ℕ
split_timeout [] = none
split_timeout (c ∷ cs) =
    let unit' = drop (length cs) (c ∷ cs) in
    if is_boundary unit' then parse_parts (take (length cs) (c ∷ cs)) unit' else none

-- What a poll of the body gives: nothing yet, or a frame, or the end.
pub data Polled (H : Type 0) : Type 0 where
  pending : Polled H
  frame_data : Bytes → Polled H
  frame_trailers : H → Polled H
  frame_error : Status → Polled H
  end_of_stream : Polled H

-- `Inner`; a `none` of the body is a poll that finds nothing.
pub record Inner : Type 0 where
  pub body : List (Option Chunk)
  pub trailers : Option (List (Bytes × Bytes))
  pub deadline : Option ℕ
  pub ended : Bool

-- `HeaderName::try_from` and `HeaderValue::try_from`.
pub record Headers (http : Http) : Type 0 where
  pub name_from : Bytes → Option Bytes
  pub value_from : Bytes → Option http.HeaderValue

module _ (http : Http) (try : Headers http) where
  open http use {HeaderMap, HeaderValue}

  pub grpc_timeout : HeaderMap → Option ℕ
  grpc_timeout headers = elim (http.get headers (codes "grpc-timeout")) [
    | none ↦ none
    | some value ↦ elim (http.to_str value) [ none ↦ none | some raw ↦ split_timeout raw ]
  ]

  -- A header that the crate refuses is left out.
  pub append_header : HeaderMap → Option Bytes → Option HeaderValue → HeaderMap
  append_header map none value = map
  append_header map (some name) none = map
  append_header map (some name) (some value) = http.append map name value

  pub append_all : HeaderMap → List (Bytes × Bytes) → HeaderMap
  unfolding append_header
  append_all map [] = map
  append_all map ((name, value) ∷ headers) =
      append_all (append_header map (try.name_from name) (try.value_from value)) headers

  unfoldable pub to_header_map : List (Bytes × Bytes) → HeaderMap
  unfolding append_all
  to_header_map headers = append_all http.empty headers

  -- The end of the body: the trailers are the last frame.
  pub last_frame : Option (List (Bytes × Bytes)) → Polled HeaderMap
  last_frame none = end_of_stream
  last_frame (some trailers) = frame_trailers (to_header_map trailers)

  -- The body's own poll.
  pub poll_body : List (Option Chunk) → Inner → Polled HeaderMap × Inner
  unfolding last_frame
  poll_body [] inner = (last_frame inner.trailers, record inner { ended = true })
  poll_body (none ∷ rest) inner = (pending, record inner { body = rest })
  poll_body (some (chunk c) ∷ rest) inner = (frame_data c, record inner { body = rest })
  poll_body (some (broken e) ∷ rest) inner = (
    frame_error (record { code = unavailable; message = codes "stream failed: " ++ e }),
    record inner { body = rest; ended = true },
  )

  -- `poll_frame`: the end, then the timer, then the body.
  pub poll_by : Bool → Bool → List (Option Chunk) → Inner → Polled HeaderMap × Inner
  unfolding poll_body
  poll_by ended late body inner =
      if ended
      then (end_of_stream, inner)
      else if late
      then (
        frame_error (record { code = deadline_exceeded; message = codes "deadline exceeded" }),
        record inner { ended = true },
      )
      else poll_body body (record inner { deadline = tick inner.deadline })

  pub poll_frame : Inner → Polled HeaderMap × Inner
  unfolding poll_by
  poll_frame inner = poll_by inner.ended (fired inner.deadline) inner.body inner

  -- The polls of a reader, in turn.
  pub poll_all : ℕ → Inner → List (Polled HeaderMap) × Inner
  unfolding poll_frame
  poll_all zero inner = ([], inner)
  poll_all (suc n) inner =
      let (p, inner') = poll_frame inner in
      let (ps, inner'') = poll_all n inner' in (p ∷ ps, inner'')
