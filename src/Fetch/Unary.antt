-- ===== src/Fetch/Unary.antt =====
-- `unary_proto` of rust/crates/grpc-webnext/src/fetch.rs. The timer of the deadline is given by the
-- point where it fires.
pub mod Relay
pub mod Answers
use grpc_webnext.Prelude.{
  ℕ, zero, suc, ◌+◌, ◌-◌, List, [], ◌∷◌, ◌++◌, Option, none, some, Bool, true, false, not, ◌&&◌,
  ◌||◌, Bytes, codes, length, drop, is_empty, if◌then◌else◌,
}
use grpc_webnext.Text.Percent.{Outcome, ok, panic, ◌>>=◌}
use grpc_webnext.Wire.Fetch.{empty_message_block, encode_trailer_block}
use grpc_webnext.Client.Status.{deadline_exceeded, unavailable}
use grpc_webnext.Ws.Codec.{code_number}
use grpc_webnext.Ws.Frame.{Trailer}
use grpc_webnext.Backend.{
  BodyFrame, body_data, body_trailers, body_error, Reply, refused, response, PathAndQuery, Incoming,
}
use grpc_webnext.Metadata.{
  Http, parse_grpc_timeout, read_status, metadata_to_vec, merge_metadata_into_headers,
}
use grpc_webnext.Fetch.Response.{
  Response, Body, Ending, finished, broken, panicked, TrailerBytes, trailer_codec, text_response,
  fetch_status, put, ct_proto,
}
use grpc_webnext.Fetch.Request.{Got, got, answer, chunk_before, frame_upstream_request}
use grpc_webnext.Fetch.Upstream.{Upstream, upstream_headers}

-- When the timer of a call fires: never, before the reply, or after so many frames of its body.
pub data Expiry : Type 0 where
  in_time before_reply : Expiry
  after_frames : ℕ → Expiry

-- A call without a deadline has no timer.
pub expiry_of : Option ℕ → Expiry → Expiry
expiry_of none timer = in_time
expiry_of (some d) timer = timer

-- How many frames are read before the timer fires.
pub cutoff : Expiry → Option ℕ
cutoff in_time = none
cutoff before_reply = some 0
cutoff (after_frames n) = some n

pub fired : Option ℕ → Bool
fired (some zero) = true
fired cut = false

pub tick : Option ℕ → Option ℕ
tick none = none
tick (some zero) = some zero
tick (some (suc n)) = some n

module _ (http : Http) (trailers : TrailerBytes) where
  open http use {HeaderMap}

  -- `resp_headers.contains_key("grpc-status")`.
  unfoldable pub trailers_only : HeaderMap → Bool
  trailers_only headers = elim (http.get headers (codes "grpc-status")) [
    | none ↦ false
    | some v ↦ true
  ]

  -- `(status_code, status_message)` at the end of the body.
  pub final_status : Bool → HeaderMap → HeaderMap → Outcome (ℕ × Bytes)
  final_status timed_out trailer_headers resp_headers =
      if timed_out
      then ok (code_number deadline_exceeded, codes "deadline exceeded")
      else read_status http trailer_headers resp_headers

  pub trailing_headers : HeaderMap → HeaderMap → HeaderMap
  trailing_headers trailer_headers resp_headers =
      if is_empty (http.header_iter trailer_headers) && trailers_only resp_headers
      then resp_headers
      else trailer_headers

  -- The last chunk, or the panic of `read_status`.
  pub trailer_chunk : Outcome (ℕ × Bytes) → HeaderMap → Body
  trailer_chunk panic trailing = record { chunks = []; ending = panicked }
  trailer_chunk (ok (code, message)) trailing = record {
    chunks =
        encode_trailer_block (trailer_codec trailers) (record {
          status_code = code;
          status_message = message;
          trailers = metadata_to_vec http (http.from_headers trailing);
        })
        ∷ [];
    ending = finished;
  }

  -- What follows the loop.
  pub after_loop : HeaderMap → Bool → Bool → HeaderMap → Body
  after_loop resp_headers timed_out saw_message trailer_headers =
      let last =
        trailer_chunk (final_status timed_out trailer_headers resp_headers)
          (trailing_headers trailer_headers resp_headers) in
      if timed_out && saw_message
      then record { chunks = []; ending = finished }
      else if saw_message
      then last
      else chunk_before empty_message_block last

  -- The loop: `skip` bytes of flag are left to drop, and `cut` frames until the timer fires.
  pub relay_frames : HeaderMap → Option ℕ → List (BodyFrame HeaderMap) → ℕ → Bool → HeaderMap → Body
  relay_frames resp_headers cut [] skip saw_message trailer_headers =
      after_loop resp_headers (fired cut) saw_message trailer_headers
  relay_frames resp_headers cut (body_data bytes ∷ fs) skip saw_message trailer_headers =
      let kept = drop skip bytes in
      let left = skip - length bytes in
      let saw = saw_message || not (is_empty kept) in
      let more = relay_frames resp_headers (tick cut) fs left saw trailer_headers in
      if fired cut
      then after_loop resp_headers true saw_message trailer_headers
      else if is_empty kept
      then more
      else chunk_before kept more
  relay_frames resp_headers cut (body_trailers t ∷ fs) skip saw_message trailer_headers =
      let more = relay_frames resp_headers (tick cut) fs skip saw_message t in
      if fired cut then after_loop resp_headers true saw_message trailer_headers else more
  relay_frames resp_headers cut (body_error e ∷ fs) skip saw_message trailer_headers =
      if fired cut
      then after_loop resp_headers true saw_message trailer_headers
      else record { chunks = []; ending = broken (codes "upstream body: " ++ e) }

  pub proto_response : HeaderMap → Body → Response HeaderMap
  proto_response resp_headers body =
      let base = put http http.empty (codes "content-type") ct_proto in
      record {
        status = 200;
        headers =
            if trailers_only resp_headers
            then base
            else merge_metadata_into_headers http (http.from_headers resp_headers) base;
        body = body;
      }

  -- What is made of the backend's reply.
  pub answer_proto : Expiry → Reply HeaderMap → Response HeaderMap
  answer_proto before_reply reply =
      fetch_status http trailers deadline_exceeded (codes "deadline exceeded")
  answer_proto timer (refused e) = fetch_status http trailers unavailable (codes "upstream: " ++ e)
  answer_proto timer (response headers frames) =
      proto_response headers (relay_frames headers (cutoff timer) frames 1 false http.empty)

  module _ (backend : Upstream HeaderMap → Reply HeaderMap) where
    -- The call, once the body of the request is framed.
    pub call_proto :
        PathAndQuery → HeaderMap → Expiry → Got HeaderMap Body → Outcome (Response HeaderMap)
    call_proto path headers timer (answer r) = ok r
    call_proto path headers timer (got body) = do
      let deadline : Option ℕ = parse_grpc_timeout http headers
      sent ← upstream_headers http headers deadline
      let reply : Reply HeaderMap = backend (record { path = path; headers = sent; body = body })
      ok (answer_proto (expiry_of deadline timer) reply)

    pub unary_proto : ℕ → Expiry → Incoming HeaderMap → Outcome (Response HeaderMap)
    unary_proto max_message_bytes timer req = elim req.path_and_query [
      | none ↦ ok (text_response http 400 (codes "missing method path"))
      | some path ↦
          call_proto path req.headers timer (frame_upstream_request http req.body max_message_bytes)
    ]
