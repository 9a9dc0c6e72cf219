-- ===== src/Fetch/Json.antt =====
-- `json_fetch` and `json_upstream` of rust/crates/grpc-webnext/src/fetch.rs. The transcoder, the
-- schema's snapshot and the collection of a body are parameters.
pub mod Answers
use grpc_webnext.Prelude.{
  ℕ, List, [], ◌∷◌, ◌++◌, Option, none, some, Bool, true, false, not, ◌&&◌, ◌==◌, Bytes, codes,
  is_empty, if◌then◌else◌,
}
use grpc_webnext.Text.Percent.{Outcome, ok, panic, ◌>>=◌}
use grpc_webnext.Wire.Grpc.{frame, deframe_all}
use grpc_webnext.Client.Status.{
  Code, unavailable, deadline_exceeded, internal, invalid_argument, unimplemented,
}
use grpc_webnext.Backend.{BodyFrame, Reply, refused, response, PathAndQuery, Incoming}
use grpc_webnext.Metadata.{Http, parse_grpc_timeout, read_status}
use grpc_webnext.Fetch.Response.{
  Response, TrailerBytes, boxed_full, webnext_error, json_fetch_response, text_response, ct_json,
  plain_json,
}
use grpc_webnext.Fetch.Request.{Got, got, answer, collect_bounded}
use grpc_webnext.Fetch.Upstream.{Upstream, upstream_headers}
use grpc_webnext.Transcoding.{
  Attempt, done, fault, Transcoding, HttpCall, Snapshot, current, absent,
}

-- `body.collect().await`: the data and the trailers, or an error's text.
abbrev pub Collect : Type 0 → Type 0
Collect H = List (BodyFrame H) → Attempt (Bytes × Option H)

-- `resp_ct`.
json_content_type : Bool → Bytes
json_content_type sdk_json = if sdk_json then ct_json else plain_json

pub is_some : Option ℕ → Bool
is_some none = false
is_some (some d) = true

-- `deframe_all(&body_bytes).into_iter().next().unwrap_or_default()`.
pub first_message : List Bytes → Bytes
first_message [] = []
first_message (m ∷ ms) = m

module _ (http : Http) (trailers : TrailerBytes) where
  open http use {HeaderMap}

  -- `collected.trailers().cloned().unwrap_or_default()`.
  pub trailers_or_default : Option HeaderMap → HeaderMap
  trailers_or_default none = http.empty
  trailers_or_default (some t) = t

  -- The response with its JSON body, from a message that the backend sent.
  pub json_body_response :
      Bytes → Attempt Bytes → Bytes → HeaderMap → HeaderMap → Response HeaderMap
  json_body_response resp_ct (fault e) status_message initial trailing =
      webnext_error http trailers resp_ct internal (codes "bad json response: " ++ e)
  json_body_response resp_ct (done j) status_message initial trailing =
      json_fetch_response http resp_ct j 0 status_message initial trailing

  module _ (tc : Transcoding) (path resp_ct response_body : Bytes) where
    -- The collected reply as a response.
    pub render_json : HeaderMap → Bytes → HeaderMap → Outcome (Response HeaderMap)
    render_json resp_headers body_bytes trailer_headers = do
      let out_message : Bytes = first_message (deframe_all body_bytes)
      (status_code, status_message) ← read_status http trailer_headers resp_headers
      if status_code == 0 && not (is_empty out_message)
          then tc.response_proto_to_json_body path out_message response_body >>= (λ json.
            ok (json_body_response resp_ct json status_message resp_headers trailer_headers))
          else ok (
              json_fetch_response http resp_ct [] status_code status_message resp_headers
                trailer_headers)

    pub answer_json : Collect HeaderMap → Reply HeaderMap → Outcome (Response HeaderMap)
    answer_json collect (refused e) =
        ok (webnext_error http trailers resp_ct unavailable (codes "upstream: " ++ e))
    answer_json collect (response headers frames) = elim (collect frames) [
      | fault e ↦
          ok (webnext_error http trailers resp_ct unavailable (codes "upstream body: " ++ e))
      | done (body_bytes, t) ↦ render_json headers body_bytes (trailers_or_default t)
    ]

  module _ (collect : Collect HeaderMap) (backend : Upstream HeaderMap → Reply HeaderMap) where
    -- `late`: a deadline, where there is one, passes before the reply is collected.
    pub json_upstream :
        Transcoding
        → PathAndQuery
        → Bytes
        → HeaderMap
        → Bytes
        → Option ℕ
        → Bool
        → Bytes
        → Outcome (Response HeaderMap)
    json_upstream tc grpc_path message req_headers resp_ct deadline late response_body = do
      sent ← upstream_headers http req_headers deadline
      let reply : Reply HeaderMap =
          backend (record { path = grpc_path; headers = sent; body = boxed_full (frame message) })
      if is_some deadline && late
          then ok
              (webnext_error http trailers resp_ct deadline_exceeded (codes "deadline exceeded"))
          else answer_json tc grpc_path.path resp_ct response_body collect reply

    -- The call of a REST binding, whose method is to be a path.
    rest_call :
        (Bytes → Option PathAndQuery)
        → Transcoding
        → HttpCall
        → HeaderMap
        → Option ℕ
        → Bool
        → Outcome (Response HeaderMap)
    rest_call parse_path tc call headers deadline late = elim (parse_path call.grpc_method) [
      | none ↦
          ok (webnext_error http trailers plain_json internal (codes "bad transcoded method path"))
      | some grpc_path ↦
          json_upstream tc grpc_path call.message headers plain_json deadline late
            call.response_body
    ]

    -- The main method path.
    main_path :
        Transcoding
        → Bool
        → Bool
        → PathAndQuery
        → Bytes
        → HeaderMap
        → Bytes
        → Option ℕ
        → Bool
        → Outcome (Response HeaderMap)
    main_path tc sdk_json allow_implicit_codec pq body_bytes headers resp_ct deadline late =
        if not sdk_json && not allow_implicit_codec
        then ok (
            text_response http 415 (
              codes
                "this gRPC method path requires content-type application/grpc-webnext+json (or set allow_implicit_codec to accept plain JSON here)"))
        else if not (tc.has_method pq.path)
        then ok (
            webnext_error http trailers resp_ct unimplemented (codes "no such method: " ++ pq.path))
        else tc.request_json_to_proto pq.path body_bytes >>= λ encoded. elim encoded [
          | fault e ↦ ok (
              webnext_error http trailers resp_ct invalid_argument
                (codes "bad json request: " ++ e))
          | done proto ↦ json_upstream tc pq proto headers resp_ct deadline late []
        ]

    -- What follows the collection of the body.
    dispatch_json :
        (Bytes → Option PathAndQuery)
        → Transcoding
        → Bool
        → Bool
        → Incoming HeaderMap
        → PathAndQuery
        → Bytes
        → Bool
        → Outcome (Response HeaderMap)
    dispatch_json parse_path tc sdk_json allow_implicit_codec req pq body_bytes late = do
      let deadline : Option ℕ = parse_grpc_timeout http req.headers
      call ← tc.transcode_http_request req.method pq.path pq.query body_bytes
      elim call [
        | fault e ↦ ok (
            webnext_error http trailers plain_json invalid_argument
              (codes "bad REST request: " ++ e))
        | done none ↦
            main_path tc sdk_json allow_implicit_codec pq body_bytes req.headers
              (json_content_type sdk_json) deadline late
        | done (some c) ↦ rest_call parse_path tc c req.headers deadline late
      ]

    json_fetch :
        (Bytes → Option PathAndQuery)
        → Snapshot
        → ℕ
        → Bool
        → Bool
        → Incoming HeaderMap
        → Bool
        → Outcome (Response HeaderMap)
    json_fetch parse_path (absent code message) max allow_implicit_codec sdk_json req late =
        ok (webnext_error http trailers ct_json code message)
    json_fetch parse_path (current tc) max allow_implicit_codec sdk_json req late =
        elim req.path_and_query [
          | none ↦ ok (
              webnext_error http trailers (json_content_type sdk_json) internal
                (codes "missing request path"))
          | some pq ↦ elim (collect_bounded http trailers req.body max) [
            | answer r ↦ ok r
            | got body_bytes ↦
                dispatch_json parse_path tc sdk_json allow_implicit_codec req pq body_bytes late
          ]
        ]
