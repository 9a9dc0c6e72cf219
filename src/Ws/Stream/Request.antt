-- ===== src/Ws/Stream/Request.antt =====
-- The request that `run_stream` of rust/crates/grpc-webnext/src/ws.rs makes of a stream: its body, a
-- gRPC frame for each message, and its headers.
use grpc_webnext.Prelude.{
  ℕ, ◌+◌, ◌*◌, ◌/◌, ◌<◌, ◌^◌, ◌≡◌, List, [], ◌∷◌, ◌++◌, Option, none, some, Bytes, codes, length,
  flatten, map, All, refl, ap, ◌∙◌, arith,
}
use grpc_webnext.Wire.Grpc.{new, frame, pump}
use grpc_webnext.Wire.Grpc.Chunks.{pump-frames}
use grpc_webnext.Metadata.{deadline_grace, grpc_timeout_from_millis, format_timeout, parse_timeout}
use grpc_webnext.Metadata.Timeout.{parse_timeout-format_timeout}

-- `unwrap_or_default()` of a message that was built or transcoded.
abbrev or_empty : Option Bytes → Bytes
or_empty none = []
or_empty (some b) = b

-- How a payload becomes a message: an annotation builds it from the URL and the payload, JSON is
-- transcoded, and proto passes through.
pub data Encoding : Type 0 where
  annotation : (Bytes → Option Bytes) → Encoding
  json : (Bytes → Option Bytes) → Encoding
  proto : Encoding

unfoldable pub to_proto : Encoding → Bytes → Bytes
to_proto (annotation build_message) payload = or_empty (build_message payload)
to_proto (json request_json_to_proto) payload = or_empty (request_json_to_proto payload)
to_proto proto payload = payload

-- The frames of the request body, for the payloads in the order of the channel.
request_body : Encoding → List Bytes → List Bytes
request_body encoding payloads = map (λ p. frame (to_proto encoding p)) payloads

timeout_header : Option ℕ → List (Bytes × Bytes)
timeout_header none = []
timeout_header (some d) = (codes "grpc-timeout", format_timeout (d + deadline_grace)) ∷ []

-- The headers, in the order in which the builder gets them.
pub request_headers : List (Bytes × Bytes) → Option ℕ → List (Bytes × Bytes)
request_headers headers timeout =
    headers
    ++ ((codes "content-type", codes "application/grpc")
        ∷ (codes "te", codes "trailers")
        ∷ timeout_header timeout)

map-map-frame :
    (e : Encoding) (ps : List Bytes) → request_body e ps ≡ map frame (map (to_proto e) ps)
unfolding request_body
map-map-frame e [] = refl
map-map-frame e (p ∷ ps) = ap (λ r. frame (to_proto e p) ∷ r) (map-map-frame e ps)

-- If every message of a stream is shorter than 2^32 bytes, then the backend's deframer finds exactly
-- these messages, in order, in the body of the request, and nothing is left over.
request_body-pump :
    (encoding : Encoding) (payloads : List Bytes)
    → All (λ m. length m < 2 ^ 32) (map (to_proto encoding) payloads)
    → pump (request_body encoding payloads) new [] ≡ (map (to_proto encoding) payloads, new)
request_body-pump encoding payloads h =
    pump-frames (map (to_proto encoding) payloads) (request_body encoding payloads) h
      (ap flatten (map-map-frame encoding payloads))

millis : (m : ℕ) → 0 < m → grpc_timeout_from_millis m ≡ some (m * 1000000)
unfolding grpc_timeout_from_millis
millis m h = ground arith

-- If a stream asks for a deadline of some milliseconds, less than 2^32 and not zero, then the deadline
-- that the request carries reads as these milliseconds and the grace of half a second.
request_headers-deadline :
    (headers : List (Bytes × Bytes)) (m : ℕ)
    → 0 < m
    → m < 2 ^ 32
    → (text : Bytes) × (request_headers headers (grpc_timeout_from_millis m)
        ≡ headers
          ++ ((codes "content-type", codes "application/grpc")
              ∷ (codes "te", codes "trailers")
              ∷ (codes "grpc-timeout", text)
              ∷ []))
      × (parse_timeout text ≡ some ((m + 500) * 1000000))
unfolding request_headers timeout_header
request_headers-deadline headers m h b =
    let d : ℕ = m * 1000000 + deadline_grace in
    let whole : d / 1000000 ≡ m + 500 = omega arith in
    let e : grpc_timeout_from_millis m ≡ some (m * 1000000) = millis m h in
    (
      format_timeout d,
      rw e,
      parse_timeout-format_timeout d (omega (arith, whole)) ∙ ap (λ n. some (n * 1000000)) whole,
    )
