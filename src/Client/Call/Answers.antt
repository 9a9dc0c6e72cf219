-- ===== src/Client/Call/Answers.antt =====
-- What a call with one response answers (rust/crates/grpc-webnext-client/src/client.rs).
use grpc_webnext.Prelude.{
  ℕ, ◌*◌, ◌/◌, ◌≤◌, ◌<◌, ◌^◌, ◌≡◌, max, List, ◌∷◌, ◌++◌, Option, none, some, true, false, ◌==◌,
  Bytes, codes, length, flatten, map, any, All, if◌then◌else◌, refl, arith,
}
use grpc_webnext.Text.Decimal.{decimal}
use grpc_webnext.Metadata.Timeout.{parse_timeout-millis}
use grpc_webnext.Metadata.{parse_timeout, u64_max}
use grpc_webnext.Client.Status.{Code}
use grpc_webnext.Client.Deframer
use grpc_webnext.Client.Deframer.{messages, push, over_limit, encode_message}
use grpc_webnext.Client.Deframer.Frames.{push-frames}
use grpc_webnext.Client.Metadata
use grpc_webnext.Client.Metadata.{Base64}
use grpc_webnext.Client.Terminal.{is_ok, Texts, from_headers}
use grpc_webnext.Client.Streaming.{trailers_status}
use grpc_webnext.Client.Call.{
  CallOptions, Result, answered, rejected, Response, bytes, options_millis, race, first_or,
  check_response, whole_messages, with_status, read_response, single_response,
}

race-in_time :
    {A : Type 0} → (timeout : Option ℕ) (work : Result A) → race timeout false work ≡ work
unfolding race
race-in_time none work = refl
race-in_time (some t) work = refl

module _ (describe : Code → Bytes) (base64 : Base64) (texts : Texts) where
  -- If the timer does not win, the response has the HTTP status 200 and no gRPC status in its headers,
  -- and its body is the encodings of one message or more, each shorter than 2^32 bytes and none over the
  -- limit of the call, then the call answers the first message with the metadata of the headers and of
  -- the trailers where the status of the trailers is OK, and is rejected with this status where not.
  pub single_response-answers :
      (options : CallOptions) (response : Response) (m : Bytes) (ms : List Bytes)
      → response.status == 200 ≡ true
      → from_headers base64 texts response.headers ≡ none
      → All (λ m. length m < 2 ^ 32) (m ∷ ms)
      → any (λ m. over_limit options.max_message_bytes (length m)) (m ∷ ms) ≡ false
      → let st = trailers_status describe base64 texts response.trailers in
        single_response describe base64 texts options false
          (answered response)
          (bytes (flatten (map encode_message (m ∷ ms))))
        ≡ (if is_ok st
            then answered (record {
              message = m;
              headers = Metadata.from_headers base64 response.headers;
              trailers = st.metadata;
            })
            else rejected st)
  unfolding single_response check_response read_response whole_messages with_status first_or
      Deframer.new
  single_response-answers options response m ms e2 eh hm ho =
      rw (race-in_time options.timeout, check_response, e2, eh)
        (rw (read_response, push-frames (m ∷ ms) options.max_message_bytes hm, ho) refl)

-- The header that the client sends for a timeout of at most 2^64 - 1 milliseconds is read by the
-- server as a deadline of its whole milliseconds, and of one where there are none.
parse_timeout-options_millis :
    (timeout : ℕ)
    → timeout / 1000000 ≤ u64_max
    → parse_timeout (decimal (options_millis timeout) ++ codes "m")
      ≡ some (max (timeout / 1000000) 1 * 1000000)
unfolding options_millis
parse_timeout-options_millis timeout h =
    parse_timeout-millis (max (timeout / 1000000) 1) (omega (arith, h))
