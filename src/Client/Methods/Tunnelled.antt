-- ===== src/Client/Methods/Tunnelled.antt =====
-- A call of the client that the server answers in its tunnel:
-- rust/crates/grpc-webnext-client/src/client.rs and rust/crates/grpc-webnext/src/h2ts.rs.
use grpc_webnext.Prelude.{
  ℕ, ◌<◌, ◌≡◌, ◌^◌, List, [], ◌∷◌, ◌++◌, none, true, false, Bytes, length, map, any, All, flatten,
  ltb, ◌==◌, if◌then◌else◌, refl, sym, ap, ◌∙◌, append-nil,
}
use grpc_webnext.Client.Status.{Code}
use grpc_webnext.Client.Deframer.{encode_message, over_limit}
use grpc_webnext.Client.Metadata
use grpc_webnext.Client.Metadata.{Base64}
use grpc_webnext.Client.Terminal.{Texts, is_ok, from_headers}
use grpc_webnext.Client.Channel.{Channel}
use grpc_webnext.Client.Call.{
  CallOptions, request_headers, Requested, responded, Response, Result, answered, rejected,
  UnaryResponse, bytes, send_on, single_response,
}
use grpc_webnext.Client.Call.Answers.{single_response-answers}
use grpc_webnext.Client.Streaming.{trailers_status}
use grpc_webnext.Client.Methods.{
  body_bytes, stream_body, request, expired, call_once, client_streaming,
}
use grpc_webnext.Metadata.{Http}
use grpc_webnext.Backend.{BodyFrame, body_data, Reply}
use grpc_webnext.Wire.Grpc.{new, frame, pump}
use grpc_webnext.Wire.Grpc.Chunks.{pump-frames}
use grpc_webnext.Runtime.Tunnel.{Served, replied, serve_call}
use grpc_webnext.Runtime.Tunnel.Guard.{serve_call-frames}

-- The encodings of the client are the frames of the server.
encode_message-frame : (ms : List Bytes) → flatten (map encode_message ms) ≡ flatten (map frame ms)
unfolding encode_message frame
encode_message-frame [] = refl
encode_message-frame (m ∷ ms) = ap (λ r. encode_message m ++ r) (encode_message-frame ms)

-- If a client streams messages shorter than 2^32 bytes and within the server's limit, the body that it
-- sends arrives cut into any chunks, no deadline passes, the handler behind the tunnel, on the headers
-- that the client sends, answers every body in which it reads these messages, and its answer comes to
-- the client as a response of HTTP status 200 with no gRPC status in the headers, then the call answers
-- the one message of the response's body, with its metadata, where the status of the trailers is OK,
-- and is rejected with this status where not.
pub client_streaming-replied :
    (describe : Code → Bytes) (base64 : Base64) (texts : Texts) (options : CallOptions)
    (ch : Channel) (conn : ℕ) (path : Bytes) (http : Http)
    (arrives : Bytes → List (Bytes × Bytes) → http.HeaderMap) (cut : Bytes → List Bytes)
    (routes : http.HeaderMap → List (BodyFrame http.HeaderMap) → Reply http.HeaderMap) (max : ℕ)
    (carry : Served http.HeaderMap → Requested) (ms : List Bytes) (response : Response)
    (reply : Bytes)
    → All (λ m. length m < 2 ^ 32) ms
    → any (λ m. ltb max (length m)) ms ≡ false
    → ((b : Bytes) → flatten (cut b) ≡ b)
    → ((body : List Bytes)
        → pump body new [] ≡ (ms, new)
        → carry (
            replied (
              routes
                (arrives path (request_headers describe base64 texts options))
                (map body_data body)))
          ≡ responded response)
    → response.status == 200 ≡ true
    → from_headers base64 texts response.headers ≡ none
    → length reply < 2 ^ 32
    → over_limit options.max_message_bytes (length reply) ≡ false
    → let st = trailers_status describe base64 texts response.trailers in
      client_streaming describe base64 texts ch conn
        (λ p hs body.
          carry (
            serve_call http routes max false
              (arrives p hs)
              (map body_data (cut (body_bytes body)))))
        path
        ms
        options
        false
        (bytes (encode_message reply))
      ≡ (
        ch,
        if is_ok st
            then answered (record {
              message = reply;
              headers = Metadata.from_headers base64 response.headers;
              trailers = st.metadata;
            })
            else rejected st,
      )
unfolding client_streaming call_once expired request stream_body body_bytes send_on
client_streaming-replied describe base64 texts options ch conn path http arrives cut routes max
      carry ms response reply small within uncut handler ok200 plain short fits =
    let headers = arrives path (request_headers describe base64 texts options) in
    let cs = cut (flatten (map encode_message ms)) in
    let e = uncut (flatten (map encode_message ms)) ∙ encode_message-frame ms in
    let served = (serve_call-frames http routes max headers ms cs small e).1 within in
    let came : carry (serve_call http routes max false headers (map body_data cs))
        ≡ responded response =
      ap carry served ∙ handler cs (pump-frames ms cs small e) in
    let read : Requested → Channel × Result UnaryResponse = λ q. (
      (send_on ch conn q).0,
      single_response describe base64 texts options false (send_on ch conn q).1
          (bytes (encode_message reply)),
    ) in
    let one =
      ap (λ b. single_response describe base64 texts options false (answered response) (bytes b))
        (sym (append-nil (encode_message reply)))
      ∙ single_response-answers describe base64 texts options response reply [] ok200 plain
          (short, tt) (rw fits refl) in
    ap read came ∙ ap (λ r. (ch, r)) one
