-- ===== src/Examples/Calls.antt =====
-- A call through the tunnel, and the writer of a WebSocket, at concrete inputs.
use grpc_webnext.Prelude.{
  ◌≡◌, List, [], ◌∷◌, ◌++◌, false, true, Bytes, codes, map, any, if◌then◌else◌, refl, ap,
  append-nil, flatten, arith,
}
use grpc_webnext.Backend.{BodyFrame, body_data, Reply, response, refused}
use grpc_webnext.Client.Deframer.{encode_message, over_limit}
use grpc_webnext.Client.Metadata
use grpc_webnext.Client.Terminal.{is_ok, from_headers, look_up}
use grpc_webnext.Client.Channel.{with_connector}
use grpc_webnext.Client.Call.{Requested, responded, answered, rejected, bytes}
use grpc_webnext.Client.Streaming.{trailers_status}
use grpc_webnext.Client.Methods.{client_streaming, body_bytes}
use grpc_webnext.Client.Methods.Tunnelled.{client_streaming-replied}
use grpc_webnext.Runtime.Tunnel.{Served, serve_call}
use grpc_webnext.Ws.Frame.{TungMessage, binary}
use grpc_webnext.Ws.Codec.{close_normal, to_tung}
use grpc_webnext.Ws.Writer.{WriterEvent, outbound, queue_closed, tick, is_close, write_loop}
use grpc_webnext.Ws.Writer.Order.{CloseLast, payload, queued, write_loop-CloseLast}
use grpc_webnext.Ws.Writer.Delivers.{run_stream-written}
use grpc_webnext.Ws.Stream
use grpc_webnext.Ws.Stream.{transcoder, in_time, run_stream, sent, dispatch, pump}
use grpc_webnext.Examples.Headers.{Entries, small_http, small_http-AsciiText}
use grpc_webnext.Examples.Streams.{letters}
use grpc_webnext.Examples.Clients.{silent, no_base64, plain_texts, plain_options, reply_ok}

-- Routes that answer with the body's frames.
abbrev echo : Entries → List (BodyFrame Entries) → Reply Entries
echo headers frames = response headers frames

-- A connection that brings the answer of a server that is well.
abbrev brings : Served Entries → Requested
brings served = responded reply_ok

-- A body arrives in one byte, and the rest.
abbrev first_byte : Bytes → List Bytes
first_byte [] = []
first_byte (b ∷ bs) = (b ∷ []) ∷ bs ∷ []

first_byte_whole : (b : Bytes) → flatten (first_byte b) ≡ b
first_byte_whole [] = refl
first_byte_whole (b ∷ bs) = ap (λ r. b ∷ r) (append-nil bs)

client_streaming-replied_example :
    client_streaming silent no_base64 plain_texts with_connector 7
      (λ p hs body.
        brings
          (serve_call small_http echo 2 false hs (map body_data (first_byte (body_bytes body)))))
      (codes "/e/U")
      (codes "a" ∷ [])
      plain_options
      false
      (bytes (encode_message (codes "ab")))
    ≡ (
      with_connector,
      if is_ok (trailers_status silent no_base64 plain_texts reply_ok.trailers)
          then answered (record {
            message = codes "ab";
            headers = Metadata.from_headers no_base64 reply_ok.headers;
            trailers = (trailers_status silent no_base64 plain_texts reply_ok.trailers).metadata;
          })
          else rejected (trailers_status silent no_base64 plain_texts reply_ok.trailers),
    )
unfolding from_headers look_up over_limit
client_streaming-replied_example =
    client_streaming-replied silent no_base64 plain_texts plain_options with_connector 7
      (codes "/e/U") small_http (λ p hs. hs) first_byte echo 2 brings (codes "a" ∷ []) reply_ok
      (codes "ab") (omega arith, tt) refl first_byte_whole (λ body e. refl) refl refl (omega arith)
      refl

-- A message, a tick, a close, and a message behind it.
abbrev events : List WriterEvent
events =
    outbound (binary (1 ∷ [])) true
    ∷ tick true
    ∷ outbound close_normal true
    ∷ outbound (binary (2 ∷ [])) true
    ∷ queue_closed
    ∷ []

write_loop-CloseLast_example :
    CloseLast (write_loop true events).wire
    × ((write_loop true events).told ≡ any is_close (write_loop true events).wire)
    × ((rest : List TungMessage) × (payload (write_loop true events).wire ++ rest
          ≡ payload (queued events)))
write_loop-CloseLast_example = write_loop-CloseLast true events

-- What a backend that refuses comes to, with a tick of the keepalive, and a close queued behind it.
abbrev refusal : List WriterEvent
refusal =
    outbound (binary (codes "f")) true
    ∷ tick true
    ∷ outbound close_normal true
    ∷ outbound close_normal true
    ∷ []

run_stream-written_example :
    (payload (write_loop true refusal).wire
      ≡ run_stream small_http letters false
          (transcoder Stream.payload)
          (refused (codes "down"))
          in_time)
    × ((write_loop true refusal).told ≡ true)
unfolding run_stream sent dispatch pump to_tung queued close_normal
run_stream-written_example =
    run_stream-written small_http small_http-AsciiText letters false (transcoder Stream.payload)
      (refused (codes "down")) in_time true refusal (close_normal ∷ [])
      (refl, (refl, (refl, (refl, tt)))) refl
