-- ===== src/Examples/Streams.antt =====
-- A connection and its stream at concrete inputs. The codecs here write one letter for a frame.
use grpc_webnext.Prelude.{
  ◌≡◌, true, false, List, [], ◌∷◌, ◌++◌, none, some, Bytes, codes, map, All, refl, arith, ◌==◌,
  if◌then◌else◌,
}
use grpc_webnext.Wire.BigEndian.{put_u32}
use grpc_webnext.Wire.Grpc.{frame}
use grpc_webnext.Text.Decimal.{parse_uint, parse_digits}
use grpc_webnext.Metadata.{read_status, status_text, text_of, parse_code, metadata_to_vec}
use grpc_webnext.Ws.Frame.{Kind, Subscribe, subscribe, header, message, trailer, binary}
use grpc_webnext.Ws.Json.{Serde}
use grpc_webnext.Ws.Codec.{FrameCodec, close_normal}
use grpc_webnext.Ws.Stream.{
  body_data, body_error, response, payload, failed, transcoder, in_time, fires_after, send,
  run_stream,
}
use grpc_webnext.Ws.Stream.Terminal.{Opened, IsTerminal, run_stream_shape}
use grpc_webnext.Ws.Stream.Relay.{whole_body, run_stream_relays}
use grpc_webnext.Ws.Serve.{Config, Event, incoming, ended, initial, serve_loop}
use grpc_webnext.Ws.Serve.Alive.{track, live, Small}
use grpc_webnext.Ws.Serve.Single.{serve_loop_single}
use grpc_webnext.Examples.Headers.{Entries, small_http, small_http-AsciiText}

abbrev zeros : Serde
zeros = record { Value = Unit; null = tt; to_vec = λ v. codes "0"; from_slice = λ b. some tt }

abbrev open_s : Subscribe
open_s = record { method = []; headers = []; timeout_millis = 0; initial_payload = codes "x" }

-- `s` opens, anything else is a message.
abbrev pub letters : FrameCodec
letters = record {
  serde = zeros;
  encode_frame = λ f. codes "f";
  decode_frame = λ b. elim b [
    | [] ↦ none
    | c ∷ cs ↦ if c == b's' then some (some (subscribe open_s)) else some (some (message (c ∷ cs)))
  ];
  encode_json_frame = λ f. codes "{}";
  decode_json_frame = λ b. none;
}

abbrev small : Config Bytes
small = record {
  max_message_bytes = 3;
  method_url = codes "/S/M";
  annotation_has_body = none;
  keepalive = true;
  parse_path = λ b. some b;
}

-- A stream is opened, a second open is refused, and a message is too long.
abbrev script : List Event
script =
    incoming (binary (codes "s"))
    ∷ incoming (binary (codes "s"))
    ∷ incoming (binary (codes "hi"))
    ∷ incoming (binary (codes "hello"))
    ∷ ended
    ∷ []

serve_loop_single_example :
    (track none (serve_loop small_http letters small (initial none) script).1.1
      ≡ some (
          if (serve_loop small_http letters small (initial none) script).0
          then none
          else live (serve_loop small_http letters small (initial none) script).1.0))
    × All (Small 3) (serve_loop small_http letters small (initial none) script).1.1
serve_loop_single_example = serve_loop_single small_http letters small none script

abbrev ok_trailers : Entries
ok_trailers = (codes "grpc-status", codes "0") ∷ []

abbrev chunks : List Bytes
chunks = (0 ∷ 0 ∷ []) ∷ (0 ∷ 0 ∷ 1 ∷ b'a' ∷ []) ∷ []

run_stream_relays_example :
    run_stream small_http letters false
      (transcoder payload)
      (response [] (whole_body small_http chunks ok_trailers))
      in_time
    ≡ map
        (send small_http letters false)
        (header (metadata_to_vec small_http []) ∷ map message (codes "a" ∷ []))
      ++ (send small_http letters false (
            trailer (record {
              status_code = 0;
              status_message = [];
              trailers = metadata_to_vec small_http ok_trailers;
            }))
          ∷ close_normal
          ∷ [])
unfolding frame put_u32 read_status status_text text_of parse_code parse_uint parse_digits
run_stream_relays_example =
    run_stream_relays small_http letters (transcoder payload) [] ok_trailers (codes "a" ∷ []) chunks
      0 [] (omega arith, tt) refl refl

run_stream_shape_example :
    (ks : List Kind) × (k : Kind) × Opened ks
    × IsTerminal k
    × (run_stream small_http letters true
          (transcoder (λ b. failed b))
          (response [] (body_data (frame (codes "a")) ∷ body_error (codes "reset") ∷ []))
          (fires_after 4)
        ≡ map (send small_http letters true) ks
          ++ (send small_http letters true k ∷ close_normal ∷ []))
run_stream_shape_example =
    run_stream_shape small_http small_http-AsciiText letters true (transcoder (λ b. failed b))
      (response [] (body_data (frame (codes "a")) ∷ body_error (codes "reset") ∷ []))
      (fires_after 4)
