-- ===== src/Ws/Stream.antt =====
-- `run_stream` of rust/crates/grpc-webnext/src/ws.rs: what the task of a stream sends on the
-- outbound queue. The backend, the schema's transcoder and the codecs are parameters.
pub mod Terminal
pub mod Relay
pub mod Request
use grpc_webnext.Prelude.{
  ℕ, zero, suc, ◌+◌, Bool, true, false, List, [], ◌∷◌, ◌++◌, Option, none, some, Bytes, codes, take,
  map, if◌then◌else◌,
}
pub use grpc_webnext.Backend.{
  BodyFrame, body_data, body_trailers, body_error, Reply, refused, response,
}
use grpc_webnext.Wire.Grpc.{Deframer, new, push, pull_all, frame}
use grpc_webnext.Text.Percent.{Outcome, ok, panic}
use grpc_webnext.Client.Status.{Code, Status}
use grpc_webnext.Metadata.{Http, metadata_to_vec, read_status, format_timeout}
use grpc_webnext.Ws.Frame.{
  Kind, Frame, Trailer, subscribe, header, message, half_close, trailer, reset, TungMessage,
}
use grpc_webnext.Ws.Codec.{FrameCodec, code_number, to_tung, close_normal}

-- A message of the response as it goes into a frame, or the text of the error where it does not
-- transcode.
pub data Encoded : Type 0 where
  payload : Bytes → Encoded
  failed : Bytes → Encoded

-- `rt.schema.transcoder(&method_path)` with `response_proto_to_json_body`.
pub data Transcoder : Type 0 where
  no_schema : Status → Transcoder
  transcoder : (Bytes → Encoded) → Transcoder

-- What the pump sends, in order, up to the terminal frame, which is `none` only where the task panics.
pub record Pumped : Type 0 where
  pub frames : List Kind
  pub terminal : Option Kind

abbrev pub frame_before : Kind → Pumped → Pumped
frame_before k p = record { frames = k ∷ p.frames; terminal = p.terminal }

-- `while let Some(msg) = deframer.next_message()`: the messages of one chunk, then the rest of the body.
pub send_messages : (Bytes → Encoded) → List Bytes → Pumped → Pumped
send_messages encode [] rest = rest
send_messages encode (m ∷ ms) rest =
    let later = send_messages encode ms rest in
    elim (encode m) [
      | payload p ↦ frame_before (message p) later
      | failed e ↦ record {
        frames = [];
        terminal = some (reset (code_number Code.internal) (codes "json encode: " ++ e));
      }
    ]

module _ (http : Http) where
  open http use {HeaderMap, from_headers, empty}

  pub finish : HeaderMap → HeaderMap → Pumped
  finish trailers headers = record {
    frames = [];
    terminal = elim (read_status http trailers headers) [
      | panic ↦ none
      | ok (code, text) ↦ some (
          trailer (record {
            status_code = code;
            status_message = text;
            trailers = metadata_to_vec http (from_headers trailers);
          }))
    ];
  }

  -- `while let Some(frame) = body.frame().await`.
  pub pump_body :
      (Bytes → Encoded) → HeaderMap → List (BodyFrame HeaderMap) → Deframer → HeaderMap → Pumped
  pump_body encode headers [] d trailers = finish trailers headers
  pump_body encode headers (body_error e ∷ fs) d trailers = finish trailers headers
  pump_body encode headers (body_trailers t ∷ fs) d trailers = pump_body encode headers fs d t
  pump_body encode headers (body_data bytes ∷ fs) d trailers =
      let (ms, d') = pull_all (push d bytes) in
      send_messages encode ms (pump_body encode headers fs d' trailers)

  unfoldable pub pump : (Bytes → Encoded) → Reply HeaderMap → Pumped
  pump encode (refused e) = record {
    frames = [];
    terminal = some (reset (code_number Code.unavailable) (codes "upstream: " ++ e));
  }
  pump encode (response headers body) =
      frame_before (header (metadata_to_vec http (from_headers headers)))
        (pump_body encode headers body new empty)

  -- Where the deadline fires, if it does, the pump has sent some of its frames and not the terminal one:
  -- the send of that one is its last step.
  pub data Deadline : Type 0 where
    in_time : Deadline
    fires_after : ℕ → Deadline

  abbrev pub deadline_exceeded : Kind
  deadline_exceeded = trailer (record {
    status_code = code_number Code.deadline_exceeded;
    status_message = codes "deadline exceeded";
    trailers = [];
  })

  -- The kinds that are sent, and whether the task goes on to the close.
  unfoldable pub dispatch : (Bytes → Encoded) → Reply HeaderMap → Deadline → Pumped
  dispatch encode reply in_time = pump encode reply
  dispatch encode reply (fires_after n) = record {
    frames = take n (Pumped.frames (pump encode reply));
    terminal = some deadline_exceeded;
  }

  module _ (codec : FrameCodec) where
    abbrev pub send : Bool → Kind → TungMessage
    send json k = to_tung codec (some k) json

    -- The messages of a dispatch, then the close of the socket.
    unfoldable pub sent : Bool → Pumped → List TungMessage
    sent json p =
        map (send json) p.frames
        ++ elim p.terminal [ none ↦ [] | some k ↦ send json k ∷ close_normal ∷ [] ]

    unfoldable pub run_stream : Bool → Transcoder → Reply HeaderMap → Deadline → List TungMessage
    run_stream true (no_schema status) reply deadline =
        send true (reset (code_number status.code) status.message) ∷ close_normal ∷ []
    run_stream true (transcoder encode) reply deadline = sent true (dispatch encode reply deadline)
    run_stream false tc reply deadline = sent false (dispatch payload reply deadline)
