-- ===== src/Ws/Stream/Terminal.antt =====
-- The order of what the task of a stream sends (`run_stream` of rust/crates/grpc-webnext/src/ws.rs).
use grpc_webnext.Prelude.{
  ℕ, zero, suc, ◌≡◌, Bool, true, false, List, [], ◌∷◌, ◌++◌, some, Bytes, codes, take, map, All,
  refl,
}
use grpc_webnext.Wire.Grpc.{Deframer, new}
use grpc_webnext.Client.Status.{Code}
use grpc_webnext.Metadata.{Http, metadata_to_vec}
use grpc_webnext.Metadata.Status.{AsciiText, read_status-ok}
use grpc_webnext.Ws.Frame.{Kind, subscribe, header, message, half_close, trailer, reset}
use grpc_webnext.Ws.Codec.{FrameCodec, code_number, close_normal}
use grpc_webnext.Ws.Stream.{
  BodyFrame, body_data, body_trailers, body_error, Reply, refused, response, Encoded, payload,
  failed, Transcoder, no_schema, transcoder, Pumped, frame_before, send_messages, finish, pump_body,
  pump, Deadline, in_time, fires_after, dispatch, send, sent, run_stream,
}

-- The kinds that end a stream.
abbrev pub IsTerminal : Kind → Type 0
IsTerminal (trailer t) = Unit
IsTerminal (reset code text) = Unit
IsTerminal _ = ⊥

abbrev pub IsMessage : Kind → Type 0
IsMessage (message p) = Unit
IsMessage _ = ⊥

-- Nothing, or one header and then messages.
abbrev pub Opened : List Kind → Type 0
Opened [] = Unit
Opened (header h ∷ ks) = All IsMessage ks
Opened (_ ∷ ks) = ⊥

Good : Pumped → Type 0
Good p = All IsMessage p.frames × ((k : Kind) × IsTerminal k × (p.terminal ≡ some k))

send_messages-Good :
    (encode : Bytes → Encoded) (ms : List Bytes) (rest : Pumped)
    → Good rest
    → Good (send_messages encode ms rest)
unfolding send_messages Good
send_messages-Good encode [] rest g = g
send_messages-Good encode (m ∷ ms) rest g = go (encode m) (send_messages-Good encode ms rest g)
  where
    go :
        (e : Encoded)
        → Good (send_messages encode ms rest)
        → Good (elim e [
          | payload p ↦ frame_before (message p) (send_messages encode ms rest)
          | failed t ↦ record {
            frames = [];
            terminal = some (reset (code_number Code.internal) (codes "json encode: " ++ t));
          }
        ])
    go (payload p) (a, b) = ((tt, a), b)
    go (failed t) ih = (tt, (_, tt, refl))

module _ (http : Http) where
  open http use {HeaderMap, HeaderValue, empty}

  finish-Good :
      AsciiText http → (trailers headers : HeaderMap) → Good (finish http trailers headers)
  unfolding finish Good
  finish-Good law trailers headers =
      let (r, e) = read_status-ok http law trailers headers in
      (
        tt,
        (
          trailer (record {
            status_code = r.0;
            status_message = r.1;
            trailers = metadata_to_vec http (http.from_headers trailers);
          }),
          tt,
          rw (finish, e),
        ),
      )

  pump_body-Good :
      AsciiText http
      → (encode : Bytes → Encoded) (headers : HeaderMap) (fs : List (BodyFrame HeaderMap))
      → (d : Deframer) (trailers : HeaderMap) → Good (pump_body http encode headers fs d trailers)
  unfolding pump_body
  pump_body-Good law encode headers [] d trailers = finish-Good law trailers headers
  pump_body-Good law encode headers (body_error e ∷ fs) d trailers =
      finish-Good law trailers headers
  pump_body-Good law encode headers (body_trailers t ∷ fs) d trailers =
      pump_body-Good law encode headers fs d t
  pump_body-Good law encode headers (body_data bytes ∷ fs) d trailers =
      send_messages-Good encode _ _ (pump_body-Good law encode headers fs _ trailers)

  Whole : Pumped → Type 0
  Whole p = Opened p.frames × ((k : Kind) × IsTerminal k × (p.terminal ≡ some k))

  pump-Whole :
      AsciiText http
      → (encode : Bytes → Encoded) (reply : Reply HeaderMap) → Whole (pump http encode reply)
  unfolding pump Whole Good
  pump-Whole law encode (refused e) = (tt, (_, tt, refl))
  pump-Whole law encode (response headers body) = pump_body-Good law encode headers body new empty

  take-Opened : (n : ℕ) (ks : List Kind) → Opened ks → Opened (take n ks)
  take-Opened zero ks h = tt
  take-Opened (suc n) [] h = tt
  take-Opened (suc n) (header m ∷ ks) h = All-take n ks h
    where
      All-take : (n : ℕ) (ks : List Kind) → All IsMessage ks → All IsMessage (take n ks)
      All-take zero ks h = tt
      All-take (suc n) [] h = tt
      All-take (suc n) (k ∷ ks) (hk, h) = (hk, All-take n ks h)
  take-Opened (suc n) (subscribe m ∷ ks) h = absurd h
  take-Opened (suc n) (message m ∷ ks) h = absurd h
  take-Opened (suc n) (half_close ∷ ks) h = absurd h
  take-Opened (suc n) (trailer m ∷ ks) h = absurd h
  take-Opened (suc n) (reset m t ∷ ks) h = absurd h

  dispatch-Whole :
      AsciiText http
      → (encode : Bytes → Encoded) (reply : Reply HeaderMap) (deadline : Deadline http)
      → Whole (dispatch http encode reply deadline)
  unfolding dispatch Whole
  dispatch-Whole law encode reply in_time = pump-Whole law encode reply
  dispatch-Whole law encode reply (fires_after n) =
      (take-Opened n _ (pump-Whole law encode reply).0, (_, tt, refl))

  -- If header values are read as text only where they are ASCII, then whatever the backend replies,
  -- whether or not its messages transcode and whenever the deadline fires, the task of a stream
  -- sends nothing or one header and then messages, one terminal frame (a trailer or a reset), and
  -- the normal close last.
  pub run_stream_shape :
      AsciiText http
      → (codec : FrameCodec) (json : Bool) (tc : Transcoder) (reply : Reply HeaderMap)
        (deadline : Deadline http)
      → (ks : List Kind) × (k : Kind) × Opened ks
        × IsTerminal k
        × (run_stream http codec json tc reply deadline
            ≡ map (send http codec json) ks ++ (send http codec json k ∷ close_normal ∷ []))
  unfolding run_stream sent Whole
  run_stream_shape law codec true (no_schema status) reply deadline = ([], _, tt, tt, refl)
  run_stream_shape law codec true (transcoder encode) reply deadline =
      let (o, (k, t, e)) = dispatch-Whole law encode reply deadline in (_, k, o, t, rw e)
  run_stream_shape law codec false tc reply deadline =
      let (o, (k, t, e)) = dispatch-Whole law payload reply deadline in (_, k, o, t, rw e)
