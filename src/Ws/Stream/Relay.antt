-- ===== src/Ws/Stream/Relay.antt =====
-- What a proto stream relays (`run_stream` of rust/crates/grpc-webnext/src/ws.rs).
use grpc_webnext.Prelude.{
  ℕ, ◌<◌, ◌≡◌, false, List, [], ◌∷◌, ◌++◌, some, Bytes, length, map, flatten, All, refl, ap, ◌∙◌,
  sym, append_assoc, append-nil, ◌^◌,
}
use grpc_webnext.Wire.Grpc.{Deframer, new, push, pull_all, frame}
use grpc_webnext.Wire.Grpc.Collect.{collected, collected-nil, collected-cons, collected-frames}
use grpc_webnext.Text.Percent.{ok}
use grpc_webnext.Metadata.{Http, metadata_to_vec, read_status}
use grpc_webnext.Ws.Frame.{Kind, header, message, trailer}
use grpc_webnext.Ws.Codec.{FrameCodec, close_normal}
use grpc_webnext.Ws.Stream.{
  BodyFrame, body_data, body_trailers, response, payload, Transcoder, Pumped, frame_before,
  send_messages, finish, pump_body, pump, in_time, dispatch, send, sent, run_stream,
}

-- Frames put before what a pump sends.
frames_before : List Kind → Pumped → Pumped
frames_before ks p = record { frames = ks ++ p.frames; terminal = p.terminal }

send_messages-payload :
    (ms : List Bytes) (rest : Pumped)
    → send_messages payload ms rest ≡ frames_before (map message ms) rest
unfolding send_messages frames_before
send_messages-payload [] rest = refl
send_messages-payload (m ∷ ms) rest = ap (frame_before (message m)) (send_messages-payload ms rest)

frames_before-append :
    (ks ls : List Kind) (p : Pumped)
    → frames_before ks (frames_before ls p) ≡ frames_before (ks ++ ls) p
unfolding frames_before
frames_before-append ks ls p =
    ap (λ fs. record { frames = fs; terminal = p.terminal }) (sym (append_assoc ks ls p.frames))

map-append : (f : Bytes → Kind) (xs ys : List Bytes) → map f (xs ++ ys) ≡ map f xs ++ map f ys
map-append f [] ys = refl
map-append f (x ∷ xs) ys = ap (λ r. f x ∷ r) (map-append f xs ys)

module _ (http : Http) where
  open http use {HeaderMap, from_headers, empty}

  -- A body that comes in these chunks, with its trailers.
  abbrev pub whole_body : List Bytes → HeaderMap → List (BodyFrame HeaderMap)
  whole_body cs t = map body_data cs ++ body_trailers t ∷ []

  finished :
      (ks : List Kind) (t headers : HeaderMap) (code : ℕ) (why : Bytes)
      → read_status http t headers ≡ ok (code, why)
      → frames_before ks (finish http t headers) ≡ record {
        frames = ks;
        terminal = some (
            trailer (record {
              status_code = code;
              status_message = why;
              trailers = metadata_to_vec http (from_headers t);
            }));
      }
  unfolding frames_before finish
  finished ks t headers code why st = rw (finish, st, append-nil ks)

  pump_body-collected :
      (headers : HeaderMap) (cs : List Bytes) (t : HeaderMap) (d : Deframer) (trailers : HeaderMap)
      → pump_body http payload headers (whole_body cs t) d trailers
        ≡ frames_before (map message (collected cs d)) (finish http t headers)
  unfolding pump_body frames_before
  pump_body-collected headers [] t d trailers = rw (collected-nil d)
  pump_body-collected headers (c ∷ cs) t d trailers =
      let (ms, d') = pull_all (push d c) in
      send_messages-payload ms _
      ∙ ap (frames_before (map message ms)) (pump_body-collected headers cs t d' trailers)
      ∙ frames_before-append (map message ms) (map message (collected cs d'))
          (finish http t headers)
      ∙ ap (λ ks. frames_before ks (finish http t headers))
          (sym (map-append message ms (collected cs d')))
      ∙ ap (λ ns. frames_before (map message ns) (finish http t headers))
          (sym (collected-cons c cs d))

  -- If the backend's body is the gRPC frames of some messages, each shorter than 2^32 bytes and the
  -- whole cut into any chunks, with trailers behind it, and the status reads from these trailers and
  -- the headers, then a proto stream whose deadline does not fire sends the header frame, one
  -- message frame for each message, in order, the trailer with the status, and the close.
  pub run_stream_relays :
      (codec : FrameCodec) (tc : Transcoder) (headers t : HeaderMap) (ms cs : List Bytes)
      → (code : ℕ) (why : Bytes) → All (λ m. length m < 2 ^ 32) ms
      → flatten cs ≡ flatten (map frame ms)
      → read_status http t headers ≡ ok (code, why)
      → run_stream http codec false tc (response headers (whole_body cs t)) in_time
        ≡ map
            (send http codec false)
            (header (metadata_to_vec http (from_headers headers)) ∷ map message ms)
          ++ (send http codec false (
                trailer (record {
                  status_code = code;
                  status_message = why;
                  trailers = metadata_to_vec http (from_headers t);
                }))
              ∷ close_normal
              ∷ [])
  unfolding run_stream sent dispatch pump frames_before
  run_stream_relays codec tc headers t ms cs code why h e st =
      let k : pump_body http payload headers (whole_body cs t) new empty ≡ record {
        frames = map message ms;
        terminal = some (
            trailer (record {
              status_code = code;
              status_message = why;
              trailers = metadata_to_vec http (from_headers t);
            }));
      } =
        pump_body-collected headers cs t new empty
        ∙ ap (λ ns. frames_before (map message ns) (finish http t headers))
            (collected-frames ms cs h e)
        ∙ finished (map message ms) t headers code why st in
      rw k
