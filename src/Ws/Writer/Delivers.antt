-- ===== src/Ws/Writer/Delivers.antt =====
-- A stream's messages on the wire: `run_stream` and the writer of rust/crates/grpc-webnext/src/ws.rs.
use grpc_webnext.Prelude.{
  ℕ, ◌≡◌, List, [], ◌∷◌, ◌++◌, Option, none, some, Bool, true, false, Bytes, map, All,
  if◌then◌else◌, refl, sym, ap, ◌∙◌, append_assoc, All-append,
}
use grpc_webnext.Metadata.{Http}
use grpc_webnext.Metadata.Status.{AsciiText}
use grpc_webnext.Backend.{Reply}
use grpc_webnext.Ws.Frame.{Kind, TungMessage, text, binary, close, ping, pong}
use grpc_webnext.Ws.Json.{JsonFrame, proto_frame_to_json}
use grpc_webnext.Ws.Codec.{FrameCodec, close_normal, to_tung}
use grpc_webnext.Ws.Stream.{Transcoder, Deadline, send, run_stream}
use grpc_webnext.Ws.Stream.Terminal.{run_stream_shape}
use grpc_webnext.Ws.Writer.{
  WriterEvent, outbound, queue_closed, tick, is_close, Written, send_more, send_close, write_loop,
}
use grpc_webnext.Ws.Writer.Order.{queued, payload}

-- A message that carries a frame.
IsFrame : TungMessage → Type 0
IsFrame (text content) = Unit
IsFrame (binary bytes) = Unit
IsFrame _ = ⊥

-- The socket takes what it is given.
abbrev pub Takes : WriterEvent → Type 0
Takes (outbound m sends) = sends ≡ true
Takes queue_closed = Unit
Takes (tick sends) = sends ≡ true

Delivered : Written → List TungMessage → Type 0
Delivered w ms = (payload w.wire ≡ ms) × (w.told ≡ true)

send_more-Delivered :
    (m m' : TungMessage) (w : Written) (ms : List TungMessage)
    → IsFrame m'
    → m ≡ m'
    → Delivered w ms
    → Delivered (if is_close m then send_close m else send_more m w) (m' ∷ ms)
unfolding Delivered payload send_more IsFrame
send_more-Delivered m (text x) w ms f e (p, t) = rw e (ap (λ l. text x ∷ l) p, t)
send_more-Delivered m (binary x) w ms f e (p, t) = rw e (ap (λ l. binary x ∷ l) p, t)
send_more-Delivered m ping w ms f e h = absurd f
send_more-Delivered m pong w ms f e h = absurd f
send_more-Delivered m (close r) w ms f e h = absurd f

ping-Delivered :
    (w : Written) (ms : List TungMessage) → Delivered w ms → Delivered (send_more ping w) ms
unfolding Delivered payload send_more
ping-Delivered w ms h = h

close-Delivered :
    (m : TungMessage) (reason : Option (ℕ × Bytes)) (w : Written)
    → m ≡ close reason
    → Delivered (if is_close m then send_close m else send_more m w) (close reason ∷ [])
unfolding Delivered payload send_close
close-Delivered m reason w e = rw e (refl, refl)

-- If the socket takes everything, and the queue holds frames, a close and then whatever else, then
-- the frames and the close are sent, in order, with nothing but pings among them.
write_loop-Delivered :
    (keepalive : Bool) (events : List WriterEvent) (frames later : List TungMessage)
    (reason : Option (ℕ × Bytes))
    → All Takes events
    → All IsFrame frames
    → queued events ≡ frames ++ close reason ∷ later
    → Delivered (write_loop keepalive events) (frames ++ close reason ∷ [])
unfolding write_loop queued
write_loop-Delivered k [] [] later r ts fs e = cc
write_loop-Delivered k [] (f ∷ frames) later r ts fs e = cc
write_loop-Delivered k (queue_closed ∷ events) [] later r ts fs e = cc
write_loop-Delivered k (queue_closed ∷ events) (f ∷ frames) later r ts fs e = cc
write_loop-Delivered k (tick false ∷ events) frames later r (t, ts) fs e = cc
write_loop-Delivered false (tick true ∷ events) frames later r (t, ts) fs e =
    write_loop-Delivered false events frames later r ts fs e
write_loop-Delivered true (tick true ∷ events) frames later r (t, ts) fs e =
    ping-Delivered (write_loop true events) _
      (write_loop-Delivered true events frames later r ts fs e)
write_loop-Delivered k (outbound m false ∷ events) frames later r (t, ts) fs e = cc
write_loop-Delivered k (outbound m true ∷ events) [] later r (t, ts) fs e =
    close-Delivered m r (write_loop k events) cc
write_loop-Delivered k (outbound m true ∷ events) (f ∷ frames) later r (t, ts) (hf, fs) e =
    let head : m ≡ f = cc in
    let tail : queued events ≡ frames ++ close r ∷ later = cc in
    send_more-Delivered m f (write_loop k events) (frames ++ close r ∷ []) hf head
      (write_loop-Delivered k events frames later r ts fs tail)

module _ (http : Http) where
  open http use {HeaderMap}

  to_tung-IsFrame :
      (codec : FrameCodec) (kind : Kind) (json : Bool) → IsFrame (send http codec json kind)
  unfolding to_tung IsFrame
  to_tung-IsFrame codec kind false = tt
  to_tung-IsFrame codec kind true = chosen (proto_frame_to_json codec.serde (some kind))
    where
      chosen :
          (o : Option (JsonFrame codec.serde.Value))
          → IsFrame (elim o [
            | none ↦ binary (codec.encode_frame (some kind))
            | some jf ↦ text (codec.encode_json_frame jf)
          ])
      chosen none = tt
      chosen (some jf) = tt

  all_sent :
      (codec : FrameCodec) (json : Bool) (ks : List Kind)
      → All IsFrame (map (send http codec json) ks)
  all_sent codec json [] = tt
  all_sent codec json (k ∷ ks) = (to_tung-IsFrame codec k json, all_sent codec json ks)

  -- If header values are read as text only where they are ASCII, the socket takes everything, and the
  -- queue holds what the task of a stream sends and then whatever else, then whatever the backend
  -- replies, whenever the deadline fires and whatever the ticks of the keepalive, what is written is
  -- what the task sends and nothing more, less the pings, and the read loop is told of the close.
  pub run_stream-written :
      AsciiText http
      → (codec : FrameCodec) (json : Bool) (tc : Transcoder) (reply : Reply HeaderMap)
        (deadline : Deadline http) (keepalive : Bool) (events : List WriterEvent)
        (later : List TungMessage)
      → All Takes events
      → queued events ≡ run_stream http codec json tc reply deadline ++ later
      → (payload (write_loop keepalive events).wire ≡ run_stream http codec json tc reply deadline)
        × ((write_loop keepalive events).told ≡ true)
  unfolding Delivered close_normal
  run_stream-written law codec json tc reply deadline keepalive events later takes holds =
      let (ks, k, o, t, e) = run_stream_shape http law codec json tc reply deadline in
      let ms = map (send http codec json) ks in
      let x = send http codec json k in
      let frames =
        All-append IsFrame ms (x ∷ []) (all_sent codec json ks)
          (to_tung-IsFrame codec k json, tt) in
      let queue =
        holds
        ∙ ap (λ l. l ++ later) e
        ∙ append_assoc ms (x ∷ close_normal ∷ []) later
        ∙ sym (append_assoc ms (x ∷ []) (close_normal ∷ later)) in
      let (written, told) =
        write_loop-Delivered keepalive events (ms ++ (x ∷ [])) later (some (1000, [])) takes frames
          queue in
      (written ∙ append_assoc ms (x ∷ []) (close_normal ∷ []) ∙ sym e, told)
