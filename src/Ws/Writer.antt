-- ===== src/Ws/Writer.antt =====
-- The writer task of a WebSocket, and the handshake that is rejected (`serve` of
-- rust/crates/grpc-webnext/src/ws.rs). What the `select!` comes to is an event.
pub mod Order
pub mod Delivers
use grpc_webnext.Prelude.{
  ℕ, ◌+◌, List, [], ◌∷◌, ◌++◌, Option, none, some, Bool, true, false, if◌then◌else◌,
}
use grpc_webnext.Client.Status.{Status}
use grpc_webnext.Ws.Frame.{TungMessage, text, binary, close, ping, pong}
use grpc_webnext.Ws.Codec.{close_for_status}

-- A message of the queue, or its end, and a tick of the keepalive; with whether the socket takes what
-- is sent.
pub data WriterEvent : Type 0 where
  outbound : TungMessage → Bool → WriterEvent
  queue_closed : WriterEvent
  tick : Bool → WriterEvent

-- `matches!(msg, TungMessage::Close(_))`.
abbrev pub is_close : TungMessage → Bool
is_close (close reason) = true
is_close (text content) = false
is_close (binary bytes) = false
is_close ping = false
is_close pong = false

-- What was sent, and whether the read loop was told of a close.
pub record Written : Type 0 where
  pub wire : List TungMessage
  pub told : Bool

abbrev pub stopped : Written
stopped = record { wire = []; told = false }

pub send_more : TungMessage → Written → Written
send_more m w = record { wire = m ∷ w.wire; told = w.told }

pub send_close : TungMessage → Written
send_close m = record { wire = m ∷ []; told = true }

-- The loop; a tick never comes where there is no keepalive.
pub write_loop : Bool → List WriterEvent → Written
unfolding send_more send_close
write_loop keepalive [] = stopped
write_loop keepalive (queue_closed ∷ events) = stopped
write_loop keepalive (outbound m sends ∷ events) =
    let rest = write_loop keepalive events in
    if sends then (if is_close m then send_close m else send_more m rest) else stopped
write_loop keepalive (tick sends ∷ events) =
    let rest = write_loop keepalive events in
    if keepalive then (if sends then send_more ping rest else stopped) else rest

-- `close_deadline` and `deadline`, in nanoseconds: how long the peer may be silent.
max_silence : Option ℕ → ℕ → Option ℕ
max_silence none timeout = none
max_silence (some interval) timeout = some (interval + timeout)

-- A rejected handshake: the close is sent, and the peer is read up to its answer or the end.
reject_reads : List TungMessage → List TungMessage
reject_reads [] = []
reject_reads (m ∷ incoming) =
    let rest = reject_reads incoming in if is_close m then m ∷ [] else m ∷ rest

reject_handshake : Status → List TungMessage → List TungMessage × List TungMessage
reject_handshake status incoming = (close_for_status status ∷ [], reject_reads incoming)
