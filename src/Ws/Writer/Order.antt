-- ===== src/Ws/Writer/Order.antt =====
-- What the writer puts on the wire (`serve` of rust/crates/grpc-webnext/src/ws.rs).
use grpc_webnext.Prelude.{◌≡◌, List, [], ◌∷◌, ◌++◌, Bool, true, false, any, if◌then◌else◌, refl, ap}
use grpc_webnext.Ws.Frame.{TungMessage, text, binary, close, ping, pong}
use grpc_webnext.Ws.Writer.{
  WriterEvent, outbound, queue_closed, tick, is_close, Written, stopped, send_more, send_close,
  write_loop,
}

-- The messages of the queue, as the writer gets them.
unfoldable pub queued : List WriterEvent → List TungMessage
queued [] = []
queued (queue_closed ∷ events) = []
queued (outbound m sends ∷ events) = m ∷ queued events
queued (tick sends ∷ events) = queued events

-- What is no ping of the keepalive.
unfoldable pub payload : List TungMessage → List TungMessage
payload [] = []
payload (ping ∷ ms) = payload ms
payload (text content ∷ ms) = text content ∷ payload ms
payload (binary bytes ∷ ms) = binary bytes ∷ payload ms
payload (close reason ∷ ms) = close reason ∷ payload ms
payload (pong ∷ ms) = pong ∷ payload ms

-- Nothing stands behind a close.
pub CloseLast : List TungMessage → Type 0
CloseLast [] = Unit
CloseLast (m ∷ ms) = (is_close m ≡ true → ms ≡ []) × CloseLast ms

-- What holds of what was written of a queue.
Orderly : Written → List TungMessage → Type 0
Orderly w queue =
    CloseLast w.wire
    × (w.told ≡ any is_close w.wire)
    × ((rest : List TungMessage) × (payload w.wire ++ rest ≡ payload queue))

stopped-Orderly : (queue : List TungMessage) → Orderly stopped queue
unfolding Orderly CloseLast payload
stopped-Orderly queue = (tt, refl, (payload queue, refl))

ping-Orderly :
    (w : Written) (queue : List TungMessage) → Orderly w queue → Orderly (send_more ping w) queue
unfolding Orderly CloseLast payload send_more
ping-Orderly w queue (c, t, r) = ((λ e. cc, c), t, r)

message-Orderly :
    (m : TungMessage) (w : Written) (queue : List TungMessage)
    → is_close m ≡ false
    → Orderly w queue
    → Orderly (send_more m w) (m ∷ queue)
unfolding Orderly CloseLast payload send_more
message-Orderly (text x) w queue e (c, t, (rest, r)) =
    ((λ z. cc, c), t, (rest, ap (λ l. text x ∷ l) r))
message-Orderly (binary x) w queue e (c, t, (rest, r)) =
    ((λ z. cc, c), t, (rest, ap (λ l. binary x ∷ l) r))
message-Orderly ping w queue e (c, t, r) = ((λ z. cc, c), t, r)
message-Orderly pong w queue e (c, t, (rest, r)) = ((λ z. cc, c), t, (rest, ap (λ l. pong ∷ l) r))
message-Orderly (close x) w queue e h = cc

close-Orderly :
    (m : TungMessage) (queue : List TungMessage)
    → is_close m ≡ true
    → Orderly (send_close m) (m ∷ queue)
unfolding Orderly CloseLast payload send_close
close-Orderly (close x) queue e = ((λ z. refl, tt), refl, (payload queue, refl))
close-Orderly (text x) queue e = cc
close-Orderly (binary x) queue e = cc
close-Orderly ping queue e = cc
close-Orderly pong queue e = cc

write_loop-Orderly :
    (keepalive : Bool) (events : List WriterEvent)
    → Orderly (write_loop keepalive events) (queued events)
unfolding write_loop queued
write_loop-Orderly keepalive [] = stopped-Orderly []
write_loop-Orderly keepalive (queue_closed ∷ events) = stopped-Orderly []
write_loop-Orderly false (tick sends ∷ events) = write_loop-Orderly false events
write_loop-Orderly true (tick true ∷ events) =
    ping-Orderly (write_loop true events) (queued events) (write_loop-Orderly true events)
write_loop-Orderly true (tick false ∷ events) = stopped-Orderly (queued events)
write_loop-Orderly keepalive (outbound m false ∷ events) = stopped-Orderly (m ∷ queued events)
write_loop-Orderly keepalive (outbound m true ∷ events) =
    go (is_close m) refl (write_loop-Orderly keepalive events)
  where
    go :
        (b : Bool)
        → is_close m ≡ b
        → Orderly (write_loop keepalive events) (queued events)
        → Orderly
            (if b then send_close m else send_more m (write_loop keepalive events))
            (m ∷ queued events)
    go true e h = close-Orderly m (queued events) e
    go false e h = message-Orderly m (write_loop keepalive events) (queued events) e h

-- Whatever the queue, the timer and the socket do: nothing follows a close on the wire, the read loop
-- is told of a close exactly when one was sent, and what is sent, less the pings, is a first part of
-- the queue's messages in order, less any pings.
pub write_loop-CloseLast :
    (keepalive : Bool) (events : List WriterEvent)
    → CloseLast (write_loop keepalive events).wire
      × ((write_loop keepalive events).told ≡ any is_close (write_loop keepalive events).wire)
      × ((rest : List TungMessage) × (payload (write_loop keepalive events).wire ++ rest
            ≡ payload (queued events)))
unfolding Orderly
write_loop-CloseLast keepalive events = write_loop-Orderly keepalive events
