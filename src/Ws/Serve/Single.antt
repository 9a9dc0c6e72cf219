-- ===== src/Ws/Serve/Single.antt =====
-- A connection has one task at a time (`serve` of rust/crates/grpc-webnext/src/ws.rs).
use grpc_webnext.Prelude.{
  ℕ, ◌≡◌, Bool, true, false, List, [], ◌∷◌, ◌++◌, Option, none, some, if◌then◌else◌, refl, All,
  All-append, ◌∙◌,
}
use grpc_webnext.Metadata.{Http}
use grpc_webnext.Ws.Frame.{Kind, TungMessage, text, binary, close, ping, pong}
use grpc_webnext.Ws.Codec.{FrameCodec}
use grpc_webnext.Ws.Serve.{
  StreamState, Conn, Event, silence, close_overdue, close_sent, drain, incoming, ended, failed,
  Config, Act, abort_stream, Turn, go_on, leave, handle_decoded, locked, on_incoming, turn,
  serve_loop, initial,
}
use grpc_webnext.Ws.Serve.Alive.{
  track, live, Small, track-append, Tracks, abort_stream-track, nothing, handle_frame-Tracks,
}

module _ (http : Http) (codec : FrameCodec) {Path' : Type 0} (cfg : Config Path') where
  TurnTracks : Option ℕ → Turn http codec cfg → Type 0
  TurnTracks l (go_on c' acts) = Tracks http codec cfg l (c', acts)
  TurnTracks l (leave c' acts) = Tracks http codec cfg l (c', acts)

  if-TurnTracks :
      (l : Option ℕ) (b : Bool) (x y : Turn http codec cfg)
      → TurnTracks l x
      → TurnTracks l y
      → TurnTracks l (if b then x else y)
  if-TurnTracks l true x y hx hy = hx
  if-TurnTracks l false x y hx hy = hy

  handle_decoded-Tracks :
      (c : Conn) (json : Bool) (k : Option Kind)
      → TurnTracks (live c) (handle_decoded http codec cfg c json k)
  unfolding handle_decoded TurnTracks
  handle_decoded-Tracks c json none = nothing http codec cfg c
  handle_decoded-Tracks c json (some k) = handle_frame-Tracks http codec cfg c json k

  on_incoming-Tracks :
      (c : Conn) (m : TungMessage) → TurnTracks (live c) (on_incoming http codec cfg c m)
  unfolding on_incoming TurnTracks live
  on_incoming-Tracks c (binary bytes) =
      if-TurnTracks (live c) (locked http codec cfg c.codec false) _ _ (nothing http codec cfg _)
        (handle_decoded-Tracks _ false _)
  on_incoming-Tracks c (text content) =
      if-TurnTracks (live c) (locked http codec cfg c.codec true) _ _
        (handle_decoded-Tracks _ true _) (nothing http codec cfg _)
  on_incoming-Tracks c (close reason) = nothing http codec cfg c
  on_incoming-Tracks c ping = nothing http codec cfg c
  on_incoming-Tracks c pong = nothing http codec cfg c

  turn-Tracks : (c : Conn) (e : Event) → TurnTracks (live c) (turn http codec cfg c e)
  unfolding turn TurnTracks live track Small Tracks
  turn-Tracks c silence =
      if-TurnTracks (live c) cfg.keepalive _ _ (nothing http codec cfg c) (nothing http codec cfg c)
  turn-Tracks c close_overdue =
      if-TurnTracks (live c) c.close_armed _ _ (nothing http codec cfg c) (nothing http codec cfg c)
  turn-Tracks c close_sent = nothing http codec cfg (record c { close_armed = true })
  turn-Tracks c drain = go c.stream
    where
      go :
          (o : Option StreamState)
          → TurnTracks
              (live (record c { stream = o }))
              (turn http codec cfg (record c { stream = o }) drain)
      go none =
          if-TurnTracks none c.draining _ _ (nothing http codec cfg (record c { stream = none }))
            (refl, (tt, tt))
      go (some s) =
          if-TurnTracks (some s.task) c.draining _ _
            (nothing http codec cfg (record c { stream = some s })) (refl, tt)
  turn-Tracks c (incoming m) = on_incoming-Tracks c m
  turn-Tracks c ended = nothing http codec cfg c
  turn-Tracks c failed = nothing http codec cfg c

  -- What a run of the loop leaves behind.
  Served : Conn → Bool × (Conn × List (Act http codec cfg)) → Type 0
  Served c (left, (c', acts)) =
      (track (live c) acts ≡ some (if left then none else live c'))
      × All (Small cfg.max_message_bytes) acts

  serve_loop-Served : (c : Conn) (es : List Event) → Served c (serve_loop http codec cfg c es)
  unfolding serve_loop Served Tracks TurnTracks track Small
  serve_loop-Served c [] = (refl, tt)
  serve_loop-Served c (e ∷ es) =
      go (turn http codec cfg c e) (turn-Tracks c e) (λ c'. serve_loop-Served c' es)
    where
      go :
          (t : Turn http codec cfg)
          → TurnTracks (live c) t
          → ((c' : Conn) → Served c' (serve_loop http codec cfg c' es))
          → Served c (elim t [
            | leave c' acts ↦ (true, (c', acts ++ abort_stream http codec cfg c'.stream))
            | go_on c' acts ↦
                let (left, (c'', rest)) = serve_loop http codec cfg c' es in
                (left, (c'', acts ++ rest))
          ])
      go (leave c' acts) (k, s) ih =
          let (a, sa) = abort_stream-track http codec cfg c' in
          (track-append (live c) (live c') acts _ k ∙ a, All-append _ acts _ s sa)
      go (go_on c' acts) (k, s) ih =
          let (a, sa) = ih c' in
          (track-append (live c) (live c') acts _ k ∙ a, All-append _ acts _ s sa)

  -- For every list of events of a connection, each task is spawned while none is alive and only the
  -- task that is alive is aborted; no message beyond the limit is fed to a task; once the loop is
  -- left no task is alive, and until then the task that is alive is the one of the loop's stream.
  pub serve_loop_single :
      (pinned : Option Bool) (es : List Event)
      → (track none (serve_loop http codec cfg (initial pinned) es).1.1
          ≡ some (
              if (serve_loop http codec cfg (initial pinned) es).0
              then none
              else live (serve_loop http codec cfg (initial pinned) es).1.0))
        × All (Small cfg.max_message_bytes) (serve_loop http codec cfg (initial pinned) es).1.1
  unfolding Served live
  serve_loop_single pinned es = serve_loop-Served (initial pinned) es
