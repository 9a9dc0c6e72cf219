-- ===== src/Ws/Serve.antt =====
-- `serve` and `handle_frame` of rust/crates/grpc-webnext/src/ws.rs: the read loop of a connection.
-- Each turn of its `select!` is an event, so a connection is a list of events. The task of a stream
-- is known to the loop only by being spawned and aborted.
pub mod Alive
pub mod Single
use grpc_webnext.Prelude.{
  ℕ, zero, suc, ◌+◌, Bool, true, false, not, ◌&&◌, List, [], ◌∷◌, ◌++◌, Option, none, some, Bytes,
  codes, length, is_empty, ltb, if◌then◌else◌,
}
use grpc_webnext.Client.Status.{Code, Status}
use grpc_webnext.Metadata.{Http, grpc_timeout_from_millis, metadata_vec_to_metadata}
use grpc_webnext.Ws.Frame.{
  Kind, Subscribe, Metadatum, subscribe, header, message, half_close, trailer, reset, TungMessage,
  text, binary, close, ping, pong,
}
use grpc_webnext.Ws.Codec.{
  FrameCodec, code_number, to_tung, close_normal, close_going_away, decode_binary, decode_text,
}

-- `StreamState`: whether the request side is still open, and the task.
pub record StreamState : Type 0 where
  pub sending : Bool
  pub task : ℕ

-- What the loop does to others, in order.
pub data Effect (Call : Type 0) : Type 0 where
  queue : TungMessage → Effect Call
  spawn : ℕ → Bool → Call → Effect Call
  feed : ℕ → Bytes → Effect Call
  end_request : ℕ → Effect Call
  abort : ℕ → Effect Call

-- The arguments of `run_stream`: the path, the headers' metadata and the deadline.
pub record Call (Path' Metadata : Type 0) : Type 0 where
  pub path : Path'
  pub metadata : Metadata
  pub timeout : Option ℕ

-- The state of the loop. `spawned` numbers the tasks.
pub record Conn : Type 0 where
  pub codec : Option Bool
  pub opened : Bool
  pub stream : Option StreamState
  pub draining : Bool
  pub close_armed : Bool
  pub spawned : ℕ

-- What the loop wakes up for. A message is one of the `incoming` ones; `ended` and `failed` are the
-- end of the stream of messages and an error of it.
pub data Event : Type 0 where
  silence : Event
  close_overdue : Event
  close_sent : Event
  drain : Event
  incoming : TungMessage → Event
  ended failed : Event

-- The configuration of a connection, what its annotation says of a body, and the parser of paths.
pub record Config (Path' : Type 0) : Type 0 where
  pub max_message_bytes : ℕ
  pub method_url : Bytes
  pub annotation_has_body : Option Bool
  pub keepalive : Bool
  pub parse_path : Bytes → Option Path'

module _ (http : Http) (codec : FrameCodec) {Path' : Type 0} (cfg : Config Path') where
  abbrev pub Act : Type 0
  Act = Effect (Call Path' (Http.MetadataMap http))

  pub send_reset : Bool → Code → Bytes → List Act
  send_reset json code why = queue (to_tung codec (some (reset (code_number code) why)) json) ∷ []

  pub reject_stream : Bool → Code → Bytes → List Act
  reject_stream json code why = send_reset json code why ++ queue close_normal ∷ []

  -- `state.task.abort()` on the stream that is taken.
  pub abort_stream : Option StreamState → List Act
  abort_stream none = []
  abort_stream (some s) = abort s.task ∷ []

  -- A stream is opened: the inline message, the empty message of a route with no body, the task.
  -- The channel is there before the task, and what it holds is what the task reads first.
  open_stream : Conn → Bool → Subscribe → Path' → Conn × List Act
  open_stream c json sub path =
      let t = c.spawned in
      let has_body : Bool = elim cfg.annotation_has_body [ none ↦ true | some b ↦ b ] in
      let call : Call Path' (Http.MetadataMap http) = record {
        path = path;
        metadata = metadata_vec_to_metadata http sub.headers;
        timeout = grpc_timeout_from_millis sub.timeout_millis;
      } in
      (
        record c { stream = some (record { sending = has_body; task = t }); spawned = suc t },
        (if is_empty sub.initial_payload then [] else feed t sub.initial_payload ∷ [])
            ++ ((if has_body then [] else feed t [] ∷ [])
                ++ (spawn t json call ∷ (if has_body then [] else end_request t ∷ []))),
      )

  pub on_subscribe : Conn → Bool → Subscribe → Conn × List Act
  on_subscribe c json sub = elim c.stream [
    | some s ↦ (c, send_reset json Code.invalid_argument (codes "stream already open"))
    | none ↦
        if ltb cfg.max_message_bytes (length sub.initial_payload)
        then (
          c,
          reject_stream json Code.resource_exhausted (codes "request message exceeds size limit"),
        )
        else elim (cfg.parse_path sub.method) [
          | none ↦ (c, reject_stream json Code.invalid_argument (codes "invalid method"))
          | some path ↦ open_stream c json sub path
        ]
  ]

  -- A message for the stream, where its request side is open.
  feed_stream : Option StreamState → Bytes → List Act
  feed_stream none payload = []
  feed_stream (some s) payload = if s.sending then feed s.task payload ∷ [] else []

  pub on_message : Conn → Bool → Bytes → Conn × List Act
  on_message c json payload =
      if ltb cfg.max_message_bytes (length payload)
      then (
        record c { stream = none },
        abort_stream c.stream
            ++ reject_stream json Code.resource_exhausted
                (codes "request message exceeds size limit"),
      )
      else (c, feed_stream c.stream payload)

  pub on_half_close : Conn → Conn × List Act
  on_half_close c = elim c.stream [
    | none ↦ (c, [])
    | some s ↦ (
      record c { stream = some (record s { sending = false }) },
      (if s.sending then end_request s.task ∷ [] else []),
    )
  ]

  pub handle_frame : Conn → Bool → Kind → Conn × List Act
  handle_frame c json (subscribe sub) = on_subscribe c json sub
  handle_frame c json (message payload) = on_message c json payload
  handle_frame c json half_close = on_half_close c
  handle_frame c json (reset code why) = (record c { stream = none }, abort_stream c.stream)
  handle_frame c json (header h) = (c, [])
  handle_frame c json (trailer t) = (c, [])

  -- Whether the loop goes on, the state, and what was done.
  pub data Turn : Type 0 where
    go_on : Conn → List Act → Turn
    leave : Conn → List Act → Turn

  handle_decoded : Conn → Bool → Option Kind → Turn
  handle_decoded c json none = go_on c []
  handle_decoded c json (some kind) = let (c', acts) = handle_frame c json kind in go_on c' acts

  -- `*codec.get_or_insert(json)`.
  locked : Option Bool → Bool → Bool
  locked none json = json
  locked (some b) json = b

  pub on_incoming : Conn → TungMessage → Turn
  on_incoming c (binary bytes) =
      let c' = record c { codec = some (locked c.codec false) } in
      let (kind, opened) = decode_binary codec bytes cfg.method_url c.opened in
      if locked c.codec false
      then go_on c' []
      else handle_decoded (record c' { opened = opened }) false kind
  on_incoming c (text content) =
      let c' = record c { codec = some (locked c.codec true) } in
      let (kind, opened) = decode_text codec content cfg.method_url c.opened in
      if locked c.codec true
      then handle_decoded (record c' { opened = opened }) true kind
      else go_on c' []
  on_incoming c (close reason) = leave c []
  on_incoming c ping = go_on c []
  on_incoming c pong = go_on c []

  -- One turn. A branch of the `select!` whose guard does not hold is not taken: the loop stays.
  pub turn : Conn → Event → Turn
  turn c silence = if cfg.keepalive then leave c [] else go_on c []
  turn c close_overdue = if c.close_armed then leave c [] else go_on c []
  turn c close_sent = go_on (record c { close_armed = true }) []
  turn c drain = if c.draining then go_on c [] else elim c.stream [
    | none ↦ leave (record c { draining = true }) (queue close_going_away ∷ [])
    | some s ↦ go_on (record c { draining = true }) []
  ]
  turn c (incoming m) = on_incoming c m
  turn c ended = leave c []
  turn c failed = leave c []

  -- The turns of a list of events: whether the loop was left, the state and the effects. Behind the
  -- loop the stream's task is aborted.
  pub serve_loop : Conn → List Event → Bool × (Conn × List Act)
  serve_loop c [] = (false, (c, []))
  serve_loop c (e ∷ es) = elim (turn c e) [
    | leave c' acts ↦ (true, (c', acts ++ abort_stream c'.stream))
    | go_on c' acts ↦ let (left, (c'', rest)) = serve_loop c' es in (left, (c'', acts ++ rest))
  ]

-- The state before the first turn: the codec is that of the subprotocol, if one was agreed on.
abbrev pub initial : Option Bool → Conn
initial pinned = record {
  codec = pinned;
  opened = false;
  stream = none;
  draining = false;
  close_armed = false;
  spawned = 0;
}
