-- ===== src/Ws/Serve/Alive.antt =====
-- The task that is alive, through the operations of a connection (`serve`, `handle_frame` and what
-- it calls, of rust/crates/grpc-webnext/src/ws.rs).
use grpc_webnext.Prelude.{
  ℕ, ◌≡◌, Bool, true, false, List, [], ◌∷◌, ◌++◌, Option, none, some, Bytes, codes, length,
  is_empty, ltb, ◌==◌, if◌then◌else◌, refl, ap, All, All-append, ltb-false, ◌≤◌, ◌∙◌, sym, arith,
}
use grpc_webnext.Client.Status.{Code}
use grpc_webnext.Metadata.{Http, metadata_vec_to_metadata, grpc_timeout_from_millis}
use grpc_webnext.Ws.Frame.{Kind, Subscribe, subscribe, header, message, half_close, trailer, reset}
use grpc_webnext.Ws.Codec.{FrameCodec}
use grpc_webnext.Ws.Serve.{
  StreamState, Effect, queue, spawn, feed, end_request, abort, Call, Conn, Config, Act, send_reset,
  reject_stream, abort_stream, open_stream, on_subscribe, feed_stream, on_message, on_half_close,
  handle_frame,
}

-- Follows the tasks: the one that is alive after some effects, and nothing where a task is spawned
-- beside one, or one is aborted that is not alive.
unfoldable pub track : {C : Type 0} → Option ℕ → List (Effect C) → Option (Option ℕ)
track live [] = some live
track live (queue m ∷ acts) = track live acts
track live (feed t p ∷ acts) = track live acts
track live (end_request t ∷ acts) = track live acts
track none (spawn t json call ∷ acts) = track (some t) acts
track (some u) (spawn t json call ∷ acts) = none
track none (abort t ∷ acts) = none
track (some u) (abort t ∷ acts) = let rest = track none acts in if u == t then rest else none

-- The task of the stream that the loop holds.
unfoldable pub live : Conn → Option ℕ
live c = elim c.stream [ none ↦ none | some s ↦ some s.task ]

-- Effects in sequence.
pub track-append :
    {C : Type 0} (l m : Option ℕ) (xs bs : List (Effect C))
    → track l xs ≡ some m
    → track l (xs ++ bs) ≡ track m bs
unfolding track
track-append l m [] bs e = let e' : l ≡ m = cc in ap (λ x. track x bs) e'
track-append l m (queue q ∷ xs) bs e = track-append l m xs bs e
track-append l m (feed t p ∷ xs) bs e = track-append l m xs bs e
track-append l m (end_request t ∷ xs) bs e = track-append l m xs bs e
track-append none m (spawn t json call ∷ xs) bs e = track-append (some t) m xs bs e
track-append (some u) m (spawn t json call ∷ xs) bs e = cc
track-append none m (abort t ∷ xs) bs e = cc
track-append (some u) m (abort t ∷ xs) bs e = go (u == t) e (λ k. track-append none m xs bs k)
  where
    go :
        (b : Bool)
        → (if b then track none xs else none) ≡ some m
        → (track none xs ≡ some m → track none (xs ++ bs) ≡ track m bs)
        → (if b then track none (xs ++ bs) else none) ≡ track m bs
    go true k ih = ih k
    go false k ih = cc

-- A message that is fed to a task is within the limit.
unfoldable pub Small : {C : Type 0} → ℕ → Effect C → Type 0
Small max (feed t p) = length p ≤ max
Small max (queue m) = Unit
Small max (spawn t json call) = Unit
Small max (end_request t) = Unit
Small max (abort t) = Unit

module _ (http : Http) (codec : FrameCodec) {Path' : Type 0} (cfg : Config Path') where
  -- The effects of an operation lead from the task of the state before it to that of the state after,
  -- and feed no message beyond the limit.
  unfoldable pub Tracks : Option ℕ → Conn × List (Act http codec cfg) → Type 0
  Tracks l (c', acts) = (track l acts ≡ some (live c')) × All (Small cfg.max_message_bytes) acts

  if-Tracks :
      (l : Option ℕ) (b : Bool) (x y : Conn × List (Act http codec cfg))
      → (b ≡ true → Tracks l x)
      → (b ≡ false → Tracks l y)
      → Tracks l (if b then x else y)
  if-Tracks l true x y hx hy = hx refl
  if-Tracks l false x y hx hy = hy refl

  pub abort_stream-track :
      (c : Conn)
      → (track (live c) (abort_stream http codec cfg c.stream) ≡ some none)
        × All (Small cfg.max_message_bytes) (abort_stream http codec cfg c.stream)
  unfolding track live abort_stream Small
  abort_stream-track c = go c.stream
    where
      go :
          (o : Option StreamState)
          → (track (elim o [ none ↦ none | some s ↦ some s.task ]) (abort_stream http codec cfg o)
              ≡ some none)
            × All (Small cfg.max_message_bytes) (abort_stream http codec cfg o)
      go none = (refl, tt)
      go (some s) = (ground arith, (tt, tt))

  reject_stream-track :
      (l : Option ℕ) (json : Bool) (code : Code) (t : Bytes)
      → (track l (reject_stream http codec cfg json code t) ≡ some l)
        × All (Small cfg.max_message_bytes) (reject_stream http codec cfg json code t)
  unfolding track reject_stream send_reset Small
  reject_stream-track l json code t = (refl, (tt, (tt, tt)))

  feed_stream-track :
      (l : Option ℕ) (o : Option StreamState) (p : Bytes)
      → length p ≤ cfg.max_message_bytes
      → (track l (feed_stream http codec cfg o p) ≡ some l)
        × All (Small cfg.max_message_bytes) (feed_stream http codec cfg o p)
  unfolding track feed_stream Small
  feed_stream-track l none p h = (refl, tt)
  feed_stream-track l (some s) p h = go s.sending
    where
      go :
          (b : Bool)
          → (track {C = Call Path' (Http.MetadataMap http)} l (if b then feed s.task p ∷ [] else [])
              ≡ some l)
            × All
                (Small {C = Call Path' (Http.MetadataMap http)} cfg.max_message_bytes)
                (if b then feed s.task p ∷ [] else [])
      go true = (refl, (h, tt))
      go false = (refl, tt)

  on_message-Tracks :
      (c : Conn) (json : Bool) (p : Bytes) → Tracks (live c) (on_message http codec cfg c json p)
  unfolding Tracks on_message live
  on_message-Tracks c json p =
      let big = codes "request message exceeds size limit" in
      let (a, sa) = abort_stream-track c in
      let (r, sr) = reject_stream-track none json Code.resource_exhausted big in
      if-Tracks (live c) (ltb cfg.max_message_bytes (length p)) _ _
        (λ h. (track-append (live c) none _ _ a ∙ r, All-append _ _ _ sa sr))
        (λ h. feed_stream-track (live c) c.stream p (ltb-false _ _ h))

  on_half_close-Tracks : (c : Conn) → Tracks (live c) (on_half_close http codec cfg c)
  unfolding Tracks on_half_close live track Small
  on_half_close-Tracks c = go c.stream
    where
      go :
          (o : Option StreamState)
          → Tracks
              (elim o [ none ↦ none | some s ↦ some s.task ])
              (on_half_close http codec cfg (record c { stream = o }))
      go none = (refl, tt)
      go (some s) = sends s.sending
        where
          sends :
              (b : Bool)
              → Tracks (some s.task) (
                record c { stream = some (record s { sending = false }) },
                (if b then end_request s.task ∷ [] else []),
              )
          sends true = (refl, (tt, tt))
          sends false = (refl, tt)

  open_stream-Tracks :
      (c : Conn) (json : Bool) (sub : Subscribe) (path : Path')
      → length sub.initial_payload ≤ cfg.max_message_bytes
      → Tracks none (open_stream http codec cfg c json sub path)
  unfolding open_stream Tracks live track Small
  open_stream-Tracks c json sub path h =
      go (is_empty sub.initial_payload) (elim cfg.annotation_has_body [ none ↦ true | some b ↦ b ])
    where
      acts : Bool → Bool → List (Act http codec cfg)
      acts e b =
          (if e then [] else feed c.spawned sub.initial_payload ∷ [])
          ++ ((if b then [] else feed c.spawned [] ∷ [])
              ++ (spawn c.spawned json (record {
                path = path;
                metadata = metadata_vec_to_metadata http sub.headers;
                timeout = grpc_timeout_from_millis sub.timeout_millis;
              })
                  ∷ (if b then [] else end_request c.spawned ∷ [])))

      go :
          (e b : Bool)
          → (track none (acts e b) ≡ some (some c.spawned))
            × All (Small cfg.max_message_bytes) (acts e b)
      go true true = (refl, (tt, tt))
      go true false = (refl, (omega arith, (tt, (tt, tt))))
      go false true = (refl, (h, (tt, tt)))
      go false false = (refl, (h, (omega arith, (tt, (tt, tt)))))

  stays :
      (c : Conn) (l : Option ℕ) (json : Bool) (code : Code) (t : Bytes)
      → live c ≡ l
      → Tracks l (c, reject_stream http codec cfg json code t)
  unfolding Tracks
  stays c l json code t e =
      let (r, sr) = reject_stream-track l json code t in (r ∙ ap some (sym e), sr)

  busy :
      (c : Conn) (json : Bool) (code : Code) (t : Bytes)
      → Tracks (live c) (c, send_reset http codec cfg json code t)
  unfolding Tracks send_reset track Small
  busy c json code t = (refl, (tt, tt))

  dropped :
      (c : Conn)
      → Tracks (live c) (record c { stream = none }, abort_stream http codec cfg c.stream)
  unfolding Tracks live
  dropped c = abort_stream-track c

  pub nothing : (c : Conn) → Tracks (live c) (c, [])
  unfolding Tracks track
  nothing c = (refl, tt)

  on_subscribe-Tracks :
      (c : Conn) (json : Bool) (sub : Subscribe)
      → Tracks (live c) (on_subscribe http codec cfg c json sub)
  unfolding on_subscribe live
  on_subscribe-Tracks c json sub = go c.stream
    where
      valid :
          (c : Conn)
          → live c ≡ none
          → length sub.initial_payload ≤ cfg.max_message_bytes
          → (o : Option Path')
          → Tracks none (elim o [
            | none ↦ (
              c,
              reject_stream http codec cfg json Code.invalid_argument (codes "invalid method"),
            )
            | some path ↦ open_stream http codec cfg c json sub path
          ])
      valid c e h none = stays c none json Code.invalid_argument (codes "invalid method") e
      valid c e h (some path) = open_stream-Tracks c json sub path h

      go :
          (o : Option StreamState)
          → Tracks
              (live (record c { stream = o }))
              (on_subscribe http codec cfg (record c { stream = o }) json sub)
      go none =
          if-Tracks none (ltb cfg.max_message_bytes (length sub.initial_payload)) _ _
            (λ h.
              stays (record c { stream = none }) none json Code.resource_exhausted
                (codes "request message exceeds size limit") refl)
            (λ h.
              valid (record c { stream = none }) refl (ltb-false _ _ h) (cfg.parse_path sub.method))
      go (some s) =
          busy (record c { stream = some s }) json Code.invalid_argument
            (codes "stream already open")

  pub handle_frame-Tracks :
      (c : Conn) (json : Bool) (k : Kind) → Tracks (live c) (handle_frame http codec cfg c json k)
  unfolding handle_frame
  handle_frame-Tracks c json (subscribe sub) = on_subscribe-Tracks c json sub
  handle_frame-Tracks c json (message p) = on_message-Tracks c json p
  handle_frame-Tracks c json half_close = on_half_close-Tracks c
  handle_frame-Tracks c json (reset code why) = dropped c
  handle_frame-Tracks c json (header h) = nothing c
  handle_frame-Tracks c json (trailer t) = nothing c
