-- ===== src/Runtime/Tunnel/Guard.antt =====
-- The calls of an in-process tunnel (rust/crates/grpc-webnext/src/h2ts.rs).
use grpc_webnext.Prelude.{
  ℕ, ◌<◌, ◌≡◌, ◌^◌, List, [], ◌∷◌, ◌++◌, Option, none, some, true, false, Bytes, codes, length, map,
  any, All, flatten, ltb, if◌then◌else◌, refl, ap,
}
use grpc_webnext.Client.Status.{deadline_exceeded}
use grpc_webnext.Metadata.{Http, parse_grpc_timeout}
use grpc_webnext.Backend.{BodyFrame, body_data, body_error, Reply}
use grpc_webnext.Wire.Grpc.{frame}
use grpc_webnext.Wire.SizeLimit
use grpc_webnext.Wire.SizeLimit.{GrpcSizeLimit, Inspected, passed, exceeded, stuck, inspect, feed}
use grpc_webnext.Wire.SizeLimit.Frames.{feed-frames, feed-frames_exceeded}
use grpc_webnext.Runtime.Tunnel.{
  too_large, put_frame, guarded, replied, status_only, routed, serve_call,
}

module _ {H : Type 0} where
  -- A body that passes the guard is seen as it is.
  guarded-passed :
      (s t : GrpcSizeLimit) (cs : List Bytes)
      → feed s cs ≡ passed t
      → guarded {H = H} s (map body_data cs) ≡ some (map body_data cs)
  unfolding guarded feed
  guarded-passed s t [] e = refl
  guarded-passed s t (c ∷ cs) e = go (inspect s c) (λ s' q. guarded-passed s' t cs q) e
    where
      go :
          (o : Inspected)
          → ((s' : GrpcSizeLimit)
              → feed s' cs ≡ passed t
              → guarded {H = H} s' (map body_data cs) ≡ some (map body_data cs))
          → elim o [ passed s' ↦ feed s' cs | exceeded ↦ exceeded | stuck ↦ stuck ] ≡ passed t
          → elim o [
            | passed s' ↦ put_frame {H = H} (body_data c) (guarded s' (map body_data cs))
            | exceeded ↦ some (body_error (too_large s.max) ∷ [])
            | stuck ↦ none
          ]
            ≡ some (map body_data (c ∷ cs))
      go (passed s') ih q = ap (put_frame (body_data c)) (ih s' q)
      go exceeded ih q = cc
      go stuck ih q = cc

  -- A body that the guard stops: what was read of it, and an error.
  record Stopped (cs : List Bytes) (r : Option (List (BodyFrame H))) : Type 0 where
    pub read : List Bytes
    pub left : List Bytes
    pub why : Bytes
    pub parts : cs ≡ read ++ left
    pub result : r ≡ some (map body_data read ++ body_error why ∷ [])

  guarded-exceeded :
      (s : GrpcSizeLimit) (cs : List Bytes)
      → feed s cs ≡ exceeded
      → Stopped cs (guarded {H = H} s (map body_data cs))
  unfolding guarded feed put_frame
  guarded-exceeded s [] e = cc
  guarded-exceeded s (c ∷ cs) e = go (inspect s c) (λ s' q. guarded-exceeded s' cs q) e
    where
      go :
          (o : Inspected)
          → ((s' : GrpcSizeLimit)
              → feed s' cs ≡ exceeded
              → Stopped cs (guarded {H = H} s' (map body_data cs)))
          → elim o [ passed s' ↦ feed s' cs | exceeded ↦ exceeded | stuck ↦ stuck ] ≡ exceeded
          → Stopped (c ∷ cs) (elim o [
            | passed s' ↦ put_frame {H = H} (body_data c) (guarded s' (map body_data cs))
            | exceeded ↦ some (body_error (too_large s.max) ∷ [])
            | stuck ↦ none
          ])
      go (passed s') ih q =
          let st = ih s' q in
          record {
            read = c ∷ st.read;
            left = st.left;
            why = st.why;
            parts = ap (λ l. c ∷ l) st.parts;
            result = ap (put_frame (body_data c)) st.result;
          }
      go exceeded ih q = record {
        read = [];
        left = c ∷ cs;
        why = too_large s.max;
        parts = refl;
        result = refl;
      }
      go stuck ih q = cc

-- If the body of a call in the tunnel is the frames of messages shorter than 2^32 bytes, cut into any
-- chunks, then: if a deadline is set and passes, the answer is DEADLINE_EXCEEDED; if none passes and
-- every message is within the limit, the routes answer the body as it came; and if none passes and a
-- message is over the limit, the routes answer some first chunks of it, followed by an error.
pub serve_call-frames :
    (http : Http) (routes : http.HeaderMap → List (BodyFrame http.HeaderMap) → Reply http.HeaderMap)
    (max : ℕ) (headers : http.HeaderMap) (ms cs : List Bytes)
    → All (λ m. length m < 2 ^ 32) ms
    → flatten cs ≡ flatten (map frame ms)
    → ((d : ℕ)
        → parse_grpc_timeout http headers ≡ some d
        → serve_call http routes max true headers (map body_data cs)
          ≡ status_only deadline_exceeded (codes "deadline exceeded"))
      × (any (λ m. ltb max (length m)) ms ≡ false
          → serve_call http routes max false headers (map body_data cs)
            ≡ replied (routes headers (map body_data cs)))
      × (any (λ m. ltb max (length m)) ms ≡ true
          → (read left : List Bytes) × (why : Bytes) × (cs ≡ read ++ left)
            × (serve_call http routes max false headers (map body_data cs)
                ≡ replied (routes headers (map body_data read ++ body_error why ∷ []))))
unfolding serve_call routed
serve_call-frames http routes max headers ms cs small e = (
  λ d q. rw (q, serve_call) refl,
  λ within.
      let (t, q, r) = feed-frames max ms cs small e within in
      in_time (parse_grpc_timeout http headers) _ _ (guarded-passed (SizeLimit.new max) t cs q),
  λ over.
      let st =
        guarded-exceeded (SizeLimit.new max) cs (feed-frames_exceeded max ms cs small e over) in
      (st.read, st.left, st.why, st.parts, in_time (parse_grpc_timeout http headers) _ _ st.result),
)
  where
    in_time :
        (o : Option ℕ) (r : Option (List (BodyFrame http.HeaderMap)))
        (frames : List (BodyFrame http.HeaderMap))
        → r ≡ some frames
        → elim o [
          | none ↦ routed http routes headers r
          | some d ↦
              if false
              then status_only deadline_exceeded (codes "deadline exceeded")
              else routed http routes headers r
        ]
          ≡ replied (routes headers frames)
    in_time none r frames q = ap (routed http routes headers) q
    in_time (some d) r frames q = ap (routed http routes headers) q
