-- ===== src/Runtime/Tunnel.antt =====
-- HTTP/2 in a WebSocket: `serve` of rust/crates/grpc-webnext/src/h2ts.rs. The handshake, the tunnel and
-- the routes of tonic are given by what they answer.
pub mod Guard
use grpc_webnext.Prelude.{
  List, [], ◌∷◌, ◌++◌, ℕ, Option, none, some, Bool, true, false, Bytes, codes, if◌then◌else◌, ◌⊎◌,
  inl, inr,
}
use grpc_webnext.Text.Decimal.{decimal}
use grpc_webnext.Client.Status.{Code, deadline_exceeded}
use grpc_webnext.Metadata.{Http, parse_grpc_timeout}
use grpc_webnext.Backend.{BodyFrame, body_data, body_trailers, body_error, Reply}
use grpc_webnext.Wire.SizeLimit.{GrpcSizeLimit, Inspected, passed, exceeded, stuck, inspect}
use grpc_webnext.Wire.SizeLimit
use grpc_webnext.Runtime.{Backend, in_process, upstream, Runtime}

-- The text of the guard's error.
pub too_large : ℕ → Bytes
too_large max = codes "request message exceeds size limit (" ++ (decimal max ++ codes " bytes)")

pub put_frame :
    {H : Type 0} → BodyFrame H → Option (List (BodyFrame H)) → Option (List (BodyFrame H))
put_frame f none = none
put_frame f (some fs) = some (f ∷ fs)

-- What a reader that stops at an error sees of a guarded body; `none` is out of fuel.
pub guarded : {H : Type 0} → GrpcSizeLimit → List (BodyFrame H) → Option (List (BodyFrame H))
unfolding put_frame
guarded s [] = some []
guarded s (body_error e ∷ frames) = some (body_error e ∷ [])
guarded s (body_trailers t ∷ frames) = put_frame (body_trailers t) (guarded s frames)
guarded s (body_data b ∷ frames) = elim (inspect s b) [
  | passed s' ↦ put_frame (body_data b) (guarded s' frames)
  | exceeded ↦ some (body_error (too_large s.max) ∷ [])
  | stuck ↦ none
]

-- What a call in the tunnel answers: the routes' reply, or a status of the server's own.
pub data Served (H : Type 0) : Type 0 where
  replied : Reply H → Served H
  status_only : Code → Bytes → Served H
  no_fuel : Served H

module _ (http : Http) where
  open http use {HeaderMap}

  pub routed :
      (HeaderMap → List (BodyFrame HeaderMap) → Reply HeaderMap)
      → HeaderMap
      → Option (List (BodyFrame HeaderMap))
      → Served HeaderMap
  routed routes headers none = no_fuel
  routed routes headers (some frames) = replied (routes headers frames)

  -- The service of an in-process tunnel: `late` where the deadline passes before the routes answer.
  pub serve_call :
      (HeaderMap → List (BodyFrame HeaderMap) → Reply HeaderMap)
      → ℕ
      → Bool
      → HeaderMap
      → List (BodyFrame HeaderMap)
      → Served HeaderMap
  unfolding routed
  serve_call routes max late headers frames =
      let answer = routed routes headers (guarded (SizeLimit.new max) frames) in
      elim (parse_grpc_timeout http headers) [
        | none ↦ answer
        | some d ↦
            if late then status_only deadline_exceeded (codes "deadline exceeded") else answer
      ]

-- What becomes of a handshake that offers `h2ts`.
pub data Tunnel : Type 0 where
  refused upgrade_failed serving_http2 no_authority : Tunnel
  connect_failed bridged : Bytes → Tunnel

-- The bridge to the upstream, `connects` saying whether it can be reached.
bridge : Option Bytes → (Bytes → Bool) → Tunnel
bridge none connects = no_authority
bridge (some authority) connects =
    if connects authority then bridged authority else connect_failed authority

-- `serve`: `accepts` is the handshake, and `upgraded` whether a WebSocket comes of it.
pub serve : Runtime → Bool → Bool → (Bytes → Bool) → Tunnel
serve rt accepts upgraded connects =
    if accepts
    then (if upgraded
        then elim rt.backend [
          | in_process ↦ serving_http2
          | upstream ↦ bridge rt.cfg.upstream_authority connects
        ]
        else upgrade_failed)
    else refused
