-- ===== src/Examples/Drains.antt =====
-- A server that shuts down, a tunnel, and the body of a generated stub, at concrete inputs.
use grpc_webnext.Prelude.{
  ℕ, ◌≡◌, List, [], ◌∷◌, ◌++◌, Option, none, some, true, false, Bytes, codes, length, map, any, All,
  ltb, refl, arith,
}
use grpc_webnext.Client.Status.{deadline_exceeded}
use grpc_webnext.Metadata.{parse_grpc_timeout}
use grpc_webnext.Metadata.Status.{AsciiText}
use grpc_webnext.Backend.{BodyFrame, body_data, body_error, Reply, response}
use grpc_webnext.Wire.Grpc.{frame}
use grpc_webnext.Wire.BigEndian.{put_u32}
use grpc_webnext.Drain.{
  Server, checking, subscribing, over, start, accept, stop, release, begin, resolve, moved,
  left_gate, check_started, started, channel, take_token, drop_token, send_start,
}
use grpc_webnext.Drain.Steps.{
  check, accepted, stopped, released, begun, turned, finish_resolved, Reachable, here, step,
}
use grpc_webnext.Drain.Told.{Told, resolved-over, started-Told}
use grpc_webnext.Runtime.Tunnel.{serve_call, replied, status_only}
use grpc_webnext.Runtime.Tunnel.Guard.{serve_call-frames}
use grpc_webnext.Client.Streaming.{chunk}
use grpc_webnext.Client.Tonic.{Headers, Inner, poll_all, grpc_timeout}
use grpc_webnext.Client.Tonic.Body.{
  shown, yields, Outlasts, poll_all-ended, ending, poll_all-relays,
}
use grpc_webnext.Client.Tonic.Timeout.{grpc_timeout-parse_grpc_timeout}
use grpc_webnext.Examples.Headers.{Entries, small_http, small_http-AsciiText}

-- A clone of a receiver has seen what the receiver has.
abbrev same_seen : ℕ → ℕ → ℕ
same_seen own current = own

-- A drain with no connection.
abbrev emptied : Server
emptied = resolve (begin (release (stop start)))

emptied_reachable : Reachable same_seen emptied
unfolding resolve begin release stop start channel drop_token send_start
emptied_reachable =
    step (step (step (step here stopped) (released refl refl)) (begun refl refl))
      (finish_resolved refl refl)

resolved-over_example :
    (emptied.gate.value ≡ true)
    × (emptied.accepting ≡ false)
    × All (λ c. c ≡ over) emptied.conns
    × (emptied.workers ≡ 0)
unfolding resolve begin release stop start
resolved-over_example = resolved-over same_seen (λ own current. refl) emptied_reachable refl

-- A drain that begins between a connection's check and its subscription.
abbrev raced : Server
raced = begin (release (stop (moved (accept start) [] subscribing [])))

raced_reachable : Reachable same_seen raced
unfolding begin release stop moved accept start left_gate check_started started channel take_token
    drop_token send_start
raced_reachable =
    step
      (step
        (step (step (step here (accepted refl)) (turned [] [] checking subscribing refl check))
          stopped)
        (released refl refl))
      (begun refl refl)

started-Told_example : All (Told same_seen raced.gate) raced.conns
unfolding begin send_start
started-Told_example = started-Told same_seen (λ own current. refl) raced_reachable refl

abbrev try : Headers small_http
try = record { name_from = λ n. some n; value_from = λ v. some v }

abbrev stalled : Inner
stalled = record {
  body = some (chunk (codes "x")) ∷ none ∷ none ∷ none ∷ [];
  trailers = none;
  deadline = some 2;
  ended = false;
}

poll_all-ended_example : (poll_all small_http try 3 stalled).1.ended ≡ true
poll_all-ended_example = poll_all-ended small_http try 2 stalled refl

abbrev events : List (Option Bytes)
events = some (codes "x") ∷ none ∷ some (codes "y") ∷ []

abbrev final : Option Entries
final = some ((codes "grpc-status", codes "0") ∷ [])

grpc_timeout-parse_grpc_timeout_example :
    grpc_timeout small_http try ((codes "grpc-timeout", codes "5S") ∷ [])
    ≡ parse_grpc_timeout small_http ((codes "grpc-timeout", codes "5S") ∷ [])
unfolding AsciiText
grpc_timeout-parse_grpc_timeout_example =
    grpc_timeout-parse_grpc_timeout small_http try small_http-AsciiText
      ((codes "grpc-timeout", codes "5S") ∷ [])

abbrev echo_routes : Entries → List (BodyFrame Entries) → Reply Entries
echo_routes headers frames = response headers frames

-- The message `a`, in two chunks.
abbrev halves : List Bytes
halves = (0 ∷ 0 ∷ 0 ∷ []) ∷ (0 ∷ 1 ∷ b'a' ∷ []) ∷ []

serve_call-frames_example :
    ((d : ℕ)
      → parse_grpc_timeout small_http [] ≡ some d
      → serve_call small_http echo_routes 2 true [] (map body_data halves)
        ≡ status_only deadline_exceeded (codes "deadline exceeded"))
    × (any (λ m. ltb 2 (length m)) (codes "a" ∷ []) ≡ false
        → serve_call small_http echo_routes 2 false [] (map body_data halves)
          ≡ replied (echo_routes [] (map body_data halves)))
    × (any (λ m. ltb 2 (length m)) (codes "a" ∷ []) ≡ true
        → (read left : List Bytes) × (why : Bytes) × (halves ≡ read ++ left)
          × (serve_call small_http echo_routes 2 false [] (map body_data halves)
              ≡ replied (echo_routes [] (map body_data read ++ body_error why ∷ []))))
unfolding frame put_u32
serve_call-frames_example =
    serve_call-frames small_http echo_routes 2 [] (codes "a" ∷ []) halves (omega arith, tt) refl

poll_all-relays_example :
    (poll_all small_http try 4
      (record { body = map yields events; trailers = final; deadline = some 4; ended = false })).0
    ≡ map shown events ++ ending small_http try final ∷ []
unfolding Outlasts
poll_all-relays_example = poll_all-relays small_http try events final (some 4) (omega arith)
