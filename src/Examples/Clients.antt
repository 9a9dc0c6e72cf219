-- ===== src/Examples/Clients.antt =====
-- The client at concrete inputs, and the routing of the server.
use grpc_webnext.Prelude.{
  ◌≡◌, ◌≢◌, List, [], ◌∷◌, none, some, false, Bytes, codes, map, flatten, All, refl, arith,
  if◌then◌else◌, true, any, ◌++◌, ◌==◌,
}
use grpc_webnext.Text.Decimal.{decimal, decimal_loop}
use grpc_webnext.Wire.BigEndian.{put_u32, get_u32}
use grpc_webnext.Wire.Grpc.{frame}
use grpc_webnext.Ws.Codec.{code_number}
use grpc_webnext.Client.Status.{Code, not_found, unavailable}
use grpc_webnext.Client.Deframer.{encode_message, push_loop, flag_at, over_limit, settle, push}
use grpc_webnext.Client.Metadata
use grpc_webnext.Client.Metadata.{Base64, get}
use grpc_webnext.Client.Terminal.{
  Status, Texts, look_up, grpc_status, grpc_message, from_headers, is_ok, status_new,
}
use grpc_webnext.Client.Terminal.Codes.{from_headers-code}
use grpc_webnext.Client.Watch.{
  Watcher, watch, same, is_state, ConnectivityState, idle, connecting, ready, default,
}
use grpc_webnext.Client.Watch
use grpc_webnext.Client.Watch.Changes.{set_to, watched, abandoned, acts, Honest}
use grpc_webnext.Client.Watch.Delivered.{changes, acts-watchers}
use grpc_webnext.Client.Channel
use grpc_webnext.Client.Channel.{with_connector, enter, forget, live, waiting, connected}
use grpc_webnext.Client.Channel.Steps.{
  reconnecting, step, entered, settled, Consistent, Reachable-Consistent,
}
use grpc_webnext.Client.Channel.Redial.{on_conn, send_on-redials}
use grpc_webnext.Client.Streaming.{
  Streaming, chunk, stuck, finish_loop, trailers_status, next_message, message_from, ready_or,
  pushed, end_of_body, fired, tick,
}
use grpc_webnext.Client.Streaming.Progress.{finish_loop-returns}
use grpc_webnext.Client.Streaming.Delivery.{finish_loop-delivers}
use grpc_webnext.Client.Call.{
  not_sent, send_on, CallOptions, Response, answered, rejected, bytes, single_response,
}
use grpc_webnext.Client.Call.Answers.{single_response-answers}
use grpc_webnext.Fetch.Upgrade.{Handshake, has, handle_ws_upgrade, websocket}
use grpc_webnext.Fetch.Upgrade.Gate.{is_served, may_serve, handle_ws_upgrade-gate}

abbrev pub no_base64 : Base64
no_base64 = record { encode = λ b. b; decode = λ s. none; decode_no_pad = λ s. none }

abbrev pub plain_texts : Texts
plain_texts = record { trim = λ s. s; percent_decode_utf8 = λ s. some s }

abbrev pub silent : Code → Bytes
silent c = []

abbrev five : List (Bytes × Bytes)
five = (grpc_status, codes "5") ∷ (codes "x", codes "y") ∷ []

from_headers-code_example :
    (s : Status) × (from_headers no_base64 plain_texts five ≡ some s)
    × (s.code ≡ not_found)
    × (get s.metadata grpc_status ≡ none)
    × (get s.metadata grpc_message ≡ none)
unfolding look_up decimal decimal_loop code_number
from_headers-code_example = from_headers-code no_base64 plain_texts five not_found refl refl

Reachable-Consistent_example : Consistent (Channel.settle (enter with_connector).0 (connected 7))
Reachable-Consistent_example = Reachable-Consistent (
    step (step reconnecting (entered with_connector))
      (settled (enter with_connector).0 (connected 7)))

-- A stream that has been opened, with two messages in two chunks.
abbrev opened : Streaming
opened = record {
  headers = Metadata.new;
  body = chunk (0 ∷ 0 ∷ 0 ∷ []) ∷ chunk (0 ∷ 1 ∷ b'a' ∷ 0 ∷ 0 ∷ 0 ∷ 0 ∷ 0 ∷ []) ∷ [];
  trailers = some ((grpc_status, codes "0") ∷ []);
  deframer = record { buffer = []; max_message_bytes = none };
  ready = [];
  ended = false;
  failed = none;
  deadline = none;
}

finish_loop-returns_example : finish_loop silent no_base64 plain_texts 12 opened [] ≢ stuck
finish_loop-returns_example =
    finish_loop-returns silent no_base64 plain_texts 12 opened [] (omega arith)

finish_loop-delivers_example : codes "a" ∷ [] ∷ [] ≡ codes "a" ∷ [] ∷ []
unfolding frame put_u32 finish_loop next_message message_from ready_or pushed end_of_body fired tick
    push push_loop flag_at over_limit settle get_u32
finish_loop-delivers_example =
    finish_loop-delivers silent no_base64 plain_texts 12 opened
      ((0 ∷ 0 ∷ 0 ∷ []) ∷ (0 ∷ 1 ∷ b'a' ∷ 0 ∷ 0 ∷ 0 ∷ 0 ∷ 0 ∷ []) ∷ []) (codes "a" ∷ [] ∷ [])
      (codes "a" ∷ [] ∷ []) _ refl refl refl refl refl (omega arith, (omega arith, tt)) refl

abbrev pub reply_ok : Response
reply_ok = record {
  status = 200;
  headers = [];
  body = [];
  trailers = some ((grpc_status, codes "0") ∷ []);
}

abbrev pub plain_options : CallOptions
plain_options = record { metadata = Metadata.new; timeout = none; max_message_bytes = some 4 }

single_response-answers_example :
    single_response silent no_base64 plain_texts plain_options false
      (answered reply_ok)
      (bytes (flatten (map encode_message (codes "ab" ∷ []))))
    ≡ (if is_ok (trailers_status silent no_base64 plain_texts reply_ok.trailers)
        then answered (record {
          message = codes "ab";
          headers = Metadata.from_headers no_base64 [];
          trailers = (trailers_status silent no_base64 plain_texts reply_ok.trailers).metadata;
        })
        else rejected (trailers_status silent no_base64 plain_texts reply_ok.trailers))
unfolding from_headers look_up over_limit
single_response-answers_example =
    single_response-answers silent no_base64 plain_texts plain_options reply_ok (codes "ab") [] refl
      refl (omega arith, tt) refl

handle_ws_upgrade-gate_example :
    (h : Handshake) × (handle_ws_upgrade
        (codes "grpc-webnext+json" ∷ [])
        (codes "h2ts")
        none
        (codes "/e/U")
        false
        none
      ≡ websocket h)
    × (is_served h.reject ≡ may_serve none (codes "grpc-webnext+json" ∷ []) false)
unfolding has
handle_ws_upgrade-gate_example =
    handle_ws_upgrade-gate (codes "grpc-webnext+json" ∷ []) (codes "h2ts") (codes "/e/U") none false
      refl

acts-watchers_example :
    let now = watch (acts default (watched ∷ set_to connecting ∷ [])) in
    let after = set_to connecting ∷ set_to ready ∷ abandoned (λ v. false) ∷ set_to idle ∷ [] in
    All (Honest (acts now after).state) (acts now after).watchers
    × ((others : List Watcher) × (later : List Watcher) × ((acts now after).watchers
          ≡ others
            ++ record {
              seen = changes (acts default (watched ∷ set_to connecting ∷ [])).state after;
              receiving = true;
            }
              ∷ later))
unfolding Watch.set same watch is_state
acts-watchers_example =
    acts-watchers (watched ∷ set_to connecting ∷ [])
      (set_to connecting ∷ set_to ready ∷ abandoned (λ v. false) ∷ set_to idle ∷ []) (refl, tt)

send_on-redials_example :
    let before = on_conn 7 default (7 ∷ []) 1 in
    let (after, result) = send_on before 7 (not_sent (codes "reset")) in
    let redialed = Channel.settle (enter after).0 (connected 8) in
    (result ≡ rejected (status_new unavailable (codes "request failed: " ++ codes "reset")))
    × (any (λ c. c == 7) (7 ∷ []) ≡ true
        → (Watch.get after.state ≡ idle)
          × ((enter after).1 ≡ waiting 1)
          × (Watch.get redialed.state ≡ ready)
          × ((enter redialed).1 ≡ live 8))
    × (any (λ c. c == 7) (7 ∷ []) ≡ false → (after ≡ before) × (enter after ≡ (before, live 7)))
send_on-redials_example = send_on-redials 7 8 default (7 ∷ []) 1 (codes "reset") refl
