-- ===== src/Client/Url.antt =====
-- rust/crates/grpc-webnext-client/src/url.rs: the WebSocket URL and the authority of a base URL.
use grpc_webnext.Prelude.{
  ◌≡◌, List, [], ◌∷◌, ◌++◌, Option, none, some, ◌||◌, Bytes, codes, drop, str_eq, starts_with,
  if◌then◌else◌, refl,
}
use grpc_webnext.Text.Str.{split, trim_end_matches}
use grpc_webnext.Client.Status.{unavailable}
use grpc_webnext.Client.Terminal.{status_new}
use grpc_webnext.Client.Call.{Result, answered, rejected, ◌>>=◌}

-- `s.split_once("://")`.
pub split_scheme : Bytes → Option (Bytes × Bytes)
split_scheme [] = none
split_scheme (c ∷ s) =
    let later : Option (Bytes × Bytes) = elim (split_scheme s) [
      | none ↦ none
      | some (a, b) ↦ some (c ∷ a, b)
    ] in
    if starts_with (c ∷ s) (codes "://") then some ([], drop 3 (c ∷ s)) else later

pub ws_scheme : Bytes → Result Bytes
ws_scheme scheme =
    if str_eq scheme (codes "https") || str_eq scheme (codes "wss")
    then answered (codes "wss")
    else if str_eq scheme (codes "http") || str_eq scheme (codes "ws")
    then answered (codes "ws")
    else rejected (status_new unavailable (codes "unsupported URL scheme: " ++ scheme))

-- `rest.split('/').next()`: the part before the first slash.
pub authority_of : List Bytes → Bytes
authority_of [] = []
authority_of (part ∷ parts) = part

pub websocket_url : Bytes → Result (Bytes × Bytes)
unfolding split_scheme ws_scheme authority_of
websocket_url base_url = elim (split_scheme (trim_end_matches b'/' base_url)) [
  | none ↦ rejected (status_new unavailable (codes "base URL has no scheme: " ++ base_url))
  | some (scheme, rest) ↦ ws_scheme scheme >>= λ ws.
      answered (ws ++ (codes "://" ++ rest), authority_of (split b'/' rest))
]

plain :
    websocket_url (codes "http://127.0.0.1:8080/a/")
    ≡ answered (codes "ws://127.0.0.1:8080/a", codes "127.0.0.1:8080")
unfolding websocket_url split_scheme ws_scheme authority_of split trim_end_matches
plain = refl

no_scheme :
    websocket_url (codes "host")
    ≡ rejected (status_new unavailable (codes "base URL has no scheme: host"))
unfolding websocket_url split_scheme trim_end_matches
no_scheme = refl
