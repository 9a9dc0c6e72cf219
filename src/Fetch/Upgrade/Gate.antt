-- ===== src/Fetch/Upgrade/Gate.antt =====
-- Which WebSocket handshakes of rust/crates/grpc-webnext/src/fetch.rs are served, and what is echoed.
use grpc_webnext.Prelude.{
  ◌≡◌, List, [], ◌∷◌, Option, none, some, Bool, true, false, not, ◌||◌, Bytes, if◌then◌else◌, refl,
}
use grpc_webnext.HttpRule.Router.{WsBinding}
use grpc_webnext.Client.Status.{Status}
use grpc_webnext.Fetch.Upgrade.{
  has, read_offer, is_binary, codec_reject, first_offered, echo, ws_params, websocket, Handshake,
  handle_ws_upgrade, upgrade, ws_subprotocol_proto, ws_subprotocol_json, application_json,
}

abbrev pub is_served : Option Status → Bool
is_served none = true
is_served (some why) = false

-- The gate by what is offered alone: a REST route takes all but the binary codec, another method the
-- codecs by their names, and everything where the configuration allows that.
abbrev pub may_serve : Option WsBinding → List Bytes → Bool → Bool
may_serve (some ann) offered allow = not (has offered ws_subprotocol_proto)
may_serve none offered allow =
    has offered ws_subprotocol_proto || (has offered ws_subprotocol_json || allow)

codec_reject-may_serve :
    (ann : Option WsBinding) (offered : List Bytes) (allow : Bool)
    → is_served (codec_reject ann (read_offer offered) allow) ≡ may_serve ann offered allow
unfolding codec_reject read_offer is_binary
codec_reject-may_serve (some ann) offered allow =
    go (has offered ws_subprotocol_proto) (has offered ws_subprotocol_json)
      (has offered application_json)
  where
    go :
        (b j p : Bool)
        → is_served (
            codec_reject
              (some ann)
              (if b
                then record { codec = some false; explicit = true }
                else if j
                then record { codec = some true; explicit = true }
                else if p
                then record { codec = some true; explicit = false }
                else record { codec = none; explicit = false })
              allow)
          ≡ not b
    go true j p = refl
    go false true p = refl
    go false false true = refl
    go false false false = refl
codec_reject-may_serve none offered allow =
    go (has offered ws_subprotocol_proto) (has offered ws_subprotocol_json)
      (has offered application_json) allow
  where
    go :
        (b j p a : Bool)
        → is_served (
            codec_reject none
              (if b
                then record { codec = some false; explicit = true }
                else if j
                then record { codec = some true; explicit = true }
                else if p
                then record { codec = some true; explicit = false }
                else record { codec = none; explicit = false })
              a)
          ≡ b || (j || a)
    go true j p a = refl
    go false true p a = refl
    go false false true true = refl
    go false false true false = refl
    go false false false true = refl
    go false false false false = refl

-- If a handshake does not offer the tunnel and the upgrade does not fail, then it leads to a WebSocket connection, which is served,
-- and not closed with a status, exactly where the route is a REST route and the binary codec is not
-- offered, or it is none and a codec is offered by its name or implicit codecs are allowed.
pub handle_ws_upgrade-gate :
    (offered : List Bytes) (h2ts path : Bytes) (ann : Option WsBinding) (allow : Bool)
    → has offered h2ts ≡ false
    → (h : Handshake) × (handle_ws_upgrade offered h2ts ann path allow none ≡ websocket h)
      × (is_served h.reject ≡ may_serve ann offered allow)
unfolding handle_ws_upgrade upgrade
handle_ws_upgrade-gate offered h2ts path ann allow e = (
  record {
    reject = codec_reject ann (read_offer offered) allow;
    params = ws_params ann (read_offer offered).codec path;
    protocol = echo offered;
  },
  rw e refl,
  codec_reject-may_serve ann offered allow,
)

first_offered-has :
    (offered ps : List Bytes) (p : Bytes) → first_offered offered ps ≡ some p → has offered p ≡ true
unfolding first_offered
first_offered-has offered [] p e = cc
first_offered-has offered (q ∷ ps) p e = go (has offered q) refl e (first_offered-has offered ps p)
  where
    go :
        (b : Bool)
        → has offered q ≡ b
        → (if b then some q else first_offered offered ps) ≡ some p
        → (first_offered offered ps ≡ some p → has offered p ≡ true)
        → has offered p ≡ true
    go true h e ih = let s : q ≡ p = cc in rw s at h
    go false h e ih = ih e

-- A subprotocol that the answer to a handshake names is one that the client offered.
echo-offered : (offered : List Bytes) (p : Bytes) → echo offered ≡ some p → has offered p ≡ true
unfolding echo
echo-offered offered p e = first_offered-has offered _ p e
