-- ===== src/Fetch/Upgrade.antt =====
-- The WebSocket handshake of rust/crates/grpc-webnext/src/fetch.rs (`handle_ws_upgrade`) and
-- `ws_subprotocols` of rust/crates/grpc-webnext/src/lib.rs.
pub mod Gate
use grpc_webnext.Prelude.{
  List, [], ◌∷◌, ◌++◌, Option, none, some, Bool, true, false, not, Bytes, codes, any, str_eq,
  if◌then◌else◌, map, is_empty, retain,
}
use grpc_webnext.Text.Str.{split}
use grpc_webnext.Client.Status.{Code, Status, failed_precondition, unimplemented}
use grpc_webnext.Metadata.{Http, text_of}
use grpc_webnext.HttpRule.Router.{WsBinding}

abbrev pub ws_subprotocol : Bytes
ws_subprotocol = codes "grpc-webnext"

abbrev pub ws_subprotocol_proto : Bytes
ws_subprotocol_proto = codes "grpc-webnext+proto"

abbrev pub ws_subprotocol_json : Bytes
ws_subprotocol_json = codes "grpc-webnext+json"

abbrev pub application_json : Bytes
application_json = codes "application/json"

-- The codec that a handshake asks for, `some true` for JSON, and whether by a codec's own name.
pub record Offer : Type 0 where
  pub codec : Option Bool
  pub explicit : Bool

unfoldable pub has : List Bytes → Bytes → Bool
has offered s = any (λ p. str_eq p s) offered

pub read_offer : List Bytes → Offer
read_offer offered =
    if has offered ws_subprotocol_proto
    then record { codec = some false; explicit = true }
    else if has offered ws_subprotocol_json
    then record { codec = some true; explicit = true }
    else if has offered application_json
    then record { codec = some true; explicit = false }
    else record { codec = none; explicit = false }

-- `codec == Some(false)`.
pub is_binary : Option Bool → Bool
is_binary (some false) = true
is_binary codec = false

-- `codec_reject`: the status that the connection is closed with, if any.
pub codec_reject : Option WsBinding → Offer → Bool → Option Status
codec_reject (some ann) offer allow_implicit_codec =
    if is_binary offer.codec
    then some (record {
      code = failed_precondition;
      message =
          codes
            "REST WebSocket routes are JSON: use a blank, application/json, or grpc-webnext+json subprotocol";
    })
    else none
codec_reject none offer allow_implicit_codec =
    if offer.explicit
    then none
    else if not allow_implicit_codec
    then some (record {
      code = unimplemented;
      message =
          codes "this websocket requires a grpc-webnext+proto or grpc-webnext+json subprotocol";
    })
    else none

-- `iter.find(|&p| has(p))`.
first_offered : List Bytes → List Bytes → Option Bytes
first_offered offered [] = none
first_offered offered (p ∷ ps) = if has offered p then some p else first_offered offered ps

pub echo : List Bytes → Option Bytes
echo offered =
    first_offered offered
      (ws_subprotocol_proto ∷ ws_subprotocol_json ∷ ws_subprotocol ∷ application_json ∷ [])

-- `WsParams`.
pub record WsParams : Type 0 where
  pub codec : Option Bool
  pub method : Bytes
  pub annotation : Option WsBinding

pub ws_params : Option WsBinding → Option Bool → Bytes → WsParams
ws_params (some ann) codec path = record {
  codec = some true;
  method = ann.binding.grpc_method;
  annotation = some ann;
}
ws_params none codec path = record { codec = codec; method = path; annotation = none }

-- What the handshake leads to: the connection that is served, and the subprotocol of the answer.
pub record Handshake : Type 0 where
  pub reject : Option Status
  pub params : WsParams
  pub protocol : Option Bytes

pub data Upgraded : Type 0 where
  tunnel : Upgraded
  websocket : Handshake → Upgraded
  bad_request : Bytes → Upgraded

-- `hyper_tungstenite::upgrade`: an error's text, if any.
upgrade : Option Bytes → Handshake → Upgraded
upgrade none h = websocket h
upgrade (some e) h = bad_request (codes "upgrade failed: " ++ e)

-- `ws_annotation` is the REST route of the URL, if any, and `error` what the upgrade fails with.
pub handle_ws_upgrade :
    List Bytes → Bytes → Option WsBinding → Bytes → Bool → Option Bytes → Upgraded
handle_ws_upgrade offered h2ts ws_annotation path allow_implicit_codec error =
    let offer = read_offer offered in
    if has offered h2ts
    then tunnel
    else upgrade error (record {
      reject = codec_reject ws_annotation offer allow_implicit_codec;
      params = ws_params ws_annotation offer.codec path;
      protocol = echo offered;
    })

-- `ws_subprotocols`, with `str::trim` for a parameter.
module _ (http : Http) (trim : Bytes → Bytes) where
  open http use {HeaderMap}

  ws_subprotocols : HeaderMap → List Bytes
  ws_subprotocols headers =
      elim (text_of http (http.get headers (codes "sec-websocket-protocol"))) [
        | none ↦ []
        | some s ↦ retain (λ t. not (is_empty t)) (map trim (split b',' s))
      ]
