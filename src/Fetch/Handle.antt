-- ===== src/Fetch/Handle.antt =====
-- The routing of rust/crates/grpc-webnext/src/fetch.rs: `handle`, `handle_admin_reload` and
-- `passthrough`.
pub mod Surfaces
use grpc_webnext.Prelude.{
  ℕ, ◌⊎◌, inl, inr, List, [], ◌∷◌, ◌++◌, Option, none, some, Bool, true, false, ◌||◌, Bytes, codes,
  str_eq, starts_with, is_empty, if◌then◌else◌,
}
use grpc_webnext.Text.Percent.{Outcome, ok, panic, ◌>>=◌}
use grpc_webnext.Client.Status.{Code, Status, failed_precondition}
use grpc_webnext.HttpRule.Router.{WsBinding}
use grpc_webnext.Backend.{BodyFrame, PathAndQuery, Incoming}
use grpc_webnext.Metadata.{Http, text_of}
use grpc_webnext.Fetch.Response.{Response, text_response, ct_proto, ct_json, ct_grpc, plain_json}
use grpc_webnext.Transcoding.{Transcoding, Snapshot, current, absent}

-- `rt.schema.reload().await`.
pub data Reload : Type 0 where
  reloaded : Reload
  not_reloaded : Status → Reload

is_failed_precondition : Code → Bool
is_failed_precondition failed_precondition = true
is_failed_precondition code = false

-- Which handler a request comes to, or the answer that needs none.
pub data Routed (H : Type 0) : Type 0 where
  ws_upgrade unary native : Routed H
  json : Bool → Routed H
  reply : Response H → Routed H

-- `req.uri().path() == admin`, where a path is configured.
unfoldable pub is_admin : Option Bytes → Bytes → Bool
is_admin none path = false
is_admin (some admin) path = str_eq path admin

module _ (http : Http) where
  open http use {HeaderMap}

  pub handle_admin_reload : Reload → Bytes → Response HeaderMap
  handle_admin_reload result method =
      if str_eq method (codes "POST")
      then elim result [
        | reloaded ↦ text_response http 200 (codes "reflection reloaded")
        | not_reloaded status ↦
            text_response http (if is_failed_precondition status.code then 409 else 503)
              (codes "reflection reload failed: " ++ status.message)
      ]
      else text_response http 405 (codes "use POST to force a reflection reload")

  -- `passthrough`, by what the backend answers: an error's text, or a response.
  passthrough : Bytes ⊎ Response HeaderMap → Response HeaderMap
  passthrough (inl e) = text_response http 502 (codes "upstream: " ++ e)
  passthrough (inr r) = r

  -- `.get(CONTENT_TYPE).and_then(|v| v.to_str().ok()).unwrap_or("")`.
  unfoldable pub content_type_of : HeaderMap → Bytes
  content_type_of headers = elim (text_of http (http.get headers (codes "content-type"))) [
    | none ↦ []
    | some s ↦ s
  ]

  -- `transcoder_any()` and `match_ws(..)`, where there is a snapshot.
  unfoldable pub rest_route : Snapshot → Bytes → Option Bytes → Outcome (Option WsBinding)
  rest_route (absent code message) path query = ok none
  rest_route (current tc) path query = tc.match_ws path query

  -- A binary call on a path, which a REST route refuses.
  pub binary_route : Option WsBinding → Routed HeaderMap
  binary_route (some ann) = reply (
      text_response http 415 (
        codes
          "REST-annotated endpoints are JSON-only; use application/json or application/grpc-webnext+json"))
  binary_route none = unary

  pub by_content_type : Snapshot → Bytes → Option Bytes → Bytes → Outcome (Routed HeaderMap)
  by_content_type schema path query content_type =
      if str_eq content_type ct_proto
      then rest_route schema path query >>= (λ ann. ok (binary_route ann))
      else if str_eq content_type ct_json
      then ok (json true)
      else if starts_with content_type ct_grpc
      then ok native
      else if str_eq content_type plain_json || is_empty content_type
      then ok (json false)
      else ok (reply (text_response http 415 (codes "unsupported content-type: " ++ content_type)))

  pub handle :
      Option Bytes
      → Snapshot
      → Reload
      → Bool
      → Bytes
      → Option Bytes
      → Bytes
      → HeaderMap
      → Outcome (Routed HeaderMap)
  handle admin_reload_path schema reload is_upgrade_request path query method headers =
      if is_admin admin_reload_path path
      then ok (reply (handle_admin_reload reload method))
      else if is_upgrade_request
      then ok ws_upgrade
      else by_content_type schema path query (content_type_of headers)
