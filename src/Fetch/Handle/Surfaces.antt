-- ===== src/Fetch/Handle/Surfaces.antt =====
-- Which requests reach the binary handler of rust/crates/grpc-webnext/src/fetch.rs.
use grpc_webnext.Prelude.{
  ◌≡◌, ◌≢◌, ◌++◌, Option, none, some, Bool, true, false, ◌||◌, Bytes, codes, str_eq, str_eq→eq,
  starts_with, is_empty, if◌then◌else◌, refl,
}
use grpc_webnext.Text.Percent.{Outcome, ok, panic, ◌>>=◌}
use grpc_webnext.HttpRule.Router.{WsBinding}
use grpc_webnext.Metadata.{Http}
use grpc_webnext.Fetch.Response.{text_response, Response, ct_proto, ct_json, ct_grpc, plain_json}
use grpc_webnext.Transcoding.{Snapshot}
use grpc_webnext.Fetch.Handle.{
  Reload, Routed, unary, ws_upgrade, native, json, reply, content_type_of, rest_route, binary_route,
  by_content_type, is_admin, handle, handle_admin_reload,
}

module _ (http : Http) where
  open http use {HeaderMap}

  binary_route-unary : (ann : Option WsBinding) → binary_route http ann ≡ unary → ann ≡ none
  unfolding binary_route
  binary_route-unary none e = refl
  binary_route-unary (some ann) e = cc

  bound-unary :
      (o : Outcome (Option WsBinding))
      → o >>= (λ ann. ok (binary_route http ann)) ≡ ok unary
      → o ≡ ok none
  bound-unary panic e = cc
  bound-unary (ok ann) e =
      let r : binary_route http ann ≡ unary = cc in rw (binary_route-unary ann r) refl

  -- The other content types lead elsewhere.
  elsewhere-unary :
      (a b c : Bool) (r : Response HeaderMap)
      → ◌≢◌ {A = Outcome (Routed HeaderMap)}
          (if a
            then ok (json true)
            else if b
            then ok native
            else if c
            then ok (json false)
            else ok (reply r))
          (ok unary)
  elsewhere-unary true b c r e = cc
  elsewhere-unary false true c r e = cc
  elsewhere-unary false false true r e = cc
  elsewhere-unary false false false r e = cc

  by_content_type-unary :
      (schema : Snapshot) (path : Bytes) (query : Option Bytes) (content_type : Bytes)
      → by_content_type http schema path query content_type ≡ ok unary
      → (content_type ≡ ct_proto) × (rest_route http schema path query ≡ ok none)
  unfolding by_content_type
  by_content_type-unary schema path query content_type e = go (str_eq content_type ct_proto) refl e
    where
      go :
          (b : Bool)
          → str_eq content_type ct_proto ≡ b
          → (if b
              then rest_route http schema path query >>= (λ ann. ok (binary_route http ann))
              else if str_eq content_type ct_json
              then ok (json true)
              else if starts_with content_type ct_grpc
              then ok native
              else if str_eq content_type plain_json || is_empty content_type
              then ok (json false)
              else ok (
                  reply
                    (text_response http 415 (codes "unsupported content-type: " ++ content_type))))
            ≡ ok unary
          → (content_type ≡ ct_proto) × (rest_route http schema path query ≡ ok none)
      go true s e' =
          (str_eq→eq content_type ct_proto s, bound-unary (rest_route http schema path query) e')
      go false s e' = absurd (elsewhere-unary _ _ _ _ e')

  -- A request reaches the binary handler only if it is not for the reload path, asks for no upgrade,
  -- has the content type of the binary codec, and its path is no REST route of the schema.
  handle-unary :
      (admin : Option Bytes) (schema : Snapshot) (reload : Reload) (upgrade : Bool) (path : Bytes)
      (query : Option Bytes) (method : Bytes) (headers : HeaderMap)
      → handle http admin schema reload upgrade path query method headers ≡ ok unary
      → (is_admin admin path ≡ false)
        × (upgrade ≡ false)
        × (content_type_of http headers ≡ ct_proto)
        × (rest_route http schema path query ≡ ok none)
  unfolding handle
  handle-unary admin schema reload true path query method headers e = go (is_admin admin path) e
    where
      go :
          (b : Bool)
          → ◌≡◌ {A = Outcome (Routed HeaderMap)}
              (if b then ok (reply (handle_admin_reload http reload method)) else ok ws_upgrade)
              (ok unary)
          → (is_admin admin path ≡ false)
            × (true ≡ false)
            × (content_type_of http headers ≡ ct_proto)
            × (rest_route http schema path query ≡ ok none)
      go true e' = cc
      go false e' = cc
  handle-unary admin schema reload false path query method headers e =
      go (is_admin admin path) refl e
    where
      go :
          (b : Bool)
          → is_admin admin path ≡ b
          → (if b
              then ok (reply (handle_admin_reload http reload method))
              else by_content_type http schema path query (content_type_of http headers))
            ≡ ok unary
          → (is_admin admin path ≡ false)
            × (false ≡ false)
            × (content_type_of http headers ≡ ct_proto)
            × (rest_route http schema path query ≡ ok none)
      go true a e' = cc
      go false a e' = let (c, r) = by_content_type-unary schema path query _ e' in (a, refl, c, r)
