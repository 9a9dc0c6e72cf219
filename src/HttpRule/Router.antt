-- ===== src/HttpRule/Router.antt =====
-- `HttpRouter` of rust/crates/grpc-webnext/src/httprule.rs: the compiled bindings, and the lookups
-- in the order in which they were compiled.
pub mod First
pub mod Compile
use grpc_webnext.Prelude.{
  Bool, true, false, ◌||◌, List, [], ◌∷◌, Option, none, some, Bytes, codes, any, str_eq, map,
}
use grpc_webnext.Text.Str.{to_ascii_uppercase}
use grpc_webnext.Text.Percent.{Outcome, ok, panic, ◌>>=◌}
use grpc_webnext.HttpRule.Template.{Segments}
use grpc_webnext.HttpRule.Match.{PathVar, match_segments}

pub data BodyRule : Type 0 where
  wildcard : BodyRule
  field : Bytes → BodyRule
  no_body : BodyRule

-- A binding, less its `input`: the message descriptor is only passed on.
pub record Binding : Type 0 where
  pub http_method : Bytes
  pub segments : Segments
  pub custom_verb : Bytes
  pub body : BodyRule
  pub response_body : Bytes
  pub grpc_method : Bytes

pub record WsBinding : Type 0 where
  pub binding : Binding
  pub vars : List PathVar
  pub query : Option Bytes

-- `b.http_method != want && b.http_method != "*"` is what a binding is passed over for.
unfoldable pub accepts : Bytes → Binding → Bool
accepts want b = str_eq b.http_method want || str_eq b.http_method (codes "*")

-- What one turn of the loop over the bindings does with a match of its template.
unfoldable pub or_next {ℓ} :
    {A B : Type ℓ} → (A → B) → Option A → Outcome (Option B) → Outcome (Option B)
or_next f (some a) rest = ok (some (f a))
or_next f none rest = rest

unfoldable pub find : Bytes → Bytes → List Binding → Outcome (Option (Binding × List PathVar))
find want path [] = ok none
find want path (b ∷ bs) =
    let rest = find want path bs in
    elim (accepts want b) [
      | true ↦
          match_segments b.segments b.custom_verb path >>= λ r. or_next (λ vars. (b, vars)) r rest
      | false ↦ rest
    ]

unfoldable pub match_request :
    List Binding → Bytes → Bytes → Outcome (Option (Binding × List PathVar))
match_request bindings method path = find (to_ascii_uppercase method) path bindings

pub match_ws : List Binding → Bytes → Option Bytes → Outcome (Option WsBinding)
match_ws [] path query = ok none
match_ws (b ∷ bs) path query =
    let rest = match_ws bs path query in
    match_segments b.segments b.custom_verb path >>= λ r.
    or_next (λ vars. record { binding = b; vars = vars; query = query }) r rest

is_annotated : List Binding → Bytes → Bool
is_annotated bindings grpc_method = any (λ b. str_eq b.grpc_method grpc_method) bindings

-- `WsBinding::has_body`.
pub has_body : WsBinding → Bool
has_body w = elim w.binding.body [ no_body ↦ false | _ ↦ true ]
