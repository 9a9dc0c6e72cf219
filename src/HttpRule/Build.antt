-- ===== src/HttpRule/Build.antt =====
-- `build_message`, `parse_query` and `HttpRouter::transcode` of rust/crates/grpc-webnext/src/httprule.rs.
pub mod Precedence
use grpc_webnext.Prelude.{
  ℕ, List, [], ◌∷◌, ◌++◌, Option, none, some, Bool, true, false, not, ◌||◌, ◌==◌, Bytes, codes, any,
  str_eq, is_empty, if◌then◌else◌,
}
use grpc_webnext.Text.Str.{split, split_once}
use grpc_webnext.Text.Percent.{Outcome, ok, panic, percent_decode}
use grpc_webnext.HttpRule.Match.{PathVar}
use grpc_webnext.HttpRule.Router.{Binding, BodyRule, wildcard, field, no_body, match_request}
use grpc_webnext.Transcoding.{HttpCall}
use grpc_webnext.HttpRule.Message.{
  Bound, bound, refused, faulted, ◌>>=◌, Reflection, deserialize_message, set_message_field,
  set_by_path,
}

-- A decoder that panics ends the call.
unfoldable pub or_fault : {A : Type 0} → Outcome A → Bound A
or_fault (ok a) = bound a
or_fault panic = faulted

-- `s.replace('+', " ")`.
unfoldable pub plus_to_space : Bytes → Bytes
plus_to_space [] = []
plus_to_space (c ∷ s) = (if c == b'+' then 32 else c) ∷ plus_to_space s

unfoldable pub decode_query : Bytes → Bound Bytes
decode_query s = or_fault (percent_decode (plus_to_space s))

-- One pair, whose value is empty where there is no `=`.
unfoldable pub decode_pair : Bytes → Bound (Bytes × Bytes)
decode_pair pair =
    let (k, v) : Bytes × Bytes = elim (split_once b'=' pair) [ none ↦ (pair, []) | some kv ↦ kv ] in
    decode_query k >>= λ k'. decode_query v >>= λ v'. bound (k', v')

unfoldable pub decode_pairs : List Bytes → Bound (List (Bytes × Bytes))
decode_pairs [] = bound []
decode_pairs (p ∷ ps) =
    let rest = decode_pairs ps in
    if is_empty p then rest else decode_pair p >>= λ kv. rest >>= λ kvs. bound (kv ∷ kvs)

unfoldable pub parse_query : Bytes → Bound (List (Bytes × Bytes))
parse_query query = decode_pairs (split b'&' query)

-- `*fp == field_path`.
unfoldable pub same_path : List Bytes → List Bytes → Bool
same_path [] [] = true
same_path [] (y ∷ ys) = false
same_path (x ∷ xs) [] = false
same_path (x ∷ xs) (y ∷ ys) = let rest = same_path xs ys in if str_eq x y then rest else false

unfoldable pub is_captured : List PathVar → List Bytes → Bool
is_captured vars path = any (λ v. same_path v.0 path) vars

module _ (r : Reflection) where
  open r use {Message, Descriptor}

  -- The message that the body gives.
  pub start_message : BodyRule → Descriptor → Bytes → Bound Message
  start_message wildcard input body = deserialize_message r input body
  start_message no_body input body = bound (r.new input)
  start_message (field name) input body =
      if is_empty body then bound (r.new input) else set_message_field r (r.new input) name body

  pub bind_vars : List PathVar → Message → Bound Message
  bind_vars [] msg = bound msg
  bind_vars ((path, value) ∷ vars) msg = set_by_path r msg path value >>= λ m. bind_vars vars m

  -- A parameter whose field the path has set is passed over.
  pub bind_query : List PathVar → List (Bytes × Bytes) → Message → Bound Message
  bind_query vars [] msg = bound msg
  bind_query vars ((key, value) ∷ pairs) msg =
      if is_captured vars (split b'.' key)
      then bind_query vars pairs msg
      else set_by_path r msg (split b'.' key) value >>= λ m. bind_query vars pairs m

  -- The query binds what a wildcard body does not carry.
  pub bind_rest : BodyRule → List PathVar → Option Bytes → Message → Bound Message
  bind_rest wildcard vars query msg = bound msg
  bind_rest body vars none msg = bound msg
  bind_rest body vars (some q) msg = parse_query q >>= λ pairs. bind_query vars pairs msg

  pub build_message : Binding → Descriptor → List PathVar → Option Bytes → Bytes → Bound Bytes
  build_message binding input vars query body = start_message binding.body input body >>= λ start.
      bind_vars vars start >>= λ bound_vars.
      bind_rest binding.body vars query bound_vars >>= λ msg. bound (r.encode_to_vec msg)

  -- The call of a binding that matched, if any.
  call_of :
      (Binding → Descriptor)
      → Option Bytes
      → Bytes
      → Option (Binding × List PathVar)
      → Bound (Option HttpCall)
  call_of input query body none = bound none
  call_of input query body (some (binding, vars)) =
      build_message binding (input binding) vars query body >>= λ message. bound (
        some (record {
          grpc_method = binding.grpc_method;
          message = message;
          response_body = binding.response_body;
        }))

  -- `HttpRouter::transcode`, with the input descriptors of the bindings.
  pub transcode :
      (Binding → Descriptor)
      → List Binding
      → Bytes
      → Bytes
      → Option Bytes
      → Bytes
      → Bound (Option HttpCall)
  transcode input bindings method path query body =
      or_fault (match_request bindings method path) >>= λ found. call_of input query body found
