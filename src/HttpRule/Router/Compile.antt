-- ===== src/HttpRule/Router/Compile.antt =====
-- `collect_rule`, `push_binding`, `verb_and_path` and `body_rule` of
-- rust/crates/grpc-webnext/src/httprule.rs: the bindings of one annotation. The dynamic messages of
-- prost_reflect are a parameter.
use grpc_webnext.Prelude.{
  ◌≡◌, List, [], ◌∷◌, ◌++◌, Option, none, some, Bytes, is_empty, str_eq, codes, if◌then◌else◌, refl,
  ap, sym, ◌∙◌, All, All-append, append-nil, append_assoc,
}
use grpc_webnext.Text.Str.{to_ascii_uppercase}
use grpc_webnext.HttpRule.Template.{parse_template}
use grpc_webnext.HttpRule.Router.{Binding, BodyRule, wildcard, field, no_body}

-- `get_field_by_name` with `as_str`, `as_message`, and `as_list` with each item's `as_message`.
pub record Reflect : Type 1 where
  pub Message : Type 0
  pub str_field : Message → Bytes → Option Bytes
  pub message_field : Message → Bytes → Option Message
  pub list_field : Message → Bytes → List (Option Message)

-- `unwrap_or_default()` of a text.
or_empty : Option Bytes → Bytes
or_empty none = []
or_empty (some s) = s

abbrev verbs : List (Bytes × Bytes)
verbs =
    (codes "get", codes "GET")
    ∷ (codes "put", codes "PUT")
    ∷ (codes "post", codes "POST")
    ∷ (codes "delete", codes "DELETE")
    ∷ (codes "patch", codes "PATCH")
    ∷ []

module _ (reflect : Reflect) where
  open reflect use {Message, str_field, message_field, list_field}

  -- `custom { kind, path }`.
  custom_verb_and_path : Option Message → Option (Bytes × Bytes)
  custom_verb_and_path none = none
  custom_verb_and_path (some m) =
      let kind = or_empty (str_field m (codes "kind")) in
      if is_empty kind
      then none
      else some (to_ascii_uppercase kind, or_empty (str_field m (codes "path")))

  -- The loop over the fields of the `pattern` oneof.
  first_verb : Message → List (Bytes × Bytes) → Option (Bytes × Bytes)
  first_verb rule [] = custom_verb_and_path (message_field rule (codes "custom"))
  first_verb rule ((name, verb) ∷ rest) =
      let later = first_verb rule rest in
      elim (str_field rule name) [
        | none ↦ later
        | some s ↦ if is_empty s then later else some (verb, s)
      ]

  verb_and_path : Message → Option (Bytes × Bytes)
  verb_and_path rule = first_verb rule verbs

  body_rule : Message → BodyRule
  body_rule rule =
      let body = or_empty (str_field rule (codes "body")) in
      if is_empty body then no_body else if str_eq body (codes "*") then wildcard else field body

  push_binding : List Binding → Message → Bytes → List Binding
  push_binding bindings rule grpc_method = elim (verb_and_path rule) [
    | none ↦ bindings
    | some (http_method, template) ↦
        let (segments, custom_verb) = parse_template template in
        bindings
        ++ record {
          http_method = http_method;
          segments = segments;
          custom_verb = custom_verb;
          body = body_rule rule;
          response_body = or_empty (str_field rule (codes "response_body"));
          grpc_method = grpc_method;
        }
          ∷ []
  ]

  push_items : List Binding → List (Option Message) → Bytes → List Binding
  push_items bindings [] grpc_method = bindings
  push_items bindings (none ∷ ms) grpc_method = push_items bindings ms grpc_method
  push_items bindings (some m ∷ ms) grpc_method =
      push_items (push_binding bindings m grpc_method) ms grpc_method

  collect_rule : List Binding → Message → Bytes → List Binding
  collect_rule bindings rule grpc_method =
      push_items (push_binding bindings rule grpc_method)
        (list_field rule (codes "additional_bindings")) grpc_method

  -- The rules of the methods, in the order of the pool: `from_pool` behind the look-up of the
  -- extension, for the methods that have it.
  from_rules : List (Message × Bytes) → List Binding → List Binding
  from_rules [] bindings = bindings
  from_rules ((rule, grpc_method) ∷ rest) bindings =
      from_rules rest (collect_rule bindings rule grpc_method)

  -- What is there stays in front.
  Extends : List Binding → Bytes → List Binding → Type 0
  Extends bindings grpc_method out =
      (more : List Binding) × (out ≡ bindings ++ more)
      × All (λ (b : Binding). b.grpc_method ≡ grpc_method) more

  push_binding-Extends :
      (bindings : List Binding) (rule : Message) (grpc_method : Bytes)
      → Extends bindings grpc_method (push_binding bindings rule grpc_method)
  unfolding push_binding Extends
  push_binding-Extends bindings rule grpc_method = go (verb_and_path rule)
    where
      go :
          (o : Option (Bytes × Bytes))
          → Extends bindings grpc_method (elim o [
            | none ↦ bindings
            | some (http_method, template) ↦
                let (segments, custom_verb) = parse_template template in
                bindings
                ++ record {
                  http_method = http_method;
                  segments = segments;
                  custom_verb = custom_verb;
                  body = body_rule rule;
                  response_body = or_empty (str_field rule (codes "response_body"));
                  grpc_method = grpc_method;
                }
                  ∷ []
          ])
      go none = ([], sym (append-nil bindings), tt)
      go (some (h, t)) = (_, refl, (refl, tt))

  Extends-trans :
      (xs ys zs : List Binding) (g : Bytes) → Extends xs g ys → Extends ys g zs → Extends xs g zs
  unfolding Extends
  Extends-trans xs ys zs g (m, e, a) (n, f, b) =
      (m ++ n, f ∙ ap (λ r. r ++ n) e ∙ append_assoc xs m n, All-append _ m n a b)

  push_items-Extends :
      (bindings : List Binding) (ms : List (Option Message)) (g : Bytes)
      → Extends bindings g (push_items bindings ms g)
  unfolding push_items Extends
  push_items-Extends bindings [] g = ([], sym (append-nil bindings), tt)
  push_items-Extends bindings (none ∷ ms) g = push_items-Extends bindings ms g
  push_items-Extends bindings (some m ∷ ms) g =
      Extends-trans bindings (push_binding bindings m g) _ g (push_binding-Extends bindings m g)
        (push_items-Extends (push_binding bindings m g) ms g)

  -- For every annotation, the bindings that were compiled before stay in front, in their order, and
  -- each binding that is added, for the rule or for an additional one, calls the annotated method.
  collect_rule_extends :
      (bindings : List Binding) (rule : Message) (grpc_method : Bytes)
      → (more : List Binding) × (collect_rule bindings rule grpc_method ≡ bindings ++ more)
        × All (λ (b : Binding). b.grpc_method ≡ grpc_method) more
  unfolding collect_rule Extends
  collect_rule_extends bindings rule g =
      Extends-trans bindings (push_binding bindings rule g) _ g
        (push_binding-Extends bindings rule g)
        (push_items-Extends (push_binding bindings rule g) _ g)
