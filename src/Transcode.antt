-- ===== src/Transcode.antt =====
-- rust/crates/grpc-webnext/src/transcode.rs: the `Transcoder`, which fills the interface of
-- Transcoding. The descriptor pool and the JSON values of serde_json are parameters.
use grpc_webnext.Prelude.{
  List, [], ◌∷◌, ◌++◌, Option, none, some, Bool, true, false, Bytes, codes, str_eq, is_empty,
  if◌then◌else◌,
}
use grpc_webnext.Text.Str.{split_once, trim_start_matches}
use grpc_webnext.Text.Percent.{Outcome, ok, panic}
use grpc_webnext.HttpRule.Router.{Binding, match_ws}
use grpc_webnext.HttpRule.Message.{
  Bound, bound, refused, faulted, ◌>>=◌, http_error, Kind, int64, uint64, sint64, fixed64, sfixed64,
  boolean, string, bytes, enumeration, message, Reflection, field_by_any_name, deserialize_message,
}
use grpc_webnext.HttpRule.Build.{transcode}
use grpc_webnext.Transcoding.{Attempt, done, fault, Transcoding}

-- What the code uses of the `DescriptorPool`, of `DynamicMessage`'s codecs, and of `serde_json::Value`.
pub record Schemas (r : Reflection) : Type 1 where
  pub Service : Type 0
  pub Method : Type 0
  pub Json : Type 0
  pub get_service_by_name : Bytes → Option Service
  pub methods : Service → List Method
  pub method_name : Method → Bytes
  pub input : Method → Reflection.Descriptor r
  pub output : Method → Reflection.Descriptor r
  pub binding_input : Binding → Reflection.Descriptor r
  pub decode : Reflection.Descriptor r → Bytes → Bound (Reflection.Message r)
  pub serialize : Reflection.Message r → Bound Bytes
  pub from_slice : Bytes → Bound Json
  pub member : Json → Bytes → Option Json
  pub to_vec : Json → Bytes
  pub empty_array : Json
  pub empty_object : Json
  pub null : Json
  pub text : Bytes → Json
  pub false_value : Json
  pub zero_value : Json
  pub first_name : Reflection.Enum r → Option Bytes

module _ (r : Reflection) (s : Schemas r) where
  open r use {Message, Descriptor, Field, Enum}
  open s use {Service, Method, Json}

  unknown_method : {A : Type 0} → Bytes → Bound A
  unknown_method path = refused (codes "unknown method: " ++ path)

  find_method : List Method → Bytes → Option Method
  find_method [] name = none
  find_method (m ∷ ms) name =
      let rest = find_method ms name in if str_eq (s.method_name m) name then some m else rest

  -- `(service, method)` of a path, then the types.
  types_of : Bytes → Option Service → Bytes → Bound (Descriptor × Descriptor)
  types_of path none name = unknown_method path
  types_of path (some svc) name = elim (find_method (s.methods svc) name) [
    | none ↦ unknown_method path
    | some m ↦ bound (s.input m, s.output m)
  ]

  io_types : Bytes → Bound (Descriptor × Descriptor)
  io_types path = elim (split_once b'/' (trim_start_matches b'/' path)) [
    | none ↦ unknown_method path
    | some (service, name) ↦ types_of path (s.get_service_by_name service) name
  ]

  is_bound : {A : Type 0} → Bound A → Bool
  is_bound (bound a) = true
  is_bound result = false

  pub has_method : Bytes → Bool
  has_method path = is_bound (io_types path)

  pub request_json_to_proto : Bytes → Bytes → Bound Bytes
  request_json_to_proto path json = io_types path >>= λ types.
      deserialize_message r types.0 json >>= λ msg. bound (r.encode_to_vec msg)

  proto_to_json : Descriptor → Bytes → Bound Bytes
  proto_to_json desc proto = s.decode desc proto >>= λ msg. s.serialize msg

  -- The zero of an enum by the name of its value 0.
  enum_zero : Enum → Json
  enum_zero e = elim (s.first_name e) [ some name ↦ s.text name | none ↦ s.zero_value ]

  kind_zero : Kind Enum Descriptor → Json
  kind_zero kind = elim kind [
    | message md ↦ s.null
    | string ↦ s.text []
    | bytes ↦ s.text []
    | boolean ↦ s.false_value
    | int64 ↦ s.text (codes "0")
    | sint64 ↦ s.text (codes "0")
    | sfixed64 ↦ s.text (codes "0")
    | uint64 ↦ s.text (codes "0")
    | fixed64 ↦ s.text (codes "0")
    | enumeration e ↦ enum_zero e
    | _ ↦ s.zero_value
  ]

  json_zero : Field → Json
  json_zero field =
      if r.is_list field
      then s.empty_array
      else if r.is_map field
      then s.empty_object
      else kind_zero (r.kind field)

  -- `obj.get(field.json_name()).cloned().unwrap_or_else(|| json_zero(&field))`.
  member_or_zero : Json → Field → Json
  member_or_zero obj field = elim (s.member obj (r.json_name field)) [
    | some value ↦ value
    | none ↦ json_zero field
  ]

  -- One field of the whole message's JSON.
  response_member : Descriptor → Bytes → Field → Bound Bytes
  response_member output proto field = proto_to_json output proto >>= λ whole.
      s.from_slice whole >>= λ obj. bound (s.to_vec (member_or_zero obj field))

  pub response_proto_to_json_body : Bytes → Bytes → Bytes → Bound Bytes
  response_proto_to_json_body path proto response_body = io_types path >>= λ types.
      if is_empty response_body
      then proto_to_json types.1 proto
      else elim (field_by_any_name r types.1 response_body) [
        | none ↦ http_error (codes "unknown response_body field: " ++ response_body)
        | some field ↦ response_member types.1 proto field
      ]

  -- A result for the handlers.
  to_attempt : {A : Type 0} → Bound A → Outcome (Attempt A)
  to_attempt (bound a) = ok (done a)
  to_attempt (refused e) = ok (fault e)
  to_attempt faulted = panic

  -- The interface of the handlers, for the bindings of a router.
  pub transcoder : List Binding → Transcoding
  transcoder router = record {
    transcode_http_request = λ method path query body.
        to_attempt (transcode r s.binding_input router method path query body);
    match_ws = λ path query. match_ws router path query;
    has_method = has_method;
    request_json_to_proto = λ path json. to_attempt (request_json_to_proto path json);
    response_proto_to_json_body =
        λ path proto field. to_attempt (response_proto_to_json_body path proto field);
  }
