-- ===== src/HttpRule/Message.antt =====
-- Fields of a request message from texts (rust/crates/grpc-webnext/src/httprule.rs): `set_by_path`,
-- `coerce`, `set_from_json` and `set_message_field`. prost_reflect and serde_json are parameters.
pub mod Kinds
pub mod Written
use grpc_webnext.Prelude.{
  ℕ, List, [], ◌∷◌, ◌++◌, Option, none, some, Bool, true, false, not, ◌&&◌, ◌||◌, Bytes, codes, any,
  str_eq, is_empty, if◌then◌else◌,
}
use grpc_webnext.Text.Decimal.{parse_uint}
use grpc_webnext.Text.Signed.{ℤ, parse_int, i32_max, i64_max}
use grpc_webnext.Metadata.{u32_max, u64_max}

-- `Result<A, TranscodeError>`, an error by its text; `faulted` is a panic.
pub data Bound {ℓ} (A : Type ℓ) : Type ℓ where
  bound : A → Bound A
  refused : Bytes → Bound A
  faulted : Bound A

infixl 5 ◌>>=◌
abbrev pub ◌>>=◌ {ℓ κ} : {A : Type ℓ} {B : Type κ} → Bound A → (A → Bound B) → Bound B
bound a >>= f = f a
refused e >>= f = refused e
faulted >>= f = faulted

-- `TranscodeError::Http(text)`, as it is displayed.
abbrev pub http_error {ℓ} : {A : Type ℓ} → Bytes → Bound A
http_error text = refused (codes "http transcoding: " ++ text)

-- `prost_reflect::Kind`, with the descriptors of enums and messages.
pub data Kind (E D : Type 0) : Type 0 where
  double float int32 int64 uint32 uint64 sint32 sint64 fixed32 fixed64 : Kind E D
  sfixed32 sfixed64 boolean string bytes : Kind E D
  enumeration : E → Kind E D
  message : D → Kind E D

-- What the code uses of `prost_reflect` and `serde_json`.
pub record Reflection : Type 1 where
  pub Message : Type 0
  pub Descriptor : Type 0
  pub Field : Type 0
  pub Enum : Type 0
  pub Value : Type 0
  pub new : Descriptor → Message
  pub descriptor : Message → Descriptor
  pub full_name : Descriptor → Bytes
  pub get_field_by_name : Descriptor → Bytes → Option Field
  pub get_field_by_json_name : Descriptor → Bytes → Option Field
  pub name : Field → Bytes
  pub json_name : Field → Bytes
  pub kind : Field → Kind Enum Descriptor
  pub is_list : Field → Bool
  pub is_map : Field → Bool
  pub enum_number : Enum → Bytes → Option ℤ
  pub deserialize : Descriptor → Bytes → Bound Message
  pub encode_to_vec : Message → Bytes
  pub get_field : Message → Field → Value
  pub set_field : Message → Field → Value → Message
  pub push_to_list : Message → Field → Value → Message
  pub as_message : Message → Field → Option Message
  pub set_message : Message → Field → Message → Message
  pub string_value : Bytes → Value
  pub bool_value : Bool → Value
  pub i32_value : ℤ → Value
  pub i64_value : ℤ → Value
  pub u32_value : ℕ → Value
  pub u64_value : ℕ → Value
  pub enum_value : ℤ → Value
  pub parse_f32 : Bytes → Option Value
  pub parse_f64 : Bytes → Option Value
  pub json_string : Bytes → Bytes
  pub is_utf8 : Bytes → Bool
  pub debug : Bytes → Bytes

-- The well-known types whose JSON is a string, and those whose JSON is a number or a boolean.
abbrev pub quoted_types : List Bytes
quoted_types =
    codes "google.protobuf.Timestamp"
    ∷ codes "google.protobuf.Duration"
    ∷ codes "google.protobuf.FieldMask"
    ∷ codes "google.protobuf.StringValue"
    ∷ codes "google.protobuf.BytesValue"
    ∷ codes "google.protobuf.Int64Value"
    ∷ codes "google.protobuf.UInt64Value"
    ∷ []

abbrev pub bare_types : List Bytes
bare_types =
    codes "google.protobuf.BoolValue"
    ∷ codes "google.protobuf.Int32Value"
    ∷ codes "google.protobuf.UInt32Value"
    ∷ codes "google.protobuf.FloatValue"
    ∷ codes "google.protobuf.DoubleValue"
    ∷ []

module _ (r : Reflection) where
  open r use {Message, Descriptor, Field, Value}

  unfoldable pub field_by_any_name : Descriptor → Bytes → Option Field
  field_by_any_name desc name = elim (r.get_field_by_name desc name) [
    | some f ↦ some f
    | none ↦ r.get_field_by_json_name desc name
  ]

  unfoldable pub deserialize_message : Descriptor → Bytes → Bound Message
  deserialize_message desc json =
      if is_empty json then bound (r.new desc) else r.deserialize desc json

  -- `.map_err(|e| TranscodeError::Http(..))`.
  invalid_value : Field → Bound Message → Bound Message
  invalid_value field (refused e) =
      http_error (codes "invalid value for " ++ (r.name field ++ (codes ": " ++ e)))
  invalid_value field result = result

  pub set_from_json : Message → Field → Bytes → Bound Message
  set_from_json msg field json_text =
      let doc =
        codes "{"
        ++ (r.json_string (r.json_name field) ++ (codes ":" ++ (json_text ++ codes "}"))) in
      invalid_value field (deserialize_message (r.descriptor msg) doc) >>= λ scratch.
      bound (r.set_field msg field (r.get_field scratch field))

  wkt_json_shape : Descriptor → Option Bool
  wkt_json_shape md =
      if any (λ t. str_eq (r.full_name md) t) quoted_types
      then some true
      else if any (λ t. str_eq (r.full_name md) t) bare_types
      then some false
      else none

  pub set_message_field : Message → Bytes → Bytes → Bound Message
  set_message_field msg name json = elim (field_by_any_name (r.descriptor msg) name) [
    | none ↦ http_error (codes "unknown body field: " ++ name)
    | some field ↦
        if r.is_utf8 json
        then set_from_json msg field json
        else http_error (codes "body field " ++ (name ++ codes ": not valid UTF-8"))
  ]

  -- `num(..)`.
  unfoldable pub num : Field → Bytes → Option Value → Bound Value
  num field raw (some v) = bound v
  num field raw none =
      http_error (codes "invalid value for " ++ (r.name field ++ (codes ": " ++ r.debug raw)))

  unfoldable pub map_value : {A : Type 0} → (A → Value) → Option A → Option Value
  map_value f none = none
  map_value f (some a) = some (f a)

  pub coerce_bool : Bytes → Bound Value
  coerce_bool raw =
      if str_eq raw (codes "true") || str_eq raw (codes "1")
      then bound (r.bool_value true)
      else if str_eq raw (codes "false") || str_eq raw (codes "0")
      then bound (r.bool_value false)
      else http_error (codes "invalid bool: " ++ r.debug raw)

  pub coerce_enum : r.Enum → Bytes → Bound Value
  coerce_enum e raw = elim (parse_int i32_max raw) [
    | some n ↦ bound (r.enum_value n)
    | none ↦ elim (r.enum_number e raw) [
      | some n ↦ bound (r.enum_value n)
      | none ↦ http_error (codes "unknown enum value: " ++ r.debug raw)
    ]
  ]

  unfoldable pub coerce_as : Kind r.Enum Descriptor → Field → Bytes → Bound Value
  coerce_as string field raw = bound (r.string_value raw)
  coerce_as boolean field raw = coerce_bool raw
  coerce_as int32 field raw = num field raw (map_value r.i32_value (parse_int i32_max raw))
  coerce_as sint32 field raw = num field raw (map_value r.i32_value (parse_int i32_max raw))
  coerce_as sfixed32 field raw = num field raw (map_value r.i32_value (parse_int i32_max raw))
  coerce_as int64 field raw = num field raw (map_value r.i64_value (parse_int i64_max raw))
  coerce_as sint64 field raw = num field raw (map_value r.i64_value (parse_int i64_max raw))
  coerce_as sfixed64 field raw = num field raw (map_value r.i64_value (parse_int i64_max raw))
  coerce_as uint32 field raw = num field raw (map_value r.u32_value (parse_uint u32_max raw))
  coerce_as fixed32 field raw = num field raw (map_value r.u32_value (parse_uint u32_max raw))
  coerce_as uint64 field raw = num field raw (map_value r.u64_value (parse_uint u64_max raw))
  coerce_as fixed64 field raw = num field raw (map_value r.u64_value (parse_uint u64_max raw))
  coerce_as float field raw = num field raw (r.parse_f32 raw)
  coerce_as double field raw = num field raw (r.parse_f64 raw)
  coerce_as (enumeration e) field raw = coerce_enum e raw
  coerce_as bytes field raw = http_error (codes "bytes must bind through the JSON decoder")
  coerce_as (message md) field raw = http_error (codes "cannot bind a scalar to a message field")

  unfoldable pub coerce : Field → Bytes → Bound Value
  unfolding coerce_as
  coerce field raw = coerce_as (r.kind field) field raw

  -- A coerced value goes into the field, or at the end of a list.
  unfoldable pub put_value : Message → Field → Bytes → Bound Message
  put_value msg field raw = coerce field raw >>= λ v.
      bound (if r.is_list field then r.push_to_list msg field v else r.set_field msg field v)

  -- A message field takes the JSON of a well-known type only.
  pub put_message : Message → Field → Descriptor → Bytes → Bound Message
  put_message msg field md raw = elim (wkt_json_shape md) [
    | some true ↦ set_from_json msg field (r.json_string raw)
    | some false ↦ set_from_json msg field raw
    | none ↦ http_error (
        codes "cannot bind a path/query value to message field "
        ++ (r.name field ++ (codes " (" ++ (r.full_name md ++ codes ")"))))
  ]

  -- The last name of a path.
  unfoldable pub set_last : Message → Field → Bytes → Bound Message
  set_last msg field raw = elim (r.kind field) [
    | bytes ↦ set_from_json msg field (r.json_string raw)
    | message md ↦
        if not (r.is_list field) && not (r.is_map field)
        then put_message msg field md raw
        else put_value msg field raw
    | _ ↦ put_value msg field raw
  ]

  -- A path of no names is an index out of bounds.
  unfoldable pub set_by_path : Message → List Bytes → Bytes → Bound Message
  set_by_path msg [] raw = faulted
  set_by_path msg (first ∷ []) raw = elim (field_by_any_name (r.descriptor msg) first) [
    | none ↦ http_error (codes "unknown field: " ++ first)
    | some field ↦ set_last msg field raw
  ]
  set_by_path msg (first ∷ second ∷ rest) raw = elim (field_by_any_name (r.descriptor msg) first) [
    | none ↦ http_error (codes "unknown field: " ++ first)
    | some field ↦ elim (r.as_message msg field) [
      | none ↦ http_error (codes "field " ++ (first ++ codes " is not a message"))
      | some sub ↦
          set_by_path sub (second ∷ rest) raw >>= λ sub'. bound (r.set_message msg field sub')
    ]
  ]
