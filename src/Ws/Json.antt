-- ===== src/Ws/Json.antt =====
-- rust/crates/grpc-webnext/src/json_frame.rs. serde_json is a parameter.
use grpc_webnext.Prelude.{
  ℕ, Bool, true, false, List, [], ◌∷◌, Option, none, some, Bytes, str_eq, ltb, ◌==◌, ◌||◌, ◌&&◌,
  is_empty, map, if◌then◌else◌,
}
use grpc_webnext.Ws.Frame.{
  ascii_value, Metadatum, Subscribe, Kind, subscribe, header, message, half_close, trailer, reset,
  Frame,
}

-- `BTreeMap<String, String>`: the entries in the order of their keys.
abbrev pub JsonMeta : Type 0
JsonMeta = List (Bytes × Bytes)

-- `a < b` on strings: the order of the bytes.
str_lt : Bytes → Bytes → Bool
str_lt [] [] = false
str_lt [] (y ∷ ys) = true
str_lt (x ∷ xs) [] = false
str_lt (x ∷ xs) (y ∷ ys) = ltb x y || ((x == y) && str_lt xs ys)

-- `BTreeMap::insert`, which replaces the value of a key that is there.
pub insert : Bytes → Bytes → JsonMeta → JsonMeta
insert k v [] = (k, v) ∷ []
insert k v ((k', v') ∷ m) =
    let later = insert k v m in
    if str_eq k k'
    then (k, v) ∷ m
    else (if str_lt k k' then (k, v) ∷ (k', v') ∷ m else (k', v') ∷ later)

pub record JsonStatus : Type 0 where
  pub code : ℕ
  pub text : Bytes

-- What the code uses of serde_json: its values, and their reading and writing.
pub record Serde : Type 1 where
  pub Value : Type 0
  pub null : Value
  pub to_vec : Value → Bytes
  pub from_slice : Bytes → Option Value

pub record JsonFrame (Value : Type 0) : Type 0 where
  pub metadata : Option JsonMeta
  pub timeout_millis : Option ℕ
  pub message : Option Value
  pub half_close : Option Bool
  pub status : Option JsonStatus

-- `Default::default()`.
abbrev pub no_fields : {Value : Type 0} → JsonFrame Value
no_fields = record {
  metadata = none;
  timeout_millis = none;
  message = none;
  half_close = none;
  status = none;
}

unfoldable pub collect_from : List Metadatum → JsonMeta → JsonMeta
collect_from [] acc = acc
collect_from (m ∷ ms) acc =
    collect_from ms (elim m.value [ some (ascii_value s) ↦ insert m.key s acc | _ ↦ acc ])

unfoldable pub meta_vec_to_json : List Metadatum → Option JsonMeta
meta_vec_to_json items =
    let entries = collect_from items [] in if is_empty entries then none else some entries

json_to_meta_vec : Option JsonMeta → List Metadatum
json_to_meta_vec none = []
json_to_meta_vec (some entries) =
    map (λ e. record { key = e.0; value = some (ascii_value e.1) }) entries

-- `unwrap_or`.
abbrev pub or_else {ℓ} : {A : Type ℓ} → Option A → A → A
or_else none d = d
or_else (some a) d = a

module _ (serde : Serde) where
  open serde use {Value, null, to_vec, from_slice}

  pub json_open_to_subscribe : JsonFrame Value → Bytes → Subscribe
  json_open_to_subscribe f method = record {
    method = method;
    headers = json_to_meta_vec f.metadata;
    timeout_millis = or_else f.timeout_millis 0;
    initial_payload = elim f.message [ none ↦ [] | some v ↦ to_vec v ];
  }

  -- The kind by the message, where there is no status and no half-close.
  message_or_close : Option Value → Kind
  message_or_close none = half_close
  message_or_close (some v) = message (to_vec v)

  pub json_frame_to_proto : JsonFrame Value → Frame
  json_frame_to_proto f = some (elim f.status [
    | some s ↦ reset s.code s.text
    | none ↦ elim f.half_close [ some true ↦ half_close | _ ↦ message_or_close f.message ]
  ])

  unfoldable pub proto_kind_to_json : Kind → Option (JsonFrame Value)
  proto_kind_to_json (message payload) =
      some (record no_fields { message = some (or_else (from_slice payload) null) })
  proto_kind_to_json (header headers) =
      some (record no_fields { metadata = some (or_else (meta_vec_to_json headers) []) })
  proto_kind_to_json (trailer t) = some (record no_fields {
    status = some (record { code = t.status_code; text = t.status_message });
    metadata = meta_vec_to_json t.trailers;
  })
  proto_kind_to_json (reset code text) =
      some (record no_fields { status = some (record { code = code; text = text }) })
  proto_kind_to_json (subscribe s) = none
  proto_kind_to_json half_close = none

  unfoldable pub proto_frame_to_json : Frame → Option (JsonFrame Value)
  proto_frame_to_json none = none
  proto_frame_to_json (some kind) = proto_kind_to_json kind
