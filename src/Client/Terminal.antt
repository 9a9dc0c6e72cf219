-- ===== src/Client/Terminal.antt =====
-- The status of a call, rust/crates/grpc-webnext-client/src/status.rs. `str::trim` and the
-- percent_encoding crate are parameters.
pub mod Codes
use grpc_webnext.Prelude.{
  ℕ, zero, suc, List, [], ◌∷◌, Option, none, some, Bool, true, false, Bytes, codes, str_eq,
  is_empty, get_elem?, ◌==◌, if◌then◌else◌,
}
use grpc_webnext.Text.Signed.{ℤ, pos, negsuc, parse_int, i32_max}
use grpc_webnext.Client.Status.{
  Code, ok, cancelled, unknown, invalid_argument, deadline_exceeded, not_found, already_exists,
  permission_denied, resource_exhausted, failed_precondition, aborted, out_of_range, unimplemented,
  internal, unavailable, data_loss, unauthenticated,
}
use grpc_webnext.Client.Metadata
use grpc_webnext.Client.Metadata.{Base64, remove}

abbrev pub canonical : List Code
canonical =
    ok ∷ cancelled ∷ unknown ∷ invalid_argument ∷ deadline_exceeded ∷ not_found ∷ already_exists
    ∷ permission_denied ∷ resource_exhausted ∷ failed_precondition ∷ aborted ∷ out_of_range
    ∷ unimplemented ∷ internal ∷ unavailable ∷ data_loss ∷ unauthenticated ∷ []

-- `Code::from_i32`: the codes by their numbers, and the rest.
pub from_i32 : ℤ → Code
from_i32 (negsuc n) = unknown
from_i32 (pos n) = elim (get_elem? canonical n) [ none ↦ unknown | some c ↦ c ]

-- What the code uses of `str::trim` and of `percent_decode_str(value).decode_utf8()`.
pub record Texts : Type 0 where
  pub trim : Bytes → Bytes
  pub percent_decode_utf8 : Bytes → Option Bytes

-- `Status`.
pub record Status : Type 0 where
  pub code : Code
  pub message : Bytes
  pub metadata : Metadata.Metadata

pub status_new : Code → Bytes → Status
status_new code message = record { code = code; message = message; metadata = Metadata.new }

pub is_ok : Status → Bool
is_ok status = elim status.code [ ok ↦ true | _ ↦ false ]

abbrev pub grpc_status : Bytes
grpc_status = codes "grpc-status"

abbrev pub grpc_message : Bytes
grpc_message = codes "grpc-message"

-- `headers.get(name)`.
unfoldable pub look_up : List (Bytes × Bytes) → Bytes → Option Bytes
look_up [] name = none
look_up ((k, v) ∷ hs) name = let rest = look_up hs name in if str_eq k name then some v else rest

module _ (base64 : Base64) (texts : Texts) where
  decode_grpc_message : Bytes → Bytes
  decode_grpc_message value = elim (texts.percent_decode_utf8 value) [ none ↦ value | some s ↦ s ]

  pub code_of : Bytes → Code
  code_of raw = elim (parse_int i32_max (texts.trim raw)) [ none ↦ unknown | some n ↦ from_i32 n ]

  pub message_of : Option Bytes → Bytes
  message_of none = []
  message_of (some m) = decode_grpc_message m

  unfoldable pub from_headers : List (Bytes × Bytes) → Option Status
  from_headers headers = elim (look_up headers grpc_status) [
    | none ↦ none
    | some raw ↦ some (record {
      code = code_of raw;
      message = message_of (look_up headers grpc_message);
      metadata = remove (remove (Metadata.from_headers base64 headers) grpc_status) grpc_message;
    })
  ]
