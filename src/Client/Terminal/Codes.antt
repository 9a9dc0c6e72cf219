-- ===== src/Client/Terminal/Codes.antt =====
-- What the client reads as a status (rust/crates/grpc-webnext-client/src/status.rs) of what a server
-- writes.
use grpc_webnext.Prelude.{◌≡◌, ◌≢◌, List, none, some, Bytes, refl, ◌∙◌}
use grpc_webnext.Text.Decimal.{decimal, decimal_loop, parse_uint, parse_digits}
use grpc_webnext.Text.Signed.{pos, parse_int, i32_max}
use grpc_webnext.Text.Str.{to_ascii_lowercase}
use grpc_webnext.Client.Status.{Code}
use grpc_webnext.Ws.Codec.{code_number}
use grpc_webnext.Client.Metadata
use grpc_webnext.Client.Metadata.{Base64, get, remove}
use grpc_webnext.Client.Metadata.Laws.{get-remove, get-remove_other}
use grpc_webnext.Client.Terminal.{
  from_i32, Texts, Status, code_of, from_headers, look_up, grpc_status, grpc_message, message_of,
}

parse_int-code_number :
    (c : Code) → parse_int i32_max (decimal (code_number c)) ≡ some (pos (code_number c))
unfolding parse_int decimal decimal_loop parse_uint parse_digits code_number
parse_int-code_number Code.ok = refl
parse_int-code_number Code.cancelled = refl
parse_int-code_number Code.unknown = refl
parse_int-code_number Code.invalid_argument = refl
parse_int-code_number Code.deadline_exceeded = refl
parse_int-code_number Code.not_found = refl
parse_int-code_number Code.already_exists = refl
parse_int-code_number Code.permission_denied = refl
parse_int-code_number Code.resource_exhausted = refl
parse_int-code_number Code.failed_precondition = refl
parse_int-code_number Code.aborted = refl
parse_int-code_number Code.out_of_range = refl
parse_int-code_number Code.unimplemented = refl
parse_int-code_number Code.internal = refl
parse_int-code_number Code.unavailable = refl
parse_int-code_number Code.data_loss = refl
parse_int-code_number Code.unauthenticated = refl

from_i32-code_number : (c : Code) → from_i32 (pos (code_number c)) ≡ c
unfolding from_i32 code_number
from_i32-code_number Code.ok = refl
from_i32-code_number Code.cancelled = refl
from_i32-code_number Code.unknown = refl
from_i32-code_number Code.invalid_argument = refl
from_i32-code_number Code.deadline_exceeded = refl
from_i32-code_number Code.not_found = refl
from_i32-code_number Code.already_exists = refl
from_i32-code_number Code.permission_denied = refl
from_i32-code_number Code.resource_exhausted = refl
from_i32-code_number Code.failed_precondition = refl
from_i32-code_number Code.aborted = refl
from_i32-code_number Code.out_of_range = refl
from_i32-code_number Code.unimplemented = refl
from_i32-code_number Code.internal = refl
from_i32-code_number Code.unavailable = refl
from_i32-code_number Code.data_loss = refl
from_i32-code_number Code.unauthenticated = refl

lower_names : to_ascii_lowercase grpc_message ≢ to_ascii_lowercase grpc_status
unfolding to_ascii_lowercase
lower_names e = cc

module _ (base64 : Base64) (texts : Texts) where
  -- If the headers hold the number of a canonical code as the server writes it, and trimming leaves it
  -- as it is, then the client reads a status of this code, whose metadata holds neither the status nor
  -- its message.
  pub from_headers-code :
      (headers : List (Bytes × Bytes)) (c : Code)
      → look_up headers grpc_status ≡ some (decimal (code_number c))
      → texts.trim (decimal (code_number c)) ≡ decimal (code_number c)
      → (s : Status) × (from_headers base64 texts headers ≡ some s)
        × (s.code ≡ c)
        × (get s.metadata grpc_status ≡ none)
        × (get s.metadata grpc_message ≡ none)
  unfolding from_headers code_of
  from_headers-code headers c e t =
      let md = Metadata.from_headers base64 headers in
      (
        record {
          code = code_of base64 texts (decimal (code_number c));
          message = message_of base64 texts (look_up headers grpc_message);
          metadata = remove (remove md grpc_status) grpc_message;
        },
        rw (from_headers, e) refl,
        rw (code_of, t, parse_int-code_number c) (from_i32-code_number c),
        get-remove_other (remove md grpc_status) grpc_status grpc_message lower_names
            ∙ get-remove md grpc_status,
        get-remove (remove md grpc_status) grpc_message,
      )
