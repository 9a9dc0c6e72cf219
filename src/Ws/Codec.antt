-- ===== src/Ws/Codec.antt =====
-- The frame codecs of rust/crates/grpc-webnext/src/ws.rs. prost and serde_json are parameters.
pub mod Truncate
use grpc_webnext.Prelude.{
  ℕ, zero, suc, ◌+◌, ◌≤◌, leb, Bool, true, false, not, List, [], ◌∷◌, Option, none, some, Bytes,
  codes, length, take, get_elem?, if◌then◌else◌, ◌&&◌, ◌||◌, ltb, ◌==◌,
}
use grpc_webnext.Text.Utf8.{is_continuation}
use grpc_webnext.Client.Status.{Code, Status}
use grpc_webnext.Ws.Frame.{
  Kind, Frame, Subscribe, subscribe, message, half_close, reset, trailer, header, TungMessage, text,
  binary, close,
}
use grpc_webnext.Ws.Json.{
  Serde, JsonFrame, json_open_to_subscribe, json_frame_to_proto, proto_frame_to_json,
}

-- `code as u16`.
unfoldable pub code_number : Code → ℕ
code_number Code.ok = 0
code_number Code.cancelled = 1
code_number Code.unknown = 2
code_number Code.invalid_argument = 3
code_number Code.deadline_exceeded = 4
code_number Code.not_found = 5
code_number Code.already_exists = 6
code_number Code.permission_denied = 7
code_number Code.resource_exhausted = 8
code_number Code.failed_precondition = 9
code_number Code.aborted = 10
code_number Code.out_of_range = 11
code_number Code.unimplemented = 12
code_number Code.internal = 13
code_number Code.unavailable = 14
code_number Code.data_loss = 15
code_number Code.unauthenticated = 16

-- `s.is_char_boundary(end)`.
pub is_char_boundary : Bytes → ℕ → Bool
is_char_boundary s end = elim (get_elem? s end) [
  | none ↦ end == length s
  | some b ↦ (end == 0) || not (is_continuation b)
]

-- `while end > 0 && !s.is_char_boundary(end) { end -= 1 }`.
pub back_up : Bytes → ℕ → ℕ
back_up s zero = zero
back_up s (suc end) =
    let rest = back_up s end in if is_char_boundary s (suc end) then suc end else rest

pub truncate_utf8 : Bytes → ℕ → Bytes
truncate_utf8 s max = if leb (length s) max then s else take (back_up s max) s

pub close_going_away : TungMessage
close_going_away = close (some (1001, codes "server draining"))

unfoldable pub close_normal : TungMessage
close_normal = close (some (1000, []))

pub close_for_status : Status → TungMessage
close_for_status status =
    close (some (4000 + code_number status.code, truncate_utf8 status.message 123))

-- What the code uses of prost and of serde_json for whole frames.
pub record FrameCodec : Type 1 where
  pub serde : Serde
  pub encode_frame : Frame → Bytes
  pub decode_frame : Bytes → Option Frame
  pub encode_json_frame : JsonFrame (Serde.Value serde) → Bytes
  pub decode_json_frame : Bytes → Option (JsonFrame (Serde.Value serde))

-- A decoded frame that is let through, and whether the stream is open after it.
admit : Bytes → Bool → Kind → Option Kind × Bool
admit method_url opened (subscribe s) = (some (subscribe (record s { method = method_url })), true)
admit method_url opened kind = (if opened then some kind else none, opened)

module _ (codec : FrameCodec) where
  open codec use {serde, encode_frame, decode_frame, encode_json_frame, decode_json_frame}

  pub decode_binary : Bytes → Bytes → Bool → Option Kind × Bool
  decode_binary bytes method_url opened = elim (decode_frame bytes) [
    | none ↦ (none, opened)
    | some none ↦ (none, opened)
    | some (some kind) ↦ admit method_url opened kind
  ]

  pub decode_text : Bytes → Bytes → Bool → Option Kind × Bool
  decode_text content method_url opened = elim (decode_json_frame content) [
    | none ↦ (none, opened)
    | some jf ↦
        if opened
        then (json_frame_to_proto serde jf, true)
        else (some (subscribe (json_open_to_subscribe serde jf method_url)), true)
  ]

  unfoldable pub to_tung : Frame → Bool → TungMessage
  to_tung frame json =
      if json
      then elim (proto_frame_to_json serde frame) [
        | none ↦ binary (encode_frame frame)
        | some jf ↦ text (encode_json_frame jf)
      ]
      else binary (encode_frame frame)
