-- ===== src/Wire/SizeLimit.antt =====
-- `GrpcSizeLimit` of rust/crates/grpc-webnext/src/h2ts.rs: the request body of the tunnel path,
-- walked chunk by chunk for a declared message length over the limit.
pub mod Accepts
pub mod Frames
use grpc_webnext.Prelude.{
  ℕ, zero, suc, ◌+◌, ◌-◌, ◌*◌, ◌≡◌, true, false, List, [], ◌∷◌, ◌++◌, Bytes, length, drop, min, ltb,
  leb, ◌==◌, if◌then◌else◌, refl,
}
use grpc_webnext.Wire.BigEndian.{get_u32, put_u32}
use grpc_webnext.Wire.Grpc.{frame}

pub record GrpcSizeLimit : Type 0 where
  pub max : ℕ
  pub header_seen : ℕ
  pub len_buf : Bytes
  pub body_remaining : ℕ

unfoldable pub new : ℕ → GrpcSizeLimit
new max = record { max = max; header_seen = 0; len_buf = 0 ∷ 0 ∷ 0 ∷ 0 ∷ []; body_remaining = 0 }

-- `Ok(())` with the state, the `RESOURCE_EXHAUSTED` error, and no answer: the fuel ran out.
pub data Inspected : Type 0 where
  passed : GrpcSizeLimit → Inspected
  exceeded : Inspected
  stuck : Inspected

-- A write into the array; the index is below 4 wherever the code writes.
abbrev pub set : Bytes → ℕ → ℕ → Bytes
set [] i v = []
set (x ∷ xs) zero v = v ∷ xs
set (x ∷ xs) (suc i) v = x ∷ set xs i v

-- One header byte: the flag first, then the length.
pub note_header : GrpcSizeLimit → ℕ → GrpcSizeLimit
note_header s b = record s {
  header_seen = s.header_seen + 1;
  len_buf = if leb 1 s.header_seen then set s.len_buf (s.header_seen - 1) b else s.len_buf;
}

-- What the fifth header byte decides: the length is over the limit, or it is the body's.
pub note_length : GrpcSizeLimit → Inspected
note_length s =
    let len = get_u32 s.len_buf in
    if s.header_seen == 5
    then (if ltb s.max len then exceeded else passed (record s { body_remaining = len }))
    else passed s

-- Message bytes of the chunk are passed over.
pub skip_body : GrpcSizeLimit → ℕ → GrpcSizeLimit
skip_body s n =
    let left = s.body_remaining - n in
    record s { body_remaining = left; header_seen = if left == 0 then 0 else s.header_seen }

-- The loop `while i < data.len()`; the list is `data[i..]`.
pub inspect_loop : ℕ → GrpcSizeLimit → Bytes → Inspected
inspect_loop fuel s [] = passed s
inspect_loop zero s (b ∷ rest) = stuck
inspect_loop (suc fuel) s (b ∷ rest) = elim (ltb s.header_seen 5) [
  | true ↦ elim (note_length (note_header s b)) [
    | passed s' ↦ inspect_loop fuel s' rest
    | exceeded ↦ exceeded
    | stuck ↦ stuck
  ]
  | false ↦
      let n = min s.body_remaining (suc (length rest)) in
      inspect_loop fuel (skip_body s n) (drop n (b ∷ rest))
]

-- A round takes a byte, or it ends an empty message and the next round takes one.
pub inspect : GrpcSizeLimit → Bytes → Inspected
inspect s chunk = inspect_loop (2 * length chunk) s chunk

-- `poll_frame` over the chunks of the body: the first error ends the stream.
unfoldable pub feed : GrpcSizeLimit → List Bytes → Inspected
feed s [] = passed s
feed s (chunk ∷ chunks) = elim (inspect s chunk) [
  | passed s' ↦ feed s' chunks
  | exceeded ↦ exceeded
  | stuck ↦ stuck
]

two_messages :
    feed (new 3) ((0 ∷ 0 ∷ []) ∷ (0 ∷ 0 ∷ 2 ∷ 7 ∷ []) ∷ (7 ∷ 0 ∷ 0 ∷ 0 ∷ 0 ∷ 4 ∷ []) ∷ [])
    ≡ exceeded
unfolding feed inspect inspect_loop note_header note_length skip_body new get_u32
two_messages = refl
