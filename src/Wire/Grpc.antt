-- ===== src/Wire/Grpc.antt =====
-- rust/crates/grpc-webnext/src/grpc_framing.rs: one flag byte, a length and the message.
pub mod Chunks
pub mod Collect
use grpc_webnext.Prelude.{
  ℕ, zero, suc, ◌+◌, ◌≡◌, Bool, List, [], ◌∷◌, ◌++◌, Option, none, some, Bytes, length, take, drop,
  is_empty, ltb, if◌then◌else◌, refl, codes,
}
use grpc_webnext.Wire.BigEndian.{put_u32, get_u32}

abbrev pub header_len : ℕ
header_len = 5

unfoldable pub frame : Bytes → Bytes
frame message = (0 ∷ put_u32 (length message)) ++ message

-- `Deframer`.
pub record Deframer : Type 0 where
  pub buf : Bytes

unfoldable pub new : Deframer
new = record { buf = [] }

unfoldable pub push : Deframer → Bytes → Deframer
push d chunk = record { buf = d.buf ++ chunk }

-- `next_message` on the buffer: the message and what stays behind it.
unfoldable pub next_message : Deframer → Option Bytes × Deframer
next_message d =
    if ltb (length d.buf) header_len
    then (none, d)
    else let len = get_u32 (drop 1 d.buf) in
      if ltb (length d.buf) (header_len + len)
      then (none, d)
      else let rest = drop header_len d.buf in
        (some (take len rest), record { buf = drop len rest })

is_empty_buf : Deframer → Bool
is_empty_buf d = is_empty d.buf

-- `while let Some(m) = d.next_message() { out.push(m) }`. A message takes five bytes at least, so
-- a round for each byte of the buffer is enough.
pub pull_loop : ℕ → Deframer → List Bytes → List Bytes × Deframer
pull_loop zero d out = (out, d)
pull_loop (suc fuel) d out =
    let (m, d') = next_message d in
    elim m [ none ↦ (out, d') | some msg ↦ pull_loop fuel d' (out ++ msg ∷ []) ]

unfoldable pub pull_all : Deframer → List Bytes × Deframer
pull_all d = pull_loop (length d.buf) d []

pub deframe_all : Bytes → List Bytes
unfolding pull_all
deframe_all body = (pull_all (push new body)).0

-- The reader of a response body in `ws.rs`: each chunk is pushed, and what is complete is pulled.
unfoldable pub pump : List Bytes → Deframer → List Bytes → List Bytes × Deframer
pump [] d out = (out, d)
pump (chunk ∷ chunks) d out = let (ms, d') = pull_all (push d chunk) in pump chunks d' (out ++ ms)

two_frames : deframe_all (frame (codes "a") ++ frame (codes "bb")) ≡ codes "a" ∷ codes "bb" ∷ []
unfolding deframe_all pull_loop next_message frame put_u32 get_u32 push new
two_frames = refl
