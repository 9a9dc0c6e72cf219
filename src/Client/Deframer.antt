-- ===== src/Client/Deframer.antt =====
-- rust/crates/grpc-webnext-client/src/codec.rs: messages out of a byte stream, with the checks that
-- the server's deframer does not make.
pub mod Agrees
pub mod Frames
pub mod Size
use grpc_webnext.Prelude.{
  ℕ, zero, suc, ◌+◌, ◌-◌, ◌≡◌, Bool, true, false, List, [], ◌∷◌, ◌++◌, Option, none, some, Bytes,
  length, take, drop, ltb, leb, ◌==◌, get_elem?, if◌then◌else◌, refl, codes, not,
}
use grpc_webnext.Wire.BigEndian.{get_u32, put_u32}
use grpc_webnext.Client.Status.{Code, unimplemented, resource_exhausted}

unfoldable pub encode_message : Bytes → Bytes
encode_message message = (0 ∷ []) ++ (put_u32 (length message) ++ message)

pub record Deframer : Type 0 where
  pub buffer : Bytes
  pub max_message_bytes : Option ℕ

unfoldable pub new : Option ℕ → Deframer
new max_message_bytes = record { buffer = []; max_message_bytes = max_message_bytes }

-- How the loop of `push` ends: the messages and the offset behind them, an error, or no fuel.
pub data Scan : Type 0 where
  done : List Bytes → ℕ → Scan
  failed : Code → Scan
  stuck : Scan

-- `len > max`, where a limit is set.
unfoldable pub over_limit : Option ℕ → ℕ → Bool
over_limit none len = false
over_limit (some max) len = ltb max len

-- `self.buffer[offset]`, read where five bytes are there.
unfoldable pub flag_at : Bytes → ℕ → ℕ
flag_at buffer offset = elim (get_elem? buffer offset) [ none ↦ 0 | some b ↦ b ]

-- The loop of `push` over the offset. Each message takes five bytes at least.
unfoldable pub push_loop : ℕ → Bytes → Option ℕ → List Bytes → ℕ → Scan
push_loop zero buffer max out offset = stuck
push_loop (suc fuel) buffer max out offset =
    let len = get_u32 (drop (offset + 1) buffer) in
    let message = take len (drop (offset + 5) buffer) in
    let next = push_loop fuel buffer max (out ++ message ∷ []) (offset + (5 + len)) in
    if ltb (length buffer - offset) 5
    then done out offset
    else if not (flag_at buffer offset == 0)
    then failed unimplemented
    else if over_limit max len
    then failed resource_exhausted
    else if ltb (length buffer - offset - 5) len
    then done out offset
    else next

-- `push`. On an error the buffer keeps the chunk, since `drain` is not reached.
pub data Pushed : Type 0 where
  messages : List Bytes → Deframer → Pushed
  error : Code → Deframer → Pushed
  no_fuel : Pushed

-- What follows the loop: `self.buffer.drain(..offset)`, or the early return.
unfoldable pub settle : Deframer → Bytes → Scan → Pushed
settle d buffer (done out offset) = messages out (record d { buffer = drop offset buffer })
settle d buffer (failed code) = error code (record d { buffer = buffer })
settle d buffer stuck = no_fuel

unfoldable pub push : Deframer → Bytes → Pushed
unfolding settle
push d chunk =
    let buffer = d.buffer ++ chunk in
    settle d buffer (push_loop (suc (length buffer)) buffer d.max_message_bytes [] 0)

pub pending : Deframer → ℕ
pending d = length d.buffer

compressed :
    push (new none) (1 ∷ 0 ∷ 0 ∷ 0 ∷ 0 ∷ [])
    ≡ error unimplemented (record { buffer = 1 ∷ 0 ∷ 0 ∷ 0 ∷ 0 ∷ []; max_message_bytes = none })
unfolding push push_loop new flag_at get_u32
compressed = refl

partial :
    push (new (some 4)) (encode_message (codes "ab") ++ (0 ∷ 0 ∷ []))
    ≡ messages (codes "ab" ∷ []) (record { buffer = 0 ∷ 0 ∷ []; max_message_bytes = some 4 })
unfolding push push_loop new flag_at get_u32 over_limit encode_message put_u32
partial = refl
