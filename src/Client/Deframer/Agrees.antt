-- ===== src/Client/Deframer/Agrees.antt =====
-- The client's deframer (rust/crates/grpc-webnext-client/src/codec.rs) against the server's
-- (rust/crates/grpc-webnext/src/grpc_framing.rs), and on frames.
use grpc_webnext.Prelude.{
  ℕ, zero, suc, ◌+◌, ◌-◌, ◌≤◌, ◌<◌, ◌≡◌, ◌≢◌, List, [], ◌∷◌, ◌++◌, Option, none, some, Bytes,
  length, take, drop, refl, arith, length-drop, drop-drop,
}
use grpc_webnext.Wire.BigEndian.{get_u32}
use grpc_webnext.Wire.Grpc
use grpc_webnext.Wire.Grpc.{next_message}
use grpc_webnext.Wire.Grpc.Chunks.{pull_from, pull_from-some, pull_loop-none}
use grpc_webnext.Client.Deframer.{
  Deframer, Scan, done, failed, stuck, push_loop, settle, messages, no_fuel, push,
}

abbrev pub server : Bytes → Grpc.Deframer
server b = record { buf = b }

short_header :
    (buffer : Bytes) (offset : ℕ)
    → length buffer - offset < 5
    → next_message (server (drop offset buffer)) ≡ (none, server (drop offset buffer))
unfolding next_message
short_header buffer offset h = ground (arith, length-drop offset buffer)

short_body :
    (buffer : Bytes) (offset : ℕ)
    → length buffer - offset - 5 < get_u32 (drop (offset + 1) buffer)
    → next_message (server (drop offset buffer)) ≡ (none, server (drop offset buffer))
unfolding next_message
short_body buffer offset h = ground (arith, length-drop offset buffer, drop-drop 1 offset buffer)

whole_message :
    (buffer : Bytes) (offset : ℕ)
    → 5 ≤ length buffer - offset
    → get_u32 (drop (offset + 1) buffer) ≤ length buffer - offset - 5
    → let len = get_u32 (drop (offset + 1) buffer) in
      next_message (server (drop offset buffer))
      ≡ (some (take len (drop (offset + 5) buffer)), server (drop (offset + (5 + len)) buffer))
unfolding next_message
whole_message buffer offset h k =
    let len = get_u32 (drop (offset + 1) buffer) in
    ground (
      arith,
      length-drop offset buffer,
      drop-drop 1 offset buffer,
      drop-drop 5 offset buffer,
      drop-drop len (offset + 5) buffer,
    )

-- A scan that ends without an error takes the messages that the server's deframer takes.
push_loop-pull_from :
    (f : ℕ) (buffer : Bytes) (max : Option ℕ) (out : List Bytes) (offset : ℕ) (ms : List Bytes)
    (offset' : ℕ)
    → push_loop f buffer max out offset ≡ done ms offset'
    → pull_from (server (drop offset buffer)) out ≡ (ms, server (drop offset' buffer))
unfolding push_loop
push_loop-pull_from zero buffer max out offset ms offset' e = cc
push_loop-pull_from (suc f) buffer max out offset ms offset' e =
    let len = get_u32 (drop (offset + 1) buffer) in
    let message = take len (drop (offset + 5) buffer) in
    let here = server (drop offset buffer) in
    let there = server (drop (offset + (5 + len)) buffer) in
    ground (
      arith,
      short_header buffer offset,
      short_body buffer offset,
      whole_message buffer offset,
      pull_loop-none (length (drop offset buffer)) here out,
      pull_from-some here there message out,
      push_loop-pull_from f buffer max (out ++ message ∷ []) (offset + (5 + len)) ms offset',
    )

push_loop-ne-stuck :
    (f : ℕ) (buffer : Bytes) (max : Option ℕ) (out : List Bytes) (offset : ℕ)
    → length buffer - offset < f
    → push_loop f buffer max out offset ≢ stuck
unfolding push_loop
push_loop-ne-stuck zero buffer max out offset h = absurd (omega arith)
push_loop-ne-stuck (suc f) buffer max out offset h =
    let len = get_u32 (drop (offset + 1) buffer) in
    let message = take len (drop (offset + 5) buffer) in
    ground (arith, push_loop-ne-stuck f buffer max (out ++ message ∷ []) (offset + (5 + len)))

push-both :
    (d : Deframer) (chunk : Bytes)
    → (push d chunk ≢ no_fuel)
      × ((ms : List Bytes) (d' : Deframer)
          → push d chunk ≡ messages ms d'
          → (Grpc.pull_all (server (d.buffer ++ chunk)) ≡ (ms, server d'.buffer))
            × (d'.max_message_bytes ≡ d.max_message_bytes))
unfolding push Grpc.pull_all
push-both d chunk = go (push_loop (suc (length buffer)) buffer d.max_message_bytes [] 0) refl
  where
    buffer : Bytes
    buffer = d.buffer ++ chunk

    scan : Scan
    scan = push_loop (suc (length buffer)) buffer d.max_message_bytes [] 0

    go :
        (r : Scan)
        → scan ≡ r
        → (settle d buffer r ≢ no_fuel)
          × ((ms : List Bytes) (d' : Deframer)
              → settle d buffer r ≡ messages ms d'
              → (Grpc.pull_all (server buffer) ≡ (ms, server d'.buffer))
                × (d'.max_message_bytes ≡ d.max_message_bytes))
    go (done out offset) e = (
      λ h. cc,
      λ ms d' h. ground (arith, push_loop-pull_from _ buffer d.max_message_bytes [] 0 out offset e),
    )
    go (failed code) e = (λ h. cc, λ ms d' h. cc)
    go stuck e = absurd (push_loop-ne-stuck _ buffer d.max_message_bytes [] 0 (omega arith) e)

-- For every deframer and chunk, the loop of `push` ends: a round for each byte is enough.
pub push-ne-no_fuel : (d : Deframer) (chunk : Bytes) → push d chunk ≢ no_fuel
push-ne-no_fuel d chunk = (push-both d chunk).0

-- If `push` answers with messages, then they are those that the server's deframer finds in the same
-- bytes, the same bytes are held back, and the limit is kept.
pub push-pull_all :
    (d : Deframer) (chunk : Bytes) (ms : List Bytes) (d' : Deframer)
    → push d chunk ≡ messages ms d'
    → (Grpc.pull_all (server (d.buffer ++ chunk)) ≡ (ms, server d'.buffer))
      × (d'.max_message_bytes ≡ d.max_message_bytes)
push-pull_all d chunk ms d' e = (push-both d chunk).1 ms d' e
