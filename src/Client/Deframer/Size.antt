-- ===== src/Client/Deframer/Size.antt =====
-- What a push of rust/crates/grpc-webnext-client/src/codec.rs keeps: no more than was there.
use grpc_webnext.Prelude.{
  ℕ, zero, suc, ◌+◌, ◌≤◌, ◌≡◌, List, [], ◌∷◌, ◌++◌, Option, Bytes, length, take, drop, refl, ap,
  arith, length-append, length-drop,
}
use grpc_webnext.Wire.BigEndian.{get_u32}
use grpc_webnext.Client.Deframer.{
  Deframer, Scan, done, failed, stuck, push_loop, settle, messages, push,
}

push_loop-size :
    (f : ℕ) (buffer : Bytes) (max : Option ℕ) (out : List Bytes) (offset : ℕ) (ms : List Bytes)
    (end : ℕ)
    → offset ≤ length buffer
    → push_loop f buffer max out offset ≡ done ms end
    → (length ms + offset ≤ length out + end) × (end ≤ length buffer)
unfolding push_loop
push_loop-size zero buffer max out offset ms end h e = cc
push_loop-size (suc f) buffer max out offset ms end h e =
    let len = get_u32 (drop (offset + 1) buffer) in
    let m = take len (drop (offset + 5) buffer) in
    ground (
      arith,
      length-append out (m ∷ []),
      push_loop-size f buffer max (out ++ m ∷ []) (offset + (5 + len)) ms end,
    )

-- The messages and the bytes that are held back are no more than the bytes that were there.
pub push-size :
    (d : Deframer) (c : Bytes) (ms : List Bytes) (d' : Deframer)
    → push d c ≡ messages ms d'
    → length ms + length d'.buffer ≤ length d.buffer + length c
unfolding push settle
push-size d c ms d' e = go (push_loop (suc (length b)) b d.max_message_bytes [] 0) refl e
  where
    b : Bytes
    b = d.buffer ++ c

    go :
        (s : Scan)
        → push_loop (suc (length b)) b d.max_message_bytes [] 0 ≡ s
        → settle d b s ≡ messages ms d'
        → length ms + length d'.buffer ≤ length d.buffer + length c
    go (failed x) q r = cc
    go stuck q r = cc
    go (done out end) q r =
        let (fits, within) =
          push_loop-size (suc (length b)) b d.max_message_bytes [] 0 out end (omega arith) q in
        let em : out ≡ ms = cc in
        let ed : record d { buffer = drop end b } ≡ d' = cc in
        omega (
          arith,
          fits,
          within,
          ap length em,
          ap (λ (x : Deframer). length x.buffer) ed,
          length-drop end b,
          length-append d.buffer c,
        )
