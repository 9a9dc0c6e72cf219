-- ===== src/Client/Deframer/Frames.antt =====
-- The client's deframer (rust/crates/grpc-webnext-client/src/codec.rs) on encoded messages.
use grpc_webnext.Prelude.{
  ℕ, zero, suc, ◌+◌, ◌-◌, ◌<◌, ◌^◌, ◌≡◌, Bool, true, false, List, [], ◌∷◌, ◌++◌, Option, Bytes,
  length, take, drop, if◌then◌else◌, refl, ap, ◌∙◌, arith, length-drop, drop-drop, drop-append,
  take-append, length-append, append_assoc, append-nil, get_elem?-drop, All, any, flatten, map,
  Bool-cases, inl, inr,
}
use grpc_webnext.Wire.BigEndian.{get_u32, put_u32, get_u32-put_u32}
use grpc_webnext.Client.Status.{resource_exhausted}
use grpc_webnext.Client.Deframer.{
  done, failed, over_limit, flag_at, push_loop, messages, error, push, new, encode_message,
}

-- What the loop reads where an encoded message begins.
frame_at :
    (buffer : Bytes) (offset : ℕ) (m rest : Bytes)
    → length m < 2 ^ 32
    → drop offset buffer ≡ encode_message m ++ rest
    → (length buffer - offset ≡ 5 + length m + length rest)
      × (flag_at buffer offset ≡ 0)
      × (get_u32 (drop (offset + 1) buffer) ≡ length m)
      × (take (length m) (drop (offset + 5) buffer) ≡ m)
      × (drop (offset + (5 + length m)) buffer ≡ rest)
unfolding flag_at encode_message put_u32
frame_at buffer offset m rest h e = ground (
  arith,
  length-drop offset buffer,
  length-append m rest,
  drop-drop 1 offset buffer,
  drop-drop 5 offset buffer,
  drop-drop (length m) (offset + 5) buffer,
  get_u32-put_u32 (length m) (m ++ rest),
  take-append m rest,
  drop-append m rest,
  get_elem?-drop offset buffer 0 (put_u32 (length m) ++ (m ++ rest)),
)

push_loop_frame :
    (f : ℕ) (buffer : Bytes) (max : Option ℕ) (out : List Bytes) (offset : ℕ) (m rest : Bytes)
    → length m < 2 ^ 32
    → drop offset buffer ≡ encode_message m ++ rest
    → push_loop (suc f) buffer max out offset ≡ (
        if over_limit max (length m)
        then failed resource_exhausted
        else push_loop f buffer max (out ++ m ∷ []) (offset + (5 + length m)))
unfolding push_loop
push_loop_frame f buffer max out offset m rest h e =
    let (size, flag, len, body, behind) = frame_at buffer offset m rest h e in
    rw (len, body) (ground arith)

end_of_input :
    (f : ℕ) (buffer : Bytes) (max : Option ℕ) (out : List Bytes) (offset : ℕ)
    → drop offset buffer ≡ []
    → push_loop (suc f) buffer max out offset ≡ done (out ++ []) offset
unfolding push_loop
end_of_input f buffer max out offset e = ground (arith, length-drop offset buffer, append-nil out)

-- The loop over encoded messages: the first that is over the limit ends it, and otherwise all are
-- taken.
push_loop-frames :
    (ms : List Bytes) (f : ℕ) (buffer : Bytes) (max : Option ℕ) (out : List Bytes) (offset : ℕ)
    → All (λ m. length m < 2 ^ 32) ms
    → length buffer - offset < f
    → drop offset buffer ≡ flatten (map encode_message ms)
    → (any (λ m. over_limit max (length m)) ms ≡ true
        → push_loop f buffer max out offset ≡ failed resource_exhausted)
      × (any (λ m. over_limit max (length m)) ms ≡ false
          → (end : ℕ) × (push_loop f buffer max out offset ≡ done (out ++ ms) end)
            × (drop end buffer ≡ []))
push_loop-frames ms zero buffer max out offset h hf e = absurd (omega arith)
push_loop-frames [] (suc f) buffer max out offset h hf e =
    (λ t. cc, λ t. (offset, end_of_input f buffer max out offset e, e))
push_loop-frames (m ∷ ms) (suc f) buffer max out offset (hm, hms) hf e =
    let rest = flatten (map encode_message ms) in
    let (size, flag, len, body, behind) = frame_at buffer offset m rest hm e in
    let here = push_loop_frame f buffer max out offset m rest hm e in
    let (over, within) =
      push_loop-frames ms f buffer max (out ++ m ∷ []) (offset + (5 + length m)) hms (omega arith)
        behind in
    elim (Bool-cases (over_limit max (length m))) [
      | inl t ↦ (λ u. here ∙ rw t, λ u. absurd (ground arith))
      | inr t ↦ (
        λ u. here ∙ (rw t (over (ground arith))),
        λ u.
            let (end, scan, all_read) = within (ground arith) in
            (
              end,
              here ∙ (rw t scan) ∙ ap (λ x. done x end) (append_assoc out (m ∷ []) ms),
              all_read,
            ),
      )
    ]

frames-both :
    (ms : List Bytes) (max : Option ℕ)
    → All (λ m. length m < 2 ^ 32) ms
    → let body = flatten (map encode_message ms) in
      (any (λ m. over_limit max (length m)) ms ≡ true
        → push (new max) body
          ≡ error resource_exhausted (record { buffer = body; max_message_bytes = max }))
      × (any (λ m. over_limit max (length m)) ms ≡ false
          → push (new max) body ≡ messages ms (new max))
unfolding push new
frames-both ms max h =
    let body = flatten (map encode_message ms) in
    let (over, within) =
      push_loop-frames ms (suc (length body)) body max [] 0 h (omega arith) refl in
    (
      λ u. rw (over u),
      λ u.
          let (end, scan, all_read) = within u in
          rw scan (ap (λ b. messages ms (record { buffer = b; max_message_bytes = max })) all_read),
    )

-- The encodings of messages shorter than 2^32 bytes, pushed at once into a new deframer: if one is
-- over the limit the answer is RESOURCE_EXHAUSTED, and if none is, or no limit is set, the answer is
-- the messages in order, with nothing held back.
pub push-frames :
    (ms : List Bytes) (max : Option ℕ)
    → All (λ m. length m < 2 ^ 32) ms
    → push (new max) (flatten (map encode_message ms)) ≡ (
        if any (λ m. over_limit max (length m)) ms
        then error resource_exhausted
            (record { buffer = flatten (map encode_message ms); max_message_bytes = max })
        else messages ms (new max))
push-frames ms max h = go (any (λ m. over_limit max (length m)) ms) refl
  where
    go :
        (b : Bool)
        → any (λ m. over_limit max (length m)) ms ≡ b
        → push (new max) (flatten (map encode_message ms)) ≡ (
            if b
            then error resource_exhausted
                (record { buffer = flatten (map encode_message ms); max_message_bytes = max })
            else messages ms (new max))
    go true e = (frames-both ms max h).0 e
    go false e = (frames-both ms max h).1 e
