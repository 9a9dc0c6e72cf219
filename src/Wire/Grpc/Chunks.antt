-- ===== src/Wire/Grpc/Chunks.antt =====
-- The deframer of rust/crates/grpc-webnext/src/grpc_framing.rs on a stream that the transport cuts
-- wherever it likes.
use grpc_webnext.Prelude.{
  ℕ, zero, suc, ◌+◌, ◌≤◌, ◌<◌, ◌^◌, ◌≡◌, ◌⊎◌, inl, inr, List, [], ◌∷◌, ◌++◌, Option, none, some,
  Bytes, length, drop, flatten, All, map, arith, refl, sym, ap, ◌∙◌, append_assoc, append-nil,
  length-append, length-drop, take-append_le, drop-append_le, take-append, drop-append,
}
use grpc_webnext.Wire.BigEndian.{put_u32, get_u32, get_u32-put_u32, get_u32-prefix}
use grpc_webnext.Wire.Grpc.{Deframer, new, push, next_message, pull_loop, pull_all, pump, frame}

-- A message takes its header at least.
next_message_shrinks :
    (d d' : Deframer) (m : Bytes) → next_message d ≡ (some m, d') → length d'.buf + 5 ≤ length d.buf
unfolding next_message
next_message_shrinks d d' m e =
    ground (arith, length-drop (get_u32 (drop 1 d.buf)) (drop 5 d.buf), length-drop 5 d.buf)

next_message-none : (d d' : Deframer) → next_message d ≡ (none, d') → d' ≡ d
unfolding next_message
next_message-none d d' e = ground arith

-- What arrives later does not change a message that is complete.
next_message-push :
    (d d' : Deframer) (m c : Bytes)
    → next_message d ≡ (some m, d')
    → next_message (push d c) ≡ (some m, push d' c)
unfolding next_message push
next_message-push d d' m c e =
    let len = get_u32 (drop 1 d.buf) in
    ground (
      arith,
      length-append d.buf c,
      drop-append_le 1 d.buf c,
      drop-append_le 5 d.buf c,
      get_u32-prefix (drop 1 d.buf) c,
      length-drop 1 d.buf,
      length-drop 5 d.buf,
      take-append_le len (drop 5 d.buf) c,
      drop-append_le len (drop 5 d.buf) c,
    )

-- What a call found, with the equation.
next_message_cases :
    (d : Deframer)
    → (next_message d ≡ (none, d))
      ⊎ ((m : Bytes) × (d' : Deframer) × (next_message d ≡ (some m, d')))
next_message_cases d = go (next_message d) refl
  where
    go :
        (r : Option Bytes × Deframer)
        → next_message d ≡ r
        → (next_message d ≡ (none, d))
          ⊎ ((m : Bytes) × (d' : Deframer) × (next_message d ≡ (some m, d')))
    go (none, d') e = inl (e ∙ ap (λ x. (none, x)) (next_message-none d d' e))
    go (some m, d') e = inr (m, d', e)

pull_loop-some :
    (f : ℕ) (d d' : Deframer) (m : Bytes) (out : List Bytes)
    → next_message d ≡ (some m, d')
    → pull_loop (suc f) d out ≡ pull_loop f d' (out ++ m ∷ [])
unfolding pull_loop
pull_loop-some f d d' m out e = ground arith

pub pull_loop-none :
    (f : ℕ) (d : Deframer) (out : List Bytes)
    → next_message d ≡ (none, d)
    → pull_loop f d out ≡ (out, d)
unfolding pull_loop
pull_loop-none zero d out e = refl
pull_loop-none (suc f) d out e = ground arith

-- Any fuel that covers the buffer gives the same result.
pull_loop_fuel :
    (f g : ℕ) (d : Deframer) (out : List Bytes)
    → length d.buf ≤ f
    → length d.buf ≤ g
    → pull_loop f d out ≡ pull_loop g d out
pull_loop_fuel zero g d out hf hg = elim (next_message_cases d) [
  | inl e ↦ rw (pull_loop-none zero d out e, pull_loop-none g d out e)
  | inr (m, d', e) ↦ absurd (omega (arith, next_message_shrinks d d' m e))
]
pull_loop_fuel (suc f) zero d out hf hg = elim (next_message_cases d) [
  | inl e ↦ rw (pull_loop-none (suc f) d out e, pull_loop-none zero d out e)
  | inr (m, d', e) ↦ absurd (omega (arith, next_message_shrinks d d' m e))
]
pull_loop_fuel (suc f) (suc g) d out hf hg = elim (next_message_cases d) [
  | inl e ↦ rw (pull_loop-none (suc f) d out e, pull_loop-none (suc g) d out e)
  | inr (m, d', e) ↦
      let s = next_message_shrinks d d' m e in
      pull_loop-some f d d' m out e
      ∙ pull_loop_fuel f g d' (out ++ m ∷ []) (omega arith) (omega arith)
      ∙ sym (pull_loop-some g d d' m out e)
]

-- The loop with the fuel that `pull_all` gives.
abbrev pub pull_from : Deframer → List Bytes → List Bytes × Deframer
pull_from d out = pull_loop (length d.buf) d out

pub pull_from-some :
    (d d' : Deframer) (m : Bytes) (out : List Bytes)
    → next_message d ≡ (some m, d')
    → pull_from d out ≡ pull_from d' (out ++ m ∷ [])
pull_from-some d d' m out e =
    let s = next_message_shrinks d d' m e in
    pull_loop_fuel (length d.buf) (suc (length d.buf)) d out (omega arith) (omega arith)
    ∙ pull_loop-some (length d.buf) d d' m out e
    ∙ pull_loop_fuel (length d.buf) (length d'.buf) d' (out ++ m ∷ []) (omega arith) (omega arith)

-- Pulling what is complete, then pushing a chunk, leads where pushing at once leads.
pull_loop-push :
    (f : ℕ) (d r : Deframer) (out ms : List Bytes) (c : Bytes)
    → length d.buf ≤ f
    → pull_loop f d out ≡ (ms, r)
    → (pull_from (push d c) out ≡ pull_from (push r c) ms) × (next_message r ≡ (none, r))
pull_loop-push zero d r out ms c h e = elim (next_message_cases d) [
  | inl n ↦ ground (arith, pull_loop-none zero d out n)
  | inr (m, d', n) ↦ absurd (omega (arith, next_message_shrinks d d' m n))
]
pull_loop-push (suc f) d r out ms c h e = elim (next_message_cases d) [
  | inl n ↦ ground (arith, pull_loop-none (suc f) d out n)
  | inr (m, d', n) ↦
      let s = next_message_shrinks d d' m n in
      let (reach, drained) =
        pull_loop-push f d' r (out ++ m ∷ []) ms c (omega arith)
          (sym (pull_loop-some f d d' m out n) ∙ e) in
      (pull_from-some (push d c) (push d' c) m out (next_message-push d d' m c n) ∙ reach, drained)
]

-- The accumulated messages stay in front.
pull_loop_out :
    (f : ℕ) (d : Deframer) (out : List Bytes)
    → pull_loop f d out ≡ (out ++ (pull_loop f d []).0, (pull_loop f d []).1)
pull_loop_out zero d out = unfold pull_loop in rw append-nil
pull_loop_out (suc f) d out = elim (next_message_cases d) [
  | inl n ↦ rw (pull_loop-none (suc f) d out n, pull_loop-none (suc f) d [] n, append-nil)
  | inr (m, d', n) ↦
      pull_loop-some f d d' m out n
      ∙ pull_loop_out f d' (out ++ m ∷ [])
      ∙ ground (
        arith,
        pull_loop-some f d d' m [] n,
        pull_loop_out f d' (m ∷ []),
        append_assoc out (m ∷ []) (pull_loop f d' []).0,
      )
]

push-nil : (d : Deframer) → push d [] ≡ d
unfolding push
push-nil d = ap (λ (b : Bytes). record { buf = b }) (append-nil d.buf)

push-push : (d : Deframer) (b c : Bytes) → push (push d b) c ≡ push d (b ++ c)
unfolding push
push-push d b c = ap (λ (b : Bytes). record { buf = b }) (append_assoc d.buf b c)

-- Chunk by chunk or all at once: the same messages, and the same bytes held back.
pump-pull_from :
    (cs : List Bytes) (d : Deframer) (out : List Bytes)
    → next_message d ≡ (none, d)
    → pump cs d out ≡ pull_from (push d (flatten cs)) out
unfolding pump pull_all
pump-pull_from [] d out n = rw push-nil (sym (pull_loop-none (length d.buf) d out n))
pump-pull_from (c ∷ cs) d out n =
    let e = push d c in
    let (meet, drained) =
      pull_loop-push (length e.buf) e _ out _ (flatten cs) (omega arith)
        (pull_loop_out (length e.buf) e out) in
    pump-pull_from cs (pull_all e).1 (out ++ (pull_all e).0) drained
    ∙ sym meet
    ∙ ap (λ x. pull_from x out) (push-push d c (flatten cs))

-- However the transport cuts a body, pulling after every chunk gives the messages of the whole
-- body, and leaves the bytes that the whole body leaves.
pub pump-flatten : (cs : List Bytes) → pump cs new [] ≡ pull_all (push new (flatten cs))
unfolding pull_all
pump-flatten cs = pump-pull_from cs new [] (unfold next_message new in refl)

-- One frame in front of anything.
next_message-frame :
    (m rest : Bytes)
    → length m < 2 ^ 32
    → next_message (push new (frame m ++ rest)) ≡ (some m, push new rest)
unfolding next_message push new frame put_u32
next_message-frame m rest h = ground (
  arith,
  get_u32-put_u32 (length m) (m ++ rest),
  length-append m rest,
  take-append m rest,
  drop-append m rest,
)

pull_from-frames :
    (ms : List Bytes) (out : List Bytes)
    → All (λ m. length m < 2 ^ 32) ms
    → pull_from (push new (flatten (map frame ms))) out ≡ (out ++ ms, new)
unfolding new
pull_from-frames [] out h =
    rw (append-nil, push-nil) (pull_loop-none zero new out (unfold next_message new in refl))
pull_from-frames (m ∷ ms) out (hm, hms) =
    pull_from-some _ _ m out (next_message-frame m (flatten (map frame ms)) hm)
    ∙ pull_from-frames ms (out ++ m ∷ []) hms
    ∙ ap (λ x. (x, new)) (append_assoc out (m ∷ []) ms)

-- Frames of any messages shorter than 2^32 bytes, sent one after the other and cut into any chunks,
-- come back as those messages, in order, and nothing is left over.
pub pump-frames :
    (ms cs : List Bytes)
    → All (λ m. length m < 2 ^ 32) ms
    → flatten cs ≡ flatten (map frame ms)
    → pump cs new [] ≡ (ms, new)
unfolding pull_all
pump-frames ms cs h e = pump-flatten cs ∙ rw e (pull_from-frames ms [] h)
