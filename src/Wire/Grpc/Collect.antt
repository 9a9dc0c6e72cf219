-- ===== src/Wire/Grpc/Collect.antt =====
-- The messages that the reader of rust/crates/grpc-webnext/src/ws.rs pulls out, chunk by chunk.
use grpc_webnext.Prelude.{
  ◌<◌, ◌^◌, ◌≡◌, List, [], ◌∷◌, ◌++◌, Bytes, length, map, flatten, All, refl, ap, ◌∙◌, sym,
  append_assoc, append-nil,
}
use grpc_webnext.Wire.Grpc.{Deframer, new, push, pull_all, pump, frame, deframe_all}
use grpc_webnext.Wire.Grpc.Chunks.{pump-frames, pump-flatten}

pub collected : List Bytes → Deframer → List Bytes
collected cs d = (pump cs d []).0

pump-append :
    (cs : List Bytes) (d : Deframer) (out : List Bytes) → (pump cs d out).0 ≡ out ++ collected cs d
unfolding pump collected
pump-append [] d out = sym (append-nil out)
pump-append (c ∷ cs) d out =
    let (ms, d') = pull_all (push d c) in
    pump-append cs d' (out ++ ms)
    ∙ append_assoc out ms (collected cs d')
    ∙ ap (λ x. out ++ x) (sym (pump-append cs d' ms))

pub collected-nil : (d : Deframer) → collected [] d ≡ []
unfolding collected pump
collected-nil d = refl

pub collected-cons :
    (c : Bytes) (cs : List Bytes) (d : Deframer)
    → collected (c ∷ cs) d ≡ (pull_all (push d c)).0 ++ collected cs (pull_all (push d c)).1
unfolding pump collected
collected-cons c cs d = pump-append cs (pull_all (push d c)).1 (pull_all (push d c)).0

pub collected-frames :
    (ms cs : List Bytes)
    → All (λ m. length m < 2 ^ 32) ms
    → flatten cs ≡ flatten (map frame ms)
    → collected cs new ≡ ms
unfolding collected
collected-frames ms cs h e = ap (λ r. r.0) (pump-frames ms cs h e)

-- A frame alone is read as its message.
pub deframe_all-frame : (m : Bytes) → length m < 2 ^ 32 → deframe_all (frame m) ≡ m ∷ []
unfolding deframe_all
deframe_all-frame m h =
    let p = sym (pump-flatten (frame m ∷ [])) ∙ pump-frames (m ∷ []) (frame m ∷ []) (h, tt) refl in
    rw append-nil at (ap (λ r. r.0) p)
