-- ===== src/Wire/SizeLimit/Frames.antt =====
-- `GrpcSizeLimit` of rust/crates/grpc-webnext/src/h2ts.rs on a stream of frames.
use grpc_webnext.Prelude.{
  ℕ, suc, ◌<◌, ◌^◌, ◌≡◌, ◌⊎◌, inl, inr, true, false, List, [], ◌∷◌, ◌++◌, Bytes, length, any, ltb,
  if◌then◌else◌, flatten, All, map, arith, refl, ap, ◌∙◌, drop-append, length-append, Bool-cases,
}
use grpc_webnext.Wire.BigEndian.{put_u32, get_u32, from_be_bytes_lem, length-put_u32}
use grpc_webnext.Wire.Grpc.{frame}
use grpc_webnext.Wire.SizeLimit.{
  GrpcSizeLimit, new, passed, exceeded, note_header, note_length, skip_body, feed,
}
use grpc_webnext.Wire.SizeLimit.Accepts.{walk, step, walk_skip, feed-walk}

-- Between two messages.
abbrev pub IsReady : GrpcSizeLimit → Type 0
IsReady s =
    ((s.header_seen ≡ 0) ⊎ ((s.header_seen ≡ 5) × (s.body_remaining ≡ 0))) × (length s.len_buf ≡ 4)

-- A header, read from the start of one.
walk_header :
    (max r a b c d : ℕ) (m rest : Bytes)
    → length m < 2 ^ 32
    → walk
        (record { max = max; header_seen = 0; len_buf = a ∷ b ∷ c ∷ d ∷ []; body_remaining = r })
        (frame m ++ rest)
      ≡ (if ltb max (length m)
          then exceeded
          else walk
              (record {
                max = max;
                header_seen = 5;
                len_buf = put_u32 (length m);
                body_remaining = length m;
              })
              (m ++ rest))
unfolding walk step note_header note_length frame put_u32 get_u32
walk_header max r a b c d m rest h = rw (from_be_bytes_lem (length m) h) (ground arith)

-- A body, read to its end.
walk_body :
    (s : GrpcSizeLimit) (m rest : Bytes)
    → s.header_seen ≡ 5
    → s.body_remaining ≡ length m
    → length s.len_buf ≡ 4
    → (t : GrpcSizeLimit) × (walk s (m ++ rest) ≡ walk t rest) × IsReady t × (t.max ≡ s.max)
unfolding skip_body
walk_body s [] rest h r l = (s, refl, (inr (h, r), l), refl)
walk_body s (x ∷ m) rest h r l =
    let n = length m in
    (
      skip_body s (suc n),
      walk_skip n s (x ∷ (m ++ rest)) (omega arith) (omega arith)
            (omega (arith, length-append m rest))
          ∙ ap (walk (skip_body s (suc n))) (drop-append (x ∷ m) rest),
      (inl (ground arith), ground arith),
      ground arith,
    )

four :
    (xs : Bytes) → length xs ≡ 4 → (a : ℕ) × (b : ℕ) × (c : ℕ) × (d : ℕ) × (xs ≡ a ∷ b ∷ c ∷ d ∷ [])
four (a ∷ b ∷ c ∷ d ∷ []) h = (a, b, c, d, refl)
four [] h = absurd (omega arith)
four (a ∷ []) h = absurd (omega arith)
four (a ∷ b ∷ []) h = absurd (omega arith)
four (a ∷ b ∷ c ∷ []) h = absurd (omega arith)
four (a ∷ b ∷ c ∷ d ∷ e ∷ xs) h = absurd (omega arith)

abbrev fresh : ℕ → ℕ → ℕ → ℕ → ℕ → ℕ → GrpcSizeLimit
fresh max r a b c d = record {
  max = max;
  header_seen = 0;
  len_buf = a ∷ b ∷ c ∷ d ∷ [];
  body_remaining = r;
}

walk_after_empty :
    (s : GrpcSizeLimit) (x : ℕ) (rest : Bytes)
    → s.header_seen ≡ 5
    → s.body_remaining ≡ 0
    → walk s (x ∷ rest) ≡ walk (skip_body s 0) (x ∷ rest)
unfolding walk step skip_body
walk_after_empty s x rest h r = ground arith

walk_ready :
    (s : GrpcSizeLimit) (x : ℕ) (rest : Bytes)
    → IsReady s
    → (r : ℕ) × (a : ℕ) × (b : ℕ) × (c : ℕ) × (d : ℕ) × (walk s (x ∷ rest)
        ≡ walk (fresh s.max r a b c d) (x ∷ rest))
unfolding skip_body
walk_ready s x rest (inl h, l) =
    let (a, b, c, d, e) = four s.len_buf l in
    (s.body_remaining, a, b, c, d, ap (λ t. walk t (x ∷ rest)) (ground arith))
walk_ready s x rest (inr (h, r), l) =
    let (a, b, c, d, e) = four s.len_buf l in
    (0, a, b, c, d, walk_after_empty s x rest h r ∙ ap (λ t. walk t (x ∷ rest)) (ground arith))

-- From any state between two messages a message within the limit leads to such a state again, and
-- one over it is refused.
walk-frame :
    (s : GrpcSizeLimit) (m rest : Bytes)
    → IsReady s
    → length m < 2 ^ 32
    → ((ltb s.max (length m) ≡ true) → walk s (frame m ++ rest) ≡ exceeded)
      × ((ltb s.max (length m) ≡ false)
          → (t : GrpcSizeLimit) × (walk s (frame m ++ rest) ≡ walk t rest)
            × IsReady t
            × (t.max ≡ s.max))
unfolding frame put_u32
walk-frame s m rest ready h =
    let (r, a, b, c, d, e) = walk_ready s 0 (put_u32 (length m) ++ m ++ rest) ready in
    let step1 = e ∙ walk_header s.max r a b c d m rest h in
    (
      λ over. step1 ∙ rw over,
      λ within.
          let (u, w, k, same) =
            walk_body
              (record {
                max = s.max;
                header_seen = 5;
                len_buf = put_u32 (length m);
                body_remaining = length m;
              })
              m rest refl refl (length-put_u32 (length m)) in
          (u, step1 ∙ (rw within) ∙ w, k, same),
    )

walk-frames :
    (ms : List Bytes) (s : GrpcSizeLimit)
    → IsReady s
    → All (λ m. length m < 2 ^ 32) ms
    → ((any (λ m. ltb s.max (length m)) ms ≡ true) → walk s (flatten (map frame ms)) ≡ exceeded)
      × ((any (λ m. ltb s.max (length m)) ms ≡ false)
          → (t : GrpcSizeLimit) × (walk s (flatten (map frame ms)) ≡ passed t) × IsReady t)
walk-frames [] s ready h = (λ e. cc, λ e. (s, unfold walk in refl, ready))
walk-frames (m ∷ ms) s ready (hm, hms) =
    let (over, within) = walk-frame s m (flatten (map frame ms)) ready hm in
    elim (Bool-cases (ltb s.max (length m))) [
      | inl t ↦ (λ e. over t, λ e. absurd (ground arith))
      | inr t ↦
          let (u, w, k, same) = within t in
          let (o, p) = walk-frames ms u k hms in
          (λ e. w ∙ o (ground arith), λ e. let (v, w', k') = p (ground arith) in (v, w ∙ w', k'))
    ]

frames-both :
    (max : ℕ) (ms cs : List Bytes)
    → All (λ m. length m < 2 ^ 32) ms
    → flatten cs ≡ flatten (map frame ms)
    → ((any (λ m. ltb max (length m)) ms ≡ true) → feed (new max) cs ≡ exceeded)
      × ((any (λ m. ltb max (length m)) ms ≡ false)
          → (t : GrpcSizeLimit) × (feed (new max) cs ≡ passed t) × IsReady t)
frames-both max ms cs h e =
    rw (feed-walk, e) (unfold new in walk-frames ms (new max) (inl refl, refl) h)

-- On frames of messages shorter than 2^32 bytes, cut into any chunks: if no message is longer than
-- the limit, then every chunk passes, and the next frame is awaited.
pub feed-frames :
    (max : ℕ) (ms cs : List Bytes)
    → All (λ m. length m < 2 ^ 32) ms
    → flatten cs ≡ flatten (map frame ms)
    → any (λ m. ltb max (length m)) ms ≡ false
    → (t : GrpcSizeLimit) × (feed (new max) cs ≡ passed t) × IsReady t
feed-frames max ms cs h e within = (frames-both max ms cs h e).1 within

-- On frames of messages shorter than 2^32 bytes, cut into any chunks: if a message is longer than
-- the limit, then the stream fails with RESOURCE_EXHAUSTED.
pub feed-frames_exceeded :
    (max : ℕ) (ms cs : List Bytes)
    → All (λ m. length m < 2 ^ 32) ms
    → flatten cs ≡ flatten (map frame ms)
    → any (λ m. ltb max (length m)) ms ≡ true
    → feed (new max) cs ≡ exceeded
feed-frames_exceeded max ms cs h e over = (frames-both max ms cs h e).0 over
