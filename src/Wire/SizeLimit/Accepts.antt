-- ===== src/Wire/SizeLimit/Accepts.antt =====
-- What `GrpcSizeLimit` of rust/crates/grpc-webnext/src/h2ts.rs lets through: first against a walk
-- over single bytes, then on streams of frames.
use grpc_webnext.Prelude.{
  ℕ, zero, suc, ◌+◌, ◌-◌, ◌*◌, ◌≤◌, ◌<◌, ◌≡◌, ◌≢◌, false, List, [], ◌∷◌, ◌++◌, Bytes, length, drop,
  min, ltb, ◌==◌, if◌then◌else◌, flatten, arith, refl, sym, ap, ◌∙◌, append-nil, Bool-cases,
  length-drop, ltb-false, inl, inr,
}
use mathlib.Core.Path.{fun_ext}
use grpc_webnext.Wire.SizeLimit.{
  GrpcSizeLimit, Inspected, passed, exceeded, stuck, note_header, note_length, skip_body,
  inspect_loop, inspect, feed,
}

abbrev pub then_walk : Inspected → (GrpcSizeLimit → Inspected) → Inspected
then_walk (passed s) k = k s
then_walk exceeded k = exceeded
then_walk stuck k = stuck

-- One byte at a time: a header byte, a byte of the body, or the first byte behind an empty body.
unfoldable pub step : GrpcSizeLimit → ℕ → Inspected
step s b =
    if ltb s.header_seen 5
    then note_length (note_header s b)
    else if s.body_remaining == 0
    then note_length (note_header (skip_body s 0) b)
    else passed (skip_body s 1)

unfoldable pub walk : GrpcSizeLimit → Bytes → Inspected
walk s [] = passed s
walk s (b ∷ rest) = then_walk (step s b) (λ t. walk t rest)

walk-append :
    (s : GrpcSizeLimit) (a b : Bytes) → walk s (a ++ b) ≡ then_walk (walk s a) (λ t. walk t b)
unfolding walk
walk-append s [] b = refl
walk-append s (x ∷ a) b = go (step s x) (λ t. walk-append t a b)
  where
    go :
        (r : Inspected)
        → ((t : GrpcSizeLimit) → walk t (a ++ b) ≡ then_walk (walk t a) (λ u. walk u b))
        → then_walk r (λ t. walk t (a ++ b))
          ≡ then_walk (then_walk r (λ t. walk t a)) (λ t. walk t b)
    go (passed t) ih = ih t
    go exceeded ih = refl
    go stuck ih = refl

skip_body-skip_body :
    (s : GrpcSizeLimit) (n : ℕ)
    → 1 < s.body_remaining
    → skip_body (skip_body s 1) (suc n) ≡ skip_body s (suc (suc n))
unfolding skip_body
skip_body-skip_body s n h = ground arith

skip_body_one :
    (s : GrpcSizeLimit)
    → 1 < s.body_remaining
    → ((skip_body s 1).header_seen ≡ s.header_seen)
      × ((skip_body s 1).body_remaining + 1 ≡ s.body_remaining)
unfolding skip_body
skip_body_one s h = ground arith

skip_body_zero : (s : GrpcSizeLimit) → s.body_remaining ≡ 0 → (skip_body s 0).header_seen ≡ 0
unfolding skip_body
skip_body_zero s h = ground arith

pub walk_skip :
    (n : ℕ) (s : GrpcSizeLimit) (data' : Bytes)
    → 5 ≤ s.header_seen
    → suc n ≤ s.body_remaining
    → suc n ≤ length data'
    → walk s data' ≡ walk (skip_body s (suc n)) (drop (suc n) data')
unfolding walk step
walk_skip n s [] h r l = absurd (omega arith)
walk_skip zero s (b ∷ rest) h r l = ground arith
walk_skip (suc n) s (b ∷ rest) h r l =
    let (same, less) = skip_body_one s (omega arith) in
    ground (
      arith,
      skip_body-skip_body s n (omega arith),
      walk_skip n (skip_body s 1) rest (omega arith) (omega arith) (omega arith),
    )

-- 1 where a round takes a byte for certain.
abbrev busy : GrpcSizeLimit → ℕ
busy s = if ltb s.header_seen 5 then 1 else if s.body_remaining == 0 then 0 else 1

-- The bytes that one round of the code passes over.
walk_bulk :
    (s : GrpcSizeLimit) (b : ℕ) (rest : Bytes)
    → ltb s.header_seen 5 ≡ false
    → let n = min s.body_remaining (suc (length rest)) in
      walk s (b ∷ rest) ≡ walk (skip_body s n) (drop n (b ∷ rest))
unfolding walk step
walk_bulk s b rest t = elim (Bool-cases (s.body_remaining == 0)) [
  | inl z ↦
      let r : s.body_remaining ≡ 0 = ground arith in
      let e : min s.body_remaining (suc (length rest)) ≡ 0 = omega arith in
      rw e (ground (arith, skip_body_zero s r))
  | inr z ↦
      let r : 0 < s.body_remaining = ground arith in
      let k : ℕ = min s.body_remaining (suc (length rest)) - 1 in
      let e : min s.body_remaining (suc (length rest)) ≡ suc k = omega arith in
      rw e (walk_skip k s (b ∷ rest) (ltb-false _ _ t) (omega arith) (omega arith))
]

bulk_busy :
    (f : ℕ) (s : GrpcSizeLimit) (b : ℕ) (rest : Bytes)
    → ltb s.header_seen 5 ≡ false
    → 2 * length (b ∷ rest) ≤ suc f + busy s
    → let n = min s.body_remaining (suc (length rest)) in
      2 * length (drop n (b ∷ rest)) ≤ f + busy (skip_body s n)
unfolding skip_body
bulk_busy f s b rest t h =
    ground (arith, length-drop (min s.body_remaining (suc (length rest))) (b ∷ rest))

inspect_loop_bulk :
    (f : ℕ) (s : GrpcSizeLimit) (b : ℕ) (rest : Bytes)
    → ltb s.header_seen 5 ≡ false
    → let n = min s.body_remaining (suc (length rest)) in
      inspect_loop (suc f) s (b ∷ rest) ≡ inspect_loop f (skip_body s n) (drop n (b ∷ rest))
unfolding inspect_loop
inspect_loop_bulk f s b rest t = ground arith

inspect_loop-walk :
    (f : ℕ) (s : GrpcSizeLimit) (rest : Bytes)
    → 2 * length rest ≤ f + busy s
    → inspect_loop f s rest ≡ walk s rest
unfolding inspect_loop walk step
inspect_loop-walk zero s [] h = refl
inspect_loop-walk (suc f) s [] h = refl
inspect_loop-walk zero s (b ∷ rest) h = absurd (ground arith)
inspect_loop-walk (suc f) s (b ∷ rest) h = elim (Bool-cases (ltb s.header_seen 5)) [
  | inl t ↦
      rw (t, inspect_loop, step)
        (header (note_length (note_header s b)) (λ u. inspect_loop-walk f u rest (ground arith)))
  | inr t ↦
      let n = min s.body_remaining (suc (length rest)) in
      inspect_loop_bulk f s b rest t
      ∙ inspect_loop-walk f (skip_body s n) (drop n (b ∷ rest)) (bulk_busy f s b rest t h)
      ∙ sym (walk_bulk s b rest t)
]
  where
    header :
        (r : Inspected)
        → ((u : GrpcSizeLimit) → inspect_loop f u rest ≡ walk u rest)
        → elim r [ passed u ↦ inspect_loop f u rest | exceeded ↦ exceeded | stuck ↦ stuck ]
          ≡ then_walk r (λ u. walk u rest)
    header (passed u) ih = ih u
    header exceeded ih = refl
    header stuck ih = refl

inspect-walk : (s : GrpcSizeLimit) (chunk : Bytes) → inspect s chunk ≡ walk s chunk
unfolding inspect
inspect-walk s chunk = inspect_loop-walk (2 * length chunk) s chunk (omega arith)

feed_cons :
    (s : GrpcSizeLimit) (c : Bytes) (cs : List Bytes)
    → feed s (c ∷ cs) ≡ then_walk (inspect s c) (λ t. feed t cs)
unfolding feed
feed_cons s c cs = go (inspect s c)
  where
    go :
        (r : Inspected)
        → elim r [ passed t ↦ feed t cs | exceeded ↦ exceeded | stuck ↦ stuck ]
          ≡ then_walk r (λ t. feed t cs)
    go (passed t) = refl
    go exceeded = refl
    go stuck = refl

pub feed-walk : (cs : List Bytes) (s : GrpcSizeLimit) → feed s cs ≡ walk s (flatten cs)
feed-walk [] s = unfold walk feed in refl
feed-walk (c ∷ cs) s =
    feed_cons s c cs
    ∙ ap (λ r. then_walk r (λ t. feed t cs)) (inspect-walk s c)
    ∙ ap (then_walk (walk s c)) (fun_ext (λ t. feed-walk cs t))
    ∙ sym (walk-append s c (flatten cs))

step-ne-stuck : (s : GrpcSizeLimit) (b : ℕ) → step s b ≢ stuck
unfolding step note_length
step-ne-stuck s b = ground arith

walk-ne-stuck : (data' : Bytes) (s : GrpcSizeLimit) → walk s data' ≢ stuck
unfolding walk
walk-ne-stuck [] s = λ e. cc
walk-ne-stuck (b ∷ rest) s = go (step s b) (step-ne-stuck s b) (λ t. walk-ne-stuck rest t)
  where
    go :
        (r : Inspected)
        → r ≢ stuck
        → ((t : GrpcSizeLimit) → walk t rest ≢ stuck)
        → then_walk r (λ t. walk t rest) ≢ stuck
    go (passed t) h ih = ih t
    go exceeded h ih = λ e. cc
    go stuck h ih = h

-- On any bytes at all, the loop ends within its fuel, and the answer and the state do not depend on
-- how the body is cut into chunks.
feed-flatten :
    (s : GrpcSizeLimit) (cs : List Bytes)
    → (feed s cs ≡ feed s (flatten cs ∷ [])) × (feed s cs ≢ stuck)
feed-flatten s cs = (
  feed-walk cs s ∙ rw (feed-walk (flatten cs ∷ []) s, append-nil),
  rw feed-walk (walk-ne-stuck _ s),
)
