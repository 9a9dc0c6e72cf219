-- ===== src/Fetch/Unary/Relay.antt =====
-- What the loop of `unary_proto` (rust/crates/grpc-webnext/src/fetch.rs) sends, by the bytes of the
-- backend's body.
use grpc_webnext.Prelude.{
  ℕ, zero, suc, ◌-◌, ◌≡◌, List, [], ◌∷◌, ◌++◌, Option, none, some, Bool, true, false, not, ◌||◌,
  Bytes, length, drop, is_empty, flatten, refl, ap, ◌∙◌, append_assoc, drop-append_sub, drop_nil,
  length-append, arith, if◌then◌else◌,
}
use grpc_webnext.Backend.{BodyFrame, body_data}
use grpc_webnext.Metadata.{Http}
use grpc_webnext.Fetch.Response.{Body, Ending, TrailerBytes}
use grpc_webnext.Fetch.Request.{chunk_before}
use grpc_webnext.Fetch.Request.Framing.{chunked}
use grpc_webnext.Fetch.Unary.{fired, tick, relay_frames}

-- The bytes of a body, and its end.
abbrev pub sent : Body → Bytes × Ending
sent b = (flatten b.chunks, b.ending)

abbrev pub bytes_before : Bytes → Bytes × Ending → Bytes × Ending
bytes_before p s = (p ++ s.0, s.1)

-- A timer that fires a frame later, and so many frames later.
abbrev later : Option ℕ → Option ℕ
later none = none
later (some n) = some (suc n)

abbrev pub ahead : ℕ → Option ℕ → Option ℕ
ahead zero cut = cut
ahead (suc k) cut = later (ahead k cut)

later-fired : (cut : Option ℕ) → fired (later cut) ≡ false
unfolding fired
later-fired none = refl
later-fired (some n) = refl

tick-later : (cut : Option ℕ) → tick (later cut) ≡ cut
unfolding tick
tick-later none = refl
tick-later (some n) = refl

saw-append :
    (saw : Bool) (xs ys : Bytes)
    → (saw || not (is_empty xs)) || not (is_empty ys) ≡ saw || not (is_empty (xs ++ ys))
saw-append true xs ys = refl
saw-append false [] ys = refl
saw-append false (x ∷ xs) ys = refl

saw_false : (saw : Bool) → saw || false ≡ saw
saw_false true = refl
saw_false false = refl

module _ (http : Http) (trailers : TrailerBytes) where
  open http use {HeaderMap}

  relay_frames-cons :
      (hs : HeaderMap) (cut : Option ℕ) (c : Bytes) (fs : List (BodyFrame HeaderMap)) (skip : ℕ)
      (saw : Bool) (t : HeaderMap)
      → sent (relay_frames http trailers hs (later cut) (body_data c ∷ fs) skip saw t)
        ≡ bytes_before (drop skip c) (
            sent (
              relay_frames http trailers hs cut fs
                (skip - length c)
                (saw || not (is_empty (drop skip c)))
                t))
  unfolding relay_frames
  relay_frames-cons hs cut c fs skip saw t = rw (later-fired cut, tick-later cut) (go (drop skip c))
    where
      go :
          (kept : Bytes)
          → sent (
              if is_empty kept
              then relay_frames http trailers hs cut fs
                  (skip - length c)
                  (saw || not (is_empty kept))
                  t
              else chunk_before kept (
                  relay_frames http trailers hs cut fs
                    (skip - length c)
                    (saw || not (is_empty kept))
                    t))
            ≡ bytes_before kept (
                sent (
                  relay_frames http trailers hs cut fs
                    (skip - length c)
                    (saw || not (is_empty kept))
                    t))
      go [] = refl
      go (k ∷ kept) = refl

  -- Chunks in front of other frames: their bytes, less those that are skipped.
  pub relay_frames-chunked :
      (hs : HeaderMap) (cut : Option ℕ) (ks : List Bytes) (fs : List (BodyFrame HeaderMap))
      (skip : ℕ) (saw : Bool) (t : HeaderMap)
      → sent (
          relay_frames http trailers hs
            (ahead (length ks) cut)
            (chunked HeaderMap ks ++ fs)
            skip
            saw
            t)
        ≡ bytes_before (drop skip (flatten ks)) (
            sent (
              relay_frames http trailers hs cut fs
                (skip - length (flatten ks))
                (saw || not (is_empty (drop skip (flatten ks))))
                t))
  relay_frames-chunked hs cut [] fs skip saw t =
      rw (drop_nil, saw_false) (let e : skip - 0 ≡ skip = omega arith in rw e refl)
  relay_frames-chunked hs cut (k ∷ ks) fs skip saw t =
      relay_frames-cons hs (ahead (length ks) cut) k (chunked HeaderMap ks ++ fs) skip saw t
      ∙ ap (bytes_before (drop skip k)) (
          relay_frames-chunked hs cut ks fs (skip - length k) (saw || not (is_empty (drop skip k)))
            t)
      ∙ (let e : skip - length k - length (flatten ks) ≡ skip - length (k ++ flatten ks) =
            omega (arith, length-append k (flatten ks)) in
          let d : drop skip (k ++ flatten ks) ≡ drop skip k ++ drop (skip - length k) (flatten ks) =
            drop-append_sub skip k (flatten ks) in
          rw (e, saw-append, d, append_assoc) refl)
