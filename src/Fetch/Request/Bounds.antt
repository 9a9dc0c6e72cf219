-- ===== src/Fetch/Request/Bounds.antt =====
-- What `collect_bounded` of rust/crates/grpc-webnext/src/fetch.rs takes into memory.
use grpc_webnext.Prelude.{
  ℕ, ◌+◌, ◌≤◌, ◌≡◌, List, [], ◌∷◌, ◌++◌, Bytes, codes, Bool, true, false, length, ltb, ltb→lt,
  ltb-false, flatten, if◌then◌else◌, refl, ap, append_assoc, append-nil, length-append, arith,
}
use grpc_webnext.Client.Status.{Code}
use grpc_webnext.Backend.{BodyFrame, body_data, body_trailers, body_error}
use grpc_webnext.Metadata.{Http}
use grpc_webnext.Fetch.Response.{TrailerBytes, webnext_error, ct_json}
use grpc_webnext.Fetch.Request.{Got, got, answer, collect_from, collect_bounded}
use grpc_webnext.Fetch.Request.Framing.{chunked}

module _ (http : Http) (trailers : TrailerBytes) where
  open http use {HeaderMap}

  -- The answer to a body that is over the limit.
  abbrev pub too_long : Got HeaderMap Bytes
  too_long = answer (
      webnext_error http trailers ct_json Code.resource_exhausted
        (codes "request message exceeds size limit"))

  collect_from-chunked :
      (max : ℕ) (cs : List Bytes) (buf : Bytes)
      → length buf ≤ max
      → collect_from http trailers max (chunked HeaderMap cs) buf
        ≡ (if ltb max (length (buf ++ flatten cs)) then too_long else got (buf ++ flatten cs))
  unfolding collect_from
  collect_from-chunked max [] buf h =
      let e : ltb max (length buf) ≡ false = ground arith in rw (append-nil, e) refl
  collect_from-chunked max (c ∷ cs) buf h =
      go (ltb max (length buf + length c)) refl (collect_from-chunked max cs (buf ++ c))
    where
      go :
          (b : Bool)
          → ltb max (length buf + length c) ≡ b
          → (length (buf ++ c) ≤ max
              → collect_from http trailers max (chunked HeaderMap cs) (buf ++ c) ≡ (
                  if ltb max (length ((buf ++ c) ++ flatten cs))
                  then too_long
                  else got ((buf ++ c) ++ flatten cs)))
          → (if b
              then too_long
              else collect_from http trailers max (chunked HeaderMap cs) (buf ++ c))
            ≡ (if ltb max (length (buf ++ (c ++ flatten cs)))
                then too_long
                else got (buf ++ (c ++ flatten cs)))
      go true e ih =
          let l = ltb→lt max (length buf + length c) e in
          let f : ltb max (length (buf ++ (c ++ flatten cs))) ≡ true =
            ground (arith, length-append buf (c ++ flatten cs), length-append c (flatten cs)) in
          rw f refl
      go false e ih =
          let l = ltb-false max (length buf + length c) e in
          rw append_assoc at (ih (omega (arith, length-append buf c)))

  -- A request body that comes in chunks without an error is taken whole, whatever the chunks are, if
  -- it is within the limit, and is answered with a status if it is over it.
  pub collect_bounded-chunked :
      (cs : List Bytes) (max : ℕ)
      → collect_bounded http trailers (chunked HeaderMap cs) max
        ≡ (if ltb max (length (flatten cs)) then too_long else got (flatten cs))
  unfolding collect_bounded
  collect_bounded-chunked cs max = collect_from-chunked max cs [] (omega arith)

  collect_from-bound :
      (max : ℕ) (fs : List (BodyFrame HeaderMap)) (buf bytes : Bytes)
      → length buf ≤ max
      → collect_from http trailers max fs buf ≡ got bytes
      → length bytes ≤ max
  unfolding collect_from
  collect_from-bound max [] buf bytes h e = let s : buf ≡ bytes = cc in omega (arith, ap length s)
  collect_from-bound max (body_data c ∷ fs) buf bytes h e =
      go (ltb max (length buf + length c)) refl e (collect_from-bound max fs (buf ++ c) bytes)
    where
      go :
          (b : Bool)
          → ltb max (length buf + length c) ≡ b
          → (if b then too_long else collect_from http trailers max fs (buf ++ c)) ≡ got bytes
          → (length (buf ++ c) ≤ max
              → collect_from http trailers max fs (buf ++ c) ≡ got bytes
              → length bytes ≤ max)
          → length bytes ≤ max
      go true e s ih = cc
      go false e s ih =
          let l = ltb-false max (length buf + length c) e in
          ih (omega (arith, length-append buf c)) s
  collect_from-bound max (body_trailers t ∷ fs) buf bytes h e =
      collect_from-bound max fs buf bytes h e
  collect_from-bound max (body_error x ∷ fs) buf bytes h e = cc

  -- Whatever the frames of a request's body are, what is taken of it is within the limit.
  collect_bounded-bound :
      (fs : List (BodyFrame HeaderMap)) (max : ℕ) (bytes : Bytes)
      → collect_bounded http trailers fs max ≡ got bytes
      → length bytes ≤ max
  unfolding collect_bounded
  collect_bounded-bound fs max bytes e = collect_from-bound max fs [] bytes (omega arith) e
