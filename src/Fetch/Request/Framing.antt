-- ===== src/Fetch/Request/Framing.antt =====
-- What the backend reads of a `+proto` request (`frame_upstream_request` of
-- rust/crates/grpc-webnext/src/fetch.rs).
use grpc_webnext.Prelude.{
  ℕ, ◌+◌, ◌≤◌, ◌<◌, ◌^◌, ◌≡◌, ◌⊎◌, inl, inr, List, [], ◌∷◌, ◌++◌, Bytes, Bool, true, false, length,
  ltb, ltb-false, map, flatten, if◌then◌else◌, refl, sym, ap, ◌∙◌, arith, append_assoc, append-nil,
  length-append, codes,
}
use grpc_webnext.Wire.BigEndian.{put_u32, get_u32, get_u32-put_u32, length-put_u32, get_u32-prefix}
use grpc_webnext.Wire.Fetch.{len_prefix, encode_request_body, block}
use grpc_webnext.Wire.Grpc.{frame, pump, new}
use grpc_webnext.Wire.Grpc.Chunks.{pump-frames}
use grpc_webnext.Backend.{BodyFrame, body_data}
use grpc_webnext.Metadata.{Http}
use grpc_webnext.Fetch.Response.{Body, finished, text_response}
use grpc_webnext.Fetch.Request.{
  Got, got, answer, lead, read_lead, rest_of_body, framed_body, check_lead, frame_upstream_request,
}

module _ (H : Type 0) where
  -- A body that comes in these chunks.
  abbrev pub chunked : List Bytes → List (BodyFrame H)
  chunked cs = map body_data cs

  -- What is held and what is left are the body, and four bytes are held if there are as many.
  record Split (cs : List Bytes) (held : Bytes) : Type 0 where
    now : Bytes
    left : List Bytes
    reads : read_lead (chunked cs) held ≡ lead now (chunked left)
    whole : now ++ flatten left ≡ held ++ flatten cs
    enough : (4 ≤ length now) ⊎ (left ≡ [])

  read_lead-Split : (cs : List Bytes) (held : Bytes) → Split cs held
  unfolding read_lead
  read_lead-Split [] held = record {
    now = held;
    left = [];
    reads = refl;
    whole = refl;
    enough = inr refl;
  }
  read_lead-Split (c ∷ cs) held =
      go (ltb (length held) len_prefix) refl (read_lead-Split cs (held ++ c))
    where
      go :
          (b : Bool) → ltb (length held) len_prefix ≡ b → Split cs (held ++ c) → Split (c ∷ cs) held
      go true e ih = record {
        now = ih.now;
        left = ih.left;
        reads = rw e ih.reads;
        whole = ih.whole ∙ append_assoc held c (flatten cs);
        enough = ih.enough;
      }
      go false e ih = record {
        now = held;
        left = c ∷ cs;
        reads = rw e;
        whole = refl;
        enough = inl (ltb-false (length held) len_prefix e);
      }

  rest_of_body-flatten : (cs : List Bytes) → (rest_of_body (chunked cs)).chunks ≡ cs
  unfolding rest_of_body
  rest_of_body-flatten [] = refl
  rest_of_body-flatten (c ∷ cs) = ap (λ r. c ∷ r) (rest_of_body-flatten cs)

  rest_of_body-finished : (cs : List Bytes) → (rest_of_body (chunked cs)).ending ≡ finished
  unfolding rest_of_body
  rest_of_body-finished [] = refl
  rest_of_body-finished (c ∷ cs) = rest_of_body-finished cs

module _ (http : Http) where
  open http use {HeaderMap}

  -- The request by the bytes of its body, whatever the chunks are.
  record Framed (max : ℕ) (all : Bytes) (r : Got HeaderMap Body) : Type 0 where
    body : Body
    answered : r ≡ (
        if ltb max (get_u32 all)
        then answer (text_response http 413 (codes "request message exceeds size limit"))
        else got body)
    ends : body.ending ≡ finished
    carries : flatten body.chunks ≡ 0 ∷ all

  frame_upstream_request-Framed :
      (cs : List Bytes) (max : ℕ)
      → 4 ≤ length (flatten cs)
      → Framed max (flatten cs) (frame_upstream_request http (chunked HeaderMap cs) max)
  unfolding framed_body frame_upstream_request check_lead
  frame_upstream_request-Framed cs max h =
      let s = read_lead-Split HeaderMap cs [] in
      let l : 4 ≤ length s.now = held s.now s.left s.enough s.whole in
      let e : ltb (length s.now) len_prefix ≡ false = ground arith in
      let u : get_u32 (flatten cs) ≡ get_u32 s.now =
        ap get_u32 (sym s.whole) ∙ get_u32-prefix s.now (flatten s.left) l in
      record {
        body = framed_body s.now (chunked HeaderMap s.left);
        answered = rw (frame_upstream_request, s.reads, check_lead, e, u);
        ends = rest_of_body-finished HeaderMap s.left;
        carries =
            ap (λ ks. 0 ∷ (s.now ++ flatten ks)) (rest_of_body-flatten HeaderMap s.left)
            ∙ ap (λ x. 0 ∷ x) s.whole;
      }
    where
      held :
          (now : Bytes) (left : List Bytes)
          → (4 ≤ length now) ⊎ (left ≡ [])
          → now ++ flatten left ≡ flatten cs
          → 4 ≤ length now
      held now left (inl g) w = g
      held now left (inr e) w =
          let w' : now ≡ flatten cs =
            sym (append-nil now) ∙ ap (λ x. now ++ flatten x) (sym e) ∙ w in
          omega (arith, h, ap length w')

  -- If the body of a `+proto` request is the encoding of a message shorter than 2^32 bytes and within
  -- the limit, cut into any chunks, then the request is framed, its body does not break off, and the
  -- backend's deframer finds exactly this message in it, with nothing left over.
  pub frame_upstream_request-relays :
      (m : Bytes) (cs : List Bytes) (max : ℕ)
      → length m < 2 ^ 32
      → length m ≤ max
      → flatten cs ≡ encode_request_body m
      → (body : Body) × (frame_upstream_request http (chunked HeaderMap cs) max ≡ got body)
        × (body.ending ≡ finished)
        × (pump body.chunks new [] ≡ (m ∷ [], new))
  unfolding encode_request_body block frame
  frame_upstream_request-relays m cs max h b e =
      let l : length (flatten cs) ≡ 4 + length m =
        omega
          (arith, ap length e, length-append (put_u32 (length m)) m, length-put_u32 (length m)) in
      let f = frame_upstream_request-Framed cs max (omega (arith, l)) in
      let u : get_u32 (flatten cs) ≡ length m = ap get_u32 e ∙ get_u32-put_u32 (length m) m h in
      let t : ltb max (get_u32 (flatten cs)) ≡ false = rw u (ground arith) in
      (
        f.body,
        rw t at f.answered,
        f.ends,
        pump-frames (m ∷ []) f.body.chunks (h, tt)
            (f.carries ∙ ap (λ x. 0 ∷ x) e ∙ sym (append-nil (frame m))),
      )

  -- If the length that a request's body declares is over the limit, then the answer is 413 whatever
  -- follows, before the message is read.
  frame_upstream_request-refuses :
      (n : ℕ) (rest : Bytes) (cs : List Bytes) (max : ℕ)
      → n < 2 ^ 32
      → max < n
      → flatten cs ≡ put_u32 n ++ rest
      → frame_upstream_request http (chunked HeaderMap cs) max
        ≡ answer (text_response http 413 (codes "request message exceeds size limit"))
  frame_upstream_request-refuses n rest cs max h b e =
      let f =
        frame_upstream_request-Framed cs max
          (omega (arith, ap length e, length-append (put_u32 n) rest, length-put_u32 n)) in
      let u : get_u32 (flatten cs) ≡ n = ap get_u32 e ∙ get_u32-put_u32 n rest h in
      let t : ltb max (get_u32 (flatten cs)) ≡ true = rw u (ground arith) in rw t at f.answered
