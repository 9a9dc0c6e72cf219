-- ===== src/Wire/Fetch/RoundTrip.antt =====
-- Laws of rust/crates/grpc-webnext/src/framing.rs.
use grpc_webnext.Prelude.{
  ℕ, ◌+◌, ◌≤◌, ◌<◌, ◌^◌, ◌≡◌, [], ◌∷◌, ◌++◌, some, Bytes, IsByte, All, length, take, drop, arith,
  refl, sym, ap, ◌∙◌, append_assoc, append-nil, length-append, take-append, drop-append,
  take-append-drop, length-take, length-drop, All-drop,
}
use grpc_webnext.Wire.BigEndian.{
  put_u32, get_u32, get_u32-put_u32, length-put_u32, put_u32-from_be_bytes, from_be_bytes,
}
use grpc_webnext.Wire.Fetch.{
  ok, TrailerCodec, block, take_block, encode_trailer_block, encode_response_body,
  decode_response_body, parse_trailer, read_blocks, >>=-eq-ok,
}

-- A block is read back, and what follows it is left.
take_block-block :
    (m rest : Bytes) → length m < 2 ^ 32 → take_block (block m ++ rest) ≡ ok (m, rest)
unfolding take_block block put_u32
take_block-block m rest h = ground (
  arith,
  get_u32-put_u32 (length m) (m ++ rest),
  length-append m rest,
  take-append m rest,
  drop-append m rest,
)

take_block_parts :
    (a b c d : ℕ) (r m rest : Bytes)
    → take_block (a ∷ b ∷ c ∷ d ∷ r) ≡ ok (m, rest)
    → let len = from_be_bytes a b c d in (len ≤ length r) × (m ≡ take len r) × (rest ≡ drop len r)
unfolding take_block get_u32
take_block_parts a b c d r m rest e = ground arith

take_block-length :
    (body m rest : Bytes)
    → take_block body ≡ ok (m, rest)
    → (4 ≤ length body) × (length rest + (4 + get_u32 body) ≡ length body)
unfolding take_block
take_block-length body m rest e =
    ground (arith, length-drop (get_u32 body) (drop 4 body), length-drop 4 body)

-- What `take_block` accepts is a block and a rest.
take_block_sound :
    (body m rest : Bytes)
    → All IsByte body
    → take_block body ≡ ok (m, rest)
    → (body ≡ block m ++ rest) × All IsByte rest
unfolding block
take_block_sound [] m rest h e = unfold take_block in cc
take_block_sound (a ∷ []) m rest h e = unfold take_block in cc
take_block_sound (a ∷ b ∷ []) m rest h e = unfold take_block in cc
take_block_sound (a ∷ b ∷ c ∷ []) m rest h e = unfold take_block in cc
take_block_sound (a ∷ b ∷ c ∷ d ∷ r) m rest (ha, (hb, (hc, (hd, hr)))) e =
    let (fits, em, er) = take_block_parts a b c d r m rest e in
    let len = from_be_bytes a b c d in
    rw (em, er, length-take len r fits, put_u32-from_be_bytes a b c d ha hb hc hd, take-append-drop)
      (refl, All-drop IsByte len r hr)

module _ (codec : TrailerCodec) where
  open codec use {Trailer, encode_trailer, decode_trailer}

  -- The two blocks of a response body.
  encode_response_body-block :
      (message : Bytes) (t : Trailer)
      → encode_response_body codec message t ≡ block message ++ encode_trailer_block codec t
  unfolding encode_response_body encode_trailer_block block
  encode_response_body-block message t = sym (append_assoc (put_u32 (length message)) message _)

  length-encode_response_body :
      (message : Bytes) (t : Trailer)
      → length (encode_response_body codec message t)
        ≡ length message + length (encode_trailer t) + 8
  unfolding encode_trailer_block block
  length-encode_response_body message t =
      let tb = encode_trailer t in
      rw (encode_response_body-block, length-append (block message) (block tb))
        (omega (
          arith,
          length-append (put_u32 (length message)) message,
          length-append (put_u32 (length tb)) tb,
          length-put_u32 (length message),
          length-put_u32 (length tb),
        ))

  take_block_trailer :
      (t : Trailer)
      → length (encode_trailer t) < 2 ^ 32
      → take_block (encode_trailer_block codec t) ≡ ok (encode_trailer t, [])
  unfolding encode_trailer_block
  take_block_trailer t ht = rw append-nil at (take_block-block (encode_trailer t) [] ht)

  decode_response_body_within :
      (body : Bytes) (limit : ℕ) (message : Bytes) (t : Trailer)
      → decode_response_body codec body limit ≡ ok (message, t)
      → (length body ≤ limit) × (read_blocks codec body ≡ ok (message, t))
  unfolding decode_response_body
  decode_response_body_within body limit message t e = ground arith

  parse_trailer_ok :
      (b : Bytes) (t : Trailer) → parse_trailer codec b ≡ ok t → decode_trailer b ≡ some t
  unfolding parse_trailer
  parse_trailer_ok b t e = ground arith

  decode_response_body_parts :
      (body : Bytes) (limit : ℕ) (message : Bytes) (t : Trailer)
      → decode_response_body codec body limit ≡ ok (message, t)
      → (length body ≤ limit)
        × ((rest : Bytes) × (tb : Bytes) × (rest' : Bytes) × (take_block body ≡ ok (message, rest))
            × (take_block rest ≡ ok (tb, rest'))
            × (decode_trailer tb ≡ some t))
  unfolding decode_response_body read_blocks parse_trailer
  decode_response_body_parts body limit message t e =
      let (fits, chain) = decode_response_body_within body limit message t e in
      let ((m, rest), e1, c1) = >>=-eq-ok (take_block body) _ chain in
      let ((tb, rest'), e2, c2) = >>=-eq-ok (take_block rest) _ c1 in
      let (u, e3, c3) = >>=-eq-ok (parse_trailer codec tb) _ c2 in
      (fits, (rest, tb, rest', cc, e2, parse_trailer_ok tb t (cc)))

  -- What is decoded holds both lengths and the message whose length it declares.
  pub decode_response_body-length :
      (body : Bytes) (limit : ℕ) (message : Bytes) (t : Trailer)
      → decode_response_body codec body limit ≡ ok (message, t)
      → get_u32 body + 8 ≤ length body
  decode_response_body-length body limit message t e =
      let (fits, (rest, tb, rest', e1, e2, e3)) =
        decode_response_body_parts body limit message t e in
      let (n, d) = take_block-length body message rest e1 in
      let (k, f) = take_block-length rest tb rest' e2 in omega (arith, n, d, k)

  -- A response body whose message and encoded trailer are shorter than 2^32 bytes, and which is
  -- within the limit, is decoded to the message and the trailer that it was made from.
  pub decode-encode_response_body :
      ((t : Trailer) → decode_trailer (encode_trailer t) ≡ some t)
      → (message : Bytes) (t : Trailer) (limit : ℕ) → length message < 2 ^ 32
      → length (encode_trailer t) < 2 ^ 32
      → length message + length (encode_trailer t) + 8 ≤ limit
      → decode_response_body codec (encode_response_body codec message t) limit ≡ ok (message, t)
  unfolding decode_response_body read_blocks parse_trailer
  decode-encode_response_body law message t limit hm ht hl =
      let tb = encode_trailer t in
      ground (
        arith,
        encode_response_body-block message t,
        length-encode_response_body message t,
        take_block-block message (encode_trailer_block codec t) hm,
        take_block_trailer t ht,
        law t,
      )

  -- Whatever `decode_response_body` accepts is within the limit and begins with the block of the
  -- message that it returns and with a block that decodes to the trailer.
  decode_response_body_sound :
      (body : Bytes) (limit : ℕ) (message : Bytes) (t : Trailer)
      → All IsByte body
      → decode_response_body codec body limit ≡ ok (message, t)
      → (length body ≤ limit)
        × ((tb : Bytes) × (rest : Bytes) × (body ≡ block message ++ (block tb ++ rest))
            × (decode_trailer tb ≡ some t))
  decode_response_body_sound body limit message t h e =
      let (fits, (rest, tb, rest', e1, e2, e3)) =
        decode_response_body_parts body limit message t e in
      let (b1, h1) = take_block_sound body message rest h e1 in
      let (b2, _) = take_block_sound rest tb rest' h1 e2 in
      (fits, (tb, rest', b1 ∙ ap (λ r. block message ++ r) b2, e3))
