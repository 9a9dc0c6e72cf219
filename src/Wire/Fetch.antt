-- ===== src/Wire/Fetch.antt =====
-- rust/crates/grpc-webnext/src/framing.rs: the two length-prefixed blocks of a Fetch response.
-- The protobuf codec of `Trailer` is generated code, so it is a parameter.
pub mod RoundTrip
use grpc_webnext.Prelude.{
  ℕ, ◌+◌, ◌≡◌, List, [], ◌∷◌, ◌++◌, Option, none, some, Bytes, length, take, drop, ltb,
  if◌then◌else◌, refl,
}
use grpc_webnext.Wire.BigEndian.{put_u32, get_u32}

abbrev pub len_prefix : ℕ
len_prefix = 4

pub data FetchError : Type 0 where
  too_large : ℕ → FetchError
  truncated : ℕ → ℕ → FetchError
  decode : FetchError

-- `Result<A, FetchError>`.
pub data Fetched {ℓ} (A : Type ℓ) : Type ℓ where
  ok : A → Fetched A
  err : FetchError → Fetched A

infixl 5 ◌>>=◌
abbrev pub ◌>>=◌ {ℓ κ} : {A : Type ℓ} {B : Type κ} → Fetched A → (A → Fetched B) → Fetched B
err reason >>= next = err reason
ok read >>= next = next read

-- What answered, where a sequence of two reads answers.
pub >>=-eq-ok {κ ℓ} :
    {B : Type κ} {A : Type ℓ} {answer : B} (first : Fetched A) (next : A → Fetched B)
    → first >>= next ≡ ok answer
    → (read : A) × (first ≡ ok read) × (next read ≡ ok answer)
>>=-eq-ok (err reason) next same = cc
>>=-eq-ok (ok read) next same = (read, refl, same)

-- `buf.put_u32(len); buf.put_slice(bytes)`.
unfoldable pub block : Bytes → Bytes
block bytes = put_u32 (length bytes) ++ bytes

unfoldable pub encode_request_body : Bytes → Bytes
unfolding block
encode_request_body message = block message

abbrev pub empty_message_block : Bytes
empty_message_block = 0 ∷ 0 ∷ 0 ∷ 0 ∷ []

-- One block, and the body behind it.
pub take_block : Bytes → Fetched (Bytes × Bytes)
take_block body =
    if ltb (length body) len_prefix
    then err (truncated len_prefix (length body))
    else let len = get_u32 body in
      let rest = drop len_prefix body in
      if ltb (length rest) len
      then err (truncated len (length rest))
      else ok (take len rest, drop len rest)

-- `Message::encode` and `Message::decode` of the generated `Trailer`.
pub record TrailerCodec : Type 1 where
  pub Trailer : Type 0
  pub encode_trailer : Trailer → Bytes
  pub decode_trailer : Bytes → Option Trailer

module _ (codec : TrailerCodec) where
  open codec use {Trailer, encode_trailer, decode_trailer}

  unfoldable pub encode_trailer_block : Trailer → Bytes
  encode_trailer_block trailer = block (encode_trailer trailer)

  unfoldable pub encode_response_body : Bytes → Trailer → Bytes
  encode_response_body message trailer =
      put_u32 (length message)
      ++ (message ++ (put_u32 (length (encode_trailer trailer)) ++ encode_trailer trailer))

  -- `Trailer::decode(bytes)?`
  pub parse_trailer : Bytes → Fetched Trailer
  parse_trailer bytes = elim (decode_trailer bytes) [ none ↦ err decode | some t ↦ ok t ]

  -- The three reads of `decode_response_body`.
  pub read_blocks : Bytes → Fetched (Bytes × Trailer)
  read_blocks body = do
    (message, rest) ← take_block body
    (trailer_bytes, _) ← take_block rest
    trailer ← parse_trailer trailer_bytes
    ok (message, trailer)

  pub decode_response_body : Bytes → ℕ → Fetched (Bytes × Trailer)
  decode_response_body body limit =
      if ltb limit (length body) then err (too_large limit) else read_blocks body
