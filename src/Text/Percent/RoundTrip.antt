-- ===== src/Text/Percent/RoundTrip.antt =====
-- `percent_decode` undoes `percent_encode`, and what is encoded is a legal header value.
use grpc_webnext.Prelude.{
  ℕ, ◌/◌, ◌%◌, ◌≤◌, ◌<◌, ◌≡◌, ◌≢◌, inl, inr, true, Bool-cases, List, [], ◌∷◌, ◌++◌, some, Bytes,
  IsByte, All, All-append, refl, ◌∙◌, ap, arith, append_assoc, append-nil,
}
use grpc_webnext.Text.Utf8.{IsScalar, encode_char, utf8}
use grpc_webnext.Text.Utf8.Lossy.{from_utf8_lossy-utf8}
use grpc_webnext.Text.Percent.{
  ok, escape, decode_loop, percent_decode, encode_byte, percent_encode, hex_digit, upper_hex,
  is_plain, is_boundary, from_str_radix,
}

encode_char-IsByte : (c : ℕ) → IsScalar c → All IsByte (encode_char c)
unfolding encode_char
encode_char-IsByte c h = ground arith

-- The bytes of a `str`.
utf8-IsByte : (cs : List ℕ) → All IsScalar cs → All IsByte (utf8 cs)
unfolding utf8
utf8-IsByte [] h = tt
utf8-IsByte (c ∷ cs) (hc, hcs) =
    All-append IsByte (encode_char c) (utf8 cs) (encode_char-IsByte c hc) (utf8-IsByte cs hcs)

hex_digit-upper_hex : (d : ℕ) → d < 16 → hex_digit (upper_hex d) ≡ some d
unfolding hex_digit upper_hex
hex_digit-upper_hex d h = ground arith

upper_hex_range : (d : ℕ) → d < 16 → (b'0' ≤ upper_hex d) × (upper_hex d ≤ b'F')
unfolding upper_hex
upper_hex_range d h = ground arith

-- What `HeaderValue::from_str` takes.
abbrev pub IsVisible : ℕ → Type 0
IsVisible b = (32 ≤ b) × (b < 127)

encode_byte-IsVisible : (b : ℕ) → IsByte b → All IsVisible (encode_byte b)
unfolding encode_byte
encode_byte-IsVisible b h = ground arith

-- Every byte of an encoded text is visible ASCII, so it is a legal header value.
percent_encode-IsVisible : (s : Bytes) → All IsByte s → All IsVisible (percent_encode s)
unfolding percent_encode
percent_encode-IsVisible [] h = tt
percent_encode-IsVisible (b ∷ s) (hb, hs) =
    All-append IsVisible (encode_byte b) (percent_encode s) (encode_byte-IsVisible b hb)
      (percent_encode-IsVisible s hs)

percent_encode_boundary : (s : Bytes) → is_boundary (percent_encode s) ≡ true
unfolding percent_encode
percent_encode_boundary [] = refl
percent_encode_boundary (b ∷ s) = ground arith

-- A byte that is no `%` stands for itself, wherever it stands.
decode_loop_plain :
    (b : ℕ) (rest out : Bytes)
    → b ≢ b'%'
    → decode_loop (b ∷ rest) out ≡ decode_loop rest (out ++ b ∷ [])
unfolding decode_loop escape
decode_loop_plain b [] out h = refl
decode_loop_plain b (x ∷ []) out h = ap ok (rw append_assoc)
decode_loop_plain b (x ∷ y ∷ rest) out h = ground arith

decode_loop_hex :
    (b : ℕ) (rest out : Bytes)
    → IsByte b
    → is_boundary rest ≡ true
    → decode_loop (b'%' ∷ upper_hex (b / 16) ∷ upper_hex (b % 16) ∷ rest) out
      ≡ decode_loop rest (out ++ b ∷ [])
unfolding decode_loop escape from_str_radix
decode_loop_hex b rest out h e = ground (
  arith,
  hex_digit-upper_hex (b / 16),
  hex_digit-upper_hex (b % 16),
  upper_hex_range (b / 16),
  upper_hex_range (b % 16),
)

-- The loop reads one encoded byte.
is_plain_ne : (b : ℕ) → is_plain b ≡ true → b ≢ b'%'
unfolding is_plain
is_plain_ne b h = ground arith

decode_loop-encode_byte :
    (b : ℕ) (rest out : Bytes)
    → IsByte b
    → is_boundary rest ≡ true
    → decode_loop (encode_byte b ++ rest) out ≡ decode_loop rest (out ++ b ∷ [])
unfolding encode_byte
decode_loop-encode_byte b rest out h e = elim (Bool-cases (is_plain b)) [
  | inl p ↦ rw p (decode_loop_plain b rest out (is_plain_ne b p))
  | inr p ↦ rw p (decode_loop_hex b rest out h e)
]

percent_encode_cons :
    (b : ℕ) (s out : Bytes)
    → decode_loop (percent_encode (b ∷ s)) out ≡ decode_loop (encode_byte b ++ percent_encode s) out
unfolding percent_encode
percent_encode_cons b s out = refl

decode_loop-percent_encode :
    (s out : Bytes) → All IsByte s → decode_loop (percent_encode s) out ≡ ok (out ++ s)
decode_loop-percent_encode [] out h = unfold percent_encode decode_loop in rw append-nil
decode_loop-percent_encode (b ∷ s) out (hb, hs) =
    percent_encode_cons b s out
    ∙ decode_loop-encode_byte b (percent_encode s) out hb (percent_encode_boundary s)
    ∙ decode_loop-percent_encode s (out ++ b ∷ []) hs
    ∙ ap ok (append_assoc out (b ∷ []) s)

-- Every text survives: decoding its percent-encoding returns it, without a panic.
pub percent_decode-percent_encode :
    (cs : List ℕ) → All IsScalar cs → percent_decode (percent_encode (utf8 cs)) ≡ ok (utf8 cs)
unfolding percent_decode
percent_decode-percent_encode cs h =
    rw (decode_loop-percent_encode (utf8 cs) [] (utf8-IsByte cs h))
      (ap ok (from_utf8_lossy-utf8 cs h))
