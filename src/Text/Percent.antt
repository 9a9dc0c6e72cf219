-- ===== src/Text/Percent.antt =====
-- `percent_encode` and `percent_decode` of rust/crates/grpc-webnext/src/metadata.rs. The decoder of
-- httprule.rs is the same text.
pub mod RoundTrip
pub mod Faults
use grpc_webnext.Prelude.{
  ℕ, ◌+◌, ◌-◌, ◌*◌, ◌/◌, ◌%◌, ◌≡◌, Bool, true, false, List, [], ◌∷◌, ◌++◌, Option, none, some,
  Bytes, ltb, leb, ◌==◌, ◌&&◌, ◌||◌, if◌then◌else◌, refl, codes,
}
use grpc_webnext.Text.Utf8.{is_continuation, from_utf8_lossy}

-- A call that returns, or a panic: an index that is no character boundary.
pub data Outcome {ℓ} (A : Type ℓ) : Type ℓ where
  ok : A → Outcome A
  panic : Outcome A

infixl 5 ◌>>=◌
abbrev pub ◌>>=◌ {ℓ κ} : {A : Type ℓ} {B : Type κ} → Outcome A → (A → Outcome B) → Outcome B
ok a >>= f = f a
panic >>= f = panic

-- One digit of base 16, of either case.
pub hex_digit : ℕ → Option ℕ
hex_digit c =
    if leb b'0' c && leb c b'9'
    then some (c - b'0')
    else if leb b'a' c && leb c b'f'
    then some (c - 87)
    else if leb b'A' c && leb c b'F'
    then some (c - 55)
    else none

-- `u8::from_str_radix(s, 16)` on two bytes. The standard library takes a sign in front.
pub from_str_radix : ℕ → ℕ → Option ℕ
unfolding hex_digit
from_str_radix h l = if h == b'+' then hex_digit l else elim (hex_digit h) [
  | none ↦ none
  | some a ↦ elim (hex_digit l) [ none ↦ none | some b ↦ some (a * 16 + b) ]
]

-- Whether an index is a character boundary of the text: by the byte there, if there is one.
abbrev pub is_boundary : Bytes → Bool
is_boundary [] = true
is_boundary (b ∷ rest) = if is_continuation b then false else true

-- What the loop does at a byte with two more behind it: `fault` is the panic of `&s[i + 1..i + 3]`.
pub data Escape : Type 0 where
  byte : ℕ → Escape
  literal fault : Escape

unfoldable pub escape : ℕ → ℕ → ℕ → Bytes → Escape
unfolding from_str_radix
escape b h l rest =
    if b == b'%'
    then (if is_boundary (h ∷ l ∷ rest) && is_boundary rest
        then elim (from_str_radix h l) [ none ↦ literal | some v ↦ byte v ]
        else fault)
    else literal

-- The loop over `i`; the list is `bytes[i..]`. The test `i + 2 < bytes.len()` is the third clause.
unfoldable pub decode_loop : Bytes → Bytes → Outcome Bytes
decode_loop [] out = ok out
decode_loop (b ∷ []) out = ok (out ++ b ∷ [])
decode_loop (b ∷ h ∷ []) out = ok (out ++ (b ∷ h ∷ []))
decode_loop (b ∷ h ∷ l ∷ rest) out = elim (escape b h l rest) [
  | byte v ↦ decode_loop rest (out ++ v ∷ [])
  | literal ↦ decode_loop (h ∷ l ∷ rest) (out ++ b ∷ [])
  | fault ↦ panic
]

unfoldable pub percent_decode : Bytes → Outcome Bytes
percent_decode s = do out ← decode_loop s []; ok (from_utf8_lossy out)

-- `b.is_ascii_alphanumeric() || matches!(b, …)`.
pub is_plain : ℕ → Bool
is_plain b =
    (leb b'0' b && leb b b'9')
    || (leb b'A' b && leb b b'Z')
    || (leb b'a' b && leb b b'z')
    || (b == b' ')
    || (b == b'-')
    || (b == b'_')
    || (b == b'.')
    || (b == b'/')
    || (b == b':')

-- A digit of `{b:02X}`.
pub upper_hex : ℕ → ℕ
upper_hex d = if ltb d 10 then b'0' + d else 55 + d

pub encode_byte : ℕ → Bytes
unfolding is_plain upper_hex
encode_byte b = if is_plain b then b ∷ [] else b'%' ∷ upper_hex (b / 16) ∷ upper_hex (b % 16) ∷ []

pub percent_encode : Bytes → Bytes
unfolding encode_byte
percent_encode [] = []
percent_encode (b ∷ s) = encode_byte b ++ percent_encode s

status_text : percent_decode (codes "not%20ready%3a") ≡ ok (codes "not ready:")
unfolding percent_decode decode_loop escape from_utf8_lossy
status_text = refl
