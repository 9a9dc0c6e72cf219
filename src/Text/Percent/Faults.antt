-- ===== src/Text/Percent/Faults.antt =====
-- Where `percent_decode` (rust/crates/grpc-webnext/src/metadata.rs, and again httprule.rs) panics,
-- where it cannot, and an escape that is none.
use grpc_webnext.Prelude.{ℕ, ◌≤◌, ◌<◌, ◌≡◌, ◌≢◌, [], ◌∷◌, ◌++◌, some, Bytes, All, refl, arith}
use grpc_webnext.Text.Utf8.{from_utf8_lossy}
use grpc_webnext.Text.Percent.{
  ok, panic, Escape, byte, literal, fault, escape, decode_loop, percent_decode, hex_digit,
  from_str_radix,
}

abbrev pub IsAscii : ℕ → Type 0
IsAscii b = b < 128

escape-ne-fault :
    (b h l : ℕ) (rest : Bytes) → IsAscii h → All IsAscii rest → escape b h l rest ≢ fault
unfolding escape
escape-ne-fault b h l [] hh hr = ground arith
escape-ne-fault b h l (r ∷ rest) hh (hr, hrs) = ground arith

decode_loop-ne-panic : (s out : Bytes) → All IsAscii s → decode_loop s out ≢ panic
unfolding decode_loop
decode_loop-ne-panic [] out h = λ e. cc
decode_loop-ne-panic (b ∷ []) out h = λ e. cc
decode_loop-ne-panic (b ∷ h ∷ []) out hs = λ e. cc
decode_loop-ne-panic (b ∷ h ∷ l ∷ rest) out (hb, (hh, (hl, hr))) =
    go (escape b h l rest) (escape-ne-fault b h l rest hh hr)
      (λ v. decode_loop-ne-panic rest (out ++ v ∷ []) hr)
      (decode_loop-ne-panic (h ∷ l ∷ rest) (out ++ b ∷ []) (hh, (hl, hr)))
  where
    go :
        (e : Escape)
        → e ≢ fault
        → ((v : ℕ) → decode_loop rest (out ++ v ∷ []) ≢ panic)
        → decode_loop (h ∷ l ∷ rest) (out ++ b ∷ []) ≢ panic
        → elim e [
          | byte v ↦ decode_loop rest (out ++ v ∷ [])
          | literal ↦ decode_loop (h ∷ l ∷ rest) (out ++ b ∷ [])
          | fault ↦ panic
        ]
          ≢ panic
    go (byte v) n hv hl = hv v
    go literal n hv hl = hl
    go fault n hv hl = absurd (n refl)

-- On ASCII, which is all that a header value can hold when it reaches the decoder, there is no panic.
pub percent_decode-ne-panic : (s : Bytes) → All IsAscii s → percent_decode s ≢ panic
unfolding percent_decode
percent_decode-ne-panic s h = ground (arith, decode_loop-ne-panic s [] h)

-- A `%` and one ASCII character in front of a character of several bytes: the slice ends inside
-- that character, and the decoder panics, whatever follows.
pub percent_decode_panics :
    (h lead cont : ℕ) (rest : Bytes)
    → IsAscii h
    → 0x80 ≤ cont
    → cont < 0xc0
    → percent_decode (b'%' ∷ h ∷ lead ∷ cont ∷ rest) ≡ panic
unfolding percent_decode decode_loop escape
percent_decode_panics h lead cont rest hh lo hi = ground arith

-- `%+` and a hexadecimal digit, which is no percent escape, decodes to the value of the digit.
percent_decode_plus :
    (d v : ℕ)
    → hex_digit d ≡ some v
    → percent_decode (b'%' ∷ b'+' ∷ d ∷ []) ≡ ok (from_utf8_lossy (v ∷ []))
unfolding percent_decode decode_loop escape from_str_radix
percent_decode_plus d v e = ground arith
