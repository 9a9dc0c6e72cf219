-- ===== src/Text/Utf8.antt =====
-- UTF-8, and `String::from_utf8_lossy` of Rust's standard library: every maximal part of the input
-- that begins no character becomes U+FFFD.
pub mod Lossy
use grpc_webnext.Prelude.{
  ℕ, ◌+◌, ◌-◌, ◌/◌, ◌%◌, ◌≤◌, ◌<◌, ◌≡◌, ◌⊎◌, Bool, List, [], ◌∷◌, ◌++◌, Bytes, ltb, leb, ◌==◌, ◌&&◌,
  ◌||◌, if◌then◌else◌, refl, codes,
}

-- The scalar values: what a Rust `char` holds.
abbrev pub IsScalar : ℕ → Type 0
IsScalar c = (c < 0xd800) ⊎ ((0xe000 ≤ c) × (c < 0x110000))

unfoldable pub encode_char : ℕ → Bytes
encode_char c =
    if ltb c 0x80
    then c ∷ []
    else if ltb c 0x800
    then (0xc0 + c / 64) ∷ (0x80 + c % 64) ∷ []
    else if ltb c 0x10000
    then (0xe0 + c / 4096) ∷ (0x80 + c / 64 % 64) ∷ (0x80 + c % 64) ∷ []
    else (0xf0 + c / 262144) ∷ (0x80 + c / 4096 % 64) ∷ (0x80 + c / 64 % 64) ∷ (0x80 + c % 64) ∷ []

-- The bytes of a Rust `str` with these characters.
unfoldable pub utf8 : List ℕ → Bytes
unfolding encode_char
utf8 [] = []
utf8 (c ∷ cs) = encode_char c ++ utf8 cs

-- A continuation byte: no character begins there.
abbrev pub is_continuation : ℕ → Bool
is_continuation b = leb 0x80 b && ltb b 0xc0

-- The part of a character that is read, how many bytes it still wants, and the bounds of the next.
pub record Partial : Type 0 where
  pub pend : Bytes
  pub need : ℕ
  pub lo : ℕ
  pub hi : ℕ

abbrev pub idle : Partial
idle = record { pend = []; need = 0; lo = 0; hi = 0 }

abbrev wants : ℕ → ℕ → ℕ → ℕ → Bytes × Partial
wants b need lo hi = ([], record { pend = b ∷ []; need = need; lo = lo; hi = hi })

abbrev replacement : Bytes
replacement = 0xef ∷ 0xbf ∷ 0xbd ∷ []

abbrev within : ℕ → ℕ → ℕ → Bool
within lo b hi = leb lo b && leb b hi

-- A byte that begins a character, or none.
start_char : ℕ → Bytes × Partial
start_char b =
    if ltb b 0x80
    then (b ∷ [], idle)
    else if within 0xc2 b 0xdf
    then wants b 1 0x80 0xbf
    else if b == 0xe0
    then wants b 2 0xa0 0xbf
    else if within 0xe1 b 0xec || within 0xee b 0xef
    then wants b 2 0x80 0xbf
    else if b == 0xed
    then wants b 2 0x80 0x9f
    else if b == 0xf0
    then wants b 3 0x90 0xbf
    else if within 0xf1 b 0xf3
    then wants b 3 0x80 0xbf
    else if b == 0xf4
    then wants b 3 0x80 0x8f
    else (replacement, idle)

next_byte : Partial → ℕ → Bytes × Partial
next_byte p b =
    let (e, q) = start_char b in
    if p.need == 0
    then (e, q)
    else if within p.lo b p.hi
    then (if p.need == 1
        then (p.pend ++ b ∷ [], idle)
        else ([], record { pend = p.pend ++ b ∷ []; need = p.need - 1; lo = 0x80; hi = 0xbf }))
    else (replacement ++ e, q)

lossy_from : Partial → Bytes → Bytes
lossy_from p [] = if p.need == 0 then [] else replacement
lossy_from p (b ∷ rest) = let (e, q) = next_byte p b in e ++ lossy_from q rest

unfoldable pub from_utf8_lossy : Bytes → Bytes
unfolding lossy_from next_byte start_char
from_utf8_lossy s = lossy_from idle s

-- A lead byte with no continuation, then a character of two bytes and a cut one of three.
lossy_runs :
    from_utf8_lossy (0xc3 ∷ 0x41 ∷ 0xc3 ∷ 0xa9 ∷ 0xe2 ∷ 0x82 ∷ [])
    ≡ replacement ++ (0x41 ∷ 0xc3 ∷ 0xa9 ∷ replacement)
unfolding from_utf8_lossy
lossy_runs = refl
