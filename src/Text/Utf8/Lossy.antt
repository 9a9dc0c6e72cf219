-- ===== src/Text/Utf8/Lossy.antt =====
-- `from_utf8_lossy` keeps every text that is UTF-8.
use grpc_webnext.Prelude.{
  ℕ, ◌+◌, ◌-◌, ◌/◌, ◌%◌, ◌==◌, if◌then◌else◌, ◌≤◌, ◌<◌, ◌≡◌, List, [], ◌∷◌, ◌++◌, Bytes, All, ap,
  ◌∙◌, refl, arith,
}
use grpc_webnext.Text.Utf8.{
  IsScalar, encode_char, utf8, idle, Partial, start_char, next_byte, lossy_from, from_utf8_lossy,
}

start_two :
    (a : ℕ)
    → 0xc2 ≤ a
    → a ≤ 0xdf
    → start_char a ≡ ([], record { pend = a ∷ []; need = 1; lo = 0x80; hi = 0xbf })
unfolding start_char
start_two a l h = ground arith

start_three :
    (a : ℕ)
    → 0xe0 ≤ a
    → a ≤ 0xef
    → start_char a ≡ (
      [],
      record {
        pend = a ∷ [];
        need = 2;
        lo = if a == 0xe0 then 0xa0 else 0x80;
        hi = if a == 0xed then 0x9f else 0xbf;
      },
    )
unfolding start_char
start_three a l h = ground arith

start_four :
    (a : ℕ)
    → 0xf0 ≤ a
    → a ≤ 0xf4
    → start_char a ≡ (
      [],
      record {
        pend = a ∷ [];
        need = 3;
        lo = if a == 0xf0 then 0x90 else 0x80;
        hi = if a == 0xf4 then 0x8f else 0xbf;
      },
    )
unfolding start_char
start_four a l h = ground arith

-- A byte that the state waits for, before the last and at the last.
next_more :
    (p : Partial) (b : ℕ)
    → 2 ≤ p.need
    → p.lo ≤ b
    → b ≤ p.hi
    → next_byte p b
      ≡ ([], record { pend = p.pend ++ b ∷ []; need = p.need - 1; lo = 0x80; hi = 0xbf })
unfolding next_byte
next_more p b n l h = ground arith

next_last :
    (p : Partial) (b : ℕ)
    → p.need ≡ 1
    → p.lo ≤ b
    → b ≤ p.hi
    → next_byte p b ≡ (p.pend ++ b ∷ [], idle)
unfolding next_byte
next_last p b n l h = ground arith

next_idle : (b : ℕ) → next_byte idle b ≡ start_char b
unfolding next_byte
next_idle b = refl

lossy_from_step :
    (p q : Partial) (b : ℕ) (e rest : Bytes)
    → next_byte p b ≡ (e, q)
    → lossy_from p (b ∷ rest) ≡ e ++ lossy_from q rest
unfolding lossy_from
lossy_from_step p q b e rest h = rw h

two_bytes :
    (a b : ℕ) (rest : Bytes)
    → 0xc2 ≤ a
    → a ≤ 0xdf
    → 0x80 ≤ b
    → b ≤ 0xbf
    → lossy_from idle (a ∷ b ∷ rest) ≡ a ∷ b ∷ lossy_from idle rest
two_bytes a b rest la ha lb hb =
    lossy_from_step idle _ a _ (b ∷ rest) (next_idle a ∙ start_two a la ha)
    ∙ lossy_from_step _ idle b _ rest (next_last _ b refl lb hb)

three_bytes :
    (a b c : ℕ) (rest : Bytes)
    → 0xe0 ≤ a
    → a ≤ 0xef
    → (if a == 0xe0 then 0xa0 else 0x80) ≤ b
    → b ≤ (if a == 0xed then 0x9f else 0xbf)
    → 0x80 ≤ c
    → c ≤ 0xbf
    → lossy_from idle (a ∷ b ∷ c ∷ rest) ≡ a ∷ b ∷ c ∷ lossy_from idle rest
three_bytes a b c rest la ha lb hb lc hc =
    lossy_from_step idle _ a _ (b ∷ c ∷ rest) (next_idle a ∙ start_three a la ha)
    ∙ lossy_from_step _ _ b _ (c ∷ rest) (next_more _ b (omega arith) lb hb)
    ∙ lossy_from_step _ idle c _ rest (next_last _ c (omega arith) lc hc)

four_bytes :
    (a b c d : ℕ) (rest : Bytes)
    → 0xf0 ≤ a
    → a ≤ 0xf4
    → (if a == 0xf0 then 0x90 else 0x80) ≤ b
    → b ≤ (if a == 0xf4 then 0x8f else 0xbf)
    → 0x80 ≤ c
    → c ≤ 0xbf
    → 0x80 ≤ d
    → d ≤ 0xbf
    → lossy_from idle (a ∷ b ∷ c ∷ d ∷ rest) ≡ a ∷ b ∷ c ∷ d ∷ lossy_from idle rest
four_bytes a b c d rest la ha lb hb lc hc ld hd =
    lossy_from_step idle _ a _ (b ∷ c ∷ d ∷ rest) (next_idle a ∙ start_four a la ha)
    ∙ lossy_from_step _ _ b _ (c ∷ d ∷ rest) (next_more _ b (omega arith) lb hb)
    ∙ lossy_from_step _ _ c _ (d ∷ rest) (next_more _ c (omega arith) lc hc)
    ∙ lossy_from_step _ idle d _ rest (next_last _ d (omega arith) ld hd)

one_byte : (a : ℕ) (rest : Bytes) → a < 0x80 → lossy_from idle (a ∷ rest) ≡ a ∷ lossy_from idle rest
unfolding start_char
one_byte a rest h = lossy_from_step idle idle a (a ∷ []) rest (next_idle a ∙ ground arith)

lossy_from-encode_char :
    (c : ℕ) (rest : Bytes)
    → IsScalar c
    → lossy_from idle (encode_char c ++ rest) ≡ encode_char c ++ lossy_from idle rest
unfolding encode_char
lossy_from-encode_char c rest h = ground (
  arith,
  one_byte c rest,
  two_bytes (0xc0 + c / 64) (0x80 + c % 64) rest,
  three_bytes (0xe0 + c / 4096) (0x80 + c / 64 % 64) (0x80 + c % 64) rest,
  four_bytes (0xf0 + c / 262144) (0x80 + c / 4096 % 64) (0x80 + c / 64 % 64) (0x80 + c % 64) rest,
)

pub from_utf8_lossy-utf8 : (cs : List ℕ) → All IsScalar cs → from_utf8_lossy (utf8 cs) ≡ utf8 cs
unfolding from_utf8_lossy utf8
from_utf8_lossy-utf8 [] h = refl
from_utf8_lossy-utf8 (c ∷ cs) (hc, hcs) =
    lossy_from-encode_char c (utf8 cs) hc
    ∙ ap (λ r. encode_char c ++ r) (from_utf8_lossy-utf8 cs hcs)
