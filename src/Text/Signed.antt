-- ===== src/Text/Signed.antt =====
-- Signed decimal numbers as Rust's `parse` reads them.
pub mod Bounds
use grpc_webnext.Prelude.{
  ℕ, zero, suc, [], ◌∷◌, Option, none, some, Bytes, is_empty, ◌==◌, ◌+◌, if◌then◌else◌,
}
use grpc_webnext.Text.Decimal.{parse_uint, parse_digits}

-- A number, or the negative of one more than a number.
pub data ℤ : Type 0 where
  pos negsuc : ℕ → ℤ

pub negative : ℕ → ℤ
negative zero = pos 0
negative (suc n) = negsuc n

-- `s.parse()` for a signed type whose largest value is `max`: a sign, then digits.
unfoldable pub parse_int : ℕ → Bytes → Option ℤ
parse_int max [] = none
parse_int max (c ∷ s) =
    if c == b'-'
    then (if is_empty s
        then none
        else elim (parse_digits (max + 1) 0 s) [ none ↦ none | some n ↦ some (negative n) ])
    else elim (parse_uint max (c ∷ s)) [ none ↦ none | some n ↦ some (pos n) ]

abbrev pub i32_max : ℕ
i32_max = 2147483647

abbrev pub i64_max : ℕ
i64_max = 9223372036854775807
