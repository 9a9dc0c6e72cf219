-- ===== src/Text/Decimal.antt =====
-- Decimal numbers as Rust's `parse` and `format!` read and write them, for unsigned integers.
pub mod RoundTrip
use grpc_webnext.Prelude.{
  ℕ, zero, suc, ◌+◌, ◌-◌, ◌*◌, ◌/◌, ◌%◌, Bool, List, [], ◌∷◌, ◌++◌, Option, none, some, Bytes,
  is_empty, leb, ltb, ◌==◌, ◌&&◌, if◌then◌else◌,
}

-- The digits, with the overflow check of a type whose largest value is `max`.
unfoldable pub parse_digits : ℕ → ℕ → Bytes → Option ℕ
parse_digits max acc [] = some acc
parse_digits max acc (c ∷ s) =
    let v = acc * 10 + (c - b'0') in
    let rest = parse_digits max v s in if leb b'0' c && leb c b'9' && leb v max then rest else none

-- `s.parse::<u32>()` and `s.parse::<u64>()`, which accept a leading `+`.
unfoldable pub parse_uint : ℕ → Bytes → Option ℕ
parse_uint max [] = none
parse_uint max (c ∷ s) =
    if c == b'+'
    then (if is_empty s then none else parse_digits max 0 s)
    else parse_digits max 0 (c ∷ s)

-- `n.to_string()`: a round for each digit, and there are at most `n` of them after the first.
unfoldable pub decimal_loop : ℕ → ℕ → Bytes → Bytes
decimal_loop zero n acc = acc
decimal_loop (suc fuel) n acc =
    let rest = decimal_loop fuel (n / 10) ((b'0' + n % 10) ∷ acc) in
    if ltb n 10 then (b'0' + n) ∷ acc else rest

unfoldable pub decimal : ℕ → Bytes
decimal n = decimal_loop (suc n) n []
