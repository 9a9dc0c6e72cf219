-- ===== src/Wire/BigEndian.antt =====
-- `put_u32` and `get_u32` of the `bytes` crate's big-endian buffers, and `u32::from_be_bytes`.
use grpc_webnext.Prelude.{
  ◌≤◌, ℕ, ◌+◌, ◌*◌, ◌/◌, ◌%◌, ◌^◌, ◌<◌, ◌≡◌, [], ◌∷◌, ◌++◌, Bytes, IsByte, All, length, arith, refl,
}

-- `buf.put_u32(n as u32)`: the cast keeps the low 32 bits.
unfoldable pub put_u32 : ℕ → Bytes
put_u32 n =
    let w = n % 2 ^ 32 in (w / 2 ^ 24) ∷ (w / 2 ^ 16 % 256) ∷ (w / 2 ^ 8 % 256) ∷ (w % 256) ∷ []

-- `u32::from_be_bytes([a, b, c, d])`.
pub from_be_bytes : ℕ → ℕ → ℕ → ℕ → ℕ
from_be_bytes a b c d = a * 2 ^ 24 + b * 2 ^ 16 + c * 2 ^ 8 + d

-- The four leading bytes as a number; 0 where there are fewer.
unfoldable pub get_u32 : Bytes → ℕ
unfolding from_be_bytes
get_u32 (a ∷ b ∷ c ∷ d ∷ rest) = from_be_bytes a b c d
get_u32 _ = 0

pub get_u32-put_u32 : (n : ℕ) (rest : Bytes) → n < 2 ^ 32 → get_u32 (put_u32 n ++ rest) ≡ n
unfolding get_u32 put_u32
get_u32-put_u32 n rest h = omega arith

-- The same with the bytes written out.
pub from_be_bytes_lem :
    (n : ℕ)
    → n < 2 ^ 32
    → let w = n % 2 ^ 32 in
      from_be_bytes (w / 2 ^ 24) (w / 2 ^ 16 % 256) (w / 2 ^ 8 % 256) (w % 256) ≡ n
unfolding from_be_bytes
from_be_bytes_lem n h = omega arith

pub put_u32-from_be_bytes :
    (a b c d : ℕ)
    → IsByte a
    → IsByte b
    → IsByte c
    → IsByte d
    → put_u32 (from_be_bytes a b c d) ≡ a ∷ b ∷ c ∷ d ∷ []
unfolding put_u32 from_be_bytes
put_u32-from_be_bytes a b c d ha hb hc hd = ground arith

pub length-put_u32 : (n : ℕ) → length (put_u32 n) ≡ 4
unfolding put_u32
length-put_u32 n = refl

put_u32-IsByte : (n : ℕ) → All IsByte (put_u32 n)
unfolding put_u32
put_u32-IsByte n = omega arith

-- Only the first four bytes count.
pub get_u32-prefix : (h r : Bytes) → 4 ≤ length h → get_u32 (h ++ r) ≡ get_u32 h
unfolding get_u32
get_u32-prefix [] r l = absurd (omega arith)
get_u32-prefix (a ∷ []) r l = absurd (omega arith)
get_u32-prefix (a ∷ b ∷ []) r l = absurd (omega arith)
get_u32-prefix (a ∷ b ∷ c ∷ []) r l = absurd (omega arith)
get_u32-prefix (a ∷ b ∷ c ∷ d ∷ h) r l = refl
