-- ===== src/Prelude/Text.antt =====
-- Byte strings: the bytes of a literal, and the tests that the code makes on `&str` and `[u8]`.
use Prim.Native.Nat.{ℕ, ◌<◌, ◌-◌}
use Prim.Native.Char.{code}
use Prim.Native.String.{String}
use mathlib.Core.Path.{◌≡◌, refl}
use mathlib.Core.Bool.{Bool, true, false, ◌&&◌, ◌||◌}
use mathlib.Core.Logic.{◌≢◌}
use mathlib.Core.List.{List, [], ◌∷◌}
use native.Mathlib.Omega.{arith}
use native.Mathlib.Decide.{ℕ_discrete}
use grpc_webnext.Prelude.Tests.{◌==◌, ltb, if◌then◌else◌}
use grpc_webnext.Prelude.Lists.{length, drop}

abbrev pub Bytes : Type 0
Bytes = List ℕ

-- The code points of a literal: its bytes, since every literal here is ASCII.
abbrev pub codes : String → Bytes
codes String.[] = []
codes (String.◌∷◌ c s) = code c ∷ codes s

abbrev pub IsByte : ℕ → Type 0
IsByte b = b < 256

-- `a == b` on strings.
abbrev pub str_eq : Bytes → Bytes → Bool
str_eq [] [] = true
str_eq [] (y ∷ ys) = false
str_eq (x ∷ xs) [] = false
str_eq (x ∷ xs) (y ∷ ys) = (x == y) && str_eq xs ys

pub str_eq→eq : (xs ys : Bytes) → str_eq xs ys ≡ true → xs ≡ ys
str_eq→eq [] [] h = refl
str_eq→eq [] (y ∷ ys) h = cc
str_eq→eq (x ∷ xs) [] h = cc
str_eq→eq (x ∷ xs) (y ∷ ys) h = ground (arith, str_eq→eq xs ys)

pub str_eq_refl : (xs : Bytes) → str_eq xs xs ≡ true
str_eq_refl [] = refl
str_eq_refl (x ∷ xs) = ground (arith, str_eq_refl xs)

pub str_eq-false : (xs ys : Bytes) → xs ≢ ys → str_eq xs ys ≡ false
str_eq-false [] [] h = absurd (h refl)
str_eq-false [] (y ∷ ys) h = refl
str_eq-false (x ∷ xs) [] h = refl
str_eq-false (x ∷ xs) (y ∷ ys) h = ground (arith, str_eq_refl (x ∷ xs), str_eq→eq xs ys)

Bytes-discrete : Discrete Bytes
Bytes-discrete = hlevel ℕ_discrete

-- `a <= b` on strings.
abbrev pub str_leb : Bytes → Bytes → Bool
str_leb [] b = true
str_leb (x ∷ a) [] = false
str_leb (x ∷ a) (y ∷ b) =
    let rest = str_leb a b in if ltb x y then true else if x == y then rest else false

-- `s.starts_with(p)`.
abbrev pub starts_with : Bytes → Bytes → Bool
starts_with s [] = true
starts_with [] (p ∷ ps) = false
starts_with (c ∷ s) (p ∷ ps) = (c == p) && starts_with s ps

-- `s.ends_with(p)`.
abbrev pub ends_with : Bytes → Bytes → Bool
ends_with s p = str_eq (drop (length s - length p) s) p

-- Whether a byte occurs.
abbrev pub contains : Bytes → ℕ → Bool
contains [] c = false
contains (x ∷ xs) c = (x == c) || contains xs c
