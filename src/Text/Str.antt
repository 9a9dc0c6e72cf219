-- ===== src/Text/Str.antt =====
-- Functions of Rust's `str` with an ASCII character for a pattern, on the bytes of the text.
pub mod Pieces
use grpc_webnext.Prelude.{
  ℕ, ◌+◌, ◌≡◌, List, [], ◌∷◌, ◌++◌, Option, none, some, Bytes, is_empty, leb, ◌-◌, ◌==◌, ◌&&◌,
  if◌then◌else◌, refl, codes,
}

-- `s.split(c)`: the part that is open, then the rest.
split_from : ℕ → Bytes → Bytes → List Bytes
split_from c cur [] = cur ∷ []
split_from c cur (x ∷ xs) =
    let cut = cur ∷ split_from c [] xs in
    let on = split_from c (cur ++ x ∷ []) xs in if x == c then cut else on

unfoldable pub split : ℕ → Bytes → List Bytes
unfolding split_from
split c s = split_from c [] s

-- `s.split_once(c)`.
unfoldable pub split_once : ℕ → Bytes → Option (Bytes × Bytes)
split_once c [] = none
split_once c (x ∷ xs) =
    let later : Option (Bytes × Bytes) = elim (split_once c xs) [
      | none ↦ none
      | some (a, b) ↦ some (x ∷ a, b)
    ] in
    if x == c then some ([], xs) else later

pub trim_start_matches : ℕ → Bytes → Bytes
trim_start_matches c [] = []
trim_start_matches c (x ∷ xs) = if x == c then trim_start_matches c xs else x ∷ xs

unfoldable pub trim_end_matches : ℕ → Bytes → Bytes
trim_end_matches c [] = []
trim_end_matches c (x ∷ xs) =
    let rest = trim_end_matches c xs in if is_empty rest && (x == c) then [] else x ∷ rest

unfoldable pub trim_matches : ℕ → Bytes → Bytes
unfolding trim_start_matches trim_end_matches
trim_matches c s = trim_end_matches c (trim_start_matches c s)

-- `s.strip_prefix(c)` and `s.strip_suffix(c)`.
unfoldable pub strip_prefix : ℕ → Bytes → Option Bytes
strip_prefix c [] = none
strip_prefix c (x ∷ xs) = if x == c then some xs else none

unfoldable pub strip_suffix : ℕ → Bytes → Option Bytes
strip_suffix c [] = none
strip_suffix c (x ∷ []) = if x == c then some [] else none
strip_suffix c (x ∷ y ∷ ys) = elim (strip_suffix c (y ∷ ys)) [ none ↦ none | some r ↦ some (x ∷ r) ]

-- `parts.join(sep)`.
unfoldable pub join : Bytes → List Bytes → Bytes
join sep [] = []
join sep (p ∷ []) = p
join sep (p ∷ q ∷ ps) = p ++ (sep ++ join sep (q ∷ ps))

-- `b.to_ascii_lowercase()` and `b.to_ascii_uppercase()` of one byte.
abbrev pub lower : ℕ → ℕ
lower b = if leb b'A' b && leb b b'Z' then b + 32 else b

abbrev pub upper : ℕ → ℕ
upper b = if leb b'a' b && leb b b'z' then b - 32 else b

unfoldable pub to_ascii_uppercase : Bytes → Bytes
to_ascii_uppercase [] = []
to_ascii_uppercase (x ∷ xs) = upper x ∷ to_ascii_uppercase xs

unfoldable pub to_ascii_lowercase : Bytes → Bytes
to_ascii_lowercase [] = []
to_ascii_lowercase (x ∷ xs) = lower x ∷ to_ascii_lowercase xs

runs :
    (split b'/' (codes "a//b") ≡ codes "a" ∷ [] ∷ codes "b" ∷ [])
    × (trim_matches b'/' (codes "//a/b/") ≡ codes "a/b")
    × (split_once b':' (codes "a:b:c") ≡ some (codes "a", codes "b:c"))
    × (strip_suffix b'}' (codes "a}") ≡ some (codes "a"))
unfolding split trim_matches split_once strip_suffix
runs = (refl, refl, refl, refl)
