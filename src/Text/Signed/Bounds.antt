-- ===== src/Text/Signed/Bounds.antt =====
-- That a parsed signed number fits its type.
use grpc_webnext.Prelude.{
  ℕ, zero, suc, ◌+◌, ◌≤◌, ◌≡◌, [], ◌∷◌, Option, none, some, Bool, true, false, Bytes, is_empty,
  ◌==◌, if◌then◌else◌, refl, subst, sym, ◌<◌, arith,
}
use grpc_webnext.Text.Decimal.{parse_uint, parse_digits, decimal}
use grpc_webnext.Text.Decimal.RoundTrip.{
  parse_uint_bound, parse_digits_bound, parse_uint-decimal, parse-decimal_loop, decimal_loop-head,
}
use grpc_webnext.Text.Signed.{ℤ, pos, negsuc, negative, parse_int}

-- From the negative of one more than a number to the number.
pub Fits : ℕ → ℤ → Type 0
Fits max (pos n) = n ≤ max
Fits max (negsuc n) = n ≤ max

negative-Fits : (max n : ℕ) → n ≤ max + 1 → Fits max (negative n)
unfolding Fits negative
negative-Fits max zero h = omega arith
negative-Fits max (suc n) h = omega arith

pub parse_int-Fits : (max : ℕ) (s : Bytes) (z : ℤ) → parse_int max s ≡ some z → Fits max z
unfolding parse_int Fits
parse_int-Fits max [] z e = cc
parse_int-Fits max (c ∷ s) z e =
    go (c == b'-') (is_empty s) (parse_digits (max + 1) 0 s)
      (λ n q. parse_digits_bound (max + 1) 0 s n (omega arith) q) (parse_uint max (c ∷ s))
      (λ n q. parse_uint_bound max (c ∷ s) n q) e
  where
    go :
        (a b : Bool) (d : Option ℕ)
        → ((n : ℕ) → d ≡ some n → n ≤ max + 1)
        → (u : Option ℕ) → ((n : ℕ) → u ≡ some n → n ≤ max)
        → (if a
            then (if b then none else elim d [ none ↦ none | some n ↦ some (negative n) ])
            else elim u [ none ↦ none | some n ↦ some (pos n) ])
          ≡ some z
        → Fits max z
    go true true d h u k q = cc
    go true false none h u k q = cc
    go true false (some n) h u k q =
        let same : negative n ≡ z = cc in
        subst (λ y. Fits max y) same (negative-Fits max n (h n refl))
    go false b d h none k q = cc
    go false b d h (some n) k q =
        let same : pos n ≡ z = cc in subst (λ y. Fits max y) same (k n refl)

-- A number as it is written.
abbrev pub written : ℤ → Bytes
written (pos n) = decimal n
written (negsuc n) = b'-' ∷ decimal (suc n)

parse_int-digits :
    (max n d : ℕ) (r : Bytes)
    → d < 10
    → parse_uint max ((b'0' + d) ∷ r) ≡ some n
    → parse_int max ((b'0' + d) ∷ r) ≡ some (pos n)
unfolding parse_int
parse_int-digits max n d r h e =
    let t : ((b'0' + d) == b'-') ≡ false = ground arith in rw (t, e) refl

parse_int-minus :
    (max n d : ℕ) (s r : Bytes)
    → s ≡ d ∷ r
    → parse_digits (max + 1) 0 s ≡ some (suc n)
    → parse_int max (b'-' ∷ s) ≡ some (negsuc n)
unfolding parse_int negative
parse_int-minus max n d s r h e = rw e (go s h)
  where
    go : (s : Bytes) → s ≡ d ∷ r → (if is_empty s then none else some (negsuc n)) ≡ some (negsuc n)
    go [] h = cc
    go (c ∷ s) h = refl

-- If a number fits the type, then it is read as it is written.
pub parse_int-written : (max : ℕ) (z : ℤ) → Fits max z → parse_int max (written z) ≡ some z
unfolding Fits decimal parse_digits
parse_int-written max (pos n) h =
    let (d, r, hd, e) = decimal_loop-head (suc n) n [] (omega arith) in
    subst (λ s. parse_int max s ≡ some (pos n)) (sym e)
      (parse_int-digits max n d r hd
        (subst (λ s. parse_uint max s ≡ some n) e (parse_uint-decimal max n h)))
parse_int-written max (negsuc n) h =
    let (d, r, hd, e) = decimal_loop-head (suc (suc n)) (suc n) [] (omega arith) in
    parse_int-minus max n (b'0' + d) _ r e
      (parse-decimal_loop (max + 1) (suc (suc n)) (suc n) [] (omega arith) (omega arith))
