-- ===== src/Text/Decimal/RoundTrip.antt =====
-- Reading back what was written.
use grpc_webnext.Prelude.{
  ℕ, zero, suc, ◌+◌, ◌-◌, ◌*◌, ◌/◌, ◌%◌, ◌≤◌, ◌<◌, ◌≡◌, Bool, true, false, [], ◌∷◌, none, some,
  Bytes, is_empty, leb, leb→le, ltb, ◌==◌, ◌&&◌, if◌then◌else◌, arith, ltb→lt, ltb-false, refl, ap,
  sym, ◌∙◌,
}
use grpc_webnext.Text.Decimal.{parse_digits, parse_uint, decimal_loop, decimal}

parse_digit :
    (max acc d v : ℕ) (s : Bytes)
    → d < 10
    → v ≡ acc * 10 + d
    → v ≤ max
    → parse_digits max acc ((b'0' + d) ∷ s) ≡ parse_digits max v s
unfolding parse_digits
parse_digit max acc d v s h e b =
    let e' : acc * 10 + ((b'0' + d) - b'0') ≡ v = omega (arith, e) in rw e' (ground arith)

-- What is written in front of `acc` reads as the number, and `acc` is read after it.
pub parse-decimal_loop :
    (max fuel n : ℕ) (acc : Bytes)
    → n < fuel
    → n ≤ max
    → parse_digits max 0 (decimal_loop fuel n acc) ≡ parse_digits max n acc
unfolding decimal_loop
parse-decimal_loop max zero n acc h b = absurd (omega arith)
parse-decimal_loop max (suc fuel) n acc h b = go (ltb n 10) refl (λ k.
    parse-decimal_loop max fuel (n / 10) ((b'0' + n % 10) ∷ acc) (omega (arith, h, k))
      (omega (arith, b)))
  where
    go :
        (t : Bool)
        → ltb n 10 ≡ t
        → (10 ≤ n
            → parse_digits max 0 (decimal_loop fuel (n / 10) ((b'0' + n % 10) ∷ acc))
              ≡ parse_digits max (n / 10) ((b'0' + n % 10) ∷ acc))
        → parse_digits max 0
            (if t then (b'0' + n) ∷ acc else decimal_loop fuel (n / 10) ((b'0' + n % 10) ∷ acc))
          ≡ parse_digits max n acc
    go true e ih = parse_digit max 0 n n acc (ltb→lt n 10 e) (omega arith) b
    go false e ih =
        ih (ltb-false n 10 e)
        ∙ parse_digit max (n / 10) (n % 10) n acc (omega arith) (omega arith) b

-- A digit stands first.
pub decimal_loop-head :
    (fuel n : ℕ) (acc : Bytes)
    → n < fuel
    → (d : ℕ) × (r : Bytes) × (d < 10) × (decimal_loop fuel n acc ≡ (b'0' + d) ∷ r)
unfolding decimal_loop
decimal_loop-head zero n acc h = absurd (omega arith)
decimal_loop-head (suc fuel) n acc h =
    go (ltb n 10) refl
      (λ k. decimal_loop-head fuel (n / 10) ((b'0' + n % 10) ∷ acc) (omega (arith, h, k)))
  where
    go :
        (t : Bool)
        → ltb n 10 ≡ t
        → (10 ≤ n
            → (d : ℕ) × (r : Bytes) × (d < 10)
              × (decimal_loop fuel (n / 10) ((b'0' + n % 10) ∷ acc) ≡ (b'0' + d) ∷ r))
        → (d : ℕ) × (r : Bytes) × (d < 10)
          × ((if t then (b'0' + n) ∷ acc else decimal_loop fuel (n / 10) ((b'0' + n % 10) ∷ acc))
              ≡ (b'0' + d) ∷ r)
    go true e ih = (n, acc, ltb→lt n 10 e, refl)
    go false e ih = ih (ltb-false n 10 e)

-- If a number fits the type, then its decimal digits parse as the number.
pub parse_uint-decimal : (max n : ℕ) → n ≤ max → parse_uint max (decimal n) ≡ some n
unfolding parse_uint decimal parse_digits
parse_uint-decimal max n h =
    let (d, r, hd, e) = decimal_loop-head (suc n) n [] (omega arith) in
    let k : parse_digits max 0 (decimal_loop (suc n) n []) ≡ some n =
      parse-decimal_loop max (suc n) n [] (omega arith) h in
    let t : ((b'0' + d) == b'+') ≡ false = ground arith in
    let k' : parse_digits max 0 ((b'0' + d) ∷ r) ≡ some n = ap (parse_digits max 0) (sym e) ∙ k in
    rw (e, t) k'

pub parse_digits_bound :
    (max acc : ℕ) (s : Bytes) (n : ℕ) → acc ≤ max → parse_digits max acc s ≡ some n → n ≤ max
unfolding parse_digits
parse_digits_bound max acc [] n h e = ground arith
parse_digits_bound max acc (c ∷ s) n h e =
    go (leb b'0' c && leb c b'9') (leb (acc * 10 + (c - b'0')) max) refl
      (λ k. parse_digits_bound max (acc * 10 + (c - b'0')) s n k) e
  where
    go :
        (t u : Bool)
        → leb (acc * 10 + (c - b'0')) max ≡ u
        → (acc * 10 + (c - b'0') ≤ max
            → parse_digits max (acc * 10 + (c - b'0')) s ≡ some n
            → n ≤ max)
        → (if t && u then parse_digits max (acc * 10 + (c - b'0')) s else none) ≡ some n
        → n ≤ max
    go true true k ih e' = ih (leb→le _ _ k) e'
    go true false k ih e' = cc
    go false u k ih e' = cc

-- If a text parses, then the number fits the type.
pub parse_uint_bound : (max : ℕ) (s : Bytes) (n : ℕ) → parse_uint max s ≡ some n → n ≤ max
unfolding parse_uint
parse_uint_bound max [] n e = cc
parse_uint_bound max (c ∷ s) n e = go (c == b'+') (is_empty s) e
  where
    go :
        (t u : Bool)
        → (if t then (if u then none else parse_digits max 0 s) else parse_digits max 0 (c ∷ s))
          ≡ some n
        → n ≤ max
    go true true e' = cc
    go true false e' = parse_digits_bound max 0 s n (omega arith) e'
    go false u e' = parse_digits_bound max 0 (c ∷ s) n (omega arith) e'
