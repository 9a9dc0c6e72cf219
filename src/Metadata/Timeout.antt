-- ===== src/Metadata/Timeout.antt =====
-- Deadlines of rust/crates/grpc-webnext/src/metadata.rs.
use grpc_webnext.Prelude.{
  ℕ, ◌*◌, ◌/◌, ◌≤◌, ◌≡◌, min, [], ◌∷◌, ◌++◌, Option, none, some, Bytes, codes, length, take, drop,
  arith, length-append, take-append, drop-append, refl,
}
use grpc_webnext.Text.Decimal.{parse_uint, decimal}
use grpc_webnext.Text.Decimal.RoundTrip.{parse_uint-decimal, parse_uint_bound}
use grpc_webnext.Metadata.{
  u64_max, unit_duration, checked_secs, read_timeout, parse_timeout, format_timeout,
}

-- The last byte is the unit.
parse_timeout-append : (s : Bytes) (u : ℕ) → parse_timeout (s ++ u ∷ []) ≡ read_timeout s (u ∷ [])
unfolding parse_timeout
parse_timeout-append [] u = refl
parse_timeout-append (c ∷ s) u =
    let n : length (s ++ u ∷ []) ≡ length (c ∷ s) = omega (arith, length-append s (u ∷ [])) in
    rw (parse_timeout, n, take-append (c ∷ s) (u ∷ []), drop-append (c ∷ s) (u ∷ []))

-- Whole milliseconds are read back.
pub parse_timeout-millis :
    (k : ℕ) → k ≤ u64_max → parse_timeout (decimal k ++ codes "m") ≡ some (k * 1000000)
unfolding unit_duration read_timeout
parse_timeout-millis k h =
    rw (parse_timeout-append (decimal k) b'm', read_timeout, parse_uint-decimal u64_max k h)

-- If a deadline is at most 2^64 - 1 milliseconds, then the written header reads as the same number of
-- whole milliseconds.
pub parse_timeout-format_timeout :
    (d : ℕ)
    → d / 1000000 ≤ u64_max
    → parse_timeout (format_timeout d) ≡ some (d / 1000000 * 1000000)
unfolding format_timeout
parse_timeout-format_timeout d h =
    let m : min (d / 1000000) u64_max ≡ d / 1000000 = omega (arith, h) in
    rw m (parse_timeout-millis (d / 1000000) h)

read_timeout-bound :
    (value u : Bytes) (d : ℕ) → read_timeout value u ≡ some d → d / 1000000000 ≤ u64_max
unfolding read_timeout unit_duration checked_secs
read_timeout-bound value u d h = go (parse_uint u64_max value) (parse_uint_bound u64_max value) h
  where
    go :
        (o : Option ℕ)
        → ((n : ℕ) → o ≡ some n → n ≤ u64_max)
        → elim o [ none ↦ none | some n ↦ unit_duration u n ] ≡ some d
        → d / 1000000000 ≤ u64_max
    go none k e = cc
    go (some n) k e = let b : n ≤ u64_max = k n refl in ground arith

-- If a header reads as a deadline, then the seconds of the deadline fit the 64 bits of a `Duration`.
parse_timeout-bound : (raw : Bytes) (d : ℕ) → parse_timeout raw ≡ some d → d / 1000000000 ≤ u64_max
unfolding parse_timeout
parse_timeout-bound [] d h = cc
parse_timeout-bound (c ∷ cs) d h =
    read_timeout-bound (take (length cs) (c ∷ cs)) (drop (length cs) (c ∷ cs)) d h
