-- ===== src/Client/Tonic/Timeout.antt =====
-- The two readers of a deadline: `grpc_timeout` of rust/crates/grpc-webnext-client/src/tonic_service.rs
-- and `parse_grpc_timeout` of rust/crates/grpc-webnext/src/metadata.rs.
use grpc_webnext.Prelude.{
  ℕ, ◌<◌, ◌≡◌, [], ◌∷◌, Option, none, some, false, Bytes, codes, length, take, drop, All, refl,
  arith,
}
use grpc_webnext.Text.Decimal.{parse_uint}
use grpc_webnext.Text.Utf8.{is_continuation}
use grpc_webnext.Metadata.{
  Http, u64_max, unit_duration, read_timeout, parse_timeout, text_of, parse_grpc_timeout,
}
use grpc_webnext.Client.Tonic.{Headers, unit_timeout, parse_parts, split_timeout, grpc_timeout}

unit_timeout-unit_duration : (x n : ℕ) → unit_timeout (x ∷ []) n ≡ unit_duration (x ∷ []) n
unfolding unit_timeout unit_duration
unit_timeout-unit_duration x n = ground arith

parse_parts-read_timeout :
    (digits : Bytes) (x : ℕ) → parse_parts digits (x ∷ []) ≡ read_timeout digits (x ∷ [])
unfolding parse_parts read_timeout
parse_parts-read_timeout digits x = go (parse_uint u64_max digits)
  where
    go :
        (o : Option ℕ)
        → elim o [ none ↦ none | some n ↦ unit_timeout (x ∷ []) n ]
          ≡ elim o [ none ↦ none | some n ↦ unit_duration (x ∷ []) n ]
    go none = refl
    go (some n) = unit_timeout-unit_duration x n

-- The last byte of a text of ASCII.
last_byte :
    (c : ℕ) (cs : Bytes)
    → All (λ b. b < 128) (c ∷ cs)
    → (x : ℕ) × (drop (length cs) (c ∷ cs) ≡ x ∷ []) × (x < 128)
last_byte c [] (h, hs) = (c, refl, h)
last_byte c (d ∷ cs) (h, hs) = last_byte d cs hs

ascii_starts : (x : ℕ) → x < 128 → is_continuation x ≡ false
ascii_starts x h = ground arith

split_timeout-parse_timeout :
    (raw : Bytes) → All (λ b. b < 128) raw → split_timeout raw ≡ parse_timeout raw
unfolding split_timeout parse_timeout
split_timeout-parse_timeout [] h = refl
split_timeout-parse_timeout (c ∷ cs) h =
    let (x, e, k) = last_byte c cs h in
    rw (e, ascii_starts x k) (parse_parts-read_timeout (take (length cs) (c ∷ cs)) x)

-- If the text of a header is ASCII, then the client's transport of generated stubs reads the same
-- deadline from the headers of a call as the server does, and none where the server reads none.
pub grpc_timeout-parse_grpc_timeout :
    (http : Http) (try : Headers http)
    → ((v : http.HeaderValue) (s : Bytes) → http.to_str v ≡ some s → All (λ b. b < 128) s)
    → (headers : http.HeaderMap) → grpc_timeout http try headers ≡ parse_grpc_timeout http headers
unfolding grpc_timeout parse_grpc_timeout text_of
grpc_timeout-parse_grpc_timeout http try ascii headers =
    go (http.get headers (codes "grpc-timeout"))
  where
    read :
        (o : Option Bytes)
        → ((s : Bytes) → o ≡ some s → All (λ b. b < 128) s)
        → elim o [ none ↦ none | some raw ↦ split_timeout raw ]
          ≡ elim o [ none ↦ none | some raw ↦ parse_timeout raw ]
    read none h = refl
    read (some raw) h = split_timeout-parse_timeout raw (h raw refl)

    go :
        (o : Option http.HeaderValue)
        → elim o [
          | none ↦ none
          | some value ↦ elim (http.to_str value) [ none ↦ none | some raw ↦ split_timeout raw ]
        ]
          ≡ elim (text_of http o) [ none ↦ none | some raw ↦ parse_timeout raw ]
    go none = refl
    go (some v) = read (http.to_str v) (ascii v)
