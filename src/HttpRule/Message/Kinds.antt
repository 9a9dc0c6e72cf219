-- ===== src/HttpRule/Message/Kinds.antt =====
-- That a text becomes a value of the kind of its field (`coerce` of
-- rust/crates/grpc-webnext/src/httprule.rs).
use grpc_webnext.Prelude.{
  ℕ, ◌≤◌, ◌≡◌, Option, none, some, Bool, true, false, ◌||◌, Bytes, codes, str_eq, if◌then◌else◌,
  refl, ◌⊎◌, inl, inr, ◌++◌,
}
use grpc_webnext.Text.Decimal.{parse_uint}
use grpc_webnext.Text.Decimal.RoundTrip.{parse_uint_bound}
use grpc_webnext.Text.Signed.{ℤ, parse_int, i32_max, i64_max}
use grpc_webnext.Text.Signed.Bounds.{Fits, parse_int-Fits}
use grpc_webnext.Metadata.{u32_max, u64_max}
use grpc_webnext.HttpRule.Message.{
  bound, http_error, Kind, double, float, int32, int64, uint32, uint64, sint32, sint64, fixed32,
  fixed64, sfixed32, sfixed64, boolean, string, bytes, enumeration, message, Reflection, num,
  map_value, coerce_bool, coerce_enum, coerce_as,
}

module _ (r : Reflection) where
  open r use {Value, Field}

  -- The values of a kind: numbers in the range of their type, and nothing for bytes and messages, which
  -- are set otherwise.
  pub OfKind : Kind r.Enum r.Descriptor → Value → Type 0
  OfKind string v = (s : Bytes) × (v ≡ r.string_value s)
  OfKind boolean v = (b : Bool) × (v ≡ r.bool_value b)
  OfKind int32 v = (z : ℤ) × Fits i32_max z × (v ≡ r.i32_value z)
  OfKind sint32 v = (z : ℤ) × Fits i32_max z × (v ≡ r.i32_value z)
  OfKind sfixed32 v = (z : ℤ) × Fits i32_max z × (v ≡ r.i32_value z)
  OfKind int64 v = (z : ℤ) × Fits i64_max z × (v ≡ r.i64_value z)
  OfKind sint64 v = (z : ℤ) × Fits i64_max z × (v ≡ r.i64_value z)
  OfKind sfixed64 v = (z : ℤ) × Fits i64_max z × (v ≡ r.i64_value z)
  OfKind uint32 v = (n : ℕ) × (n ≤ u32_max) × (v ≡ r.u32_value n)
  OfKind fixed32 v = (n : ℕ) × (n ≤ u32_max) × (v ≡ r.u32_value n)
  OfKind uint64 v = (n : ℕ) × (n ≤ u64_max) × (v ≡ r.u64_value n)
  OfKind fixed64 v = (n : ℕ) × (n ≤ u64_max) × (v ≡ r.u64_value n)
  OfKind float v = (s : Bytes) × (r.parse_f32 s ≡ some v)
  OfKind double v = (s : Bytes) × (r.parse_f64 s ≡ some v)
  OfKind (enumeration e) v =
      (z : ℤ) × ((Fits i32_max z) ⊎ ((s : Bytes) × (r.enum_number e s ≡ some z)))
      × (v ≡ r.enum_value z)
  OfKind bytes v = ⊥
  OfKind (message d) v = ⊥

  num-bound :
      (field : Field) (raw : Bytes) (o : Option Value) (v : Value)
      → num r field raw o ≡ bound v
      → o ≡ some v
  unfolding num
  num-bound field raw none v e = cc
  num-bound field raw (some w) v e = cc

  signed :
      (max : ℕ) (f : ℤ → Value) (field : Field) (raw : Bytes) (v : Value)
      → num r field raw (map_value r f (parse_int max raw)) ≡ bound v
      → (z : ℤ) × Fits max z × (v ≡ f z)
  unfolding map_value num
  signed max f field raw v e = go (parse_int max raw) (parse_int-Fits max raw) e
    where
      go :
          (o : Option ℤ)
          → ((z : ℤ) → o ≡ some z → Fits max z)
          → num r field raw (map_value r f o) ≡ bound v
          → (z : ℤ) × Fits max z × (v ≡ f z)
      go none k q = cc
      go (some z) k q = (z, k z refl, cc)

  unsigned :
      (max : ℕ) (f : ℕ → Value) (field : Field) (raw : Bytes) (v : Value)
      → num r field raw (map_value r f (parse_uint max raw)) ≡ bound v
      → (n : ℕ) × (n ≤ max) × (v ≡ f n)
  unfolding map_value num
  unsigned max f field raw v e = go (parse_uint max raw) (parse_uint_bound max raw) e
    where
      go :
          (o : Option ℕ)
          → ((n : ℕ) → o ≡ some n → n ≤ max)
          → num r field raw (map_value r f o) ≡ bound v
          → (n : ℕ) × (n ≤ max) × (v ≡ f n)
      go none k q = cc
      go (some n) k q = (n, k n refl, cc)

  flag : (raw : Bytes) (v : Value) → coerce_bool r raw ≡ bound v → (b : Bool) × (v ≡ r.bool_value b)
  unfolding coerce_bool
  flag raw v e =
      go (str_eq raw (codes "true") || str_eq raw (codes "1"))
        (str_eq raw (codes "false") || str_eq raw (codes "0")) e
    where
      go :
          (a b : Bool)
          → (if a
              then bound (r.bool_value true)
              else if b
              then bound (r.bool_value false)
              else http_error (codes "invalid bool: " ++ r.debug raw))
            ≡ bound v
          → (b : Bool) × (v ≡ r.bool_value b)
      go true b q = (true, cc)
      go false true q = (false, cc)
      go false false q = cc

  named :
      (e : r.Enum) (raw : Bytes) (v : Value)
      → coerce_enum r e raw ≡ bound v
      → OfKind (enumeration e) v
  unfolding coerce_enum OfKind
  named e raw v h =
      go (parse_int i32_max raw) (parse_int-Fits i32_max raw) (r.enum_number e raw) refl h
    where
      go :
          (o : Option ℤ)
          → ((z : ℤ) → o ≡ some z → Fits i32_max z)
          → (p : Option ℤ) → r.enum_number e raw ≡ p
          → elim o [
            | some n ↦ bound (r.enum_value n)
            | none ↦ elim p [
              | some n ↦ bound (r.enum_value n)
              | none ↦ http_error (codes "unknown enum value: " ++ r.debug raw)
            ]
          ]
            ≡ bound v
          → (z : ℤ) × ((Fits i32_max z) ⊎ ((s : Bytes) × (r.enum_number e s ≡ some z)))
            × (v ≡ r.enum_value z)
      go (some z) k p w q = (z, inl (k z refl), cc)
      go none k (some z) w q = (z, inr (raw, w), cc)
      go none k none w q = cc

  -- If a text is coerced to a value, then the value is one of the kind.
  pub coerce_as-OfKind :
      (k : Kind r.Enum r.Descriptor) (field : Field) (raw : Bytes) (v : Value)
      → coerce_as r k field raw ≡ bound v
      → OfKind k v
  unfolding coerce_as OfKind
  coerce_as-OfKind string field raw v e = (raw, cc)
  coerce_as-OfKind boolean field raw v e = flag raw v e
  coerce_as-OfKind int32 field raw v e = signed i32_max r.i32_value field raw v e
  coerce_as-OfKind sint32 field raw v e = signed i32_max r.i32_value field raw v e
  coerce_as-OfKind sfixed32 field raw v e = signed i32_max r.i32_value field raw v e
  coerce_as-OfKind int64 field raw v e = signed i64_max r.i64_value field raw v e
  coerce_as-OfKind sint64 field raw v e = signed i64_max r.i64_value field raw v e
  coerce_as-OfKind sfixed64 field raw v e = signed i64_max r.i64_value field raw v e
  coerce_as-OfKind uint32 field raw v e = unsigned u32_max r.u32_value field raw v e
  coerce_as-OfKind fixed32 field raw v e = unsigned u32_max r.u32_value field raw v e
  coerce_as-OfKind uint64 field raw v e = unsigned u64_max r.u64_value field raw v e
  coerce_as-OfKind fixed64 field raw v e = unsigned u64_max r.u64_value field raw v e
  coerce_as-OfKind float field raw v e = (raw, num-bound field raw (r.parse_f32 raw) v e)
  coerce_as-OfKind double field raw v e = (raw, num-bound field raw (r.parse_f64 raw) v e)
  coerce_as-OfKind (enumeration d) field raw v e = named d raw v e
  coerce_as-OfKind bytes field raw v e = cc
  coerce_as-OfKind (message d) field raw v e = cc
