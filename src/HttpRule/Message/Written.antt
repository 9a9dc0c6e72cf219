-- ===== src/HttpRule/Message/Written.antt =====
-- What a text that is written for a value becomes (`coerce` of
-- rust/crates/grpc-webnext/src/httprule.rs).
use grpc_webnext.Prelude.{ℕ, ◌≤◌, ◌≡◌, some, Bool, Bytes, codes, if◌then◌else◌, ◌⊎◌}
use grpc_webnext.Text.Decimal.{decimal}
use grpc_webnext.Text.Signed.{ℤ, i32_max, i64_max}
use grpc_webnext.Text.Signed.Bounds.{Fits, written}
use grpc_webnext.Metadata.{u32_max, u64_max}
use grpc_webnext.HttpRule.Message.{
  Kind, double, float, int32, int64, uint32, uint64, sint32, sint64, fixed32, fixed64, sfixed32,
  sfixed64, boolean, string, bytes, enumeration, message, Reflection,
}

module _ (r : Reflection) where
  open r use {Value, Field}

  -- What a text is for a kind: itself for a text, `true` or `1` and `false` or `0` for a flag, and the
  -- decimal digits of the numbers that fit the type, and of the numbers of an enum.
  pub Written : Kind r.Enum r.Descriptor → Bytes → Value → Type 0
  Written string raw v = v ≡ r.string_value raw
  Written boolean raw v =
      (b : Bool) × ((raw ≡ (if b then codes "true" else codes "false"))
        ⊎ (raw ≡ (if b then codes "1" else codes "0")))
      × (v ≡ r.bool_value b)
  Written int32 raw v = (z : ℤ) × Fits i32_max z × (raw ≡ written z) × (v ≡ r.i32_value z)
  Written sint32 raw v = (z : ℤ) × Fits i32_max z × (raw ≡ written z) × (v ≡ r.i32_value z)
  Written sfixed32 raw v = (z : ℤ) × Fits i32_max z × (raw ≡ written z) × (v ≡ r.i32_value z)
  Written int64 raw v = (z : ℤ) × Fits i64_max z × (raw ≡ written z) × (v ≡ r.i64_value z)
  Written sint64 raw v = (z : ℤ) × Fits i64_max z × (raw ≡ written z) × (v ≡ r.i64_value z)
  Written sfixed64 raw v = (z : ℤ) × Fits i64_max z × (raw ≡ written z) × (v ≡ r.i64_value z)
  Written uint32 raw v = (n : ℕ) × (n ≤ u32_max) × (raw ≡ decimal n) × (v ≡ r.u32_value n)
  Written fixed32 raw v = (n : ℕ) × (n ≤ u32_max) × (raw ≡ decimal n) × (v ≡ r.u32_value n)
  Written uint64 raw v = (n : ℕ) × (n ≤ u64_max) × (raw ≡ decimal n) × (v ≡ r.u64_value n)
  Written fixed64 raw v = (n : ℕ) × (n ≤ u64_max) × (raw ≡ decimal n) × (v ≡ r.u64_value n)
  Written float raw v = r.parse_f32 raw ≡ some v
  Written double raw v = r.parse_f64 raw ≡ some v
  Written (enumeration e) raw v =
      (z : ℤ) × Fits i32_max z × (raw ≡ written z) × (v ≡ r.enum_value z)
  Written bytes raw v = ⊥
  Written (message d) raw v = ⊥
