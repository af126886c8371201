-- ===== src/Bench/Payloads/Ranges.antt =====
-- The values of the packed messages of bench/cpp_protobuf/main.cc fit the types of their fields.
use pbz.Common.{
  ℕ, zero, suc, ◌+◌, ◌*◌, ◌^◌, ◌<◌, inl, inr, Bool-cases, bit_and, ◌==◌, if◌then◌else◌, arith,
}
use pbz.Wire.ZigZag.{ℤ, pos, negsuc}
use pbz.Bench.Payloads.{
  packed_count, negate, packed_value, fixed_packed_value, fixed64_packed_value, sfixed_packed_value,
  sfixed64_packed_value, float_packed_quarters, double_packed_halves, uint64_packed_value,
  uint32_packed_value, int64_packed_value, sint32_packed_value, sint64_packed_value,
  enum_packed_value,
}

-- `z` is a value of the signed type whose values are below `limit` in magnitude.
unfoldable pub Fits : ℕ → ℤ → Type 0
Fits limit (pos n) = n < limit
Fits limit (negsuc n) = n < limit

negate-Fits : (limit n : ℕ) → n < limit → Fits limit (negate n)
unfolding Fits
negate-Fits limit zero h = h
negate-Fits limit (suc n) h = omega arith

-- The value is `magnitude` or its negation.
alternate-Fits :
    (i limit magnitude : ℕ)
    → magnitude < limit
    → Fits limit (if bit_and i 1 == 0 then pos magnitude else negate magnitude)
unfolding Fits
alternate-Fits i limit magnitude h = elim (Bool-cases (bit_and i 1 == 0)) [
  | inl even ↦ rw even h
  | inr odd ↦ rw odd (negate-Fits limit magnitude h)
]

-- The value of round `i` of each maker fits the type in which the source computes it.
pub record ValuesFit (i : ℕ) : Type 0 where
  pub packed : Fits (2 ^ 31) (packed_value i)
  pub fixed_packed : fixed_packed_value i < 2 ^ 31
  pub fixed64_packed : fixed64_packed_value i < 2 ^ 64
  pub sfixed_packed : Fits (2 ^ 31) (sfixed_packed_value i)
  pub sfixed64_packed : Fits (2 ^ 63) (sfixed64_packed_value i)
  pub float_packed : float_packed_quarters i < 2 ^ 24
  pub double_packed : double_packed_halves i < 2 ^ 53
  pub uint64_packed : uint64_packed_value i < 2 ^ 64
  pub uint32_packed : uint32_packed_value i < 2 ^ 31
  pub int64_packed : Fits (2 ^ 63) (int64_packed_value i)
  pub sint32_packed : Fits (2 ^ 31) (sint32_packed_value i)
  pub sint64_packed : Fits (2 ^ 63) (sint64_packed_value i)
  pub enum_packed : enum_packed_value i < 3

-- In every round of the makers the value fits the type in which the source computes it, so that no signed
-- integer overflows; the quarters of a float and the halves of a double are exact; an enum value is one of
-- the three kinds.
pub packed_value-ValuesFit : (i : ℕ) → i < packed_count → ValuesFit i
unfolding packed_value fixed_packed_value fixed64_packed_value sfixed_packed_value
    sfixed64_packed_value float_packed_quarters double_packed_halves uint64_packed_value
    uint32_packed_value int64_packed_value sint32_packed_value sint64_packed_value enum_packed_value
    Fits
packed_value-ValuesFit i h = record {
  packed = omega arith;
  fixed_packed = omega arith;
  fixed64_packed = omega arith;
  sfixed_packed = alternate-Fits i (2 ^ 31) (i * 7 + 1) (omega arith);
  sfixed64_packed = alternate-Fits i (2 ^ 63) (i * 2 ^ 20 + i * 11 + 1) (omega arith);
  float_packed = omega arith;
  double_packed = omega arith;
  uint64_packed = omega arith;
  uint32_packed = omega arith;
  int64_packed = alternate-Fits i (2 ^ 63) (i * 2 ^ 20 + i * 7 + 1) (omega arith);
  sint32_packed = alternate-Fits i (2 ^ 31) (i * 5 + 1) (omega arith);
  sint64_packed = alternate-Fits i (2 ^ 63) (i * 2 ^ 20 + i * 13 + 1) (omega arith);
  enum_packed = omega arith;
}
