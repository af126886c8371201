-- ===== src/Wire/ZigZag/Codec.antt =====
-- The zig-zag codes are the bijection 0, -1, 1, -2, ... ↦ 0, 1, 2, 3, ...
use pbz.Common.{
  ℕ, ◌+◌, ◌-◌, ◌*◌, ◌/◌, ◌%◌, ◌^◌, ◌<◌, ◌≡◌, inl, inr, Bool-cases, ◌==◌, if◌then◌else◌, arith,
}
use pbz.Common.Bits.{and_one, xor_ones, bit_xor-zero}
use pbz.Wire.ZigZag.{
  ℤ, pos, negsuc, signed32, signed64, sign_fill32, sign_fill64, zig_zag_encode32, zig_zag_encode64,
  zig_zag_decode32, zig_zag_decode64,
}

-- The code of an integer.
abbrev pub zig_zag : ℤ → ℕ
zig_zag (pos n) = 2 * n
zig_zag (negsuc n) = 2 * n + 1

-- For every `i32` the code is that of the integer that the pattern stands for.
pub zig_zag_encode32-signed : (v : ℕ) → v < 2 ^ 32 → zig_zag_encode32 v ≡ zig_zag (signed32 v)
unfolding zig_zag_encode32 sign_fill32
zig_zag_encode32-signed v fits =
    ground (arith, bit_xor-zero (v * 2 % 2 ^ 32), xor_ones 32 (v * 2 % 2 ^ 32) (omega arith))

-- For every `i64` the code is that of the integer that the pattern stands for.
pub zig_zag_encode64-signed : (v : ℕ) → v < 2 ^ 64 → zig_zag_encode64 v ≡ zig_zag (signed64 v)
unfolding zig_zag_encode64 sign_fill64
zig_zag_encode64-signed v fits =
    ground (arith, bit_xor-zero (v * 2 % 2 ^ 64), xor_ones 64 (v * 2 % 2 ^ 64) (omega arith))

pub zig_zag_encode32-lt : (v : ℕ) → v < 2 ^ 32 → zig_zag_encode32 v < 2 ^ 32
zig_zag_encode32-lt v fits = ground (arith, zig_zag_encode32-signed v fits)

pub zig_zag_encode64-lt : (v : ℕ) → v < 2 ^ 64 → zig_zag_encode64 v < 2 ^ 64
zig_zag_encode64-lt v fits = ground (arith, zig_zag_encode64-signed v fits)

-- What decoding computes.
decode32_value :
    (u : ℕ) → u < 2 ^ 32 → zig_zag_decode32 u ≡ (if u % 2 == 0 then u / 2 else 2 ^ 32 - 1 - u / 2)
unfolding zig_zag_decode32
decode32_value u fits = elim (Bool-cases (u % 2 == 0)) [
  | inl even ↦ let bit : u % 2 ≡ 0 = ground arith in rw (even, and_one u, bit, bit_xor-zero)
  | inr odd ↦
      let bit : u % 2 ≡ 1 = ground arith in
      rw (odd, and_one u, bit) (xor_ones 32 (u / 2) (omega arith))
]

-- For every `i32` decoding its code gives it back.
pub zig_zag_decode32-encode : (v : ℕ) → v < 2 ^ 32 → zig_zag_decode32 (zig_zag_encode32 v) ≡ v
zig_zag_decode32-encode v fits =
    let code = zig_zag_encode32-lt v fits in
    ground (arith, zig_zag_encode32-signed v fits, decode32_value (zig_zag_encode32 v) code)

-- For every `u32` encoding what it decodes to gives it back.
pub zig_zag_encode32-decode : (u : ℕ) → u < 2 ^ 32 → zig_zag_encode32 (zig_zag_decode32 u) ≡ u
zig_zag_encode32-decode u fits =
    let value : zig_zag_decode32 u < 2 ^ 32 = ground (arith, decode32_value u fits) in
    ground (arith, decode32_value u fits, zig_zag_encode32-signed (zig_zag_decode32 u) value)

-- What decoding computes.
decode64_value :
    (u : ℕ) → u < 2 ^ 64 → zig_zag_decode64 u ≡ (if u % 2 == 0 then u / 2 else 2 ^ 64 - 1 - u / 2)
unfolding zig_zag_decode64
decode64_value u fits = elim (Bool-cases (u % 2 == 0)) [
  | inl even ↦ let bit : u % 2 ≡ 0 = ground arith in rw (even, and_one u, bit, bit_xor-zero)
  | inr odd ↦
      let bit : u % 2 ≡ 1 = ground arith in
      rw (odd, and_one u, bit) (xor_ones 64 (u / 2) (omega arith))
]

-- For every `i64` decoding its code gives it back.
pub zig_zag_decode64-encode : (v : ℕ) → v < 2 ^ 64 → zig_zag_decode64 (zig_zag_encode64 v) ≡ v
zig_zag_decode64-encode v fits =
    let code = zig_zag_encode64-lt v fits in
    ground (arith, zig_zag_encode64-signed v fits, decode64_value (zig_zag_encode64 v) code)

-- For every `u64` encoding what it decodes to gives it back.
pub zig_zag_encode64-decode : (u : ℕ) → u < 2 ^ 64 → zig_zag_encode64 (zig_zag_decode64 u) ≡ u
zig_zag_encode64-decode u fits =
    let value : zig_zag_decode64 u < 2 ^ 64 = ground (arith, decode64_value u fits) in
    ground (arith, decode64_value u fits, zig_zag_encode64-signed (zig_zag_decode64 u) value)
