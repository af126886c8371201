-- ===== src/Wire/ZigZag.antt =====
-- The zig-zag codes of src/wire.zig. An `i32` is its bit pattern, a number below 2 ^ 32, and an `i64`
-- one below 2 ^ 64; `signed` gives the integer that a pattern stands for.
pub mod Codec
use pbz.Common.{ℕ, ◌+◌, ◌-◌, ◌*◌, ◌/◌, ◌%◌, ◌^◌, ltb, if◌then◌else◌, ◌==◌, bit_and, bit_xor}

-- `negsuc n` is -(n + 1).
pub data ℤ : Type 0 where
  pos : ℕ → ℤ
  negsuc : ℕ → ℤ

abbrev pub signed32 : ℕ → ℤ
signed32 w = if ltb w (2 ^ 31) then pos w else negsuc (2 ^ 32 - w - 1)

abbrev pub signed64 : ℕ → ℤ
signed64 w = if ltb w (2 ^ 63) then pos w else negsuc (2 ^ 64 - w - 1)

-- `value >> 31` and `value >> 63` on the signed types: the sign bit in every place.
unfoldable pub sign_fill32 : ℕ → ℕ
sign_fill32 value = if ltb value (2 ^ 31) then 0 else 2 ^ 32 - 1

unfoldable pub sign_fill64 : ℕ → ℕ
sign_fill64 value = if ltb value (2 ^ 63) then 0 else 2 ^ 64 - 1

unfoldable pub zig_zag_encode32 : ℕ → ℕ
zig_zag_encode32 value = bit_xor (value * 2 % 2 ^ 32) (sign_fill32 value)

unfoldable pub zig_zag_encode64 : ℕ → ℕ
zig_zag_encode64 value = bit_xor (value * 2 % 2 ^ 64) (sign_fill64 value)

-- `-@as(i32, bit)` is 0 or the pattern of -1.
unfoldable pub zig_zag_decode32 : ℕ → ℕ
zig_zag_decode32 value =
    let half = value / 2 in let sign = (2 ^ 32 - bit_and value 1) % 2 ^ 32 in bit_xor half sign

unfoldable pub zig_zag_decode64 : ℕ → ℕ
zig_zag_decode64 value =
    let half = value / 2 in let sign = (2 ^ 64 - bit_and value 1) % 2 ^ 64 in bit_xor half sign
