-- ===== src/Wire/Reader/Scalars.antt =====
-- The readers of scalar values in `Reader` of src/wire.zig. An `i32` or `i64` is its bit pattern, a float that
-- of its bits.
use pbz.Common.{
  ℕ, ◌+◌, ◌-◌, ◌*◌, ◌%◌, ◌^◌, Bool, not, List, [], ◌∷◌, length, ltb, ◌==◌, if◌then◌else◌,
}
use pbz.Wire.Result.{ok, err, map_ok, truncated_input}
use pbz.Wire.ZigZag.{zig_zag_decode32, zig_zag_decode64}
use pbz.Wire.Reader.{Run, read_varint, slice}

-- A value converted after `try`.
abbrev pub converted : {A : Type 0} → (ℕ → A) → Run ℕ → Run A
converted f m r = let (result, r') = m r in (map_ok f result, r')

unfoldable pub read_uint32 : Run ℕ
read_uint32 = converted (λ value. value % 2 ^ 32) read_varint

unfoldable pub read_uint64 : Run ℕ
read_uint64 = read_varint

unfoldable pub read_int32 : Run ℕ
read_int32 = converted (λ value. value % 2 ^ 32) read_varint

unfoldable pub read_int64 : Run ℕ
read_int64 = read_varint

unfoldable pub read_sint32 : Run ℕ
read_sint32 = converted (λ value. zig_zag_decode32 (value % 2 ^ 32)) read_varint

unfoldable pub read_sint64 : Run ℕ
read_sint64 = converted zig_zag_decode64 read_uint64

unfoldable pub read_bool : Run Bool
read_bool = converted (λ value. not (value == 0)) read_varint

-- `std.mem.readInt(T, bytes, .little)`.
unfoldable pub from_little : List ℕ → ℕ
from_little [] = 0
from_little (b ∷ bytes) = b + 256 * from_little bytes

-- `n` is `@sizeOf(T)`.
unfoldable pub read_raw_little : ℕ → Run ℕ
read_raw_little n r =
    if ltb (length r.input - r.index) n
    then (err truncated_input, r)
    else (ok (from_little (slice r.input r.index (r.index + n))), record r { index = r.index + n })

unfoldable pub read_fixed32 : Run ℕ
read_fixed32 = read_raw_little 4

unfoldable pub read_fixed64 : Run ℕ
read_fixed64 = read_raw_little 8
