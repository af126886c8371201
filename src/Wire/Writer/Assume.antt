-- ===== src/Wire/Writer/Assume.antt =====
-- The writers of src/wire.zig that assume capacity: they cannot fail, and the caller has reserved the bytes and
-- vouches for the field number.
use pbz.Common.{ℕ, ◌*◌, ◌^◌, Bool, List, [], ◌∷◌, ◌++◌, length, ltb, if◌then◌else◌, bit_or}
use pbz.Wire.Tag.{WireType, varint, fixed64, length_delimited, fixed32, int_from_enum}
use pbz.Wire.ZigZag.{zig_zag_encode32, zig_zag_encode64}
use pbz.Wire.Writer.{Writer, varint_slice, little, sign_extend}

-- `appendSliceAssumeCapacity`, `appendByteAssumeCapacity`.
unfoldable pub append_slice_assume_capacity : List ℕ → Writer → Writer
append_slice_assume_capacity items w = record { bytes = w.bytes ++ items; growths = w.growths }

unfoldable pub write_varint_assume_capacity : ℕ → Writer → Writer
write_varint_assume_capacity value = append_slice_assume_capacity (varint_slice value)

-- A number below 0x80 as one byte.
unfoldable pub write_short_assume_capacity : ℕ → Writer → Writer
write_short_assume_capacity raw =
    if ltb raw 0x80
    then append_slice_assume_capacity (raw ∷ [])
    else write_varint_assume_capacity raw

unfoldable pub write_tag_assume_capacity : ℕ → WireType → Writer → Writer
write_tag_assume_capacity number wire_type =
    write_short_assume_capacity (bit_or (number * 2 ^ 3) (int_from_enum wire_type))

unfoldable pub write_raw_little_assume_capacity : ℕ → ℕ → Writer → Writer
write_raw_little_assume_capacity n value = append_slice_assume_capacity (little n value)

unfoldable pub write_uint32_assume_capacity : ℕ → ℕ → Writer → Writer
write_uint32_assume_capacity number value w =
    write_varint_assume_capacity value (write_tag_assume_capacity number varint w)

unfoldable pub write_uint64_assume_capacity : ℕ → ℕ → Writer → Writer
write_uint64_assume_capacity number value w =
    write_varint_assume_capacity value (write_tag_assume_capacity number varint w)

unfoldable pub write_int32_assume_capacity : ℕ → ℕ → Writer → Writer
write_int32_assume_capacity number value w =
    write_varint_assume_capacity (sign_extend value) (write_tag_assume_capacity number varint w)

unfoldable pub write_int64_assume_capacity : ℕ → ℕ → Writer → Writer
write_int64_assume_capacity number value w =
    write_varint_assume_capacity value (write_tag_assume_capacity number varint w)

unfoldable pub write_sint32_assume_capacity : ℕ → ℕ → Writer → Writer
write_sint32_assume_capacity number value w =
    write_varint_assume_capacity (zig_zag_encode32 value)
      (write_tag_assume_capacity number varint w)

unfoldable pub write_sint64_assume_capacity : ℕ → ℕ → Writer → Writer
write_sint64_assume_capacity number value w =
    write_varint_assume_capacity (zig_zag_encode64 value)
      (write_tag_assume_capacity number varint w)

unfoldable pub write_fixed32_assume_capacity : ℕ → ℕ → Writer → Writer
write_fixed32_assume_capacity number value w =
    write_raw_little_assume_capacity 4 value (write_tag_assume_capacity number fixed32 w)

unfoldable pub write_fixed64_assume_capacity : ℕ → ℕ → Writer → Writer
write_fixed64_assume_capacity number value w =
    write_raw_little_assume_capacity 8 value (write_tag_assume_capacity number fixed64 w)

unfoldable pub write_bool_assume_capacity : ℕ → Bool → Writer → Writer
write_bool_assume_capacity number value w =
    append_slice_assume_capacity ((if value then 1 else 0) ∷ [])
      (write_tag_assume_capacity number varint w)

unfoldable pub write_bytes_assume_capacity : ℕ → List ℕ → Writer → Writer
write_bytes_assume_capacity number value w = append_slice_assume_capacity value (
    write_short_assume_capacity (length value)
      (write_tag_assume_capacity number length_delimited w))
