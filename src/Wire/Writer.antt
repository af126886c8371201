-- ===== src/Wire/Writer.antt =====
-- `Writer` of src/wire.zig, over a growable list of bytes. `answers k` is whether growth `k` of the list, an
-- append that is not `AssumeCapacity`, finds memory; where it does not the list stays as it is. An `i32`
-- or `i64` is its bit pattern, a float that of its bits.
pub mod Wrote
pub mod RoundTrip
pub mod Fields
pub mod Assume
pub mod AssumeAgrees
use pbz.Common.{
  ℕ, zero, suc, ◌+◌, ◌-◌, ◌*◌, ◌/◌, ◌%◌, ◌^◌, Bool, List, [], ◌∷◌, ◌++◌, length, replicate, ltb,
  if◌then◌else◌, bit_or,
}
use pbz.Wire.Result.{Result, ok, err, out_of_fuel}
use pbz.Wire.Heap.{Outcome, done, out_of_memory, failed, no_fuel, outcome, after}
use pbz.Wire.Tag.{WireType, Tag, varint, fixed64, length_delimited, fixed32, int_from_enum, encode}
use pbz.Wire.Varint.{encoded_varint_size, write_varint_to_buffer}
use pbz.Wire.ZigZag.{zig_zag_encode32, zig_zag_encode64}

pub record Writer : Type 0 where
  pub bytes : List ℕ
  pub growths : ℕ

abbrev pub Write : Type 0
Write = Writer → Outcome (Unit {0}) × Writer

abbrev pub init : Writer
init = record { bytes = []; growths = 0 }

infixl 5 ◌>>◌
abbrev pub ◌>>◌ : Write → Write → Write
◌>>◌ first second w = after (first w) (λ _. second)

-- `ArrayList.appendSlice`, `append` and `addManyAsSlice` with what is stored there.
unfoldable pub grow : Bool → List ℕ → Write
grow found items w =
    if found
    then (done tt, record { bytes = w.bytes ++ items; growths = w.growths + 1 })
    else (out_of_memory, record { bytes = w.bytes; growths = w.growths + 1 })

-- What `writeVarintToBuffer` leaves in a new slice of the size of the varint.
unfoldable pub varint_slice : ℕ → List ℕ
varint_slice value = (write_varint_to_buffer (replicate (encoded_varint_size value) 0) value).0

-- `std.mem.writeInt(T, out, value, .little)`, with `n` the size of `T`.
unfoldable pub little : ℕ → ℕ → List ℕ
little zero value = []
little (suc n) value = (value % 256) ∷ little n (value / 256)

-- `@as(u64, @bitCast(@as(i64, value)))` of an `i32`.
abbrev pub sign_extend : ℕ → ℕ
sign_extend value = if ltb value (2 ^ 31) then value else value + (2 ^ 64 - 2 ^ 32)

module _ (answers : ℕ → Bool) where
  unfoldable pub append_slice : List ℕ → Write
  append_slice items w = grow (answers w.growths) items w

  unfoldable pub append_byte : ℕ → Write
  append_byte byte = append_slice (byte ∷ [])

  unfoldable pub write_varint : ℕ → Write
  write_varint value = append_slice (varint_slice value)

  -- A number below 0x80 as one byte.
  unfoldable pub write_short : ℕ → Write
  write_short raw = if ltb raw 0x80 then append_byte raw else write_varint raw

  unfoldable pub write_tag : ℕ → WireType → Write
  write_tag number wire_type w = elim (encode (record { number = number; wire_type = wire_type })) [
    | ok raw ↦ write_short raw w
    | err e ↦ (failed e, w)
    | out_of_fuel ↦ (no_fuel, w)
  ]

  unfoldable pub write_uint32 : ℕ → ℕ → Write
  write_uint32 number value = write_tag number varint >> write_varint value

  unfoldable pub write_uint64 : ℕ → ℕ → Write
  write_uint64 number value = write_tag number varint >> write_varint value

  unfoldable pub write_int32 : ℕ → ℕ → Write
  write_int32 number value = write_tag number varint >> write_varint (sign_extend value)

  unfoldable pub write_int64 : ℕ → ℕ → Write
  write_int64 number value = write_tag number varint >> write_varint value

  unfoldable pub write_sint32 : ℕ → ℕ → Write
  write_sint32 number value = write_tag number varint >> write_varint (zig_zag_encode32 value)

  unfoldable pub write_sint64 : ℕ → ℕ → Write
  write_sint64 number value = write_tag number varint >> write_varint (zig_zag_encode64 value)

  unfoldable pub write_bool : ℕ → Bool → Write
  write_bool number value = write_tag number varint >> append_byte (if value then 1 else 0)

  unfoldable pub write_raw_little : ℕ → ℕ → Write
  write_raw_little n value = append_slice (little n value)

  unfoldable pub write_fixed32 : ℕ → ℕ → Write
  write_fixed32 number value = write_tag number fixed32 >> write_raw_little 4 value

  unfoldable pub write_fixed64 : ℕ → ℕ → Write
  write_fixed64 number value = write_tag number fixed64 >> write_raw_little 8 value

  unfoldable pub write_bytes : ℕ → List ℕ → Write
  write_bytes number value =
      write_tag number length_delimited >> write_short (length value) >> append_slice value

  -- `for (values) |value| try packed_writer.writeVarint(value);`.
  unfoldable pub write_each_varint : List ℕ → Write
  write_each_varint [] w = (done tt, w)
  write_each_varint (value ∷ values) w =
      after (write_varint value w) (λ _. write_each_varint values)

  -- The allocator's answers go on behind those to `packed_writer`.
  unfoldable pub write_packed_varints : ℕ → List ℕ → Write
  write_packed_varints number values w =
      let (outcome, packed) =
        write_each_varint values (record { bytes = []; growths = w.growths }) in
      after (outcome, record { bytes = w.bytes; growths = packed.growths })
        (λ _. write_bytes number packed.bytes)
