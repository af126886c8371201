-- ===== src/Wire/Examples/Writing.antt =====
-- The theorems on the writers of src/wire.zig at concrete inputs.
use pbz.Common.{ℕ, ◌≡◌, refl, Bool, true, List, [], ◌∷◌, length, some, ltb, arith}
use pbz.Wire.Heap.{done, out_of_memory}
use pbz.Wire.Tag.{varint, length_delimited, fixed32, fixed64, encode}
use pbz.Wire.Reader.{read_bytes}
use pbz.Wire.Reader.Scalars.{
  read_uint32, read_uint64, read_int32, read_int64, read_sint32, read_sint64, read_bool,
  read_fixed32, read_fixed64,
}
use pbz.Wire.Writer.{
  Writer, grow, append_slice, append_byte, write_short, write_tag, write_uint32, write_uint64,
  write_int32, write_int64, write_sint32, write_sint64, write_bool, write_fixed32, write_fixed64,
  write_bytes, write_packed_varints,
}
use pbz.Wire.Writer.RoundTrip.{ReadsBack}
use pbz.Wire.Writer.Fields.{scalar_fields_read_back, write_bytes-ReadsBack}
use pbz.Wire.Writer.Assume.{
  write_uint32_assume_capacity, write_uint64_assume_capacity, write_int32_assume_capacity,
  write_int64_assume_capacity, write_sint32_assume_capacity, write_sint64_assume_capacity,
  write_bool_assume_capacity, write_fixed32_assume_capacity, write_fixed64_assume_capacity,
  write_bytes_assume_capacity,
}
use pbz.Wire.Result.{ok}
use pbz.Wire.Tag.{decode, from_int}
use pbz.Wire.Varint.{ladder, read_groups, read_varint_at}
use pbz.Wire.Reader.{next_tag, checked_tag, read_varint, skip_value, skip_value_with}
use pbz.Wire.Reader.Ending.{Ends}
use pbz.Wire.Packed.{
  PackedIterator, next_packed_varint, next_loop, next_packed_varint_segment, segment_loop,
  segment_round, read_payload,
}
use pbz.Wire.Packed.RoundTrip.{ladders}
use pbz.Wire.Packed.Written.{PackedBack, write_packed_varints-PackedBack}
use pbz.Wire.Packed.Ends.{next_packed_varint-Ends}
use pbz.Wire.Writer.AssumeAgrees.{PartOf, assume_capacity_agrees}

-- Two bytes stand in the writer.
abbrev begun : Writer
begun = record { bytes = 0x08 ∷ 1 ∷ []; growths = 0 }

-- Memory for two growths.
abbrev two_growths : ℕ → Bool
two_growths k = ltb k 2

-- The string "A" as field 2.
bytes_written :
    write_bytes (λ k. true) 2 (65 ∷ []) begun
    ≡ (done tt, record { bytes = 0x08 ∷ 1 ∷ 0x12 ∷ 1 ∷ 65 ∷ []; growths = 3 })
unfolding write_bytes write_tag write_short append_byte append_slice grow encode
bytes_written = refl

-- There is no memory for the third append.
bytes_out_of_memory :
    write_bytes two_growths 2 (65 ∷ []) begun
    ≡ (out_of_memory, record { bytes = 0x08 ∷ 1 ∷ 0x12 ∷ 1 ∷ []; growths = 3 })
unfolding write_bytes write_tag write_short append_byte append_slice grow encode
bytes_out_of_memory = refl

scalar_fields_read_back_example :
    ReadsBack 3 varint read_uint32 7 begun (write_uint32 two_growths 3 7 begun)
    × ReadsBack 3 varint read_uint64 300 begun (write_uint64 two_growths 3 300 begun)
    × ReadsBack 3 varint read_int32 7 begun (write_int32 two_growths 3 7 begun)
    × ReadsBack 3 varint read_int64 300 begun (write_int64 two_growths 3 300 begun)
    × ReadsBack 3 varint read_sint32 7 begun (write_sint32 two_growths 3 7 begun)
    × ReadsBack 3 varint read_sint64 300 begun (write_sint64 two_growths 3 300 begun)
    × ReadsBack 3 varint read_bool true begun (write_bool two_growths 3 true begun)
    × ReadsBack 3 fixed32 read_fixed32 7 begun (write_fixed32 two_growths 3 7 begun)
    × ReadsBack 3 fixed64 read_fixed64 300 begun (write_fixed64 two_growths 3 300 begun)
scalar_fields_read_back_example =
    scalar_fields_read_back two_growths 3 begun (omega arith) (omega arith) 7 300 true (omega arith)
      (omega arith)

write_bytes-ReadsBack_example :
    ReadsBack 2 length_delimited read_bytes
      (65 ∷ [])
      begun
      (write_bytes two_growths 2 (65 ∷ []) begun)
write_bytes-ReadsBack_example =
    write_bytes-ReadsBack two_growths 2 begun (omega arith) (omega arith) (65 ∷ []) (omega arith)

assume_capacity_agrees_example :
    PartOf (write_uint32_assume_capacity 3 7 begun) (write_uint32 two_growths 3 7 begun)
    × PartOf (write_uint64_assume_capacity 3 300 begun) (write_uint64 two_growths 3 300 begun)
    × PartOf (write_int32_assume_capacity 3 7 begun) (write_int32 two_growths 3 7 begun)
    × PartOf (write_int64_assume_capacity 3 300 begun) (write_int64 two_growths 3 300 begun)
    × PartOf (write_sint32_assume_capacity 3 7 begun) (write_sint32 two_growths 3 7 begun)
    × PartOf (write_sint64_assume_capacity 3 300 begun) (write_sint64 two_growths 3 300 begun)
    × PartOf (write_bool_assume_capacity 3 true begun) (write_bool two_growths 3 true begun)
    × PartOf (write_fixed32_assume_capacity 3 7 begun) (write_fixed32 two_growths 3 7 begun)
    × PartOf (write_fixed64_assume_capacity 3 300 begun) (write_fixed64 two_growths 3 300 begun)
    × PartOf
        (write_bytes_assume_capacity 3 (65 ∷ []) begun)
        (write_bytes two_growths 3 (65 ∷ []) begun)
assume_capacity_agrees_example =
    assume_capacity_agrees two_growths 3 begun (omega arith) (omega arith) 7 300 true (65 ∷ [])
      (omega arith) (omega arith) (omega arith)

abbrev packed_values : List ℕ
packed_values = 3 ∷ 270 ∷ 86942 ∷ []

length-packed_values : length (ladders packed_values) ≡ 6
unfolding ladder
length-packed_values = refl

write_packed_varints-PackedBack_example :
    PackedBack 4
      (omega arith)
      (omega arith)
      packed_values
      (write_packed_varints (λ k. true) 4 packed_values (record { bytes = []; growths = 0 }))
write_packed_varints-PackedBack_example =
    write_packed_varints-PackedBack 4 (omega arith) (omega arith) (λ k. true) packed_values 0
      (omega arith, (omega arith, (omega arith, tt))) (omega (arith, length-packed_values))

-- An iterator at the end of its payload, before the rest of the fields: field 2, then field 1 unpacked.
abbrev at_end : PackedIterator
at_end = record {
  payload = [];
  index = 0;
  remaining_fields = 0x10 ∷ 9 ∷ 0x08 ∷ 3 ∷ [];
  field_number = 1;
}

next_value :
    next_packed_varint at_end
    ≡ (ok (some 3), record { payload = 3 ∷ []; index = 1; remaining_fields = []; field_number = 1 })
unfolding next_packed_varint next_loop next_packed_varint_segment segment_loop segment_round
    read_payload next_tag checked_tag read_varint read_varint_at read_groups decode from_int
    skip_value skip_value_with
next_value = refl

next_packed_varint-Ends_example : Ends (next_packed_varint at_end).0
next_packed_varint-Ends_example = next_packed_varint-Ends at_end
