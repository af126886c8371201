-- ===== src/Wire/Examples.antt =====
-- Runs of the models of src/wire.zig, and the theorems at concrete inputs.
pub mod Reading
pub mod Raw
pub mod Writing
use pbz.Common.{
  List, ◌==◌, not, some, ℕ, ◌+◌, ◌≤◌, ◌-◌, ◌^◌, ◌≡◌, refl, [], ◌∷◌, ◌++◌, length, replicate, arith,
}
use pbz.Wire.Result.{
  ok, err, ◌>>=◌, malformed_varint, truncated_input, invalid_field_number, invalid_wire_type,
}
use pbz.Wire.Tag.{start_group, Tag, length_delimited, from_int, encode, decode}
use pbz.Wire.Tag.Codec.{decode-encode, encode-decode}
use pbz.Wire.Varint.{
  encoded_varint_size, ladder, write_varint_to_slice, write_uint32_varint_to_slice,
  write_direct_scalar_varint_to_slice, write_negative_int64_varint_to_slice, last_group,
  read_groups, read_varint_at,
}
use pbz.Wire.Varint.Size.{encoded_varint_size-length}
use pbz.Wire.Varint.Read.{read_varint_at-ladder}
use pbz.Wire.Varint.Bounds.{Takes, read_varint_at-Takes}
use pbz.Wire.Varint.Buffer.{
  read_varint_at-write, write_uint32_varint_to_slice_agrees,
  write_direct_scalar_varint_to_slice_agrees, write_negative_int64_varint_to_slice_agrees,
}
use pbz.Wire.Reader.{
  init, read_varint, checked_tag, next_tag, read_bytes, read_length, advance, slice,
  enter_recursion, leave_recursion, guarded, skip_value_with, group_round, skip_loop, skip_group,
  skip_value,
}
use pbz.Wire.Reader.Keeps.{Stays, skip_value-Stays}
use pbz.Wire.Reader.Ending.{Ends}
use pbz.Wire.Reader.Ends.{skip_value-Ends}
use pbz.Wire.Reader.RoundTrip.{Stands, next_tag-encode, read_bytes-payload}
use pbz.Wire.Group.{tag_size, group_contents, bytes_round, bytes_loop, read_group_bytes}
use pbz.Wire.Group.Skips.{forget, read_group_bytes-skips}
use pbz.Wire.Group.Contents.{end_tag, read_group_bytes-slice}
use pbz.Wire.Hot.{
  cursor_map, truncate32, read_bool_at, read_uint32_at, read_int32_at, read_sint32_at,
}
use pbz.Wire.Hot.Agrees.{
  read_uint32_at_agrees, read_int32_at_agrees, read_sint32_at_agrees, read_bool_at_agrees,
}
use pbz.Wire.ZigZag.{
  signed32, signed64, sign_fill32, zig_zag_encode32, zig_zag_encode64, zig_zag_decode32,
  zig_zag_decode64,
}
use pbz.Wire.ZigZag.Codec.{
  zig_zag, zig_zag_encode32-signed, zig_zag_encode64-signed, zig_zag_decode32-encode,
  zig_zag_decode64-encode, zig_zag_encode32-decode, zig_zag_encode64-decode,
}

-- 150 is the example of the protobuf documentation.
ladder_150 : ladder 9 150 ≡ 0x96 ∷ 0x01 ∷ []
unfolding ladder
ladder_150 = refl

ladder_max : length (ladder 9 (2 ^ 64 - 1)) ≡ 10
unfolding ladder
ladder_max = refl

read_padded : read_varint_at (0x80 ∷ 0x00 ∷ 7 ∷ []) 0 ≡ (ok 0, 2)
unfolding read_varint_at read_groups
read_padded = refl

read_too_wide : read_varint_at (replicate 9 0xff ++ (2 ∷ [])) 0 ≡ (err malformed_varint, 10)
unfolding read_varint_at read_groups last_group
read_too_wide = refl

read_cut : read_varint_at (0xac ∷ []) 0 ≡ (err truncated_input, 1)
unfolding read_varint_at read_groups
read_cut = refl

decode_number_0 : decode 2 ≡ err invalid_field_number
unfolding decode
decode_number_0 = refl

decode_group_6 : decode 0xe ≡ err invalid_wire_type
unfolding decode from_int
decode_group_6 = refl

size_edges : (encoded_varint_size 127 ≡ 1) × (encoded_varint_size 128 ≡ 2)
unfolding encoded_varint_size
size_edges = (refl, refl)

zig_zag_small :
    (zig_zag_encode32 (2 ^ 32 - 1) ≡ 1)
    × (zig_zag_encode32 1 ≡ 2)
    × (zig_zag_encode32 (2 ^ 31) ≡ 2 ^ 32 - 1)
unfolding zig_zag_encode32 sign_fill32
zig_zag_small = (refl, refl, refl)

read_varint_at-ladder_example :
    read_varint_at ((9 ∷ []) ++ (ladder 9 300 ++ (7 ∷ []))) 1 ≡ (ok 300, 1 + length (ladder 9 300))
read_varint_at-ladder_example = read_varint_at-ladder 300 (9 ∷ []) (7 ∷ []) (omega arith)

read_varint_at-Takes_example : Takes (0xac ∷ 0x02 ∷ []) 0 10 (read_varint_at (0xac ∷ 0x02 ∷ []) 0)
read_varint_at-Takes_example = read_varint_at-Takes (0xac ∷ 0x02 ∷ []) 0

encoded_varint_size-length_example : encoded_varint_size (2 ^ 35) ≡ length (ladder 9 (2 ^ 35))
encoded_varint_size-length_example = encoded_varint_size-length (2 ^ 35) (omega arith)

fits_300 : 1 + length (ladder 9 300) ≤ length (replicate {A = ℕ} 12 0)
unfolding ladder
fits_300 = omega arith

read_varint_at-write_example :
    read_varint_at (write_varint_to_slice (replicate 12 0) 1 300).0 1
    ≡ (ok 300, (write_varint_to_slice (replicate 12 0) 1 300).1)
read_varint_at-write_example = read_varint_at-write (replicate 12 0) 1 300 (omega arith) fits_300

write_direct_scalar_varint_to_slice_agrees_example :
    write_direct_scalar_varint_to_slice (replicate 12 0) 1 300
    ≡ write_varint_to_slice (replicate 12 0) 1 300
write_direct_scalar_varint_to_slice_agrees_example =
    write_direct_scalar_varint_to_slice_agrees (replicate 12 0) 1 300

write_negative_int64_varint_to_slice_agrees_example :
    write_negative_int64_varint_to_slice (replicate 12 0) 1 (2 ^ 64 - 5)
    ≡ write_varint_to_slice (replicate 12 0) 1 (2 ^ 64 - 5)
write_negative_int64_varint_to_slice_agrees_example =
    write_negative_int64_varint_to_slice_agrees (replicate 12 0) 1 (2 ^ 64 - 5) (omega arith)
      (omega arith)

abbrev pub name_tag : Tag
name_tag = record { number = 2; wire_type = length_delimited }

decode-encode_example : (encode name_tag >>= decode) ≡ ok name_tag
decode-encode_example = decode-encode name_tag (omega arith) (omega arith)

eighteen : decode 18 ≡ ok name_tag
unfolding decode from_int
eighteen = refl

encode-decode_example : encode name_tag ≡ ok 18
encode-decode_example = encode-decode 18 eighteen

zig_zag_encode64-signed_example : zig_zag_encode64 (2 ^ 64 - 3) ≡ zig_zag (signed64 (2 ^ 64 - 3))
zig_zag_encode64-signed_example = zig_zag_encode64-signed (2 ^ 64 - 3) (omega arith)

zig_zag_decode64-encode_example : zig_zag_decode64 (zig_zag_encode64 (2 ^ 64 - 3)) ≡ 2 ^ 64 - 3
zig_zag_decode64-encode_example = zig_zag_decode64-encode (2 ^ 64 - 3) (omega arith)

zig_zag_encode64-decode_example : zig_zag_encode64 (zig_zag_decode64 5) ≡ 5
zig_zag_encode64-decode_example = zig_zag_encode64-decode 5 (omega arith)

write_uint32_varint_to_slice_agrees_example :
    write_uint32_varint_to_slice (replicate 12 0) 1 (2 ^ 31)
    ≡ write_varint_to_slice (replicate 12 0) 1 (2 ^ 31)
write_uint32_varint_to_slice_agrees_example =
    write_uint32_varint_to_slice_agrees (replicate 12 0) 1 (2 ^ 31) (omega arith)
