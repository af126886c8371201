-- ===== src/Wire/Examples/Reading.antt =====
-- Runs of `Reader` and the fast readers of src/wire.zig, and the theorems at concrete inputs.
use pbz.Wire.Examples.{name_tag}
use pbz.Common.{List, some, ℕ, ◌+◌, ◌≡◌, refl, [], ◌∷◌, ◌++◌, length, replicate, arith}
use pbz.Wire.Result.{ok, err, invalid_field_number}
use pbz.Wire.Tag.{start_group, Tag, from_int, encode, decode}
use pbz.Wire.Varint.{encoded_varint_size, ladder, read_groups, read_varint_at}
use pbz.Wire.Reader.{
  init, read_varint, checked_tag, next_tag, read_bytes, read_length, advance, slice,
  enter_recursion, leave_recursion, guarded, skip_value_with, group_round, skip_loop, skip_group,
  skip_value,
}
use pbz.Wire.Reader.Keeps.{Stays, skip_value-Stays}
use pbz.Wire.Reader.Ending.{Ends}
use pbz.Wire.Reader.Ends.{skip_value-Ends}
use pbz.Wire.Reader.RoundTrip.{Stands, next_tag-encode, read_bytes-payload}
use pbz.Wire.Group.{tag_size, group_contents, bytes_round, bytes_loop, read_group_bytes}
use pbz.Wire.Group.Skips.{forget, read_group_bytes-skips}
use pbz.Wire.Group.Contents.{end_tag, read_group_bytes-slice}
use pbz.Wire.Hot.{cursor_map, truncate32, read_uint32_at, read_sint32_at}
use pbz.Wire.Hot.Agrees.{read_uint32_at_agrees, read_sint32_at_agrees}
use pbz.Wire.ZigZag.{zig_zag_decode32}

-- Group 1 with field 2 inside, a string of one byte.
abbrev group_input : List ℕ
group_input = 0x12 ∷ 1 ∷ 65 ∷ 0x0c ∷ 7 ∷ []

abbrev group_tag : Tag
group_tag = record { number = 1; wire_type = start_group }

-- The end of group 2 in the place of group 1's.
skip_wrong_end : (skip_value group_tag (init (0x14 ∷ []))).0 ≡ err invalid_field_number
unfolding skip_value skip_value_with skip_group skip_loop group_round next_tag checked_tag
    read_varint read_varint_at read_groups decode from_int guarded enter_recursion leave_recursion
skip_wrong_end = refl

skip_value-Ends_example : Ends (skip_value group_tag (init group_input)).0
skip_value-Ends_example = skip_value-Ends group_tag (init group_input) (omega arith)

skip_value-Stays_example : Stays (init group_input) (skip_value group_tag (init group_input)).1
skip_value-Stays_example = skip_value-Stays group_tag (init group_input) (omega arith)

encoded_name_tag : encode name_tag ≡ ok 18
unfolding encode
encoded_name_tag = refl

tag_Stands : Stands (init group_input) (ladder 9 18)
unfolding ladder
tag_Stands = record { before = []; rest = 1 ∷ 65 ∷ 0x0c ∷ 7 ∷ []; input = refl; index = refl }

next_tag-encode_example : next_tag (init group_input) ≡ (
  ok (some name_tag),
  record (init group_input) { index = 0 + length (ladder 9 18); last_tag_start = 0 },
)
next_tag-encode_example =
    next_tag-encode name_tag 18 (init group_input) (omega arith) (omega arith) encoded_name_tag
      tag_Stands

payload_Stands : Stands (init (1 ∷ 65 ∷ 7 ∷ [])) (ladder 9 1 ++ (65 ∷ []))
unfolding ladder
payload_Stands = record { before = []; rest = 7 ∷ []; input = refl; index = refl }

read_bytes-payload_example :
    read_bytes (init (1 ∷ 65 ∷ 7 ∷ []))
    ≡ (ok (65 ∷ []), record (init (1 ∷ 65 ∷ 7 ∷ [])) { index = 0 + length (ladder 9 1) + 1 })
read_bytes-payload_example =
    read_bytes-payload (65 ∷ []) (init (1 ∷ 65 ∷ 7 ∷ [])) (omega arith) payload_Stands

-- Ten bytes of the value 2 ^ 64 - 1, of which 32 bits are kept.
abbrev minus_one : List ℕ
minus_one = replicate 9 0xff ++ (1 ∷ [])

read_uint32_at_agrees_example :
    read_uint32_at minus_one 0 ≡ cursor_map truncate32 (read_varint_at minus_one 0)
read_uint32_at_agrees_example = read_uint32_at_agrees minus_one 0

read_sint32_at_agrees_example :
    read_sint32_at minus_one 0
    ≡ cursor_map (λ v. zig_zag_decode32 (truncate32 v)) (read_varint_at minus_one 0)
read_sint32_at_agrees_example = read_sint32_at_agrees minus_one 0

-- The end tag 0x0c in two bytes is accepted, and its first byte is returned with the contents.
group_bytes_long_end : (read_group_bytes 1 (init (0x8c ∷ 0x00 ∷ []))).0 ≡ ok (0x8c ∷ [])
unfolding read_group_bytes bytes_loop bytes_round group_contents tag_size encode encoded_varint_size
    next_tag checked_tag read_varint read_varint_at read_groups decode from_int guarded
    enter_recursion leave_recursion
group_bytes_long_end = refl

read_group_bytes-skips_example :
    forget (read_group_bytes 1 (init group_input)) ≡ skip_group 1 (init group_input)
read_group_bytes-skips_example = read_group_bytes-skips 1 (init group_input)

end_tag_size : tag_size (end_tag 1) ≡ ok 1
unfolding tag_size encode encoded_varint_size
end_tag_size = refl

group_returned : (read_group_bytes 1 (init group_input)).0 ≡ ok (0x12 ∷ 1 ∷ 65 ∷ [])
unfolding read_group_bytes bytes_loop bytes_round group_contents tag_size encode encoded_varint_size
    next_tag checked_tag read_varint read_varint_at read_groups decode from_int guarded
    enter_recursion leave_recursion skip_value_with read_bytes read_length advance
group_returned = refl

group_end :
    (read_group_bytes 1 (init group_input)).1.last_tag_start + 1
    ≡ (read_group_bytes 1 (init group_input)).1.index
unfolding read_group_bytes bytes_loop bytes_round group_contents tag_size encode encoded_varint_size
    next_tag checked_tag read_varint read_varint_at read_groups decode from_int guarded
    enter_recursion leave_recursion skip_value_with read_bytes read_length advance
group_end = refl

read_group_bytes-slice_example :
    0x12 ∷ 1 ∷ 65 ∷ []
    ≡ slice
        (read_group_bytes 1 (init group_input)).1.input
        0
        (read_group_bytes 1 (init group_input)).1.last_tag_start
read_group_bytes-slice_example =
    read_group_bytes-slice 1 1 (init group_input) (0x12 ∷ 1 ∷ 65 ∷ []) end_tag_size group_returned
      group_end
