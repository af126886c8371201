-- ===== src/Wire/Group.antt =====
-- `tagSize` and `Reader.readGroupBytes` of src/wire.zig.
pub mod Skips
pub mod Contents
use pbz.Common.{ℕ, zero, suc, ◌-◌, List, Option, none, some, length, ◌==◌, if◌then◌else◌}
use pbz.Wire.Result.{Result, ok, err, out_of_fuel, map_ok, truncated_input, invalid_field_number}
use pbz.Wire.Tag.{Tag, encode}
use pbz.Wire.Varint.{encoded_varint_size}
use pbz.Wire.Reader.{
  Reader, Run, after, next_tag, slice, guarded, skip_value_with, is_end_group, skip_loop,
}

unfoldable pub tag_size : Tag → Result ℕ
tag_size tag = map_ok encoded_varint_size (encode tag)

-- What is left of the index after the end tag: the contents end where its shortest encoding would start.
unfoldable pub group_contents : ℕ → Tag → Run (List ℕ)
group_contents start tag r = elim (tag_size tag) [
  | ok size ↦ (ok (slice r.input start (r.index - size)), r)
  | err e ↦ (err e, r)
  | out_of_fuel ↦ (out_of_fuel, r)
]

unfoldable pub bytes_round : (ℕ → Run (Unit {0})) → Run (List ℕ) → ℕ → ℕ → Option Tag → Run (List ℕ)
bytes_round group rest start number none r = (err truncated_input, r)
bytes_round group rest start number (some tag) r =
    if is_end_group tag.wire_type
    then (if tag.number == number
        then group_contents start tag r
        else (err invalid_field_number, r))
    else after (skip_value_with group tag.number tag.wire_type r) (λ _. rest)

-- The `while (true)` loop, with fuel as in `skip_loop`.
unfoldable pub bytes_loop : ℕ → ℕ → ℕ → Run (List ℕ)
bytes_loop zero start number r = (out_of_fuel, r)
bytes_loop (suc fuel) start number r =
    after (next_tag r)
      (bytes_round (λ n. guarded (skip_loop fuel n)) (bytes_loop fuel start number) start number)

unfoldable pub read_group_bytes : ℕ → Run (List ℕ)
read_group_bytes number r = guarded (bytes_loop (suc (length r.input)) r.index number) r
