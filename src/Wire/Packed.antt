-- ===== src/Wire/Packed.antt =====
-- The packed varint iterators of src/wire.zig, which go through every occurrence of a repeated field, packed or
-- not. A call returns its result and the iterator after it.
pub mod RoundTrip
pub mod Written
pub mod Ends
use pbz.Common.{
  ℕ, zero, suc, ◌+◌, ◌*◌, ◌%◌, ◌^◌, Option, none, some, List, [], ◌∷◌, length, drop, ltb, ◌==◌,
  if◌then◌else◌,
}
use pbz.Wire.Result.{Result, ok, err, out_of_fuel, map_ok, invalid_wire_type}
use pbz.Wire.Tag.{WireType, Tag, varint, length_delimited}
use pbz.Wire.Varint.{read_varint_at}
use pbz.Wire.Reader.{Reader, Run, init, after, next_tag, read_varint, read_bytes, skip_value, slice}

pub record PackedVarintSegment : Type 0 where
  pub payload : List ℕ
  pub remaining_fields : List ℕ

-- `PackedUInt64Iterator` and its kin.
pub record PackedIterator : Type 0 where
  pub payload : List ℕ
  pub index : ℕ
  pub remaining_fields : List ℕ
  pub field_number : ℕ

-- The `switch` on the wire type of an occurrence.
unfoldable pub read_payload : WireType → Run (List ℕ)
read_payload length_delimited r = read_bytes r
read_payload varint r = after (read_varint r) (λ _ r'. (ok (slice r'.input r.index r'.index), r'))
read_payload _ r = (err invalid_wire_type, r)

-- What a round of the loop does with a tag, given the rounds behind it.
unfoldable pub segment_round :
    Run (Option PackedVarintSegment) → ℕ → Option Tag → Run (Option PackedVarintSegment)
segment_round rest number none r = (ok none, r)
segment_round rest number (some tag) r =
    if tag.number == number
    then after (read_payload tag.wire_type r) (λ payload r'.
      (ok (some (record { payload = payload; remaining_fields = drop r'.index r'.input })), r'))
    else after (skip_value tag r) (λ _. rest)

unfoldable pub segment_loop : ℕ → ℕ → Run (Option PackedVarintSegment)
segment_loop zero number r = (out_of_fuel, r)
segment_loop (suc fuel) number r =
    after (next_tag r) (segment_round (segment_loop fuel number) number)

-- Each round takes a byte, so this fuel is enough.
unfoldable pub next_packed_varint_segment : List ℕ → ℕ → Result (Option PackedVarintSegment)
next_packed_varint_segment bytes number = (segment_loop (suc (length bytes)) number (init bytes)).0

-- The `while (true)` loop; each round but the last takes a segment from the remaining fields.
unfoldable pub next_loop : ℕ → PackedIterator → Result (Option ℕ) × PackedIterator
next_loop zero it = (out_of_fuel, it)
next_loop (suc fuel) it =
    let (value, index) = read_varint_at it.payload it.index in
    if ltb it.index (length it.payload)
    then (map_ok some value, record it { index = index })
    else if it.field_number == 0
    then (ok none, it)
    else elim (next_packed_varint_segment it.remaining_fields it.field_number) [
      | err e ↦ (err e, it)
      | out_of_fuel ↦ (out_of_fuel, it)
      | ok segment ↦ elim segment [
        | none ↦ (ok none, it)
        | some s ↦ next_loop fuel (record {
          payload = s.payload;
          index = 0;
          remaining_fields = s.remaining_fields;
          field_number = it.field_number;
        })
      ]
    ]

unfoldable pub next_packed_varint : PackedIterator → Result (Option ℕ) × PackedIterator
next_packed_varint it = next_loop (suc (suc (length it.remaining_fields))) it

-- `packedUInt64FieldIterator`.
unfoldable pub packed_field_iterator : List ℕ → ℕ → Result (Option PackedIterator)
packed_field_iterator bytes number =
    map_ok
      (λ segment. elim segment [
        | none ↦ none
        | some s ↦ some (record {
          payload = s.payload;
          index = 0;
          remaining_fields = s.remaining_fields;
          field_number = number;
        })
      ])
      (next_packed_varint_segment bytes number)
