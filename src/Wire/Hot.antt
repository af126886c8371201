-- ===== src/Wire/Hot.antt =====
-- The readers of src/wire.zig that decode short varints themselves, and leave the longer ones to
-- `readVarintAt`. An `i32` is its bit pattern.
pub mod Agrees
use pbz.Common.{
  ℕ, suc, ◌+◌, ◌*◌, ◌%◌, ◌^◌, Bool, not, Option, none, some, List, [], ◌∷◌, ltb, ◌==◌,
  if◌then◌else◌, get_elem?, bit_and, bit_or,
}
use pbz.Wire.Result.{Result, ok, err, map_ok, truncated_input}
use pbz.Wire.Varint.{Cursor, read_varint_at}
use pbz.Wire.ZigZag.{zig_zag_decode32}

abbrev pub cursor_map : {A B : Type 0} → (A → B) → Cursor A → Cursor B
cursor_map f (result, index) = (map_ok f result, index)

-- `@truncate` to 32 bits.
abbrev pub truncate32 : ℕ → ℕ
truncate32 v = v % 2 ^ 32

unfoldable pub read_bool_at : List ℕ → ℕ → Cursor Bool
read_bool_at input start = elim (get_elem? input start) [
  | none ↦ (err truncated_input, start)
  | some first ↦
      if ltb first 0x80
      then (ok (not (first == 0)), start + 1)
      else cursor_map (λ value. not (value == 0)) (read_varint_at input start)
]

-- The bytes after the first, over the shifts that are left; then the fifth byte.
unfoldable pub read_uint32_groups : List ℕ → ℕ → List ℕ → ℕ → ℕ → Cursor ℕ
read_uint32_groups input start [] index raw = elim (get_elem? input index) [
  | none ↦ (err truncated_input, index)
  | some fifth ↦
      let raw' = bit_or raw (bit_and fifth 0x0f * 2 ^ 28) in
      if ltb fifth 0x80
      then (ok raw', suc index)
      else cursor_map truncate32 (read_varint_at input start)
]
read_uint32_groups input start (shift ∷ shifts) index raw = elim (get_elem? input index) [
  | none ↦ (err truncated_input, index)
  | some byte ↦
      let raw' = bit_or raw (bit_and byte 0x7f * 2 ^ shift) in
      let more = read_uint32_groups input start shifts (suc index) raw' in
      if ltb byte 0x80 then (ok raw', suc index) else more
]

abbrev uint32_shifts : List ℕ
uint32_shifts = 7 ∷ 14 ∷ 21 ∷ []

unfoldable pub read_uint32_at : List ℕ → ℕ → Cursor ℕ
read_uint32_at input start = elim (get_elem? input start) [
  | none ↦ (err truncated_input, start)
  | some first ↦
      let raw = bit_and first 0x7f in
      if ltb first 0x80
      then (ok raw, suc start)
      else read_uint32_groups input start uint32_shifts (suc start) raw
]

-- The second byte of `readInt32At` and `readSInt32At`; `convert` is what they do with a short value, and
-- `wide` the fallback.
unfoldable pub second_byte : List ℕ → (ℕ → ℕ) → Cursor ℕ → ℕ → ℕ → Cursor ℕ
second_byte input convert wide index raw = elim (get_elem? input index) [
  | none ↦ (err truncated_input, index)
  | some second ↦
      let raw' = bit_or raw (bit_and second 0x7f * 2 ^ 7) in
      if ltb second 0x80 then (ok (convert raw'), suc index) else wide
]

unfoldable pub read_int32_at : List ℕ → ℕ → Cursor ℕ
read_int32_at input start = elim (get_elem? input start) [
  | none ↦ (err truncated_input, start)
  | some first ↦
      let raw = bit_and first 0x7f in
      if ltb first 0x80
      then (ok raw, suc start)
      else second_byte input (λ v. v) (cursor_map truncate32 (read_varint_at input start))
          (suc start) raw
]

unfoldable pub read_sint32_at : List ℕ → ℕ → Cursor ℕ
read_sint32_at input start = elim (get_elem? input start) [
  | none ↦ (err truncated_input, start)
  | some first ↦
      let raw = bit_and first 0x7f in
      if ltb first 0x80
      then (ok (zig_zag_decode32 raw), suc start)
      else second_byte input zig_zag_decode32
          (cursor_map (λ v. zig_zag_decode32 (truncate32 v)) (read_varint_at input start))
          (suc start) raw
]
