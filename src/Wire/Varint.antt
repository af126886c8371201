-- ===== src/Wire/Varint.antt =====
-- Variable-length integers of src/wire.zig: sizes, the writers into a buffer, and `readVarintAt`.
-- A `u64` is a number below 2 ^ 64, a byte a number below 256. A write beyond the end of a buffer,
-- which the source never makes, is dropped.
pub mod Encoding
pub mod Size
pub mod Buffer
pub mod Read
pub mod Bounds
pub mod Low
use pbz.Common.{
  ℕ, zero, suc, ◌+◌, ◌-◌, ◌*◌, ◌/◌, ◌%◌, ◌^◌, Bool, Option, none, some, List, [], ◌∷◌, ltb, ◌==◌,
  if◌then◌else◌, length, get_elem?, bit_and, bit_or,
}
use pbz.Wire.Result.{Result, ok, err, truncated_input, malformed_varint}

-- `@clz` on 64 bits: the zeros above the highest one, counted from bit `k - 1` down.
clz_below : ℕ → ℕ → ℕ
clz_below zero v = 0
clz_below (suc k) v = if v / 2 ^ k == 0 then suc (clz_below k v) else 0

unfoldable pub clz : ℕ → ℕ
unfolding clz_below
clz v = clz_below 64 v

unfoldable pub encoded_varint_size : ℕ → ℕ
encoded_varint_size value =
    if ltb value (2 ^ 7)
    then 1
    else if ltb value (2 ^ 14)
    then 2
    else if ltb value (2 ^ 21)
    then 3
    else (64 - clz value + 6) / 7

-- The bytes that the ladder of `writeVarintToBuffer` stores, after `k` more tests of `v < 0x80`.
unfoldable pub ladder : ℕ → ℕ → List ℕ
ladder zero v = (v % 256) ∷ []
ladder (suc k) v =
    if ltb v 0x80 then (v % 256) ∷ [] else (bit_or v 0x80 % 256) ∷ ladder k (v / 2 ^ 7)

-- `buffer[0], buffer[1], ... = bytes`.
unfoldable pub store : List ℕ → List ℕ → List ℕ
store [] bytes = []
store (b ∷ buffer) [] = b ∷ buffer
store (b ∷ buffer) (x ∷ bytes) = x ∷ store buffer bytes

-- `buffer[index..]` is written, what stands before it stays.
unfoldable pub store_at : List ℕ → ℕ → List ℕ → List ℕ
unfolding store
store_at buffer zero bytes = store buffer bytes
store_at [] (suc index) bytes = []
store_at (b ∷ buffer) (suc index) bytes = b ∷ store_at buffer index bytes

-- The buffer after the call, and the returned count.
unfoldable pub write_varint_to_buffer : List ℕ → ℕ → List ℕ × ℕ
write_varint_to_buffer buffer value =
    let bytes = ladder 9 value in (store buffer bytes, length bytes)

unfoldable write_uint32_varint_to_buffer : List ℕ → ℕ → List ℕ × ℕ
write_uint32_varint_to_buffer buffer value =
    let bytes = ladder 4 value in (store buffer bytes, length bytes)

-- The buffer and `index.*` after the call.
unfoldable pub write_varint_to_slice : List ℕ → ℕ → ℕ → List ℕ × ℕ
write_varint_to_slice buffer index value =
    let bytes = ladder 9 value in (store_at buffer index bytes, index + length bytes)

unfoldable pub write_uint32_varint_to_slice : List ℕ → ℕ → ℕ → List ℕ × ℕ
write_uint32_varint_to_slice buffer index value =
    let bytes = ladder 4 value in (store_at buffer index bytes, index + length bytes)

unfoldable pub write_direct_scalar_varint_to_slice : List ℕ → ℕ → ℕ → List ℕ × ℕ
write_direct_scalar_varint_to_slice buffer index value =
    if ltb value 0x80
    then (store_at buffer index (value ∷ []), index + 1)
    else if ltb value 0x4000
    then (
      store_at (store_at buffer index (bit_or (bit_and value 0x7f) 0x80 ∷ [])) (index + 1)
          (value / 2 ^ 7 ∷ []),
      index + 2,
    )
    else write_varint_to_slice buffer index value

-- The nine rounds of the `inline for`, and the last byte.
unfoldable pub negative_bytes : ℕ → ℕ → List ℕ
negative_bytes zero v = (v % 256) ∷ []
negative_bytes (suc k) v = (bit_or v 0x80 % 256) ∷ negative_bytes k (v / 2 ^ 7)

-- `value` is the bit pattern of a negative `i64`.
unfoldable pub write_negative_int64_varint_to_slice : List ℕ → ℕ → ℕ → List ℕ × ℕ
write_negative_int64_varint_to_slice buffer index value =
    (store_at buffer index (negative_bytes 9 value), index + 10)

-- `index_ptr.*` after the call stands beside the result, also beside an error.
abbrev pub Cursor : Type 0 → Type 0
Cursor A = Result A × ℕ

-- The tenth byte, whose group is shifted by 63: what leaves the 64 bits is lost.
unfoldable pub last_group : ℕ → ℕ → ℕ → Cursor ℕ
last_group byte index result =
    let result' = bit_or result (bit_and byte 0x7f * 2 ^ 63 % 2 ^ 64) in
    if ltb byte 0x80
    then (if ltb 1 byte then (err malformed_varint, suc index) else (ok result', suc index))
    else (err malformed_varint, suc index)

-- The rounds of `inline for` over the shifts that are left, then the tenth byte.
unfoldable pub read_groups : List ℕ → List ℕ → ℕ → ℕ → Cursor ℕ
read_groups input [] index result = elim (get_elem? input index) [
  | none ↦ (err truncated_input, index)
  | some byte ↦ last_group byte index result
]
read_groups input (shift ∷ shifts) index result = elim (get_elem? input index) [
  | none ↦ (err truncated_input, index)
  | some byte ↦
      let result' = bit_or result (bit_and byte 0x7f * 2 ^ shift) in
      let more = read_groups input shifts (suc index) result' in
      if ltb byte 0x80 then (ok result', suc index) else more
]

abbrev pub group_shifts : List ℕ
group_shifts = 7 ∷ 14 ∷ 21 ∷ 28 ∷ 35 ∷ 42 ∷ 49 ∷ 56 ∷ []

unfoldable pub read_varint_at : List ℕ → ℕ → Cursor ℕ
read_varint_at input index = elim (get_elem? input index) [
  | none ↦ (err truncated_input, index)
  | some byte ↦
      let result = bit_and byte 0x7f in
      if ltb byte 0x80
      then (ok result, suc index)
      else read_groups input group_shifts (suc index) result
]
