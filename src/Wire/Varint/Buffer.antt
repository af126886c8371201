-- ===== src/Wire/Varint/Buffer.antt =====
-- The writers into a buffer: the specialised ones agree with `writeVarintToSlice`, and what they
-- write is read back.
use native.Mathlib.Nat.{pow-suc, one-le-pow}
use pbz.Common.{
  ℕ, zero, suc, ◌+◌, ◌/◌, ◌%◌, ◌^◌, ◌≤◌, ◌<◌, ◌≡◌, refl, sym, ap, ◌∙◌, inl, inr, List, [], ◌∷◌,
  ◌++◌, ltb, ltb→lt, ltb→le, lt→ltb, le→ltb, Bool-cases, length, take, drop, bit_and, bit_or, arith,
}
use pbz.Common.Bits.{and_127, or_128, or_128_byte}
use pbz.Wire.Result.{ok}
use pbz.Wire.Varint.{
  ladder, store, store_at, write_varint_to_slice, write_uint32_varint_to_slice,
  write_direct_scalar_varint_to_slice, negative_bytes, write_negative_int64_varint_to_slice,
  read_varint_at,
}
use pbz.Wire.Varint.Encoding.{groups, ladder-groups, groups_enough}
use pbz.Wire.Varint.Read.{read_varint_at-ladder}

pub store-append :
    (buffer bytes : List ℕ)
    → length bytes ≤ length buffer
    → store buffer bytes ≡ bytes ++ drop (length bytes) buffer
unfolding store
store-append [] [] h = refl
store-append [] (x ∷ bytes) h = absurd (omega arith)
store-append (b ∷ buffer) [] h = refl
store-append (b ∷ buffer) (x ∷ bytes) h = ap (λ l. x ∷ l) (store-append buffer bytes (omega arith))

-- The buffer around what was written.
store_at-append :
    (buffer : List ℕ) (i : ℕ) (bytes : List ℕ)
    → i + length bytes ≤ length buffer
    → store_at buffer i bytes ≡ take i buffer ++ (bytes ++ drop (length bytes) (drop i buffer))
unfolding store_at
store_at-append buffer zero bytes h = store-append buffer bytes (omega arith)
store_at-append [] (suc i) bytes h = absurd (omega arith)
store_at-append (b ∷ buffer) (suc i) bytes h =
    ap (λ l. b ∷ l) (store_at-append buffer i bytes (omega arith))

length-take_le : (i : ℕ) (xs : List ℕ) → i ≤ length xs → length (take i xs) ≡ i
length-take_le zero xs h = refl
length-take_le (suc i) [] h = absurd (omega arith)
length-take_le (suc i) (x ∷ xs) h = ap suc (length-take_le i xs (omega arith))

-- Where a `u64` fits behind `index`, `readVarintAt` at `index` reads it back from the written buffer,
-- and both leave the index at the same place.
pub read_varint_at-write :
    (buffer : List ℕ) (index v : ℕ)
    → v < 2 ^ 64
    → index + length (ladder 9 v) ≤ length buffer
    → read_varint_at (write_varint_to_slice buffer index v).0 index
      ≡ (ok v, (write_varint_to_slice buffer index v).1)
unfolding write_varint_to_slice
read_varint_at-write buffer index v fits room =
    let here : length (take index buffer) ≡ index = length-take_le index buffer (omega arith) in
    rw (store_at-append buffer index (ladder 9 v) room) (
      rw here at (
        read_varint_at-ladder v (take index buffer) (drop (length (ladder 9 v)) (drop index buffer))
          fits))

groups-u32 : (v : ℕ) → v < 2 ^ 32 → groups 9 v ≡ groups 4 v
groups-u32 v fits =
    groups_enough 8 v (omega arith)
    ∙ groups_enough 7 v (omega arith)
    ∙ groups_enough 6 v (omega arith)
    ∙ groups_enough 5 v (omega arith)
    ∙ groups_enough 4 v (omega arith)

ladder-u32 : (v : ℕ) → v < 2 ^ 32 → ladder 4 v ≡ ladder 9 v
ladder-u32 v fits =
    ladder-groups 4 v (omega arith)
    ∙ sym (groups-u32 v fits)
    ∙ sym (ladder-groups 9 v (omega arith))

-- For every `u32` the writer with the five-byte ladder stores the same bytes as the one with the ten-byte
-- ladder, and moves the index alike.
pub write_uint32_varint_to_slice_agrees :
    (buffer : List ℕ) (index v : ℕ)
    → v < 2 ^ 32
    → write_uint32_varint_to_slice buffer index v ≡ write_varint_to_slice buffer index v
unfolding write_uint32_varint_to_slice write_varint_to_slice
write_uint32_varint_to_slice_agrees buffer index v fits = rw (ladder-u32 v fits)

-- The stores of `buffer[start]` and `buffer[start + 1]`.
store-nil : (buffer : List ℕ) → store buffer [] ≡ buffer
unfolding store
store-nil [] = refl
store-nil (b ∷ buffer) = refl

store_two :
    (buffer : List ℕ) (i x y : ℕ)
    → store_at (store_at buffer i (x ∷ [])) (suc i) (y ∷ []) ≡ store_at buffer i (x ∷ y ∷ [])
unfolding store_at
store_two [] zero x y = refl
store_two (b ∷ buffer) zero x y = rw (store-nil buffer)
store_two [] (suc i) x y = refl
store_two (b ∷ buffer) (suc i) x y = ap (λ l. b ∷ l) (store_two buffer i x y)

pub ladder_one : (v : ℕ) → v < 0x80 → ladder 9 v ≡ v ∷ []
unfolding ladder
ladder_one v h = let low : v % 256 ≡ v = omega arith in rw (lt→ltb v 0x80 h, low)

ladder_two :
    (v : ℕ) → 0x80 ≤ v → v < 0x4000 → ladder 9 v ≡ bit_or (bit_and v 0x7f) 0x80 ∷ v / 2 ^ 7 ∷ []
unfolding ladder
ladder_two v lo hi =
    let first : bit_or v 0x80 % 256 ≡ bit_or (bit_and v 0x7f) 0x80 =
      omega (arith, or_128_byte v, or_128 (bit_and v 0x7f), and_127 v) in
    let second : v / 2 ^ 7 % 256 ≡ v / 2 ^ 7 = omega arith in
    rw (le→ltb v 0x80 lo, lt→ltb (v / 2 ^ 7) 0x80 (omega arith), first, second)

-- For every value the writer with the one- and two-byte cases pulled out stores the same bytes and
-- moves the index alike.
pub write_direct_scalar_varint_to_slice_agrees :
    (buffer : List ℕ) (index v : ℕ)
    → write_direct_scalar_varint_to_slice buffer index v ≡ write_varint_to_slice buffer index v
unfolding write_direct_scalar_varint_to_slice
write_direct_scalar_varint_to_slice_agrees buffer index v = elim (Bool-cases (ltb v 0x80)) [
  | inl one ↦ rw one (unfold write_varint_to_slice in rw (ladder_one v (ltb→lt v 0x80 one)))
  | inr more ↦ elim (Bool-cases (ltb v 0x4000)) [
    | inl two ↦
        let bytes : ladder 9 v ≡ bit_or (bit_and v 0x7f) 0x80 ∷ v / 2 ^ 7 ∷ [] =
          ladder_two v (ltb→le v 0x80 more) (ltb→lt v 0x4000 two) in
        let next : index + 1 ≡ suc index = omega arith in
        rw (more, two, next)
          (rw (store_two buffer index) (unfold write_varint_to_slice in rw bytes))
    | inr wide ↦ rw (more, wide)
  ]
]

negative_bytes-groups : (k v : ℕ) → 128 ^ k ≤ v → v < 128 ^ suc k → negative_bytes k v ≡ groups k v
unfolding negative_bytes groups
negative_bytes-groups zero v lo hi = ground (arith, pow-suc 128 0)
negative_bytes-groups (suc k) v lo hi =
    let large : 128 ≤ v = omega (arith, pow-suc 128 k, one-le-pow k 128 (omega arith)) in
    rw (le→ltb v 128 large, or_128_byte v)
      (ap (λ l. (v % 128 + 128) ∷ l)
        (negative_bytes-groups k (v / 128) (omega (arith, pow-suc 128 k))
          (omega (arith, pow-suc 128 (suc k)))))

-- On the bit pattern of a negative `i64` the writer without tests stores the same ten bytes and moves
-- the index by ten, as `writeVarintToSlice` does.
pub write_negative_int64_varint_to_slice_agrees :
    (buffer : List ℕ) (index v : ℕ)
    → 2 ^ 63 ≤ v
    → v < 2 ^ 64
    → write_negative_int64_varint_to_slice buffer index v ≡ write_varint_to_slice buffer index v
write_negative_int64_varint_to_slice_agrees buffer index v lo hi =
    let bytes : negative_bytes 9 v ≡ ladder 9 v =
      negative_bytes-groups 9 v (omega arith) (omega arith)
      ∙ sym (ladder-groups 9 v (omega arith)) in
    let ten : length (negative_bytes 9 v) ≡ 10 = unfold negative_bytes in refl in
    let count : length (ladder 9 v) ≡ 10 = rw bytes at ten in
    unfold write_negative_int64_varint_to_slice write_varint_to_slice in rw (bytes, count)
