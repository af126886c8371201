-- ===== src/Wire/Hot/Agrees.antt =====
-- The fast readers do what `readVarintAt` and a conversion of its value do.
use pbz.Common.{
  ℕ, suc, ◌+◌, ◌*◌, ◌%◌, ◌^◌, ◌<◌, ◌≤◌, ◌≡◌, sym, ap, ◌∙◌, not, inl, inr, List, [], ◌∷◌, ltb, ◌==◌,
  get_elem?, bit_and, bit_or, Bool-cases, Option-cases, arith,
}
use native.Mathlib.Nat.{mul-le-mul_right}
use pbz.Common.Bits.{and_127, and_15, or_fields}
use pbz.Wire.Result.{ok}
use pbz.Wire.Varint.{Cursor, read_groups, read_varint_at, group_shifts}
use pbz.Wire.ZigZag.{zig_zag_decode32}
use pbz.Wire.Hot.{
  cursor_map, truncate32, read_bool_at, read_uint32_groups, read_uint32_at, second_byte,
  read_int32_at, read_sint32_at,
}

-- On every input `readBoolAt` returns whether the value that `readVarintAt` reads is not 0, or its error, and
-- moves the index alike.
pub read_bool_at_agrees :
    (input : List ℕ) (start : ℕ)
    → read_bool_at input start ≡ cursor_map (λ value. not (value == 0)) (read_varint_at input start)
unfolding read_bool_at read_varint_at
read_bool_at_agrees input start = elim (Option-cases (get_elem? input start)) [
  | inl end ↦ rw (end, read_bool_at, read_varint_at)
  | inr (first, e) ↦ elim (Bool-cases (ltb first 0x80)) [
    | inl short ↦
        let low : bit_and first 127 ≡ first = ground (arith, and_127 first) in
        let one : start + 1 ≡ suc start = omega arith in
        rw (e, read_bool_at, read_varint_at, short, low, one)
    | inr long ↦ rw (e, read_bool_at, long)
  ]
]

below_limit :
    {limit : ℕ} (raw group width : ℕ)
    → raw < width
    → group < 128
    → limit ≡ 128 * width
    → raw + group * width < limit
below_limit raw group width h g e =
    let top : group * width ≤ 127 * width = mul-le-mul_right width (omega arith) in omega arith

-- What the fast reader does from here on is what the other does from there on, truncated.
abbrev Same : Cursor ℕ → Cursor ℕ → Type 0
Same fast slow = fast ≡ cursor_map truncate32 slow

fifth_byte :
    (input : List ℕ) (start index raw : ℕ)
    → raw < 2 ^ 28
    → read_varint_at input start ≡ read_groups input (28 ∷ 35 ∷ 42 ∷ 49 ∷ 56 ∷ []) index raw
    → Same
        (read_uint32_groups input start [] index raw)
        (read_groups input (28 ∷ 35 ∷ 42 ∷ 49 ∷ 56 ∷ []) index raw)
unfolding read_uint32_groups read_groups
fifth_byte input start index raw small fallback = elim (Option-cases (get_elem? input index)) [
  | inl end ↦ rw (end, read_uint32_groups, read_groups)
  | inr (byte, e) ↦ elim (Bool-cases (ltb byte 0x80)) [
    | inl short ↦
        let fast : bit_or raw (bit_and byte 0x0f * 2 ^ 28) ≡ raw + byte % 16 * 2 ^ 28 =
          rw (and_15 byte) (or_fields 28 raw (byte % 16) small) in
        let slow : bit_or raw (bit_and byte 0x7f * 2 ^ 28) ≡ raw + byte % 128 * 2 ^ 28 =
          rw (and_127 byte) (or_fields 28 raw (byte % 128) small) in
        let same : raw + byte % 16 * 2 ^ 28 ≡ (raw + byte % 128 * 2 ^ 28) % 2 ^ 32 = omega arith in
        rw (e, read_uint32_groups, read_groups, short, fast, slow, same)
    | inr long ↦ rw (e, read_uint32_groups, long) (ap (λ c. cursor_map truncate32 c) fallback)
  ]
]

middle_byte :
    (input : List ℕ) (start index raw shift limit : ℕ) (fast slow : List ℕ)
    → limit ≡ 128 * 2 ^ shift
    → limit < 2 ^ 32
    → raw < 2 ^ shift
    → read_varint_at input start ≡ read_groups input (shift ∷ slow) index raw
    → ((raw' : ℕ)
        → raw' < limit
        → read_varint_at input start ≡ read_groups input slow (suc index) raw'
        → Same
            (read_uint32_groups input start fast (suc index) raw')
            (read_groups input slow (suc index) raw'))
    → Same
        (read_uint32_groups input start (shift ∷ fast) index raw)
        (read_groups input (shift ∷ slow) index raw)
unfolding read_uint32_groups read_groups
middle_byte input start index raw shift limit fast slow bound fits small fallback next =
    elim (Option-cases (get_elem? input index)) [
      | inl end ↦ rw (end, read_uint32_groups, read_groups)
      | inr (byte, e) ↦
          let raw' : ℕ = raw + byte % 128 * 2 ^ shift in
          let sum : bit_or raw (bit_and byte 0x7f * 2 ^ shift) ≡ raw' =
            rw (and_127 byte) (or_fields shift raw (byte % 128) small) in
          let inside : raw' < limit =
            below_limit raw (byte % 128) (2 ^ shift) small (omega arith) bound in
          let low : raw' % 2 ^ 32 ≡ raw' = omega arith in
          elim (Bool-cases (ltb byte 0x80)) [
            | inl short ↦
                rw (e, read_uint32_groups, read_groups, short, sum)
                  (ap (λ v. (ok v, suc index)) (sym low))
            | inr long ↦
                let step : read_groups input (shift ∷ slow) index raw
                    ≡ read_groups input slow (suc index) raw' =
                  rw (e, read_groups, long, sum) in
                rw (e, read_uint32_groups, long, sum)
                  (next raw' inside (fallback ∙ step)
                    ∙ ap (λ c. cursor_map truncate32 c) (sym step))
          ]
    ]

-- On every input `readUInt32At` returns the low 32 bits of the value that `readVarintAt` reads, or its error,
-- and moves the index alike, whatever the width of the varint.
pub read_uint32_at_agrees :
    (input : List ℕ) (start : ℕ)
    → read_uint32_at input start ≡ cursor_map truncate32 (read_varint_at input start)
unfolding read_uint32_at read_varint_at
read_uint32_at_agrees input start = elim (Option-cases (get_elem? input start)) [
  | inl end ↦ rw (end, read_uint32_at, read_varint_at)
  | inr (first, e) ↦
      let raw : ℕ = bit_and first 0x7f in
      let small : raw < 2 ^ 7 = omega (arith, and_127 first) in
      let low : raw % 2 ^ 32 ≡ raw = omega arith in
      elim (Bool-cases (ltb first 0x80)) [
        | inl short ↦
            rw (e, read_uint32_at, read_varint_at, short) (ap (λ v. (ok v, suc start)) (sym low))
        | inr long ↦
            let slow : read_varint_at input start ≡ read_groups input group_shifts (suc start) raw =
              rw (e, read_varint_at, long) in
            rw (e, read_uint32_at, long)
              (middle_byte input start (suc start) raw 7 (2 ^ 14) _ _ (omega arith) (omega arith)
                  small slow
                  (λ raw2 small2 slow2.
                    middle_byte input start (suc (suc start)) raw2 14 (2 ^ 21) _ _ (omega arith)
                      (omega arith) small2 slow2
                      (λ raw3 small3 slow3.
                        middle_byte input start (suc (suc (suc start))) raw3 21 (2 ^ 28) _ _
                          (omega arith) (omega arith) small3 slow3
                          (λ raw4 small4 slow4.
                            fifth_byte input start (suc (suc (suc (suc start)))) raw4 small4
                              slow4)))
                ∙ ap (λ c. cursor_map truncate32 c) (sym slow))
      ]
]

second_byte_agrees :
    (input : List ℕ) (convert : ℕ → ℕ) (start index raw : ℕ)
    → raw < 2 ^ 7
    → read_varint_at input start ≡ read_groups input group_shifts index raw
    → second_byte input convert
        (cursor_map (λ v. convert (truncate32 v)) (read_varint_at input start))
        index
        raw
      ≡ cursor_map (λ v. convert (truncate32 v)) (read_groups input group_shifts index raw)
unfolding second_byte read_groups
second_byte_agrees input convert start index raw small fallback =
    elim (Option-cases (get_elem? input index)) [
      | inl end ↦ rw (end, second_byte, read_groups)
      | inr (byte, e) ↦
          let raw' : ℕ = raw + byte % 128 * 2 ^ 7 in
          let sum : bit_or raw (bit_and byte 0x7f * 2 ^ 7) ≡ raw' =
            rw (and_127 byte) (or_fields 7 raw (byte % 128) small) in
          let low : raw' % 2 ^ 32 ≡ raw' = omega arith in
          elim (Bool-cases (ltb byte 0x80)) [
            | inl short ↦
                rw (e, second_byte, read_groups, short, sum)
                  (ap (λ v. (ok (convert v), suc index)) (sym low))
            | inr long ↦
                rw (e, second_byte, long)
                  (ap (λ c. cursor_map (λ v. convert (truncate32 v)) c) fallback)
          ]
    ]

-- On every input `readInt32At` returns the low 32 bits of the value that `readVarintAt` reads, or its error,
-- and moves the index alike.
pub read_int32_at_agrees :
    (input : List ℕ) (start : ℕ)
    → read_int32_at input start ≡ cursor_map truncate32 (read_varint_at input start)
unfolding read_int32_at read_varint_at
read_int32_at_agrees input start = elim (Option-cases (get_elem? input start)) [
  | inl end ↦ rw (end, read_int32_at, read_varint_at)
  | inr (first, e) ↦
      let raw : ℕ = bit_and first 0x7f in
      let small : raw < 2 ^ 7 = omega (arith, and_127 first) in
      let low : raw % 2 ^ 32 ≡ raw = omega arith in
      elim (Bool-cases (ltb first 0x80)) [
        | inl short ↦
            rw (e, read_int32_at, read_varint_at, short) (ap (λ v. (ok v, suc start)) (sym low))
        | inr long ↦
            let slow : read_varint_at input start ≡ read_groups input group_shifts (suc start) raw =
              rw (e, read_varint_at, long) in
            rw (e, read_int32_at, long)
              (second_byte_agrees input (λ v. v) start (suc start) raw small slow
                ∙ ap (λ c. cursor_map truncate32 c) (sym slow))
      ]
]

-- On every input `readSInt32At` decodes the zig-zag code in the low 32 bits of the value that `readVarintAt`
-- reads, or returns its error, and moves the index alike.
pub read_sint32_at_agrees :
    (input : List ℕ) (start : ℕ)
    → read_sint32_at input start
      ≡ cursor_map (λ v. zig_zag_decode32 (truncate32 v)) (read_varint_at input start)
unfolding read_sint32_at read_varint_at
read_sint32_at_agrees input start = elim (Option-cases (get_elem? input start)) [
  | inl end ↦ rw (end, read_sint32_at, read_varint_at)
  | inr (first, e) ↦
      let raw : ℕ = bit_and first 0x7f in
      let small : raw < 2 ^ 7 = omega (arith, and_127 first) in
      let low : raw % 2 ^ 32 ≡ raw = omega arith in
      elim (Bool-cases (ltb first 0x80)) [
        | inl short ↦
            rw (e, read_sint32_at, read_varint_at, short)
              (ap (λ v. (ok (zig_zag_decode32 v), suc start)) (sym low))
        | inr long ↦
            let slow : read_varint_at input start ≡ read_groups input group_shifts (suc start) raw =
              rw (e, read_varint_at, long) in
            rw (e, read_sint32_at, long)
              (second_byte_agrees input zig_zag_decode32 start (suc start) raw small slow
                ∙ ap (λ c. cursor_map (λ v. zig_zag_decode32 (truncate32 v)) c) (sym slow))
      ]
]
