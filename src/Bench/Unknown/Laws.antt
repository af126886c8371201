-- ===== src/Bench/Unknown/Laws.antt =====
-- What the unknown-field payload holds.
use native.Mathlib.Nat.{pow-suc}
use pbz.Common.{
  ℕ, zero, suc, ◌+◌, ◌-◌, ◌*◌, ◌/◌, ◌%◌, ◌^◌, ◌≤◌, ◌<◌, ◌≡◌, ap, ◌∙◌, inl, inr, List, [], ◌∷◌, ◌++◌,
  append_assoc, append-nil, some, true, false, ltb, leb, Bool-cases, bit_and, bit_or, arith,
}
use pbz.Common.Bits.{and_127, or_128_byte, bit_or-zero}
use pbz.Wire.Varint.{ladder}
use pbz.Wire.Varint.Encoding.{groups, ladder-groups}
use pbz.Bench.Unknown.{
  unknown_field_stress_count, unknown_field_stress_first_number, unknown_field_stress_number_span,
  unknown_field_stress_count_per_number, append_varint_loop, append_varint, append_unknown_fields,
  make_unknown_field_payload, unknown_field_count_by_number,
}

append_varint_loop-groups :
    (k v : ℕ) (out : List ℕ)
    → v < 128 ^ suc k
    → append_varint_loop (suc k) out v ≡ some (out ++ groups k v)
unfolding append_varint_loop groups
append_varint_loop-groups zero v out h = ground (arith, pow-suc 128 0)
append_varint_loop-groups (suc k) v out h = elim (Bool-cases (leb 0x80 v)) [
  | inl big ↦
      let byte : bit_or (bit_and v 0x7f) 0x80 % 256 ≡ v % 128 + 128 =
        omega (arith, or_128_byte (bit_and v 0x7f), and_127 v) in
      let small : ltb v 128 ≡ false = ground arith in
      rw (big, small, byte)
        (append_varint_loop-groups k (v / 128) (out ++ ((v % 128 + 128) ∷ []))
            (omega (arith, pow-suc 128 (suc k)))
          ∙ ap some (append_assoc out ((v % 128 + 128) ∷ []) (groups k (v / 128))))
  | inr last ↦
      let small : ltb v 128 ≡ true = ground arith in
      let low : v % 256 ≡ v = ground arith in rw (last, small, low)
]

-- For every `u64` the benchmark's `AppendVarint` appends the bytes that pbz's `writeVarintToBuffer`
-- stores, and its loop ends.
pub append_varint-ladder :
    (out : List ℕ) (v : ℕ) → v < 2 ^ 64 → append_varint out v ≡ some (out ++ ladder 9 v)
unfolding append_varint
append_varint-ladder out v h =
    append_varint_loop-groups 9 v out (omega arith) ∙ rw (ladder-groups 9 v (omega arith))

-- The bytes of fields `i, ..., i + n - 1`: a varint tag and the varint `i + 1` each.
unfoldable pub field_bytes : ℕ → ℕ → List ℕ
field_bytes zero i = []
field_bytes (suc n) i =
    ladder 9 ((unknown_field_stress_first_number + i % unknown_field_stress_number_span) * 8)
    ++ (ladder 9 (i + 1) ++ field_bytes n (i + 1))

append_unknown_fields-bytes :
    (n i : ℕ) (out : List ℕ)
    → i + n ≤ 2 ^ 32
    → append_unknown_fields n i out ≡ some (out ++ field_bytes n i)
unfolding append_unknown_fields field_bytes
append_unknown_fields-bytes zero i out h = rw append-nil
append_unknown_fields-bytes (suc n) i out h =
    let number = unknown_field_stress_first_number + i % unknown_field_stress_number_span in
    let tag = number * 8 in
    rw
      (
        bit_or-zero tag,
        append_varint-ladder out tag (omega arith),
        append_varint-ladder (out ++ ladder 9 tag) (i + 1) (omega arith),
        append_unknown_fields-bytes n (i + 1) (out ++ ladder 9 tag ++ ladder 9 (i + 1))
            (omega arith),
      )
      (ap some (
        append_assoc (out ++ ladder 9 tag) (ladder 9 (i + 1)) (field_bytes n (i + 1))
        ∙ append_assoc out (ladder 9 tag) (ladder 9 (i + 1) ++ field_bytes n (i + 1))))

-- The payload keeps `base` and appends 1024 fields; every call of `AppendVarint` ends.
pub make_unknown_field_payload-bytes :
    (base : List ℕ)
    → make_unknown_field_payload base ≡ some (base ++ field_bytes unknown_field_stress_count 0)
unfolding make_unknown_field_payload
make_unknown_field_payload-bytes base =
    append_unknown_fields-bytes unknown_field_stress_count 0 base (omega arith)

-- The field numbers of those fields, in their order.
unfoldable pub field_numbers : ℕ → ℕ → List ℕ
field_numbers zero i = []
field_numbers (suc n) i =
    (unknown_field_stress_first_number + i % unknown_field_stress_number_span)
    ∷ field_numbers n (i + 1)

count_from :
    (n i r : ℕ)
    → r < unknown_field_stress_number_span
    → unknown_field_count_by_number (field_numbers n i) (unknown_field_stress_first_number + r)
        + (i + 15 - r) / 16
      ≡ (i + n + 15 - r) / 16
unfolding unknown_field_count_by_number field_numbers
count_from zero i r h = omega arith
count_from (suc n) i r h = ground (arith, count_from n (i + 1) r)

-- Each of the sixteen numbers from 1000 on is the number of 64 of the fields, the count that the
-- benchmark checks.
pub unknown_field_count-per_number :
    (number : ℕ)
    → unknown_field_stress_first_number ≤ number
    → number < unknown_field_stress_first_number + unknown_field_stress_number_span
    → unknown_field_count_by_number (field_numbers unknown_field_stress_count 0) number
      ≡ unknown_field_stress_count_per_number
unknown_field_count-per_number number lo hi =
    let back : unknown_field_stress_first_number + (number - 1000) ≡ number = omega arith in
    let at_r : unknown_field_count_by_number (field_numbers unknown_field_stress_count 0)
          (unknown_field_stress_first_number + (number - 1000))
        ≡ unknown_field_stress_count_per_number =
      omega (arith, count_from unknown_field_stress_count 0 (number - 1000) (omega arith)) in
    rw back at at_r
