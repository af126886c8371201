-- ===== src/Bench/Unknown.antt =====
-- The unknown-field payload of bench/cpp_protobuf/main.cc.
pub mod Laws
use pbz.Common.{
  ℕ, zero, suc, ◌+◌, ◌*◌, ◌/◌, ◌%◌, ◌^◌, List, [], ◌∷◌, ◌++◌, Option, none, some, leb, ◌==◌,
  if◌then◌else◌, bit_and, bit_or,
}

abbrev pub unknown_field_stress_count : ℕ
unknown_field_stress_count = 1024

abbrev pub unknown_field_stress_first_number : ℕ
unknown_field_stress_first_number = 1000

abbrev pub unknown_field_stress_number_span : ℕ
unknown_field_stress_number_span = 16

abbrev pub unknown_field_stress_count_per_number : ℕ
unknown_field_stress_count_per_number =
    unknown_field_stress_count / unknown_field_stress_number_span

infixl 5 ◌>>=◌
abbrev pub ◌>>=◌ {ℓ κ} : {A : Type ℓ} {B : Type κ} → Option A → (A → Option B) → Option B
none >>= f = none
some a >>= f = f a

-- The `while (value >= 0x80)` loop, with fuel; `none` means that the fuel ran out. A pushed `char` is
-- given by its byte.
append_varint_loop : ℕ → List ℕ → ℕ → Option (List ℕ)
append_varint_loop zero out value = none
append_varint_loop (suc fuel) out value =
    let more =
      append_varint_loop fuel (out ++ (bit_or (bit_and value 0x7f) 0x80 % 256 ∷ []))
        (value / 2 ^ 7) in
    if leb 0x80 value then more else some (out ++ (value % 256 ∷ []))

-- Ten rounds are enough for a `uint64_t`.
unfoldable pub append_varint : List ℕ → ℕ → Option (List ℕ)
unfolding append_varint_loop
append_varint out value = append_varint_loop 10 out value

-- Rounds `i, i + 1, ..., i + n - 1` of the `for` loop.
unfoldable pub append_unknown_fields : ℕ → ℕ → List ℕ → Option (List ℕ)
append_unknown_fields zero i out = some out
append_unknown_fields (suc n) i out =
    let number = unknown_field_stress_first_number + i % unknown_field_stress_number_span in
    do
      tagged ← append_varint out (bit_or (number * 2 ^ 3) 0)
      filled ← append_varint tagged (i + 1)
      append_unknown_fields n (i + 1) filled

unfoldable pub make_unknown_field_payload : List ℕ → Option (List ℕ)
make_unknown_field_payload base = append_unknown_fields unknown_field_stress_count 0 base

-- `fields` is the sequence of the numbers of the fields of an `UnknownFieldSet`.
unfoldable pub unknown_field_count_by_number : List ℕ → ℕ → ℕ
unknown_field_count_by_number [] number = 0
unknown_field_count_by_number (field ∷ fields) number =
    (if field == number then 1 else 0) + unknown_field_count_by_number fields number
