-- ===== src/Wire/Raw/Starts.antt =====
-- The tag that a raw field starts with, where `rawFieldNumber` reads its number.
use pbz.Common.{ℕ, ◌+◌, ◌*◌, ◌≤◌, ◌<◌, ◌≡◌, refl, ap, ◌∙◌, List, ltb, if◌then◌else◌, arith}
use pbz.Wire.Result.{◌>>=◌, Result, ok, err, out_of_fuel, malformed_varint}
use pbz.Wire.Tag.{Tag, WireType, int_from_enum, decode, max_field_number}
use pbz.Wire.Tag.Codec.{decode_inv}
use pbz.Wire.Varint.{Cursor, read_varint_at}
use pbz.Wire.Raw.{tag_number, raw_field_number}

wire_type-le : (w : WireType) → int_from_enum w ≤ 5
wire_type-le WireType.varint = omega arith
wire_type-le _ = omega arith

-- What a raw field starts with, where its number is `n`: a tag of the number.
pub record Starts (raw : List ℕ) (n : ℕ) : Type 0 where
  pub wire : ℕ
  pub end : ℕ
  pub small : wire ≤ 5
  pub positive : 0 < n
  pub fits : n ≤ max_field_number
  pub read : read_varint_at raw 0 ≡ (ok (n * 8 + wire), end)

tag_step :
    (raw : List ℕ) (n v j : ℕ) (d : Result Tag)
    → read_varint_at raw 0 ≡ (ok v, j)
    → decode v ≡ d
    → (if ltb 5 j then err malformed_varint else (d >>= λ t. ok t.number)) ≡ ok n
    → Starts raw n
tag_step raw n v j (ok t) read e h =
    let (lo, hi, value) = decode_inv v e in
    let same : t.number ≡ n = ground arith in
    record {
      wire = int_from_enum t.wire_type;
      end = j;
      small = wire_type-le t.wire_type;
      positive = omega arith;
      fits = omega arith;
      read = read ∙ ap (λ x. (ok x, j)) (value ∙ omega arith);
    }
tag_step raw n v j (err x) read e h = absurd (ground arith)
tag_step raw n v j out_of_fuel read e h = absurd (ground arith)

cursor_step :
    (raw : List ℕ) (n : ℕ) (c : Cursor ℕ)
    → read_varint_at raw 0 ≡ c
    → tag_number c ≡ ok n
    → Starts raw n
unfolding tag_number
cursor_step raw n (ok v, j) read h = tag_step raw n v j (decode v) read refl h
cursor_step raw n (err x, j) read h = absurd (ground arith)
cursor_step raw n (out_of_fuel, j) read h = absurd (ground arith)

pub raw_field_number-Starts : (raw : List ℕ) (n : ℕ) → raw_field_number raw ≡ ok n → Starts raw n
unfolding raw_field_number
raw_field_number-Starts raw n h = cursor_step raw n (read_varint_at raw 0) refl h
