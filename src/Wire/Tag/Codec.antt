-- ===== src/Wire/Tag/Codec.antt =====
-- `Tag.encode` and `Tag.decode` are inverse to each other where they succeed.
use pbz.Common.{ℕ, ◌+◌, ◌*◌, ◌≤◌, ◌<◌, ◌≡◌, refl, sym, ap, bit_and, arith}
use pbz.Common.Bits.{or_fields_high, and_seven}
use pbz.Wire.Result.{ok, ◌>>=◌}
use pbz.Wire.Tag.{WireType, Tag, int_from_enum, from_int, max_field_number, encode, decode}

-- What `encode` returns, as a sum.
abbrev pub tag_value : Tag → ℕ
tag_value t = t.number * 8 + int_from_enum t.wire_type

pub int_from_enum-lt : (w : WireType) → int_from_enum w < 8
int_from_enum-lt WireType.varint = omega arith
int_from_enum-lt _ = omega arith

pub encode-eq-ok : (t : Tag) → 0 < t.number → encode t ≡ ok (tag_value t)
unfolding encode
encode-eq-ok t h =
    ground
      (arith, or_fields_high 3 t.number (int_from_enum t.wire_type) (int_from_enum-lt t.wire_type))

from_int-int_from_enum : (w : WireType) → from_int (int_from_enum w) ≡ ok w
unfolding from_int
from_int-int_from_enum WireType.varint = refl
from_int-int_from_enum _ = refl

pub decode_value :
    (number : ℕ) (w : WireType)
    → 0 < number
    → number ≤ max_field_number
    → decode (number * 8 + int_from_enum w) ≡ ok (record { number = number; wire_type = w })
unfolding decode
decode_value number w lo hi =
    ground (
      arith,
      and_seven (number * 8 + int_from_enum w),
      int_from_enum-lt w,
      from_int-int_from_enum w,
    )

from_int_inv : (i : ℕ) {w : WireType} → from_int i ≡ ok w → int_from_enum w ≡ i
unfolding from_int
from_int_inv i h = ground arith

-- What `decode` accepts: a field number of 1 to 2 ^ 29 - 1, and the value is the tag's.
pub decode_inv :
    (v : ℕ) {t : Tag}
    → decode v ≡ ok t
    → (0 < t.number) × (t.number ≤ max_field_number) × (v ≡ tag_value t)
unfolding decode
decode_inv v {t} h = ground (arith, and_seven v, from_int_inv (bit_and v 7) {w = t.wire_type})

-- For a field number other than 0 that fits 29 bits, `decode` returns the tag that `encode` was given.
pub decode-encode :
    (t : Tag) → 0 < t.number → t.number ≤ max_field_number → (encode t >>= decode) ≡ ok t
decode-encode t lo hi = rw (encode-eq-ok t lo) (decode_value t.number t.wire_type lo hi)

-- A value that `decode` accepts is what `encode` returns for the tag.
pub encode-decode : (v : ℕ) {t : Tag} → decode v ≡ ok t → encode t ≡ ok v
encode-decode v {t} h = let (lo, hi, e) = decode_inv v h in rw (encode-eq-ok t lo) (ap ok (sym e))
