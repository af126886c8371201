-- ===== src/Wire/Tag.antt =====
-- `WireType` and `Tag` of src/wire.zig. A `FieldNumber` is a number below 2 ^ 29.
pub mod Codec
use pbz.Common.{ℕ, ◌*◌, ◌/◌, ◌-◌, ◌^◌, ◌<◌, Bool, ◌||◌, ltb, ◌==◌, if◌then◌else◌, bit_and, bit_or}
use pbz.Wire.Result.{Result, ok, err, invalid_field_number, invalid_wire_type, ◌>>=◌}

-- `enum(u3)`.
pub data WireType : Type 0 where
  varint fixed64 length_delimited start_group end_group fixed32 : WireType

-- `@intFromEnum`.
abbrev pub int_from_enum : WireType → ℕ
int_from_enum varint = 0
int_from_enum fixed64 = 1
int_from_enum length_delimited = 2
int_from_enum start_group = 3
int_from_enum end_group = 4
int_from_enum fixed32 = 5

unfoldable pub from_int : ℕ → Result WireType
from_int value =
    if value == 0
    then ok varint
    else if value == 1
    then ok fixed64
    else if value == 2
    then ok length_delimited
    else if value == 3
    then ok start_group
    else if value == 4
    then ok end_group
    else if value == 5
    then ok fixed32
    else err invalid_wire_type

-- `std.math.maxInt(FieldNumber)`.
abbrev pub max_field_number : ℕ
max_field_number = 2 ^ 29 - 1

pub record Tag : Type 0 where
  pub number : ℕ
  pub wire_type : WireType

unfoldable pub encode : Tag → Result ℕ
encode t =
    if t.number == 0
    then err invalid_field_number
    else ok (bit_or (t.number * 2 ^ 3) (int_from_enum t.wire_type))

unfoldable pub decode : ℕ → Result Tag
decode value =
    let number = value / 2 ^ 3 in
    if number == 0 || ltb max_field_number number
    then err invalid_field_number
    else do w ← from_int (bit_and value 7); ok (record { number = number; wire_type = w })
