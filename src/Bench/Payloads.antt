-- ===== src/Bench/Payloads.antt =====
-- The makers of the packed messages in bench/cpp_protobuf/main.cc: loops of 1024 calls of
-- `add_values`.
pub mod Ranges
pub mod Values
use pbz.Common.{ℕ, zero, suc, ◌+◌, ◌-◌, ◌*◌, ◌%◌, ◌^◌, Bool, not, ◌==◌, if◌then◌else◌, bit_and}
use pbz.Wire.ZigZag.{ℤ, pos, negsuc}
use pbz.Bench.Message.{Message}

-- A message class with one repeated field of values of type `V`.
pub record Repeated (V : Type 0) : Type 1 where
  pub message : Message
  pub open message use *
  pub add_values : V → Msg → Msg

abbrev pub packed_count : ℕ
packed_count = 1024

-- `-magnitude`.
abbrev pub negate : ℕ → ℤ
negate zero = pos 0
negate (suc n) = negsuc n

-- `(i & 1) == 0 ? magnitude : -magnitude`.
abbrev alternate : ℕ → ℕ → ℤ
alternate i magnitude = if bit_and i 1 == 0 then pos magnitude else negate magnitude

unfoldable pub packed_value : ℕ → ℤ
packed_value i = pos (i % 4096)

unfoldable pub fixed_packed_value : ℕ → ℕ
fixed_packed_value i = i * 3 + 1

unfoldable pub fixed64_packed_value : ℕ → ℕ
fixed64_packed_value i = i * 5 + 1

unfoldable pub sfixed_packed_value : ℕ → ℤ
sfixed_packed_value i = alternate i (i * 7 + 1)

unfoldable pub sfixed64_packed_value : ℕ → ℤ
sfixed64_packed_value i = alternate i (i * 2 ^ 20 + i * 11 + 1)

-- `i * 0.25f + 1.0f`, in quarters; the value is exact in a `float`.
unfoldable pub float_packed_quarters : ℕ → ℕ
float_packed_quarters i = i + 4

-- `i * 0.5 + 1.0`, in halves; the value is exact in a `double`.
unfoldable pub double_packed_halves : ℕ → ℕ
double_packed_halves i = i + 2

unfoldable pub uint64_packed_value : ℕ → ℕ
uint64_packed_value i = i * 2 ^ 21 + i * 17 + 1

unfoldable pub uint32_packed_value : ℕ → ℕ
uint32_packed_value i = i * 2 ^ 12 + i * 3 + 1

unfoldable pub int64_packed_value : ℕ → ℤ
int64_packed_value i = alternate i (i * 2 ^ 20 + i * 7 + 1)

unfoldable pub sint32_packed_value : ℕ → ℤ
sint32_packed_value i = alternate i (i * 5 + 1)

unfoldable pub sint64_packed_value : ℕ → ℤ
sint64_packed_value i = alternate i (i * 2 ^ 20 + i * 13 + 1)

unfoldable pub bool_packed_value : ℕ → Bool
bool_packed_value i = not (i % 3 == 0)

-- The number of the `BenchKind`.
unfoldable pub enum_packed_value : ℕ → ℕ
enum_packed_value i = i % 3

-- Rounds `i, ..., i + n - 1` of `for (...) packed.add_values(value(i));`.
unfoldable pub add_all : {V : Type 0} (R : Repeated V) → (ℕ → V) → ℕ → ℕ → R.Msg → R.Msg
add_all R value zero i packed = packed
add_all R value (suc n) i packed = add_all R value n (i + 1) (R.add_values (value i) packed)

unfoldable pub make_packed : (R : Repeated ℤ) → R.Msg
make_packed R = add_all R packed_value packed_count 0 R.new

unfoldable pub make_fixed_packed : (R : Repeated ℕ) → R.Msg
make_fixed_packed R = add_all R fixed_packed_value packed_count 0 R.new

unfoldable pub make_fixed64_packed : (R : Repeated ℕ) → R.Msg
make_fixed64_packed R = add_all R fixed64_packed_value packed_count 0 R.new

unfoldable pub make_sfixed_packed : (R : Repeated ℤ) → R.Msg
make_sfixed_packed R = add_all R sfixed_packed_value packed_count 0 R.new

unfoldable pub make_sfixed64_packed : (R : Repeated ℤ) → R.Msg
make_sfixed64_packed R = add_all R sfixed64_packed_value packed_count 0 R.new

unfoldable pub make_float_packed : (R : Repeated ℕ) → R.Msg
make_float_packed R = add_all R float_packed_quarters packed_count 0 R.new

unfoldable pub make_double_packed : (R : Repeated ℕ) → R.Msg
make_double_packed R = add_all R double_packed_halves packed_count 0 R.new

unfoldable pub make_uint64_packed : (R : Repeated ℕ) → R.Msg
make_uint64_packed R = add_all R uint64_packed_value packed_count 0 R.new

unfoldable pub make_uint32_packed : (R : Repeated ℕ) → R.Msg
make_uint32_packed R = add_all R uint32_packed_value packed_count 0 R.new

unfoldable pub make_int64_packed : (R : Repeated ℤ) → R.Msg
make_int64_packed R = add_all R int64_packed_value packed_count 0 R.new

unfoldable pub make_sint32_packed : (R : Repeated ℤ) → R.Msg
make_sint32_packed R = add_all R sint32_packed_value packed_count 0 R.new

unfoldable pub make_sint64_packed : (R : Repeated ℤ) → R.Msg
make_sint64_packed R = add_all R sint64_packed_value packed_count 0 R.new

unfoldable pub make_bool_packed : (R : Repeated Bool) → R.Msg
make_bool_packed R = add_all R bool_packed_value packed_count 0 R.new

unfoldable pub make_enum_packed : (R : Repeated ℕ) → R.Msg
make_enum_packed R = add_all R enum_packed_value packed_count 0 R.new
