-- ===== src/Bench/Runs/Packed.antt =====
-- The timed runs of the packed messages in `main` of bench/cpp_protobuf/main.cc.
pub mod Names
pub mod Complete
use pbz.Common.{ℕ, Bool}
use pbz.Wire.ZigZag.{ℤ}
use pbz.Bench.Timing.{String, World, Main, ◌>>=◌, ◌>>◌}
use pbz.Bench.Message.{Message}
use pbz.Bench.Runs.{encode, encode_reuse, encode_array_reuse, decode, decode_reuse}
use pbz.Bench.Payloads.{
  Repeated, make_packed, make_fixed_packed, make_fixed64_packed, make_sfixed_packed,
  make_sfixed64_packed, make_float_packed, make_double_packed, make_uint64_packed,
  make_uint32_packed, make_int64_packed, make_sint32_packed, make_sint64_packed, make_bool_packed,
  make_enum_packed,
}

module _ (clock : ℕ → ℕ) (M : Message) where
  unfoldable pub packed_runs : M.Msg → Main (Unit {0})
  packed_runs packed = do
    encode clock M "c++ protobuf packed encode" packed
    encode_reuse clock M "c++ protobuf packed encode reuse" packed
    encode_array_reuse clock M "c++ protobuf packed SerializeToArray reuse" packed
    decode clock M "c++ protobuf packed decode" packed
    decode_reuse clock M "c++ protobuf packed decode reuse" packed

  unfoldable pub fixed_packed_runs : M.Msg → Main (Unit {0})
  fixed_packed_runs fixed_packed = do
    encode clock M "c++ protobuf fixed32 packed encode" fixed_packed
    encode_array_reuse clock M "c++ protobuf fixed32 packed SerializeToArray reuse" fixed_packed
    decode clock M "c++ protobuf fixed32 packed decode" fixed_packed
    decode_reuse clock M "c++ protobuf fixed32 packed decode reuse" fixed_packed

  unfoldable pub fixed64_packed_runs : M.Msg → Main (Unit {0})
  fixed64_packed_runs fixed64_packed = do
    encode clock M "c++ protobuf fixed64 packed encode" fixed64_packed
    encode_array_reuse clock M "c++ protobuf fixed64 packed SerializeToArray reuse" fixed64_packed
    decode clock M "c++ protobuf fixed64 packed decode" fixed64_packed
    decode_reuse clock M "c++ protobuf fixed64 packed decode reuse" fixed64_packed

  unfoldable pub sfixed_packed_runs : M.Msg → Main (Unit {0})
  sfixed_packed_runs sfixed_packed = do
    encode clock M "c++ protobuf sfixed32 packed encode" sfixed_packed
    encode_array_reuse clock M "c++ protobuf sfixed32 packed SerializeToArray reuse" sfixed_packed
    decode clock M "c++ protobuf sfixed32 packed decode" sfixed_packed
    decode_reuse clock M "c++ protobuf sfixed32 packed decode reuse" sfixed_packed

  unfoldable pub sfixed64_packed_runs : M.Msg → Main (Unit {0})
  sfixed64_packed_runs sfixed64_packed = do
    encode clock M "c++ protobuf sfixed64 packed encode" sfixed64_packed
    encode_array_reuse clock M "c++ protobuf sfixed64 packed SerializeToArray reuse" sfixed64_packed
    decode clock M "c++ protobuf sfixed64 packed decode" sfixed64_packed
    decode_reuse clock M "c++ protobuf sfixed64 packed decode reuse" sfixed64_packed

  unfoldable pub float_packed_runs : M.Msg → Main (Unit {0})
  float_packed_runs float_packed = do
    encode clock M "c++ protobuf float packed encode" float_packed
    encode_array_reuse clock M "c++ protobuf float packed SerializeToArray reuse" float_packed
    decode clock M "c++ protobuf float packed decode" float_packed
    decode_reuse clock M "c++ protobuf float packed decode reuse" float_packed

  unfoldable pub double_packed_runs : M.Msg → Main (Unit {0})
  double_packed_runs double_packed = do
    encode clock M "c++ protobuf double packed encode" double_packed
    encode_array_reuse clock M "c++ protobuf double packed SerializeToArray reuse" double_packed
    decode clock M "c++ protobuf double packed decode" double_packed
    decode_reuse clock M "c++ protobuf double packed decode reuse" double_packed

  unfoldable pub uint64_packed_runs : M.Msg → Main (Unit {0})
  uint64_packed_runs uint64_packed = do
    encode clock M "c++ protobuf uint64 packed encode" uint64_packed
    encode_array_reuse clock M "c++ protobuf uint64 packed SerializeToArray reuse" uint64_packed
    decode clock M "c++ protobuf uint64 packed decode" uint64_packed
    decode_reuse clock M "c++ protobuf uint64 packed decode reuse" uint64_packed

  unfoldable pub uint32_packed_runs : M.Msg → Main (Unit {0})
  uint32_packed_runs uint32_packed = do
    encode clock M "c++ protobuf uint32 packed encode" uint32_packed
    encode_array_reuse clock M "c++ protobuf uint32 packed SerializeToArray reuse" uint32_packed
    decode clock M "c++ protobuf uint32 packed decode" uint32_packed
    decode_reuse clock M "c++ protobuf uint32 packed decode reuse" uint32_packed

  unfoldable pub int64_packed_runs : M.Msg → Main (Unit {0})
  int64_packed_runs int64_packed = do
    encode clock M "c++ protobuf int64 packed encode" int64_packed
    encode_array_reuse clock M "c++ protobuf int64 packed SerializeToArray reuse" int64_packed
    decode clock M "c++ protobuf int64 packed decode" int64_packed
    decode_reuse clock M "c++ protobuf int64 packed decode reuse" int64_packed

  unfoldable pub sint32_packed_runs : M.Msg → Main (Unit {0})
  sint32_packed_runs sint32_packed = do
    encode clock M "c++ protobuf sint32 packed encode" sint32_packed
    encode_array_reuse clock M "c++ protobuf sint32 packed SerializeToArray reuse" sint32_packed
    decode clock M "c++ protobuf sint32 packed decode" sint32_packed
    decode_reuse clock M "c++ protobuf sint32 packed decode reuse" sint32_packed

  unfoldable pub sint64_packed_runs : M.Msg → Main (Unit {0})
  sint64_packed_runs sint64_packed = do
    encode clock M "c++ protobuf sint64 packed encode" sint64_packed
    encode_array_reuse clock M "c++ protobuf sint64 packed SerializeToArray reuse" sint64_packed
    decode clock M "c++ protobuf sint64 packed decode" sint64_packed
    decode_reuse clock M "c++ protobuf sint64 packed decode reuse" sint64_packed

  unfoldable pub bool_packed_runs : M.Msg → Main (Unit {0})
  bool_packed_runs bool_packed = do
    encode clock M "c++ protobuf bool packed encode" bool_packed
    encode_array_reuse clock M "c++ protobuf bool packed SerializeToArray reuse" bool_packed
    decode clock M "c++ protobuf bool packed decode" bool_packed
    decode_reuse clock M "c++ protobuf bool packed decode reuse" bool_packed

  unfoldable pub enum_packed_runs : M.Msg → Main (Unit {0})
  enum_packed_runs enum_packed = do
    encode clock M "c++ protobuf enum packed encode" enum_packed
    encode_array_reuse clock M "c++ protobuf enum packed SerializeToArray reuse" enum_packed
    decode clock M "c++ protobuf enum packed decode" enum_packed
    decode_reuse clock M "c++ protobuf enum packed decode reuse" enum_packed

-- The message classes of the packed benchmarks.
pub record PackedClasses : Type 1 where
  pub packed : Repeated ℤ
  pub fixed_packed : Repeated ℕ
  pub fixed64_packed : Repeated ℕ
  pub sfixed_packed : Repeated ℤ
  pub sfixed64_packed : Repeated ℤ
  pub float_packed : Repeated ℕ
  pub double_packed : Repeated ℕ
  pub uint64_packed : Repeated ℕ
  pub uint32_packed : Repeated ℕ
  pub int64_packed : Repeated ℤ
  pub sint32_packed : Repeated ℤ
  pub sint64_packed : Repeated ℤ
  pub bool_packed : Repeated Bool
  pub enum_packed : Repeated ℕ

-- The runs in the order of `main`, each on the message that its maker builds.
unfoldable pub all_packed_runs : (ℕ → ℕ) → PackedClasses → Main (Unit {0})
all_packed_runs clock c = do
  packed_runs clock c.packed.message (make_packed c.packed)
  fixed_packed_runs clock c.fixed_packed.message (make_fixed_packed c.fixed_packed)
  fixed64_packed_runs clock c.fixed64_packed.message (make_fixed64_packed c.fixed64_packed)
  sfixed_packed_runs clock c.sfixed_packed.message (make_sfixed_packed c.sfixed_packed)
  sfixed64_packed_runs clock c.sfixed64_packed.message (make_sfixed64_packed c.sfixed64_packed)
  float_packed_runs clock c.float_packed.message (make_float_packed c.float_packed)
  double_packed_runs clock c.double_packed.message (make_double_packed c.double_packed)
  uint64_packed_runs clock c.uint64_packed.message (make_uint64_packed c.uint64_packed)
  uint32_packed_runs clock c.uint32_packed.message (make_uint32_packed c.uint32_packed)
  int64_packed_runs clock c.int64_packed.message (make_int64_packed c.int64_packed)
  sint32_packed_runs clock c.sint32_packed.message (make_sint32_packed c.sint32_packed)
  sint64_packed_runs clock c.sint64_packed.message (make_sint64_packed c.sint64_packed)
  bool_packed_runs clock c.bool_packed.message (make_bool_packed c.bool_packed)
  enum_packed_runs clock c.enum_packed.message (make_enum_packed c.enum_packed)
