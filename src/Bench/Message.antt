-- ===== src/Bench/Message.antt =====
-- The protobuf library, as bench/cpp_protobuf/main.cc uses it. It is not part of the repository, so a
-- generated message class is a parameter of the runs.
use pbz.Common.{ℕ, List, Option, Bool, false}

-- `JsonPrintOptions` and `JsonParseOptions`, with the fields that the benchmark sets.
pub record JsonPrintOptions : Type 0 where
  pub always_print_primitive_fields : Bool
  pub preserve_proto_field_names : Bool
  pub always_print_enums_as_ints : Bool

pub record JsonParseOptions : Type 0 where
  pub ignore_unknown_fields : Bool

abbrev pub default_print : JsonPrintOptions
default_print = record {
  always_print_primitive_fields = false;
  preserve_proto_field_names = false;
  always_print_enums_as_ints = false;
}

abbrev pub default_parse : JsonParseOptions
default_parse = record { ignore_unknown_fields = false }

-- A generated message class, with the calls that the benchmark makes of it. `none` is a call that
-- reports a failure.
pub record Message : Type 1 where
  pub Msg : Type 0
  -- The default constructor.
  pub new : Msg
  -- `Clear`.
  pub clear : Msg → Msg
  -- `SerializeToString(&out)`: the new contents of `out`.
  pub serialize_to_string : Msg → List ℕ
  -- `SerializeToArray(buffer.data(), buffer.size())`: the new contents of the buffer.
  pub serialize_to_array : Msg → List ℕ → Option (List ℕ)
  -- Deterministic `SerializeWithCachedSizes` into a stream over the buffer; `none` is `HadError`.
  pub serialize_deterministic : Msg → List ℕ → Option (List ℕ)
  -- `ParseFromString(bytes)`: the message after the call.
  pub parse_from_string : List ℕ → Msg → Option Msg
  -- `MessageToJsonString` and `JsonStringToMessage`; a JSON text is given by its bytes.
  pub message_to_json_string_with : JsonPrintOptions → Msg → Option (List ℕ)
  pub json_string_to_message_with : JsonParseOptions → List ℕ → Msg → Option Msg
  -- `TextFormat::PrintToString` and `TextFormat::ParseFromString`.
  pub print_to_string : Msg → Option (List ℕ)
  pub parse_text : List ℕ → Msg → Option Msg

-- The JSON calls without options.
abbrev pub message_to_json_string : (M : Message) → M.Msg → Option (List ℕ)
message_to_json_string M message = M.message_to_json_string_with default_print message

abbrev pub json_string_to_message : (M : Message) → List ℕ → M.Msg → Option M.Msg
json_string_to_message M json message = M.json_string_to_message_with default_parse json message
