-- ===== src/Bench/Runs/Json.antt =====
-- The timed runs on JSON and on the text format in `main` of bench/cpp_protobuf/main.cc, and all the
-- runs of the message Complex.
pub mod Complete
use pbz.Common.{ℕ, List, [], length, true}
use pbz.Bench.Timing.{String, Main, ◌>>=◌, ◌>>◌}
use pbz.Bench.Message.{Message, JsonPrintOptions, JsonParseOptions, default_print, default_parse}
use pbz.Bench.Runs.{
  timed, iterations, encode, encode_reuse, encode_array_reuse, encode_deterministic_reuse, decode,
  decode_reuse, json_stringify, json_parse,
}

abbrev pub always_print_json_options : JsonPrintOptions
always_print_json_options = record default_print { always_print_primitive_fields = true }

abbrev pub proto_name_json_options : JsonPrintOptions
proto_name_json_options = record default_print { preserve_proto_field_names = true }

abbrev pub enum_number_json_options : JsonPrintOptions
enum_number_json_options = record default_print { always_print_enums_as_ints = true }

abbrev pub ignore_unknown_json_options : JsonParseOptions
ignore_unknown_json_options = record { ignore_unknown_fields = true }

module _ (clock : ℕ → ℕ) (M : Message) where
  open M use {Msg, new, clear}

  unfoldable pub json_stringify_with : String → ℕ → JsonPrintOptions → Msg → Main (Unit {0})
  json_stringify_with name size options message =
      timed clock M name iterations size
        (λ (out : List ℕ). M.message_to_json_string_with options message) []

  -- `reused.clear()`, then the text is written into the same string.
  unfoldable pub json_stringify_reuse : String → ℕ → Msg → Main (Unit {0})
  json_stringify_reuse name size message =
      timed clock M name iterations size
        (λ (reused : List ℕ). M.message_to_json_string_with default_print message) []

  unfoldable pub json_parse_with : String → JsonParseOptions → List ℕ → Main (Unit {0})
  json_parse_with name options json =
      timed clock M name iterations (length json)
        (λ (decoded : Msg). M.json_string_to_message_with options json new) new

  -- `reused.Clear()`, then the parse into the same message.
  unfoldable pub json_parse_reuse : String → List ℕ → Main (Unit {0})
  json_parse_reuse name json =
      timed clock M name iterations (length json)
        (λ (reused : Msg). M.json_string_to_message_with default_parse json (clear reused)) new

  unfoldable pub text_format : String → ℕ → Msg → Main (Unit {0})
  text_format name size message =
      timed clock M name iterations size (λ (out : List ℕ). M.print_to_string message) []

  unfoldable pub text_format_reuse : String → ℕ → Msg → Main (Unit {0})
  text_format_reuse name size message =
      timed clock M name iterations size (λ (reused : List ℕ). M.print_to_string message) []

  unfoldable pub text_parse : String → List ℕ → Main (Unit {0})
  text_parse name text =
      timed clock M name iterations (length text) (λ (decoded : Msg). M.parse_text text new) new

  unfoldable pub text_parse_reuse : String → List ℕ → Main (Unit {0})
  text_parse_reuse name text =
      timed clock M name iterations (length text)
        (λ (reused : Msg). M.parse_text text (clear reused)) new

  unfoldable pub complex_binary_runs : Msg → Main (Unit {0})
  complex_binary_runs complex = do
    encode clock M "c++ protobuf complex encode" complex
    encode_reuse clock M "c++ protobuf complex encode reuse" complex
    encode_array_reuse clock M "c++ protobuf complex SerializeToArray reuse" complex
    encode_deterministic_reuse clock M "c++ protobuf complex deterministic binary encode reuse"
        complex
    decode clock M "c++ protobuf complex decode" complex
    decode_reuse clock M "c++ protobuf complex decode reuse" complex

  unfoldable pub complex_text_runs : Msg → List ℕ → List ℕ → List ℕ → Main (Unit {0})
  complex_text_runs complex json proto_name_json text = do
    json_stringify clock M "c++ protobuf complex JSON stringify" (length json) complex
    json_stringify_reuse "c++ protobuf complex JSON stringify reuse" (length json) complex
    json_parse clock M "c++ protobuf complex JSON parse" json
    json_parse_reuse "c++ protobuf complex JSON parse reuse" json
    json_stringify_with "c++ protobuf Complex ProtoName JSON stringify" (length proto_name_json)
        proto_name_json_options complex
    json_parse clock M "c++ protobuf Complex ProtoName JSON parse" proto_name_json
    text_format "c++ protobuf complex TextFormat format" (length text) complex
    text_format_reuse "c++ protobuf complex TextFormat format reuse" (length text) complex
    text_parse "c++ protobuf complex TextFormat parse" text
    text_parse_reuse "c++ protobuf complex TextFormat parse reuse" text

  unfoldable pub person_text_runs : Msg → List ℕ → Main (Unit {0})
  person_text_runs person text = do
    text_format "c++ protobuf TextFormat format" (length text) person
    text_format_reuse "c++ protobuf TextFormat format reuse" (length text) person
    text_parse "c++ protobuf TextFormat parse" text
    text_parse_reuse "c++ protobuf TextFormat parse reuse" text

-- The JSON texts of Person and ScalarMix, under their names in `main`.
pub record JsonTexts : Type 0 where
  pub json : List ℕ
  pub scalarmix_json : List ℕ
  pub always_print_stringify_json : List ℕ
  pub proto_name_stringify_json : List ℕ
  pub enum_number_stringify_json : List ℕ
  pub map_key_surrogate_json : List ℕ
  pub null_fields_json : List ℕ
  pub ignore_unknown_json : List ℕ
  pub open_enum_json : List ℕ
  pub enum_name_json : List ℕ
  pub proto_name_json : List ℕ
  pub int_exponent_json : List ℕ
  pub string_number_json : List ℕ

module _ (clock : ℕ → ℕ) (P S : Message) where
  -- `P` is the class Person, `S` the class ScalarMix.
  unfoldable pub json_runs : P.Msg → P.Msg → S.Msg → JsonTexts → Main (Unit {0})
  json_runs person empty_person scalarmix texts = do
    json_stringify clock P "c++ protobuf JSON stringify" (length texts.json) person
    json_stringify clock S "c++ protobuf ScalarMix JSON stringify" (length texts.scalarmix_json)
        scalarmix
    json_stringify_with clock P "c++ protobuf AlwaysPrint JSON stringify"
        (length texts.always_print_stringify_json) always_print_json_options empty_person
    json_stringify_with clock S "c++ protobuf ProtoName JSON stringify"
        (length texts.proto_name_stringify_json) proto_name_json_options scalarmix
    json_stringify_with clock S "c++ protobuf EnumNumber JSON stringify"
        (length texts.enum_number_stringify_json) enum_number_json_options scalarmix
    json_stringify_reuse clock P "c++ protobuf JSON stringify reuse" (length texts.json) person
    json_parse clock P "c++ protobuf JSON parse" texts.json
    json_parse_reuse clock P "c++ protobuf JSON parse reuse" texts.json
    json_parse clock S "c++ protobuf ScalarMix JSON parse" texts.scalarmix_json
    json_parse clock P "c++ protobuf MapKeySurrogate JSON parse" texts.map_key_surrogate_json
    json_parse clock P "c++ protobuf NullFields JSON parse" texts.null_fields_json
    json_parse_with clock P "c++ protobuf IgnoreUnknown JSON parse" ignore_unknown_json_options
        texts.ignore_unknown_json
    json_parse clock S "c++ protobuf OpenEnum JSON parse" texts.open_enum_json
    json_parse clock S "c++ protobuf EnumName JSON parse" texts.enum_name_json
    json_parse clock S "c++ protobuf ProtoName JSON parse" texts.proto_name_json
    json_parse clock S "c++ protobuf IntExponent JSON parse" texts.int_exponent_json
    json_parse clock S "c++ protobuf StringNumber JSON parse" texts.string_number_json
