-- ===== src/Bench/Runs/Mixed.antt =====
-- The timed runs of the other message classes in `main` of bench/cpp_protobuf/main.cc, and its helpers
-- for the JSON runs of the well-known types.
pub mod Complete
pub mod Unknown
use pbz.Common.{ℕ, List, [], Option, none, some, ◌==◌, if◌then◌else◌, length}
use Prim.Native.String.{◌++◌}
use pbz.Bench.Timing.{String, World, Main, ◌>>=◌, ◌>>◌, print, run_timed}
use pbz.Bench.Message.{Message, message_to_json_string, json_string_to_message}
use pbz.Bench.Unknown.{
  unknown_field_stress_count, unknown_field_stress_first_number,
  unknown_field_stress_count_per_number, make_unknown_field_payload, unknown_field_count_by_number,
}
use pbz.Bench.Runs.{
  timed, iterations, encode, encode_reuse, encode_array_reuse, encode_deterministic_reuse, decode,
  decode_reuse, json_stringify, json_parse,
}

module _ (clock : ℕ → ℕ) (M : Message) where
  unfoldable pub person_runs : M.Msg → Main (Unit {0})
  person_runs person = do
    encode clock M "c++ protobuf binary encode" person
    encode_reuse clock M "c++ protobuf binary encode reuse" person
    encode_array_reuse clock M "c++ protobuf binary SerializeToArray reuse" person
    encode_deterministic_reuse clock M "c++ protobuf deterministic binary encode reuse" person
    decode clock M "c++ protobuf binary decode" person
    decode_reuse clock M "c++ protobuf binary decode reuse" person

  unfoldable pub scalarmix_runs : M.Msg → Main (Unit {0})
  scalarmix_runs scalarmix = do
    encode clock M "c++ protobuf scalarmix encode" scalarmix
    encode_array_reuse clock M "c++ protobuf scalarmix SerializeToArray reuse" scalarmix
    decode clock M "c++ protobuf scalarmix decode" scalarmix
    decode_reuse clock M "c++ protobuf scalarmix decode reuse" scalarmix

  unfoldable pub textbytes_runs : M.Msg → List ℕ → Main (Unit {0})
  textbytes_runs textbytes json = do
    encode clock M "c++ protobuf textbytes encode" textbytes
    encode_reuse clock M "c++ protobuf textbytes encode reuse" textbytes
    encode_array_reuse clock M "c++ protobuf textbytes SerializeToArray reuse" textbytes
    decode clock M "c++ protobuf textbytes decode" textbytes
    decode_reuse clock M "c++ protobuf textbytes decode reuse" textbytes
    json_stringify clock M "c++ protobuf TextBytes JSON stringify" (length json) textbytes
    json_parse clock M "c++ protobuf TextBytes JSON parse" json

  unfoldable pub largebytes_runs : M.Msg → Main (Unit {0})
  largebytes_runs largebytes = do
    encode clock M "c++ protobuf largebytes encode" largebytes
    encode_reuse clock M "c++ protobuf largebytes encode reuse" largebytes
    encode_array_reuse clock M "c++ protobuf largebytes SerializeToArray reuse" largebytes
    decode clock M "c++ protobuf largebytes decode" largebytes
    decode_reuse clock M "c++ protobuf largebytes decode reuse" largebytes

  unfoldable pub presencemix_runs : M.Msg → List ℕ → Main (Unit {0})
  presencemix_runs presencemix json = do
    encode clock M "c++ protobuf presencemix encode" presencemix
    encode_reuse clock M "c++ protobuf presencemix encode reuse" presencemix
    encode_array_reuse clock M "c++ protobuf presencemix SerializeToArray reuse" presencemix
    decode clock M "c++ protobuf presencemix decode" presencemix
    decode_reuse clock M "c++ protobuf presencemix decode reuse" presencemix
    json_stringify clock M "c++ protobuf PresenceMix JSON stringify" (length json) presencemix
    json_parse clock M "c++ protobuf PresenceMix JSON parse" json

  unfoldable pub large_map_runs : M.Msg → M.Msg → List ℕ → Main (Unit {0})
  large_map_runs large_map shuffled_large_map json = do
    encode clock M "c++ protobuf large map encode" large_map
    encode_array_reuse clock M "c++ protobuf large map SerializeToArray reuse" large_map
    encode_deterministic_reuse clock M
        "c++ protobuf shuffled large map deterministic binary encode reuse" shuffled_large_map
    decode clock M "c++ protobuf large map decode" large_map
    decode_reuse clock M "c++ protobuf large map decode reuse" large_map
    json_stringify clock M "c++ protobuf LargeMap JSON stringify" (length json) large_map
    json_parse clock M "c++ protobuf LargeMap JSON parse" json

  unfoldable pub run_wkt_json_bench_pair : String → M.Msg → List ℕ → ℕ → Main (Unit {0})
  run_wkt_json_bench_pair type_name message json n = do
    timed clock M ("c++ protobuf " ++ type_name ++ " JSON stringify") n (length json)
        (λ (out : List ℕ). message_to_json_string M message) []
    timed clock M ("c++ protobuf " ++ type_name ++ " JSON parse") n (length json)
        (λ (decoded : M.Msg). json_string_to_message M json M.new) M.new

  unfoldable pub run_wkt_json_parse_only : String → List ℕ → ℕ → Main (Unit {0})
  run_wkt_json_parse_only type_name json n =
      timed clock M ("c++ protobuf " ++ type_name ++ " JSON parse") n (length json)
        (λ (decoded : M.Msg). json_string_to_message M json M.new) M.new

-- `unknown_fields` gives the numbers of the fields of `GetReflection()->GetUnknownFields(m)`.
module _ (M : Message) (unknown_fields : M.Msg → List ℕ) where
  unfoldable pub checked_unknown : List ℕ → M.Msg → Option M.Msg
  checked_unknown unknown_bytes decoded = elim (M.parse_from_string unknown_bytes M.new) [
    | none ↦ none
    | some m ↦ if length (unknown_fields m) == unknown_field_stress_count then some m else none
  ]

  unfoldable pub checked_count : M.Msg → ℕ → Option ℕ
  checked_count unknown_person _ =
      let count =
        unknown_field_count_by_number (unknown_fields unknown_person)
          unknown_field_stress_first_number in
      if count == unknown_field_stress_count_per_number then some count else none

  unfoldable pub unknown_runs : (ℕ → ℕ) → List ℕ → M.Msg → Main (Unit {0})
  unknown_runs clock unknown_bytes unknown_person = do
    timed clock M "c++ protobuf unknown fields decode" 1000 (length unknown_bytes)
        (checked_unknown unknown_bytes) M.new
    timed clock M "c++ protobuf unknown fields count by number" iterations (length unknown_bytes)
        (checked_count unknown_person) 0
