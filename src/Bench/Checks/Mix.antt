-- ===== src/Bench/Checks/Mix.antt =====
-- The checks of the texts of ScalarMix.
use pbz.Common.{Bool, ℕ, List, Option, some, not, ◌||◌}
use pbz.Wire.ZigZag.{pos, negsuc}
use pbz.Bench.Search.{codes, lacks}
use pbz.Bench.Message.{message_to_json_string, json_string_to_message}
use pbz.Bench.Runs.Json.{proto_name_json_options, enum_number_json_options}
use pbz.Bench.Makers.{ScalarMixClass, bench_kind_beta}
use pbz.Bench.Checks.{ScalarMixReader, ◌>>=◌, ◌>>◌, abort_if, ◌!=◌, ◌!=ℤ◌}

abbrev pub open_enum_json : List ℕ
open_enum_json = codes "{\"kind\":123}"

abbrev pub enum_name_json : List ℕ
enum_name_json = codes "{\"kind\":\"BENCH_KIND_BETA\"}"

abbrev pub proto_name_json : List ℕ
proto_name_json = codes "{\"big_delta\":-321,\"signed_fixed\":-123,\"signed_big_fixed\":-456}"

abbrev pub int_exponent_json : List ℕ
int_exponent_json =
    codes
      "{\"count\":1.2345e4,\"total\":9.87654321e9,\"delta\":-3.21e2,\"bigDelta\":-9.876543e6,\"checksum\":3.21e2,\"token\":4.096e3,\"signedFixed\":-1.23456e5,\"signedBigFixed\":-9.876543e6,\"ids\":[1e0,1.27e2,1.28e2]}"

abbrev pub string_number_json : List ℕ
string_number_json =
    codes
      "{\"count\":\"12345\",\"total\":\"9876543210\",\"delta\":\"-321\",\"bigDelta\":\"-9876543\",\"checksum\":\"321\",\"token\":\"4096\",\"signedFixed\":\"-123456\",\"signedBigFixed\":\"-9876543\",\"ids\":[\"1\",\"127\",\"128\"]}"

module _ {S : ScalarMixClass} (r : ScalarMixReader S) where
  abbrev pub values_differ : S.Msg → S.Msg → Bool
  values_differ scalarmix decoded =
      r.count decoded !=ℤ r.count scalarmix
      || r.total decoded != r.total scalarmix
      || r.big_delta decoded !=ℤ r.big_delta scalarmix
      || r.kind decoded != r.kind scalarmix
      || r.ids_size decoded != r.ids_size scalarmix
      || r.ids decoded 5 != 9876543210

  unfoldable pub prepare_scalarmix_json : S.Msg → Option (List ℕ)
  prepare_scalarmix_json scalarmix = do
    json ← message_to_json_string S.message scalarmix
    abort_if (
        lacks json "\"bigDelta\":\"-9876543\""
        || lacks json "\"kind\":\"BENCH_KIND_BETA\""
        || lacks json "\"ids\":[\"1\",\"127\",\"128\"")
    decoded ← json_string_to_message S.message json S.new
    abort_if (values_differ scalarmix decoded)
    some json

  unfoldable pub prepare_proto_name_stringify_json : S.Msg → Option (List ℕ)
  prepare_proto_name_stringify_json scalarmix = do
    json ← S.message.message_to_json_string_with proto_name_json_options scalarmix
    abort_if (
        lacks json "\"big_delta\""
        || lacks json "\"signed_fixed\""
        || lacks json "\"signed_big_fixed\""
        || not (lacks json "\"bigDelta\""))
    some json

  unfoldable pub prepare_enum_number_stringify_json : S.Msg → Option (List ℕ)
  prepare_enum_number_stringify_json scalarmix = do
    json ← S.message.message_to_json_string_with enum_number_json_options scalarmix
    abort_if (lacks json "\"kind\":2" || not (lacks json "BENCH_KIND_BETA"))
    some json

  unfoldable pub check_open_enum_json : Option (Unit {0})
  check_open_enum_json = do
    decoded ← json_string_to_message S.message open_enum_json S.new
    abort_if (r.kind decoded != 123)

  unfoldable pub check_enum_name_json : Option (Unit {0})
  check_enum_name_json = do
    decoded ← json_string_to_message S.message enum_name_json S.new
    abort_if (r.kind decoded != bench_kind_beta)

  unfoldable pub check_proto_name_json : Option (Unit {0})
  check_proto_name_json = do
    decoded ← json_string_to_message S.message proto_name_json S.new
    abort_if (
        r.big_delta decoded !=ℤ negsuc 320
        || r.signed_fixed decoded !=ℤ negsuc 122
        || r.signed_big_fixed decoded !=ℤ negsuc 455)

  -- Whether the numbers are not those that the texts write.
  abbrev pub numbers_differ : S.Msg → Bool
  numbers_differ m =
      r.count m !=ℤ pos 12345
      || r.total m != 9876543210
      || r.delta m !=ℤ negsuc 320
      || r.big_delta m !=ℤ negsuc 9876542
      || r.checksum m != 321
      || r.token m != 4096
      || r.signed_fixed m !=ℤ negsuc 123455
      || r.signed_big_fixed m !=ℤ negsuc 9876542
      || r.ids_size m != 3
      || r.ids m 0 != 1
      || r.ids m 1 != 127
      || r.ids m 2 != 128

  unfoldable pub check_int_exponent_json : Option (Unit {0})
  check_int_exponent_json = do
    decoded ← json_string_to_message S.message int_exponent_json S.new
    abort_if (numbers_differ decoded)

  unfoldable pub check_string_number_json : Option (Unit {0})
  check_string_number_json = do
    decoded ← json_string_to_message S.message string_number_json S.new
    abort_if (numbers_differ decoded)
