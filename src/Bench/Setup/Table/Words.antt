-- ===== src/Bench/Setup/Table/Words.antt =====
-- The wrappers of 32-bit integers, truth values, texts and bytes that `main` prepares.
use pbz.Common.{List, [], ◌∷◌, ◌^◌, ◌-◌, true, false}
use pbz.Wire.ZigZag.{pos, negsuc}
use pbz.Bench.Wkt.{any, int32_value, uint32_value, bool_value, string_value, bytes_value}
use pbz.Bench.Setup.{
  Statement, declare, change, pack, print, literal, integer, truth, text, set_value,
}

abbrev pub int32_setup : List Statement
int32_setup =
    declare int32_value "int32_value"
    ∷ change "int32_value" [] (set_value (integer (pos 12345)))
    ∷ print "int32_value_json" "int32_value"
    ∷ literal "int32_value_string_json" "\"12345\""
    ∷ literal "int32_value_exponent_json" "1.2345e4"
    ∷ declare any "any_int32_value_wkt"
    ∷ pack "any_int32_value_wkt" "int32_value"
    ∷ print "any_int32_value_wkt_json" "any_int32_value_wkt"
    ∷ literal "any_int32_value_string_wkt_json"
        "{\"@type\":\"type.googleapis.com/google.protobuf.Int32Value\",\"value\":\"12345\"}"
    ∷ literal "any_int32_value_exponent_wkt_json"
        "{\"@type\":\"type.googleapis.com/google.protobuf.Int32Value\",\"value\":1.2345e4}"
    ∷ declare int32_value "zero_int32_value"
    ∷ change "zero_int32_value" [] (set_value (integer (pos 0)))
    ∷ print "zero_int32_value_json" "zero_int32_value"
    ∷ declare any "any_zero_int32_value_wkt"
    ∷ pack "any_zero_int32_value_wkt" "zero_int32_value"
    ∷ print "any_zero_int32_value_wkt_json" "any_zero_int32_value_wkt"
    ∷ declare int32_value "negative_int32_value"
    ∷ change "negative_int32_value" [] (set_value (integer (negsuc 12344)))
    ∷ print "negative_int32_value_json" "negative_int32_value"
    ∷ declare any "any_negative_int32_value_wkt"
    ∷ pack "any_negative_int32_value_wkt" "negative_int32_value"
    ∷ print "any_negative_int32_value_wkt_json" "any_negative_int32_value_wkt"
    ∷ declare int32_value "min_int32_value"
    ∷ change "min_int32_value" [] (set_value (integer (negsuc (2 ^ 31 - 1))))
    ∷ print "min_int32_value_json" "min_int32_value"
    ∷ declare any "any_min_int32_value_wkt"
    ∷ pack "any_min_int32_value_wkt" "min_int32_value"
    ∷ print "any_min_int32_value_wkt_json" "any_min_int32_value_wkt"
    ∷ declare int32_value "max_int32_value"
    ∷ change "max_int32_value" [] (set_value (integer (pos (2 ^ 31 - 1))))
    ∷ print "max_int32_value_json" "max_int32_value"
    ∷ declare any "any_max_int32_value_wkt"
    ∷ pack "any_max_int32_value_wkt" "max_int32_value"
    ∷ print "any_max_int32_value_wkt_json" "any_max_int32_value_wkt"
    ∷ declare uint32_value "uint32_value"
    ∷ change "uint32_value" [] (set_value (integer (pos 12345)))
    ∷ print "uint32_value_json" "uint32_value"
    ∷ literal "uint32_value_string_json" "\"12345\""
    ∷ literal "uint32_value_exponent_json" "1.2345e4"
    ∷ declare any "any_uint32_value_wkt"
    ∷ pack "any_uint32_value_wkt" "uint32_value"
    ∷ print "any_uint32_value_wkt_json" "any_uint32_value_wkt"
    ∷ literal "any_uint32_value_string_wkt_json"
        "{\"@type\":\"type.googleapis.com/google.protobuf.UInt32Value\",\"value\":\"12345\"}"
    ∷ literal "any_uint32_value_exponent_wkt_json"
        "{\"@type\":\"type.googleapis.com/google.protobuf.UInt32Value\",\"value\":1.2345e4}"
    ∷ declare uint32_value "zero_uint32_value"
    ∷ change "zero_uint32_value" [] (set_value (integer (pos 0)))
    ∷ print "zero_uint32_value_json" "zero_uint32_value"
    ∷ declare any "any_zero_uint32_value_wkt"
    ∷ pack "any_zero_uint32_value_wkt" "zero_uint32_value"
    ∷ print "any_zero_uint32_value_wkt_json" "any_zero_uint32_value_wkt"
    ∷ declare uint32_value "max_uint32_value"
    ∷ change "max_uint32_value" [] (set_value (integer (pos (2 ^ 32 - 1))))
    ∷ print "max_uint32_value_json" "max_uint32_value"
    ∷ declare any "any_max_uint32_value_wkt"
    ∷ pack "any_max_uint32_value_wkt" "max_uint32_value"
    ∷ print "any_max_uint32_value_wkt_json" "any_max_uint32_value_wkt"
    ∷ []

abbrev pub bool_setup : List Statement
bool_setup =
    declare bool_value "bool_value"
    ∷ change "bool_value" [] (set_value (truth true))
    ∷ print "bool_value_json" "bool_value"
    ∷ declare any "any_bool_value_wkt"
    ∷ pack "any_bool_value_wkt" "bool_value"
    ∷ print "any_bool_value_wkt_json" "any_bool_value_wkt"
    ∷ declare bool_value "false_bool_value"
    ∷ change "false_bool_value" [] (set_value (truth false))
    ∷ print "false_bool_value_json" "false_bool_value"
    ∷ declare any "any_false_bool_value_wkt"
    ∷ pack "any_false_bool_value_wkt" "false_bool_value"
    ∷ print "any_false_bool_value_wkt_json" "any_false_bool_value_wkt"
    ∷ []

abbrev pub string_setup : List Statement
string_setup =
    declare string_value "string_value"
    ∷ change "string_value" [] (set_value (text "hello"))
    ∷ print "string_value_json" "string_value"
    ∷ declare any "any_string_value_wkt"
    ∷ pack "any_string_value_wkt" "string_value"
    ∷ print "any_string_value_wkt_json" "any_string_value_wkt"
    ∷ literal "string_value_escape_json" "\"\\u0068ello\""
    ∷ literal "string_value_surrogate_json" "\"\\ud83d\\ude00\""
    ∷ literal "any_string_value_escape_wkt_json"
        "{\"@type\":\"type.googleapis.com/google.protobuf.StringValue\",\"value\":\"\\u0068ello\"}"
    ∷ literal "any_string_value_surrogate_wkt_json"
        "{\"@type\":\"type.googleapis.com/google.protobuf.StringValue\",\"value\":\"\\ud83d\\ude00\"}"
    ∷ declare string_value "empty_string_value"
    ∷ change "empty_string_value" [] (set_value (text ""))
    ∷ print "empty_string_value_json" "empty_string_value"
    ∷ declare any "any_empty_string_value_wkt"
    ∷ pack "any_empty_string_value_wkt" "empty_string_value"
    ∷ print "any_empty_string_value_wkt_json" "any_empty_string_value_wkt"
    ∷ declare any "nested_any_wkt"
    ∷ pack "nested_any_wkt" "any_string_value_wkt"
    ∷ print "nested_any_wkt_json" "nested_any_wkt"
    ∷ declare bytes_value "bytes_value"
    ∷ change "bytes_value" [] (set_value (text "hi"))
    ∷ print "bytes_value_json" "bytes_value"
    ∷ declare any "any_bytes_value_wkt"
    ∷ pack "any_bytes_value_wkt" "bytes_value"
    ∷ print "any_bytes_value_wkt_json" "any_bytes_value_wkt"
    ∷ literal "bytes_value_url_json" "\"-_8\""
    ∷ literal "bytes_value_standard_base64_json" "\"+/8\""
    ∷ literal "bytes_value_unpadded_json" "\"aGk\""
    ∷ literal "any_bytes_value_url_wkt_json"
        "{\"@type\":\"type.googleapis.com/google.protobuf.BytesValue\",\"value\":\"-_8\"}"
    ∷ literal "any_bytes_value_standard_base64_wkt_json"
        "{\"@type\":\"type.googleapis.com/google.protobuf.BytesValue\",\"value\":\"+/8\"}"
    ∷ literal "any_bytes_value_unpadded_wkt_json"
        "{\"@type\":\"type.googleapis.com/google.protobuf.BytesValue\",\"value\":\"aGk\"}"
    ∷ declare bytes_value "empty_bytes_value"
    ∷ change "empty_bytes_value" [] (set_value (text ""))
    ∷ print "empty_bytes_value_json" "empty_bytes_value"
    ∷ declare any "any_empty_bytes_value_wkt"
    ∷ pack "any_empty_bytes_value_wkt" "empty_bytes_value"
    ∷ print "any_empty_bytes_value_wkt_json" "any_empty_bytes_value_wkt"
    ∷ []
