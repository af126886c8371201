-- ===== src/Bench/Setup/Table/Structs.antt =====
-- The structures, values and lists that `main` prepares.
use pbz.Common.{List, [], ◌∷◌, true, false}
use pbz.Wire.ZigZag.{pos, negsuc}
use pbz.Bench.Wkt.{any, empty, struct, value, list_value}
use pbz.Bench.Setup.{
  Statement, declare, change, reach, copy, pack, print, literal, alias, fields, add_values,
  mutable_values, mutable_list_value, mutable_struct_value, integer, decimal, set_string_value,
  set_number_value, set_bool_value, set_null_value,
}

abbrev pub struct_setup : List Statement
struct_setup =
    declare empty "empty_value"
    ∷ print "empty_json" "empty_value"
    ∷ declare any "any_empty_wkt"
    ∷ pack "any_empty_wkt" "empty_value"
    ∷ print "any_empty_wkt_json" "any_empty_wkt"
    ∷ declare struct "struct_value"
    ∷ change "struct_value" (fields "enabled" ∷ []) (set_bool_value true)
    ∷ reach "struct_value" (fields "items" ∷ mutable_list_value ∷ [])
    ∷ change "struct_value" (fields "items" ∷ mutable_list_value ∷ add_values ∷ []) set_null_value
    ∷ change "struct_value" (fields "items" ∷ mutable_list_value ∷ add_values ∷ [])
        (set_string_value "zig")
    ∷ reach "struct_value" (fields "meta" ∷ mutable_struct_value ∷ [])
    ∷ change "struct_value" (fields "meta" ∷ mutable_struct_value ∷ fields "score" ∷ [])
        (set_number_value (decimal (pos 15) 1))
    ∷ print "struct_json" "struct_value"
    ∷ literal "struct_escape_json"
        "{\"\\u0065nabled\":true,\"items\":[null,\"\\u007aig\"],\"meta\":{\"score\":1.5}}"
    ∷ literal "struct_number_exponent_json"
        "{\"enabled\":true,\"items\":[null,\"zig\"],\"meta\":{\"score\":1.5e0}}"
    ∷ literal "struct_surrogate_json" "{\"emoji\":\"\\ud83d\\ude00\"}"
    ∷ literal "struct_key_surrogate_json" "{\"\\ud83d\\ude00\":\"ok\"}"
    ∷ declare any "any_struct_wkt"
    ∷ pack "any_struct_wkt" "struct_value"
    ∷ print "any_struct_wkt_json" "any_struct_wkt"
    ∷ literal "any_struct_escape_wkt_json"
        "{\"@type\":\"type.googleapis.com/google.protobuf.Struct\",\"value\":{\"\\u0065nabled\":true,\"items\":[null,\"\\u007aig\"],\"meta\":{\"score\":1.5}}}"
    ∷ literal "any_struct_number_exponent_wkt_json"
        "{\"@type\":\"type.googleapis.com/google.protobuf.Struct\",\"value\":{\"enabled\":true,\"items\":[null,\"zig\"],\"meta\":{\"score\":1.5e0}}}"
    ∷ literal "any_struct_surrogate_wkt_json"
        "{\"@type\":\"type.googleapis.com/google.protobuf.Struct\",\"value\":{\"emoji\":\"\\ud83d\\ude00\"}}"
    ∷ literal "any_struct_key_surrogate_wkt_json"
        "{\"@type\":\"type.googleapis.com/google.protobuf.Struct\",\"value\":{\"\\ud83d\\ude00\":\"ok\"}}"
    ∷ declare struct "empty_struct_value"
    ∷ print "empty_struct_json" "empty_struct_value"
    ∷ declare any "any_empty_struct_wkt"
    ∷ pack "any_empty_struct_wkt" "empty_struct_value"
    ∷ print "any_empty_struct_wkt_json" "any_empty_struct_wkt"
    ∷ declare value "value_value"
    ∷ copy "value_value" (mutable_struct_value ∷ []) "struct_value"
    ∷ print "value_json" "value_value"
    ∷ alias "value_escape_json" "struct_escape_json"
    ∷ alias "value_number_exponent_json" "struct_number_exponent_json"
    ∷ alias "value_surrogate_json" "struct_surrogate_json"
    ∷ alias "value_key_surrogate_json" "struct_key_surrogate_json"
    ∷ declare any "any_value_wkt"
    ∷ pack "any_value_wkt" "value_value"
    ∷ print "any_value_wkt_json" "any_value_wkt"
    ∷ literal "any_value_escape_wkt_json"
        "{\"@type\":\"type.googleapis.com/google.protobuf.Value\",\"value\":{\"\\u0065nabled\":true,\"items\":[null,\"\\u007aig\"],\"meta\":{\"score\":1.5}}}"
    ∷ literal "any_value_number_exponent_wkt_json"
        "{\"@type\":\"type.googleapis.com/google.protobuf.Value\",\"value\":{\"enabled\":true,\"items\":[null,\"zig\"],\"meta\":{\"score\":1.5e0}}}"
    ∷ literal "any_value_surrogate_wkt_json"
        "{\"@type\":\"type.googleapis.com/google.protobuf.Value\",\"value\":{\"emoji\":\"\\ud83d\\ude00\"}}"
    ∷ literal "any_value_key_surrogate_wkt_json"
        "{\"@type\":\"type.googleapis.com/google.protobuf.Value\",\"value\":{\"\\ud83d\\ude00\":\"ok\"}}"
    ∷ []

abbrev pub value_setup : List Statement
value_setup =
    declare value "null_value_value"
    ∷ change "null_value_value" [] set_null_value
    ∷ print "null_value_json" "null_value_value"
    ∷ declare any "any_null_value_wkt"
    ∷ pack "any_null_value_wkt" "null_value_value"
    ∷ print "any_null_value_wkt_json" "any_null_value_wkt"
    ∷ declare value "string_scalar_value"
    ∷ change "string_scalar_value" [] (set_string_value "zig")
    ∷ print "string_scalar_value_json" "string_scalar_value"
    ∷ literal "string_scalar_value_escape_json" "\"\\u007aig\""
    ∷ literal "string_scalar_value_surrogate_json" "\"\\ud83d\\ude00\""
    ∷ declare any "any_string_scalar_value_wkt"
    ∷ pack "any_string_scalar_value_wkt" "string_scalar_value"
    ∷ print "any_string_scalar_value_wkt_json" "any_string_scalar_value_wkt"
    ∷ literal "any_string_scalar_value_escape_wkt_json"
        "{\"@type\":\"type.googleapis.com/google.protobuf.Value\",\"value\":\"\\u007aig\"}"
    ∷ literal "any_string_scalar_value_surrogate_wkt_json"
        "{\"@type\":\"type.googleapis.com/google.protobuf.Value\",\"value\":\"\\ud83d\\ude00\"}"
    ∷ declare value "empty_string_scalar_value"
    ∷ change "empty_string_scalar_value" [] (set_string_value "")
    ∷ print "empty_string_scalar_value_json" "empty_string_scalar_value"
    ∷ declare any "any_empty_string_scalar_value_wkt"
    ∷ pack "any_empty_string_scalar_value_wkt" "empty_string_scalar_value"
    ∷ print "any_empty_string_scalar_value_wkt_json" "any_empty_string_scalar_value_wkt"
    ∷ declare value "number_value"
    ∷ change "number_value" [] (set_number_value (decimal (pos 15) 1))
    ∷ print "number_value_json" "number_value"
    ∷ literal "number_value_exponent_json" "1.5e0"
    ∷ declare any "any_number_value_wkt"
    ∷ pack "any_number_value_wkt" "number_value"
    ∷ print "any_number_value_wkt_json" "any_number_value_wkt"
    ∷ literal "any_number_value_exponent_wkt_json"
        "{\"@type\":\"type.googleapis.com/google.protobuf.Value\",\"value\":1.5e0}"
    ∷ declare value "negative_number_value"
    ∷ change "negative_number_value" [] (set_number_value (decimal (negsuc 14) 1))
    ∷ print "negative_number_value_json" "negative_number_value"
    ∷ declare any "any_negative_number_value_wkt"
    ∷ pack "any_negative_number_value_wkt" "negative_number_value"
    ∷ print "any_negative_number_value_wkt_json" "any_negative_number_value_wkt"
    ∷ declare value "zero_number_value"
    ∷ change "zero_number_value" [] (set_number_value (integer (pos 0)))
    ∷ print "zero_number_value_json" "zero_number_value"
    ∷ declare any "any_zero_number_value_wkt"
    ∷ pack "any_zero_number_value_wkt" "zero_number_value"
    ∷ print "any_zero_number_value_wkt_json" "any_zero_number_value_wkt"
    ∷ declare value "bool_scalar_value"
    ∷ change "bool_scalar_value" [] (set_bool_value true)
    ∷ print "bool_scalar_value_json" "bool_scalar_value"
    ∷ declare any "any_bool_scalar_value_wkt"
    ∷ pack "any_bool_scalar_value_wkt" "bool_scalar_value"
    ∷ print "any_bool_scalar_value_wkt_json" "any_bool_scalar_value_wkt"
    ∷ declare value "false_bool_scalar_value"
    ∷ change "false_bool_scalar_value" [] (set_bool_value false)
    ∷ print "false_bool_scalar_value_json" "false_bool_scalar_value"
    ∷ declare any "any_false_bool_scalar_value_wkt"
    ∷ pack "any_false_bool_scalar_value_wkt" "false_bool_scalar_value"
    ∷ print "any_false_bool_scalar_value_wkt_json" "any_false_bool_scalar_value_wkt"
    ∷ []

abbrev pub list_setup : List Statement
list_setup =
    declare list_value "list_value"
    ∷ change "list_value" (add_values ∷ []) set_null_value
    ∷ change "list_value" (add_values ∷ []) (set_string_value "zig")
    ∷ change "list_value" (add_values ∷ []) (set_number_value (decimal (pos 15) 1))
    ∷ change "list_value" (add_values ∷ []) (set_bool_value true)
    ∷ reach "list_value" (add_values ∷ mutable_struct_value ∷ [])
    ∷ change "list_value" (mutable_values 4 ∷ mutable_struct_value ∷ fields "nested" ∷ [])
        (set_string_value "value")
    ∷ print "list_value_json" "list_value"
    ∷ literal "list_value_escape_json" "[null,\"\\u007aig\",1.5,true,{\"\\u006eested\":\"value\"}]"
    ∷ literal "list_value_surrogate_json" "[\"\\ud83d\\ude00\"]"
    ∷ declare value "list_kind_value"
    ∷ copy "list_kind_value" (mutable_list_value ∷ []) "list_value"
    ∷ print "list_kind_value_json" "list_kind_value"
    ∷ alias "list_kind_value_escape_json" "list_value_escape_json"
    ∷ alias "list_kind_value_surrogate_json" "list_value_surrogate_json"
    ∷ declare any "any_list_kind_value_wkt"
    ∷ pack "any_list_kind_value_wkt" "list_kind_value"
    ∷ print "any_list_kind_value_wkt_json" "any_list_kind_value_wkt"
    ∷ literal "any_list_kind_value_escape_wkt_json"
        "{\"@type\":\"type.googleapis.com/google.protobuf.Value\",\"value\":[null,\"\\u007aig\",1.5,true,{\"\\u006eested\":\"value\"}]}"
    ∷ literal "any_list_kind_value_surrogate_wkt_json"
        "{\"@type\":\"type.googleapis.com/google.protobuf.Value\",\"value\":[\"\\ud83d\\ude00\"]}"
    ∷ declare value "empty_struct_kind_value"
    ∷ copy "empty_struct_kind_value" (mutable_struct_value ∷ []) "empty_struct_value"
    ∷ print "empty_struct_kind_value_json" "empty_struct_kind_value"
    ∷ declare any "any_empty_struct_kind_value_wkt"
    ∷ pack "any_empty_struct_kind_value_wkt" "empty_struct_kind_value"
    ∷ print "any_empty_struct_kind_value_wkt_json" "any_empty_struct_kind_value_wkt"
    ∷ declare list_value "empty_list_value"
    ∷ print "empty_list_value_json" "empty_list_value"
    ∷ declare value "empty_list_kind_value"
    ∷ copy "empty_list_kind_value" (mutable_list_value ∷ []) "empty_list_value"
    ∷ print "empty_list_kind_value_json" "empty_list_kind_value"
    ∷ declare any "any_empty_list_kind_value_wkt"
    ∷ pack "any_empty_list_kind_value_wkt" "empty_list_kind_value"
    ∷ print "any_empty_list_kind_value_wkt_json" "any_empty_list_kind_value_wkt"
    ∷ []
