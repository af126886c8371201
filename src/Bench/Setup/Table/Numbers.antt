-- ===== src/Bench/Setup/Table/Numbers.antt =====
-- The wrappers of floating-point numbers and of 64-bit integers that `main` prepares.
use pbz.Common.{List, [], ◌∷◌, ◌^◌, ◌-◌}
use pbz.Wire.ZigZag.{pos, negsuc}
use pbz.Bench.Wkt.{any, double_value, float_value, int64_value, uint64_value}
use pbz.Bench.Setup.{
  Statement, declare, change, pack, print, literal, integer, decimal, quiet_nan, infinity,
  negative_infinity, set_value,
}

abbrev pub double_setup : List Statement
double_setup =
    declare double_value "double_value"
    ∷ change "double_value" [] (set_value (decimal (pos 325) 2))
    ∷ print "double_value_json" "double_value"
    ∷ literal "double_value_string_json" "\"3.25\""
    ∷ literal "double_value_exponent_json" "3.25e0"
    ∷ declare any "any_double_value_wkt"
    ∷ pack "any_double_value_wkt" "double_value"
    ∷ print "any_double_value_wkt_json" "any_double_value_wkt"
    ∷ literal "any_double_value_string_wkt_json"
        "{\"@type\":\"type.googleapis.com/google.protobuf.DoubleValue\",\"value\":\"3.25\"}"
    ∷ literal "any_double_value_exponent_wkt_json"
        "{\"@type\":\"type.googleapis.com/google.protobuf.DoubleValue\",\"value\":3.25e0}"
    ∷ declare double_value "negative_double_value"
    ∷ change "negative_double_value" [] (set_value (decimal (negsuc 324) 2))
    ∷ print "negative_double_value_json" "negative_double_value"
    ∷ declare any "any_negative_double_value_wkt"
    ∷ pack "any_negative_double_value_wkt" "negative_double_value"
    ∷ print "any_negative_double_value_wkt_json" "any_negative_double_value_wkt"
    ∷ declare double_value "zero_double_value"
    ∷ change "zero_double_value" [] (set_value (decimal (pos 0) 1))
    ∷ print "zero_double_value_json" "zero_double_value"
    ∷ declare any "any_zero_double_value_wkt"
    ∷ pack "any_zero_double_value_wkt" "zero_double_value"
    ∷ print "any_zero_double_value_wkt_json" "any_zero_double_value_wkt"
    ∷ declare double_value "double_value_nan"
    ∷ change "double_value_nan" [] (set_value quiet_nan)
    ∷ print "double_value_nan_json" "double_value_nan"
    ∷ declare any "any_double_value_nan_wkt"
    ∷ pack "any_double_value_nan_wkt" "double_value_nan"
    ∷ print "any_double_value_nan_wkt_json" "any_double_value_nan_wkt"
    ∷ declare double_value "double_value_inf"
    ∷ change "double_value_inf" [] (set_value infinity)
    ∷ print "double_value_inf_json" "double_value_inf"
    ∷ declare any "any_double_value_inf_wkt"
    ∷ pack "any_double_value_inf_wkt" "double_value_inf"
    ∷ print "any_double_value_inf_wkt_json" "any_double_value_inf_wkt"
    ∷ declare double_value "double_value_neg_inf"
    ∷ change "double_value_neg_inf" [] (set_value negative_infinity)
    ∷ print "double_value_neg_inf_json" "double_value_neg_inf"
    ∷ declare any "any_double_value_neg_inf_wkt"
    ∷ pack "any_double_value_neg_inf_wkt" "double_value_neg_inf"
    ∷ print "any_double_value_neg_inf_wkt_json" "any_double_value_neg_inf_wkt"
    ∷ []

abbrev pub float_setup : List Statement
float_setup =
    declare float_value "float_value"
    ∷ change "float_value" [] (set_value (decimal (pos 15) 1))
    ∷ print "float_value_json" "float_value"
    ∷ literal "float_value_string_json" "\"1.5\""
    ∷ literal "float_value_exponent_json" "1.5e0"
    ∷ declare any "any_float_value_wkt"
    ∷ pack "any_float_value_wkt" "float_value"
    ∷ print "any_float_value_wkt_json" "any_float_value_wkt"
    ∷ literal "any_float_value_string_wkt_json"
        "{\"@type\":\"type.googleapis.com/google.protobuf.FloatValue\",\"value\":\"1.5\"}"
    ∷ literal "any_float_value_exponent_wkt_json"
        "{\"@type\":\"type.googleapis.com/google.protobuf.FloatValue\",\"value\":1.5e0}"
    ∷ declare float_value "negative_float_value"
    ∷ change "negative_float_value" [] (set_value (decimal (negsuc 14) 1))
    ∷ print "negative_float_value_json" "negative_float_value"
    ∷ declare any "any_negative_float_value_wkt"
    ∷ pack "any_negative_float_value_wkt" "negative_float_value"
    ∷ print "any_negative_float_value_wkt_json" "any_negative_float_value_wkt"
    ∷ declare float_value "zero_float_value"
    ∷ change "zero_float_value" [] (set_value (decimal (pos 0) 1))
    ∷ print "zero_float_value_json" "zero_float_value"
    ∷ declare any "any_zero_float_value_wkt"
    ∷ pack "any_zero_float_value_wkt" "zero_float_value"
    ∷ print "any_zero_float_value_wkt_json" "any_zero_float_value_wkt"
    ∷ declare float_value "float_value_nan"
    ∷ change "float_value_nan" [] (set_value quiet_nan)
    ∷ print "float_value_nan_json" "float_value_nan"
    ∷ declare any "any_float_value_nan_wkt"
    ∷ pack "any_float_value_nan_wkt" "float_value_nan"
    ∷ print "any_float_value_nan_wkt_json" "any_float_value_nan_wkt"
    ∷ declare float_value "float_value_inf"
    ∷ change "float_value_inf" [] (set_value infinity)
    ∷ print "float_value_inf_json" "float_value_inf"
    ∷ declare any "any_float_value_inf_wkt"
    ∷ pack "any_float_value_inf_wkt" "float_value_inf"
    ∷ print "any_float_value_inf_wkt_json" "any_float_value_inf_wkt"
    ∷ declare float_value "float_value_neg_inf"
    ∷ change "float_value_neg_inf" [] (set_value negative_infinity)
    ∷ print "float_value_neg_inf_json" "float_value_neg_inf"
    ∷ declare any "any_float_value_neg_inf_wkt"
    ∷ pack "any_float_value_neg_inf_wkt" "float_value_neg_inf"
    ∷ print "any_float_value_neg_inf_wkt_json" "any_float_value_neg_inf_wkt"
    ∷ []

abbrev pub int64_setup : List Statement
int64_setup =
    declare int64_value "int64_value"
    ∷ change "int64_value" [] (set_value (integer (pos 9007199254740993)))
    ∷ print "int64_value_json" "int64_value"
    ∷ literal "int64_value_number_json" "9007199254740993"
    ∷ literal "int64_value_exponent_json" "1.2345e4"
    ∷ declare any "any_int64_value_wkt"
    ∷ pack "any_int64_value_wkt" "int64_value"
    ∷ print "any_int64_value_wkt_json" "any_int64_value_wkt"
    ∷ literal "any_int64_value_number_wkt_json"
        "{\"@type\":\"type.googleapis.com/google.protobuf.Int64Value\",\"value\":9007199254740993}"
    ∷ literal "any_int64_value_exponent_wkt_json"
        "{\"@type\":\"type.googleapis.com/google.protobuf.Int64Value\",\"value\":1.2345e4}"
    ∷ declare int64_value "zero_int64_value"
    ∷ change "zero_int64_value" [] (set_value (integer (pos 0)))
    ∷ print "zero_int64_value_json" "zero_int64_value"
    ∷ declare any "any_zero_int64_value_wkt"
    ∷ pack "any_zero_int64_value_wkt" "zero_int64_value"
    ∷ print "any_zero_int64_value_wkt_json" "any_zero_int64_value_wkt"
    ∷ declare int64_value "negative_int64_value"
    ∷ change "negative_int64_value" [] (set_value (integer (negsuc 9007199254740992)))
    ∷ print "negative_int64_value_json" "negative_int64_value"
    ∷ declare any "any_negative_int64_value_wkt"
    ∷ pack "any_negative_int64_value_wkt" "negative_int64_value"
    ∷ print "any_negative_int64_value_wkt_json" "any_negative_int64_value_wkt"
    ∷ declare int64_value "min_int64_value"
    ∷ change "min_int64_value" [] (set_value (integer (negsuc (2 ^ 63 - 1))))
    ∷ print "min_int64_value_json" "min_int64_value"
    ∷ declare any "any_min_int64_value_wkt"
    ∷ pack "any_min_int64_value_wkt" "min_int64_value"
    ∷ print "any_min_int64_value_wkt_json" "any_min_int64_value_wkt"
    ∷ declare int64_value "max_int64_value"
    ∷ change "max_int64_value" [] (set_value (integer (pos (2 ^ 63 - 1))))
    ∷ print "max_int64_value_json" "max_int64_value"
    ∷ declare any "any_max_int64_value_wkt"
    ∷ pack "any_max_int64_value_wkt" "max_int64_value"
    ∷ print "any_max_int64_value_wkt_json" "any_max_int64_value_wkt"
    ∷ declare uint64_value "uint64_value"
    ∷ change "uint64_value" [] (set_value (integer (pos 9007199254740993)))
    ∷ print "uint64_value_json" "uint64_value"
    ∷ literal "uint64_value_number_json" "9007199254740993"
    ∷ literal "uint64_value_exponent_json" "1.2345e4"
    ∷ declare any "any_uint64_value_wkt"
    ∷ pack "any_uint64_value_wkt" "uint64_value"
    ∷ print "any_uint64_value_wkt_json" "any_uint64_value_wkt"
    ∷ literal "any_uint64_value_number_wkt_json"
        "{\"@type\":\"type.googleapis.com/google.protobuf.UInt64Value\",\"value\":9007199254740993}"
    ∷ literal "any_uint64_value_exponent_wkt_json"
        "{\"@type\":\"type.googleapis.com/google.protobuf.UInt64Value\",\"value\":1.2345e4}"
    ∷ declare uint64_value "zero_uint64_value"
    ∷ change "zero_uint64_value" [] (set_value (integer (pos 0)))
    ∷ print "zero_uint64_value_json" "zero_uint64_value"
    ∷ declare any "any_zero_uint64_value_wkt"
    ∷ pack "any_zero_uint64_value_wkt" "zero_uint64_value"
    ∷ print "any_zero_uint64_value_wkt_json" "any_zero_uint64_value_wkt"
    ∷ declare uint64_value "max_uint64_value"
    ∷ change "max_uint64_value" [] (set_value (integer (pos (2 ^ 64 - 1))))
    ∷ print "max_uint64_value_json" "max_uint64_value"
    ∷ declare any "any_max_uint64_value_wkt"
    ∷ pack "any_max_uint64_value_wkt" "max_uint64_value"
    ∷ print "any_max_uint64_value_wkt_json" "any_max_uint64_value_wkt"
    ∷ []
