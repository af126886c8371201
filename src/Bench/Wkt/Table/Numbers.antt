-- ===== src/Bench/Wkt/Table/Numbers.antt =====
-- The runs of the wrapped numbers.
use pbz.Common.{List, [], ◌∷◌}
use pbz.Bench.Wkt.{
  WktRun, bench_pair, parse_only, any, double_value, float_value, int32_value, int64_value,
  uint32_value, uint64_value,
}

abbrev pub double_value_runs : List WktRun
double_value_runs =
    bench_pair double_value "DoubleValue" "double_value" "double_value_json"
    ∷ parse_only double_value "DoubleValue String" "double_value_string_json"
    ∷ parse_only double_value "DoubleValue Exponent" "double_value_exponent_json"
    ∷ bench_pair any "Any DoubleValue WKT" "any_double_value_wkt" "any_double_value_wkt_json"
    ∷ parse_only any "Any DoubleValue String WKT" "any_double_value_string_wkt_json"
    ∷ parse_only any "Any DoubleValue Exponent WKT" "any_double_value_exponent_wkt_json"
    ∷ bench_pair double_value "NegativeDoubleValue" "negative_double_value"
        "negative_double_value_json"
    ∷ bench_pair any "Any NegativeDoubleValue WKT" "any_negative_double_value_wkt"
        "any_negative_double_value_wkt_json"
    ∷ bench_pair double_value "ZeroDoubleValue" "zero_double_value" "zero_double_value_json"
    ∷ bench_pair any "Any ZeroDoubleValue WKT" "any_zero_double_value_wkt"
        "any_zero_double_value_wkt_json"
    ∷ bench_pair double_value "DoubleValue NaN" "double_value_nan" "double_value_nan_json"
    ∷ bench_pair any "Any DoubleValue NaN WKT" "any_double_value_nan_wkt"
        "any_double_value_nan_wkt_json"
    ∷ bench_pair double_value "DoubleValue Infinity" "double_value_inf" "double_value_inf_json"
    ∷ bench_pair any "Any DoubleValue Infinity WKT" "any_double_value_inf_wkt"
        "any_double_value_inf_wkt_json"
    ∷ bench_pair double_value "DoubleValue NegativeInfinity" "double_value_neg_inf"
        "double_value_neg_inf_json"
    ∷ bench_pair any "Any DoubleValue NegativeInfinity WKT" "any_double_value_neg_inf_wkt"
        "any_double_value_neg_inf_wkt_json"
    ∷ []

abbrev pub float_value_runs : List WktRun
float_value_runs =
    bench_pair float_value "FloatValue" "float_value" "float_value_json"
    ∷ parse_only float_value "FloatValue String" "float_value_string_json"
    ∷ parse_only float_value "FloatValue Exponent" "float_value_exponent_json"
    ∷ bench_pair any "Any FloatValue WKT" "any_float_value_wkt" "any_float_value_wkt_json"
    ∷ parse_only any "Any FloatValue String WKT" "any_float_value_string_wkt_json"
    ∷ parse_only any "Any FloatValue Exponent WKT" "any_float_value_exponent_wkt_json"
    ∷ bench_pair float_value "NegativeFloatValue" "negative_float_value" "negative_float_value_json"
    ∷ bench_pair any "Any NegativeFloatValue WKT" "any_negative_float_value_wkt"
        "any_negative_float_value_wkt_json"
    ∷ bench_pair float_value "ZeroFloatValue" "zero_float_value" "zero_float_value_json"
    ∷ bench_pair any "Any ZeroFloatValue WKT" "any_zero_float_value_wkt"
        "any_zero_float_value_wkt_json"
    ∷ bench_pair float_value "FloatValue NaN" "float_value_nan" "float_value_nan_json"
    ∷ bench_pair any "Any FloatValue NaN WKT" "any_float_value_nan_wkt"
        "any_float_value_nan_wkt_json"
    ∷ bench_pair float_value "FloatValue Infinity" "float_value_inf" "float_value_inf_json"
    ∷ bench_pair any "Any FloatValue Infinity WKT" "any_float_value_inf_wkt"
        "any_float_value_inf_wkt_json"
    ∷ bench_pair float_value "FloatValue NegativeInfinity" "float_value_neg_inf"
        "float_value_neg_inf_json"
    ∷ bench_pair any "Any FloatValue NegativeInfinity WKT" "any_float_value_neg_inf_wkt"
        "any_float_value_neg_inf_wkt_json"
    ∷ []

abbrev pub int64_value_runs : List WktRun
int64_value_runs =
    bench_pair int64_value "Int64Value" "int64_value" "int64_value_json"
    ∷ parse_only int64_value "Int64Value Number" "int64_value_number_json"
    ∷ parse_only int64_value "Int64Value Exponent" "int64_value_exponent_json"
    ∷ bench_pair any "Any Int64Value WKT" "any_int64_value_wkt" "any_int64_value_wkt_json"
    ∷ parse_only any "Any Int64Value Number WKT" "any_int64_value_number_wkt_json"
    ∷ parse_only any "Any Int64Value Exponent WKT" "any_int64_value_exponent_wkt_json"
    ∷ bench_pair int64_value "ZeroInt64Value" "zero_int64_value" "zero_int64_value_json"
    ∷ bench_pair any "Any ZeroInt64Value WKT" "any_zero_int64_value_wkt"
        "any_zero_int64_value_wkt_json"
    ∷ bench_pair int64_value "NegativeInt64Value" "negative_int64_value" "negative_int64_value_json"
    ∷ bench_pair any "Any NegativeInt64Value WKT" "any_negative_int64_value_wkt"
        "any_negative_int64_value_wkt_json"
    ∷ bench_pair int64_value "MinInt64Value" "min_int64_value" "min_int64_value_json"
    ∷ bench_pair any "Any MinInt64Value WKT" "any_min_int64_value_wkt"
        "any_min_int64_value_wkt_json"
    ∷ bench_pair int64_value "MaxInt64Value" "max_int64_value" "max_int64_value_json"
    ∷ bench_pair any "Any MaxInt64Value WKT" "any_max_int64_value_wkt"
        "any_max_int64_value_wkt_json"
    ∷ bench_pair uint64_value "UInt64Value" "uint64_value" "uint64_value_json"
    ∷ parse_only uint64_value "UInt64Value Number" "uint64_value_number_json"
    ∷ parse_only uint64_value "UInt64Value Exponent" "uint64_value_exponent_json"
    ∷ bench_pair any "Any UInt64Value WKT" "any_uint64_value_wkt" "any_uint64_value_wkt_json"
    ∷ parse_only any "Any UInt64Value Number WKT" "any_uint64_value_number_wkt_json"
    ∷ parse_only any "Any UInt64Value Exponent WKT" "any_uint64_value_exponent_wkt_json"
    ∷ bench_pair uint64_value "ZeroUInt64Value" "zero_uint64_value" "zero_uint64_value_json"
    ∷ bench_pair any "Any ZeroUInt64Value WKT" "any_zero_uint64_value_wkt"
        "any_zero_uint64_value_wkt_json"
    ∷ bench_pair uint64_value "MaxUInt64Value" "max_uint64_value" "max_uint64_value_json"
    ∷ bench_pair any "Any MaxUInt64Value WKT" "any_max_uint64_value_wkt"
        "any_max_uint64_value_wkt_json"
    ∷ []

abbrev pub int32_value_runs : List WktRun
int32_value_runs =
    bench_pair int32_value "Int32Value" "int32_value" "int32_value_json"
    ∷ parse_only int32_value "Int32Value String" "int32_value_string_json"
    ∷ parse_only int32_value "Int32Value Exponent" "int32_value_exponent_json"
    ∷ bench_pair any "Any Int32Value WKT" "any_int32_value_wkt" "any_int32_value_wkt_json"
    ∷ parse_only any "Any Int32Value String WKT" "any_int32_value_string_wkt_json"
    ∷ parse_only any "Any Int32Value Exponent WKT" "any_int32_value_exponent_wkt_json"
    ∷ bench_pair int32_value "ZeroInt32Value" "zero_int32_value" "zero_int32_value_json"
    ∷ bench_pair any "Any ZeroInt32Value WKT" "any_zero_int32_value_wkt"
        "any_zero_int32_value_wkt_json"
    ∷ bench_pair int32_value "NegativeInt32Value" "negative_int32_value" "negative_int32_value_json"
    ∷ bench_pair any "Any NegativeInt32Value WKT" "any_negative_int32_value_wkt"
        "any_negative_int32_value_wkt_json"
    ∷ bench_pair int32_value "MinInt32Value" "min_int32_value" "min_int32_value_json"
    ∷ bench_pair any "Any MinInt32Value WKT" "any_min_int32_value_wkt"
        "any_min_int32_value_wkt_json"
    ∷ bench_pair int32_value "MaxInt32Value" "max_int32_value" "max_int32_value_json"
    ∷ bench_pair any "Any MaxInt32Value WKT" "any_max_int32_value_wkt"
        "any_max_int32_value_wkt_json"
    ∷ bench_pair uint32_value "UInt32Value" "uint32_value" "uint32_value_json"
    ∷ parse_only uint32_value "UInt32Value String" "uint32_value_string_json"
    ∷ parse_only uint32_value "UInt32Value Exponent" "uint32_value_exponent_json"
    ∷ bench_pair any "Any UInt32Value WKT" "any_uint32_value_wkt" "any_uint32_value_wkt_json"
    ∷ parse_only any "Any UInt32Value String WKT" "any_uint32_value_string_wkt_json"
    ∷ parse_only any "Any UInt32Value Exponent WKT" "any_uint32_value_exponent_wkt_json"
    ∷ bench_pair uint32_value "ZeroUInt32Value" "zero_uint32_value" "zero_uint32_value_json"
    ∷ bench_pair any "Any ZeroUInt32Value WKT" "any_zero_uint32_value_wkt"
        "any_zero_uint32_value_wkt_json"
    ∷ bench_pair uint32_value "MaxUInt32Value" "max_uint32_value" "max_uint32_value_json"
    ∷ bench_pair any "Any MaxUInt32Value WKT" "any_max_uint32_value_wkt"
        "any_max_uint32_value_wkt_json"
    ∷ []
