-- ===== src/Bench/Sizes/Table/Second.antt =====
-- The second half of the payload sizes that `main` prints.
use pbz.Common.{List, [], ◌∷◌}
use pbz.Bench.Sizes.{SizeLine}

abbrev pub number_sizes : List SizeLine
number_sizes =
    ("negative double value json payload size: ", "negative_double_value_json")
    ∷ ("any NegativeDoubleValue WKT json payload size: ", "any_negative_double_value_wkt_json")
    ∷ ("zero double value json payload size: ", "zero_double_value_json")
    ∷ ("any ZeroDoubleValue WKT json payload size: ", "any_zero_double_value_wkt_json")
    ∷ ("double value NaN json payload size: ", "double_value_nan_json")
    ∷ ("any DoubleValue NaN WKT json payload size: ", "any_double_value_nan_wkt_json")
    ∷ ("double value Infinity json payload size: ", "double_value_inf_json")
    ∷ ("any DoubleValue Infinity WKT json payload size: ", "any_double_value_inf_wkt_json")
    ∷ ("double value NegativeInfinity json payload size: ", "double_value_neg_inf_json")
    ∷ (
      "any DoubleValue NegativeInfinity WKT json payload size: ",
      "any_double_value_neg_inf_wkt_json",
    )
    ∷ ("float value json payload size: ", "float_value_json")
    ∷ ("float value string json payload size: ", "float_value_string_json")
    ∷ ("float value exponent json payload size: ", "float_value_exponent_json")
    ∷ ("any FloatValue WKT json payload size: ", "any_float_value_wkt_json")
    ∷ ("any FloatValue String WKT json payload size: ", "any_float_value_string_wkt_json")
    ∷ ("any FloatValue Exponent WKT json payload size: ", "any_float_value_exponent_wkt_json")
    ∷ ("negative float value json payload size: ", "negative_float_value_json")
    ∷ ("any NegativeFloatValue WKT json payload size: ", "any_negative_float_value_wkt_json")
    ∷ ("zero float value json payload size: ", "zero_float_value_json")
    ∷ ("any ZeroFloatValue WKT json payload size: ", "any_zero_float_value_wkt_json")
    ∷ ("float value NaN json payload size: ", "float_value_nan_json")
    ∷ ("any FloatValue NaN WKT json payload size: ", "any_float_value_nan_wkt_json")
    ∷ ("float value Infinity json payload size: ", "float_value_inf_json")
    ∷ ("any FloatValue Infinity WKT json payload size: ", "any_float_value_inf_wkt_json")
    ∷ ("float value NegativeInfinity json payload size: ", "float_value_neg_inf_json")
    ∷ (
      "any FloatValue NegativeInfinity WKT json payload size: ", "any_float_value_neg_inf_wkt_json",
    )
    ∷ ("int64 value json payload size: ", "int64_value_json")
    ∷ ("int64 value number json payload size: ", "int64_value_number_json")
    ∷ ("int64 value exponent json payload size: ", "int64_value_exponent_json")
    ∷ ("any Int64Value WKT json payload size: ", "any_int64_value_wkt_json")
    ∷ ("any Int64Value Number WKT json payload size: ", "any_int64_value_number_wkt_json")
    ∷ ("any Int64Value Exponent WKT json payload size: ", "any_int64_value_exponent_wkt_json")
    ∷ ("zero int64 value json payload size: ", "zero_int64_value_json")
    ∷ ("any ZeroInt64Value WKT json payload size: ", "any_zero_int64_value_wkt_json")
    ∷ ("negative int64 value json payload size: ", "negative_int64_value_json")
    ∷ ("any NegativeInt64Value WKT json payload size: ", "any_negative_int64_value_wkt_json")
    ∷ ("min int64 value json payload size: ", "min_int64_value_json")
    ∷ ("any MinInt64Value WKT json payload size: ", "any_min_int64_value_wkt_json")
    ∷ ("max int64 value json payload size: ", "max_int64_value_json")
    ∷ ("any MaxInt64Value WKT json payload size: ", "any_max_int64_value_wkt_json")
    ∷ ("uint64 value json payload size: ", "uint64_value_json")
    ∷ ("uint64 value number json payload size: ", "uint64_value_number_json")
    ∷ ("uint64 value exponent json payload size: ", "uint64_value_exponent_json")
    ∷ ("any UInt64Value WKT json payload size: ", "any_uint64_value_wkt_json")
    ∷ ("any UInt64Value Number WKT json payload size: ", "any_uint64_value_number_wkt_json")
    ∷ ("any UInt64Value Exponent WKT json payload size: ", "any_uint64_value_exponent_wkt_json")
    ∷ ("zero uint64 value json payload size: ", "zero_uint64_value_json")
    ∷ ("any ZeroUInt64Value WKT json payload size: ", "any_zero_uint64_value_wkt_json")
    ∷ ("max uint64 value json payload size: ", "max_uint64_value_json")
    ∷ ("any MaxUInt64Value WKT json payload size: ", "any_max_uint64_value_wkt_json")
    ∷ ("int32 value json payload size: ", "int32_value_json")
    ∷ ("int32 value string json payload size: ", "int32_value_string_json")
    ∷ ("int32 value exponent json payload size: ", "int32_value_exponent_json")
    ∷ ("any Int32Value WKT json payload size: ", "any_int32_value_wkt_json")
    ∷ ("any Int32Value String WKT json payload size: ", "any_int32_value_string_wkt_json")
    ∷ ("any Int32Value Exponent WKT json payload size: ", "any_int32_value_exponent_wkt_json")
    ∷ ("zero int32 value json payload size: ", "zero_int32_value_json")
    ∷ ("any ZeroInt32Value WKT json payload size: ", "any_zero_int32_value_wkt_json")
    ∷ ("negative int32 value json payload size: ", "negative_int32_value_json")
    ∷ ("any NegativeInt32Value WKT json payload size: ", "any_negative_int32_value_wkt_json")
    ∷ ("min int32 value json payload size: ", "min_int32_value_json")
    ∷ ("any MinInt32Value WKT json payload size: ", "any_min_int32_value_wkt_json")
    ∷ []

abbrev pub wrapper_sizes : List SizeLine
wrapper_sizes =
    ("max int32 value json payload size: ", "max_int32_value_json")
    ∷ ("any MaxInt32Value WKT json payload size: ", "any_max_int32_value_wkt_json")
    ∷ ("uint32 value json payload size: ", "uint32_value_json")
    ∷ ("uint32 value string json payload size: ", "uint32_value_string_json")
    ∷ ("uint32 value exponent json payload size: ", "uint32_value_exponent_json")
    ∷ ("any UInt32Value WKT json payload size: ", "any_uint32_value_wkt_json")
    ∷ ("any UInt32Value String WKT json payload size: ", "any_uint32_value_string_wkt_json")
    ∷ ("any UInt32Value Exponent WKT json payload size: ", "any_uint32_value_exponent_wkt_json")
    ∷ ("zero uint32 value json payload size: ", "zero_uint32_value_json")
    ∷ ("any ZeroUInt32Value WKT json payload size: ", "any_zero_uint32_value_wkt_json")
    ∷ ("max uint32 value json payload size: ", "max_uint32_value_json")
    ∷ ("any MaxUInt32Value WKT json payload size: ", "any_max_uint32_value_wkt_json")
    ∷ ("bool value json payload size: ", "bool_value_json")
    ∷ ("any BoolValue WKT json payload size: ", "any_bool_value_wkt_json")
    ∷ ("false bool value json payload size: ", "false_bool_value_json")
    ∷ ("any FalseBoolValue WKT json payload size: ", "any_false_bool_value_wkt_json")
    ∷ ("string value json payload size: ", "string_value_json")
    ∷ ("string value escape json payload size: ", "string_value_escape_json")
    ∷ ("string value surrogate json payload size: ", "string_value_surrogate_json")
    ∷ ("any StringValue Escape WKT json payload size: ", "any_string_value_escape_wkt_json")
    ∷ ("any StringValue Surrogate WKT json payload size: ", "any_string_value_surrogate_wkt_json")
    ∷ ("empty string value json payload size: ", "empty_string_value_json")
    ∷ ("any EmptyStringValue WKT json payload size: ", "any_empty_string_value_wkt_json")
    ∷ ("bytes value json payload size: ", "bytes_value_json")
    ∷ ("bytes value URL json payload size: ", "bytes_value_url_json")
    ∷ ("bytes value StandardBase64 json payload size: ", "bytes_value_standard_base64_json")
    ∷ ("bytes value unpadded json payload size: ", "bytes_value_unpadded_json")
    ∷ ("any BytesValue URL WKT json payload size: ", "any_bytes_value_url_wkt_json")
    ∷ (
      "any BytesValue StandardBase64 WKT json payload size: ",
      "any_bytes_value_standard_base64_wkt_json",
    )
    ∷ ("any BytesValue Unpadded WKT json payload size: ", "any_bytes_value_unpadded_wkt_json")
    ∷ ("empty bytes value json payload size: ", "empty_bytes_value_json")
    ∷ ("any EmptyBytesValue WKT json payload size: ", "any_empty_bytes_value_wkt_json")
    ∷ ("any WKT json payload size: ", "any_wkt_json")
    ∷ ("text payload size: ", "text")
    ∷ ("scalarmix payload size: ", "scalarmix_bytes")
    ∷ ("textbytes payload size: ", "textbytes_bytes")
    ∷ ("textbytes json payload size: ", "textbytes_json")
    ∷ ("large map json payload size: ", "large_map_json")
    ∷ ("largebytes payload size: ", "largebytes_bytes")
    ∷ ("presencemix payload size: ", "presencemix_bytes")
    ∷ ("complex payload size: ", "complex_bytes")
    ∷ ("complex json payload size: ", "complex_json")
    ∷ ("complex proto-name json payload size: ", "complex_proto_name_json")
    ∷ ("complex text payload size: ", "complex_text")
    ∷ ("packed payload size: ", "packed_bytes")
    ∷ ("fixed32 packed payload size: ", "fixed_packed_bytes")
    ∷ ("fixed64 packed payload size: ", "fixed64_packed_bytes")
    ∷ ("sfixed32 packed payload size: ", "sfixed_packed_bytes")
    ∷ ("sfixed64 packed payload size: ", "sfixed64_packed_bytes")
    ∷ ("float packed payload size: ", "float_packed_bytes")
    ∷ ("double packed payload size: ", "double_packed_bytes")
    ∷ ("uint64 packed payload size: ", "uint64_packed_bytes")
    ∷ ("uint32 packed payload size: ", "uint32_packed_bytes")
    ∷ ("int64 packed payload size: ", "int64_packed_bytes")
    ∷ ("sint32 packed payload size: ", "sint32_packed_bytes")
    ∷ ("sint64 packed payload size: ", "sint64_packed_bytes")
    ∷ ("bool packed payload size: ", "bool_packed_bytes")
    ∷ ("enum packed payload size: ", "enum_packed_bytes")
    ∷ ("large map payload size: ", "large_map_bytes")
    ∷ ("shuffled large map payload size: ", "shuffled_large_map_bytes")
    ∷ []
