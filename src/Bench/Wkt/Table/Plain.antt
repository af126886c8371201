-- ===== src/Bench/Wkt/Table/Plain.antt =====
-- The runs of the structures, times, strings and bytes.
use pbz.Common.{List, [], ◌∷◌}
use pbz.Bench.Wkt.{
  WktRun, bench_pair, parse_block, parse_only, any, bool_value, bytes_value, duration, empty,
  field_mask, list_value, string_value, struct, timestamp, value,
}

abbrev pub time_runs : List WktRun
time_runs =
    bench_pair duration "Duration" "any_wkt_duration" "duration_json"
    ∷ parse_only duration "Duration Escape" "duration_escape_json"
    ∷ parse_block duration "c++ protobuf PlusDuration JSON parse" "plus_duration_json"
    ∷ parse_block duration "c++ protobuf ShortFractionDuration JSON parse"
        "short_fraction_duration_json"
    ∷ bench_pair duration "MicroDuration" "micro_duration" "micro_duration_json"
    ∷ bench_pair duration "NanoDuration" "nano_duration" "nano_duration_json"
    ∷ bench_pair duration "NegativeDuration" "negative_duration" "negative_duration_json"
    ∷ bench_pair duration "FractionalNegativeDuration" "fractional_negative_duration"
        "fractional_negative_duration_json"
    ∷ bench_pair duration "MaxDuration" "max_duration" "max_duration_json"
    ∷ bench_pair duration "MinDuration" "min_duration" "min_duration_json"
    ∷ bench_pair duration "ZeroDuration" "zero_duration" "zero_duration_json"
    ∷ bench_pair field_mask "FieldMask" "field_mask" "field_mask_json"
    ∷ parse_only field_mask "FieldMask Escape" "field_mask_escape_json"
    ∷ bench_pair field_mask "EmptyFieldMask" "empty_field_mask" "empty_field_mask_json"
    ∷ bench_pair timestamp "Timestamp" "timestamp" "timestamp_json"
    ∷ parse_only timestamp "Timestamp Escape" "timestamp_escape_json"
    ∷ parse_only timestamp "ShortFraction Timestamp" "short_fraction_timestamp_json"
    ∷ bench_pair timestamp "Micro Timestamp" "micro_timestamp" "micro_timestamp_json"
    ∷ bench_pair timestamp "Nano Timestamp" "nano_timestamp" "nano_timestamp_json"
    ∷ parse_block timestamp "c++ protobuf Offset Timestamp JSON parse" "offset_timestamp_json"
    ∷ bench_pair timestamp "PreEpoch Timestamp" "pre_epoch_timestamp" "pre_epoch_timestamp_json"
    ∷ bench_pair timestamp "Max Timestamp" "max_timestamp" "max_timestamp_json"
    ∷ bench_pair timestamp "Min Timestamp" "min_timestamp" "min_timestamp_json"
    ∷ []

abbrev pub struct_runs : List WktRun
struct_runs =
    bench_pair empty "Empty" "empty_value" "empty_json"
    ∷ bench_pair struct "Struct" "struct_value" "struct_json"
    ∷ parse_only struct "Struct Escape" "struct_escape_json"
    ∷ parse_only struct "Struct NumberExponent" "struct_number_exponent_json"
    ∷ parse_only struct "Struct Surrogate" "struct_surrogate_json"
    ∷ parse_only struct "Struct KeySurrogate" "struct_key_surrogate_json"
    ∷ bench_pair struct "EmptyStruct" "empty_struct_value" "empty_struct_json"
    ∷ bench_pair value "Value" "value_value" "value_json"
    ∷ parse_only value "Value Escape" "value_escape_json"
    ∷ parse_only value "Value NumberExponent" "value_number_exponent_json"
    ∷ parse_only value "Value Surrogate" "value_surrogate_json"
    ∷ parse_only value "Value KeySurrogate" "value_key_surrogate_json"
    ∷ bench_pair value "NullValue" "null_value_value" "null_value_json"
    ∷ bench_pair value "StringScalarValue" "string_scalar_value" "string_scalar_value_json"
    ∷ parse_only value "StringScalarValue Escape" "string_scalar_value_escape_json"
    ∷ parse_only value "StringScalarValue Surrogate" "string_scalar_value_surrogate_json"
    ∷ bench_pair value "EmptyStringScalarValue" "empty_string_scalar_value"
        "empty_string_scalar_value_json"
    ∷ bench_pair value "NumberValue" "number_value" "number_value_json"
    ∷ parse_only value "NumberValue Exponent" "number_value_exponent_json"
    ∷ bench_pair value "NegativeNumberValue" "negative_number_value" "negative_number_value_json"
    ∷ bench_pair value "ZeroNumberValue" "zero_number_value" "zero_number_value_json"
    ∷ bench_pair value "BoolScalarValue" "bool_scalar_value" "bool_scalar_value_json"
    ∷ bench_pair value "FalseBoolScalarValue" "false_bool_scalar_value"
        "false_bool_scalar_value_json"
    ∷ bench_pair value "ListKindValue" "list_kind_value" "list_kind_value_json"
    ∷ parse_only value "ListKindValue Escape" "list_kind_value_escape_json"
    ∷ parse_only value "ListKindValue Surrogate" "list_kind_value_surrogate_json"
    ∷ bench_pair value "EmptyStructKindValue" "empty_struct_kind_value"
        "empty_struct_kind_value_json"
    ∷ bench_pair value "EmptyListKindValue" "empty_list_kind_value" "empty_list_kind_value_json"
    ∷ bench_pair list_value "ListValue" "list_value" "list_value_json"
    ∷ parse_only list_value "ListValue Escape" "list_value_escape_json"
    ∷ parse_only list_value "ListValue Surrogate" "list_value_surrogate_json"
    ∷ bench_pair list_value "EmptyListValue" "empty_list_value" "empty_list_value_json"
    ∷ []

abbrev pub bool_string_bytes_runs : List WktRun
bool_string_bytes_runs =
    bench_pair bool_value "BoolValue" "bool_value" "bool_value_json"
    ∷ bench_pair any "Any BoolValue WKT" "any_bool_value_wkt" "any_bool_value_wkt_json"
    ∷ bench_pair bool_value "FalseBoolValue" "false_bool_value" "false_bool_value_json"
    ∷ bench_pair any "Any FalseBoolValue WKT" "any_false_bool_value_wkt"
        "any_false_bool_value_wkt_json"
    ∷ bench_pair string_value "StringValue" "string_value" "string_value_json"
    ∷ parse_only string_value "StringValue Escape" "string_value_escape_json"
    ∷ parse_only string_value "StringValue Surrogate" "string_value_surrogate_json"
    ∷ parse_only any "Any StringValue Escape WKT" "any_string_value_escape_wkt_json"
    ∷ parse_only any "Any StringValue Surrogate WKT" "any_string_value_surrogate_wkt_json"
    ∷ bench_pair string_value "EmptyStringValue" "empty_string_value" "empty_string_value_json"
    ∷ bench_pair any "Any EmptyStringValue WKT" "any_empty_string_value_wkt"
        "any_empty_string_value_wkt_json"
    ∷ bench_pair bytes_value "BytesValue" "bytes_value" "bytes_value_json"
    ∷ parse_only bytes_value "BytesValue URL" "bytes_value_url_json"
    ∷ parse_only bytes_value "BytesValue StandardBase64" "bytes_value_standard_base64_json"
    ∷ parse_only bytes_value "BytesValue Unpadded" "bytes_value_unpadded_json"
    ∷ parse_only any "Any BytesValue URL WKT" "any_bytes_value_url_wkt_json"
    ∷ parse_only any "Any BytesValue StandardBase64 WKT" "any_bytes_value_standard_base64_wkt_json"
    ∷ parse_only any "Any BytesValue Unpadded WKT" "any_bytes_value_unpadded_wkt_json"
    ∷ bench_pair bytes_value "EmptyBytesValue" "empty_bytes_value" "empty_bytes_value_json"
    ∷ bench_pair any "Any EmptyBytesValue WKT" "any_empty_bytes_value_wkt"
        "any_empty_bytes_value_wkt_json"
    ∷ []
