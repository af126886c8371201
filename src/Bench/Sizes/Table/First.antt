-- ===== src/Bench/Sizes/Table/First.antt =====
-- The first half of the payload sizes that `main` prints.
use pbz.Common.{List, [], ◌∷◌}
use pbz.Bench.Sizes.{SizeLine}

abbrev pub time_sizes : List SizeLine
time_sizes =
    ("payload size: ", "bytes")
    ∷ ("unknown fields payload size: ", "unknown_bytes")
    ∷ ("json payload size: ", "json")
    ∷ ("scalarmix json payload size: ", "scalarmix_json")
    ∷ ("always-print stringify json payload size: ", "always_print_stringify_json")
    ∷ ("proto name stringify json payload size: ", "proto_name_stringify_json")
    ∷ ("enum number stringify json payload size: ", "enum_number_stringify_json")
    ∷ ("presencemix json payload size: ", "presencemix_json")
    ∷ ("map key-surrogate json payload size: ", "map_key_surrogate_json")
    ∷ ("null fields json payload size: ", "null_fields_json")
    ∷ ("ignore unknown json payload size: ", "ignore_unknown_json")
    ∷ ("open enum json payload size: ", "open_enum_json")
    ∷ ("enum name json payload size: ", "enum_name_json")
    ∷ ("proto name json payload size: ", "proto_name_json")
    ∷ ("int exponent json payload size: ", "int_exponent_json")
    ∷ ("string number json payload size: ", "string_number_json")
    ∷ ("timestamp json payload size: ", "timestamp_json")
    ∷ ("any Timestamp WKT json payload size: ", "any_timestamp_wkt_json")
    ∷ ("timestamp escape json payload size: ", "timestamp_escape_json")
    ∷ ("any Timestamp Escape WKT json payload size: ", "any_timestamp_escape_wkt_json")
    ∷ ("short fraction timestamp json payload size: ", "short_fraction_timestamp_json")
    ∷ (
      "any ShortFraction Timestamp WKT json payload size: ",
      "any_short_fraction_timestamp_wkt_json",
    )
    ∷ ("micro timestamp json payload size: ", "micro_timestamp_json")
    ∷ ("any Micro Timestamp WKT json payload size: ", "any_micro_timestamp_wkt_json")
    ∷ ("nano timestamp json payload size: ", "nano_timestamp_json")
    ∷ ("any Nano Timestamp WKT json payload size: ", "any_nano_timestamp_wkt_json")
    ∷ ("offset timestamp json payload size: ", "offset_timestamp_json")
    ∷ ("any Offset Timestamp WKT json payload size: ", "any_offset_timestamp_wkt_json")
    ∷ ("pre-epoch timestamp json payload size: ", "pre_epoch_timestamp_json")
    ∷ ("any PreEpoch Timestamp WKT json payload size: ", "any_pre_epoch_timestamp_wkt_json")
    ∷ ("max timestamp json payload size: ", "max_timestamp_json")
    ∷ ("any Max Timestamp WKT json payload size: ", "any_max_timestamp_wkt_json")
    ∷ ("min timestamp json payload size: ", "min_timestamp_json")
    ∷ ("any Min Timestamp WKT json payload size: ", "any_min_timestamp_wkt_json")
    ∷ ("duration json payload size: ", "duration_json")
    ∷ ("duration escape json payload size: ", "duration_escape_json")
    ∷ ("any Duration Escape WKT json payload size: ", "any_duration_escape_wkt_json")
    ∷ ("plus duration json payload size: ", "plus_duration_json")
    ∷ ("short fraction duration json payload size: ", "short_fraction_duration_json")
    ∷ ("micro duration json payload size: ", "micro_duration_json")
    ∷ ("nano duration json payload size: ", "nano_duration_json")
    ∷ ("negative duration json payload size: ", "negative_duration_json")
    ∷ ("fractional negative duration json payload size: ", "fractional_negative_duration_json")
    ∷ ("max duration json payload size: ", "max_duration_json")
    ∷ ("min duration json payload size: ", "min_duration_json")
    ∷ ("zero duration json payload size: ", "zero_duration_json")
    ∷ ("field mask json payload size: ", "field_mask_json")
    ∷ ("any PlusDuration WKT json payload size: ", "any_plus_duration_wkt_json")
    ∷ ("any ShortFractionDuration WKT json payload size: ", "any_short_fraction_duration_wkt_json")
    ∷ ("any MicroDuration WKT json payload size: ", "any_micro_duration_wkt_json")
    ∷ ("any NanoDuration WKT json payload size: ", "any_nano_duration_wkt_json")
    ∷ ("any NegativeDuration WKT json payload size: ", "any_negative_duration_wkt_json")
    ∷ (
      "any FractionalNegativeDuration WKT json payload size: ",
      "any_fractional_negative_duration_wkt_json",
    )
    ∷ ("any MaxDuration WKT json payload size: ", "any_max_duration_wkt_json")
    ∷ ("any MinDuration WKT json payload size: ", "any_min_duration_wkt_json")
    ∷ ("any ZeroDuration WKT json payload size: ", "any_zero_duration_wkt_json")
    ∷ ("field mask escape json payload size: ", "field_mask_escape_json")
    ∷ ("any FieldMask Escape WKT json payload size: ", "any_field_mask_escape_wkt_json")
    ∷ ("any FieldMask WKT json payload size: ", "any_field_mask_wkt_json")
    ∷ ("empty field mask json payload size: ", "empty_field_mask_json")
    ∷ ("any EmptyFieldMask WKT json payload size: ", "any_empty_field_mask_wkt_json")
    ∷ ("empty json payload size: ", "empty_json")
    ∷ ("any Empty WKT json payload size: ", "any_empty_wkt_json")
    ∷ ("struct json payload size: ", "struct_json")
    ∷ ("struct escape json payload size: ", "struct_escape_json")
    ∷ []

abbrev pub value_sizes : List SizeLine
value_sizes =
    ("struct number exponent json payload size: ", "struct_number_exponent_json")
    ∷ ("struct surrogate json payload size: ", "struct_surrogate_json")
    ∷ ("struct key-surrogate json payload size: ", "struct_key_surrogate_json")
    ∷ ("value json payload size: ", "value_json")
    ∷ ("value escape json payload size: ", "value_escape_json")
    ∷ ("value number exponent json payload size: ", "value_number_exponent_json")
    ∷ ("value surrogate json payload size: ", "value_surrogate_json")
    ∷ ("value key-surrogate json payload size: ", "value_key_surrogate_json")
    ∷ ("list value json payload size: ", "list_value_json")
    ∷ ("list value escape json payload size: ", "list_value_escape_json")
    ∷ ("empty list value json payload size: ", "empty_list_value_json")
    ∷ ("any Struct WKT json payload size: ", "any_struct_wkt_json")
    ∷ ("any Struct Escape WKT json payload size: ", "any_struct_escape_wkt_json")
    ∷ ("any Struct NumberExponent WKT json payload size: ", "any_struct_number_exponent_wkt_json")
    ∷ ("any Struct Surrogate WKT json payload size: ", "any_struct_surrogate_wkt_json")
    ∷ ("any Struct KeySurrogate WKT json payload size: ", "any_struct_key_surrogate_wkt_json")
    ∷ ("empty struct json payload size: ", "empty_struct_json")
    ∷ ("any EmptyStruct WKT json payload size: ", "any_empty_struct_wkt_json")
    ∷ ("any Value WKT json payload size: ", "any_value_wkt_json")
    ∷ ("any Value Escape WKT json payload size: ", "any_value_escape_wkt_json")
    ∷ ("any Value NumberExponent WKT json payload size: ", "any_value_number_exponent_wkt_json")
    ∷ ("any Value Surrogate WKT json payload size: ", "any_value_surrogate_wkt_json")
    ∷ ("any Value KeySurrogate WKT json payload size: ", "any_value_key_surrogate_wkt_json")
    ∷ ("null value json payload size: ", "null_value_json")
    ∷ ("any NullValue WKT json payload size: ", "any_null_value_wkt_json")
    ∷ ("string scalar value json payload size: ", "string_scalar_value_json")
    ∷ ("string scalar value escape json payload size: ", "string_scalar_value_escape_json")
    ∷ ("string scalar value surrogate json payload size: ", "string_scalar_value_surrogate_json")
    ∷ ("any StringScalarValue WKT json payload size: ", "any_string_scalar_value_wkt_json")
    ∷ (
      "any StringScalarValue Escape WKT json payload size: ",
      "any_string_scalar_value_escape_wkt_json",
    )
    ∷ (
      "any StringScalarValue Surrogate WKT json payload size: ",
      "any_string_scalar_value_surrogate_wkt_json",
    )
    ∷ ("empty string scalar value json payload size: ", "empty_string_scalar_value_json")
    ∷ (
      "any EmptyStringScalarValue WKT json payload size: ",
      "any_empty_string_scalar_value_wkt_json",
    )
    ∷ ("number value json payload size: ", "number_value_json")
    ∷ ("any NumberValue WKT json payload size: ", "any_number_value_wkt_json")
    ∷ ("negative number value json payload size: ", "negative_number_value_json")
    ∷ ("any NegativeNumberValue WKT json payload size: ", "any_negative_number_value_wkt_json")
    ∷ ("zero number value json payload size: ", "zero_number_value_json")
    ∷ ("any ZeroNumberValue WKT json payload size: ", "any_zero_number_value_wkt_json")
    ∷ ("bool scalar value json payload size: ", "bool_scalar_value_json")
    ∷ ("any BoolScalarValue WKT json payload size: ", "any_bool_scalar_value_wkt_json")
    ∷ ("false bool scalar value json payload size: ", "false_bool_scalar_value_json")
    ∷ ("any FalseBoolScalarValue WKT json payload size: ", "any_false_bool_scalar_value_wkt_json")
    ∷ ("list-kind value json payload size: ", "list_kind_value_json")
    ∷ ("list-kind value escape json payload size: ", "list_kind_value_escape_json")
    ∷ ("list-kind value surrogate json payload size: ", "list_kind_value_surrogate_json")
    ∷ ("list value surrogate json payload size: ", "list_value_surrogate_json")
    ∷ ("any ListKindValue WKT json payload size: ", "any_list_kind_value_wkt_json")
    ∷ ("any ListKindValue Escape WKT json payload size: ", "any_list_kind_value_escape_wkt_json")
    ∷ (
      "any ListKindValue Surrogate WKT json payload size: ",
      "any_list_kind_value_surrogate_wkt_json",
    )
    ∷ ("empty struct-kind value json payload size: ", "empty_struct_kind_value_json")
    ∷ ("any EmptyStructKindValue WKT json payload size: ", "any_empty_struct_kind_value_wkt_json")
    ∷ ("empty list-kind value json payload size: ", "empty_list_kind_value_json")
    ∷ ("any EmptyListKindValue WKT json payload size: ", "any_empty_list_kind_value_wkt_json")
    ∷ ("any StringValue WKT json payload size: ", "any_string_value_wkt_json")
    ∷ ("any BytesValue WKT json payload size: ", "any_bytes_value_wkt_json")
    ∷ ("nested Any WKT json payload size: ", "nested_any_wkt_json")
    ∷ ("double value json payload size: ", "double_value_json")
    ∷ ("double value string json payload size: ", "double_value_string_json")
    ∷ ("double value exponent json payload size: ", "double_value_exponent_json")
    ∷ ("any DoubleValue WKT json payload size: ", "any_double_value_wkt_json")
    ∷ ("any DoubleValue String WKT json payload size: ", "any_double_value_string_wkt_json")
    ∷ ("any DoubleValue Exponent WKT json payload size: ", "any_double_value_exponent_wkt_json")
    ∷ []
