-- ===== src/Bench/Wkt/Table/Packed.antt =====
-- The runs of the messages that are packed into an Any.
use pbz.Common.{List, [], ◌∷◌}
use pbz.Bench.Wkt.{WktRun, bench_pair, parse_block, parse_only, any}

abbrev pub any_time_runs : List WktRun
any_time_runs =
    bench_pair any "Any WKT" "any_wkt" "any_wkt_json"
    ∷ parse_only any "Any Duration Escape WKT" "any_duration_escape_wkt_json"
    ∷ parse_block any "c++ protobuf Any PlusDuration WKT JSON parse" "any_plus_duration_wkt_json"
    ∷ parse_block any "c++ protobuf Any ShortFractionDuration WKT JSON parse"
        "any_short_fraction_duration_wkt_json"
    ∷ bench_pair any "Any MicroDuration WKT" "any_micro_duration_wkt" "any_micro_duration_wkt_json"
    ∷ bench_pair any "Any NanoDuration WKT" "any_nano_duration_wkt" "any_nano_duration_wkt_json"
    ∷ bench_pair any "Any NegativeDuration WKT" "any_negative_duration_wkt"
        "any_negative_duration_wkt_json"
    ∷ bench_pair any "Any FractionalNegativeDuration WKT" "any_fractional_negative_duration_wkt"
        "any_fractional_negative_duration_wkt_json"
    ∷ bench_pair any "Any MaxDuration WKT" "any_max_duration_wkt" "any_max_duration_wkt_json"
    ∷ bench_pair any "Any MinDuration WKT" "any_min_duration_wkt" "any_min_duration_wkt_json"
    ∷ bench_pair any "Any ZeroDuration WKT" "any_zero_duration_wkt" "any_zero_duration_wkt_json"
    ∷ bench_pair any "Any FieldMask WKT" "any_field_mask_wkt" "any_field_mask_wkt_json"
    ∷ parse_only any "Any FieldMask Escape WKT" "any_field_mask_escape_wkt_json"
    ∷ bench_pair any "Any EmptyFieldMask WKT" "any_empty_field_mask_wkt"
        "any_empty_field_mask_wkt_json"
    ∷ bench_pair any "Any Timestamp WKT" "any_timestamp_wkt" "any_timestamp_wkt_json"
    ∷ parse_only any "Any Timestamp Escape WKT" "any_timestamp_escape_wkt_json"
    ∷ parse_only any "Any ShortFraction Timestamp WKT" "any_short_fraction_timestamp_wkt_json"
    ∷ bench_pair any "Any Micro Timestamp WKT" "any_micro_timestamp_wkt"
        "any_micro_timestamp_wkt_json"
    ∷ bench_pair any "Any Nano Timestamp WKT" "any_nano_timestamp_wkt" "any_nano_timestamp_wkt_json"
    ∷ parse_block any "c++ protobuf Any Offset Timestamp WKT JSON parse"
        "any_offset_timestamp_wkt_json"
    ∷ bench_pair any "Any PreEpoch Timestamp WKT" "any_pre_epoch_timestamp_wkt"
        "any_pre_epoch_timestamp_wkt_json"
    ∷ bench_pair any "Any Max Timestamp WKT" "any_max_timestamp_wkt" "any_max_timestamp_wkt_json"
    ∷ bench_pair any "Any Min Timestamp WKT" "any_min_timestamp_wkt" "any_min_timestamp_wkt_json"
    ∷ []

abbrev pub any_struct_runs : List WktRun
any_struct_runs =
    bench_pair any "Any Empty WKT" "any_empty_wkt" "any_empty_wkt_json"
    ∷ bench_pair any "Any Struct WKT" "any_struct_wkt" "any_struct_wkt_json"
    ∷ parse_only any "Any Struct Escape WKT" "any_struct_escape_wkt_json"
    ∷ parse_only any "Any Struct NumberExponent WKT" "any_struct_number_exponent_wkt_json"
    ∷ parse_only any "Any Struct Surrogate WKT" "any_struct_surrogate_wkt_json"
    ∷ parse_only any "Any Struct KeySurrogate WKT" "any_struct_key_surrogate_wkt_json"
    ∷ bench_pair any "Any EmptyStruct WKT" "any_empty_struct_wkt" "any_empty_struct_wkt_json"
    ∷ bench_pair any "Any Value WKT" "any_value_wkt" "any_value_wkt_json"
    ∷ parse_only any "Any Value Escape WKT" "any_value_escape_wkt_json"
    ∷ parse_only any "Any Value NumberExponent WKT" "any_value_number_exponent_wkt_json"
    ∷ parse_only any "Any Value Surrogate WKT" "any_value_surrogate_wkt_json"
    ∷ parse_only any "Any Value KeySurrogate WKT" "any_value_key_surrogate_wkt_json"
    ∷ bench_pair any "Any NullValue WKT" "any_null_value_wkt" "any_null_value_wkt_json"
    ∷ bench_pair any "Any StringScalarValue WKT" "any_string_scalar_value_wkt"
        "any_string_scalar_value_wkt_json"
    ∷ parse_only any "Any StringScalarValue Escape WKT" "any_string_scalar_value_escape_wkt_json"
    ∷ parse_only any "Any StringScalarValue Surrogate WKT"
        "any_string_scalar_value_surrogate_wkt_json"
    ∷ bench_pair any "Any EmptyStringScalarValue WKT" "any_empty_string_scalar_value_wkt"
        "any_empty_string_scalar_value_wkt_json"
    ∷ bench_pair any "Any NumberValue WKT" "any_number_value_wkt" "any_number_value_wkt_json"
    ∷ parse_only any "Any NumberValue Exponent WKT" "any_number_value_exponent_wkt_json"
    ∷ bench_pair any "Any NegativeNumberValue WKT" "any_negative_number_value_wkt"
        "any_negative_number_value_wkt_json"
    ∷ bench_pair any "Any ZeroNumberValue WKT" "any_zero_number_value_wkt"
        "any_zero_number_value_wkt_json"
    ∷ bench_pair any "Any BoolScalarValue WKT" "any_bool_scalar_value_wkt"
        "any_bool_scalar_value_wkt_json"
    ∷ bench_pair any "Any FalseBoolScalarValue WKT" "any_false_bool_scalar_value_wkt"
        "any_false_bool_scalar_value_wkt_json"
    ∷ bench_pair any "Any ListKindValue WKT" "any_list_kind_value_wkt"
        "any_list_kind_value_wkt_json"
    ∷ parse_only any "Any ListKindValue Escape WKT" "any_list_kind_value_escape_wkt_json"
    ∷ parse_only any "Any ListKindValue Surrogate WKT" "any_list_kind_value_surrogate_wkt_json"
    ∷ bench_pair any "Any EmptyStructKindValue WKT" "any_empty_struct_kind_value_wkt"
        "any_empty_struct_kind_value_wkt_json"
    ∷ bench_pair any "Any EmptyListKindValue WKT" "any_empty_list_kind_value_wkt"
        "any_empty_list_kind_value_wkt_json"
    ∷ bench_pair any "Any StringValue WKT" "any_string_value_wkt" "any_string_value_wkt_json"
    ∷ bench_pair any "Any BytesValue WKT" "any_bytes_value_wkt" "any_bytes_value_wkt_json"
    ∷ bench_pair any "Nested Any WKT" "nested_any_wkt" "nested_any_wkt_json"
    ∷ []
