-- ===== src/Bench/Setup/Table/Times.antt =====
-- The durations, field masks and timestamps that `main` prepares.
use pbz.Common.{List, [], ◌∷◌}
use pbz.Wire.ZigZag.{pos, negsuc}
use pbz.Bench.Wkt.{any, duration, timestamp, field_mask}
use pbz.Bench.Setup.{
  Statement, declare, change, pack, print, literal, discard, set_seconds, set_nanos, add_paths,
}

abbrev pub duration_setup : List Statement
duration_setup =
    declare duration "any_wkt_duration"
    ∷ change "any_wkt_duration" [] (set_seconds (pos 1))
    ∷ change "any_wkt_duration" [] (set_nanos (pos 500000000))
    ∷ declare any "any_wkt"
    ∷ pack "any_wkt" "any_wkt_duration"
    ∷ print "any_wkt_json" "any_wkt"
    ∷ print "duration_json" "any_wkt_duration"
    ∷ literal "duration_escape_json" "\"1\\u002e500s\""
    ∷ literal "any_duration_escape_wkt_json"
        "{\"@type\":\"type.googleapis.com/google.protobuf.Duration\",\"value\":\"1\\u002e500s\"}"
    ∷ literal "plus_duration_json" "\"+1.500s\""
    ∷ literal "any_plus_duration_wkt_json"
        "{\"@type\":\"type.googleapis.com/google.protobuf.Duration\",\"value\":\"+1.500s\"}"
    ∷ literal "short_fraction_duration_json" "\"1.5s\""
    ∷ literal "any_short_fraction_duration_wkt_json"
        "{\"@type\":\"type.googleapis.com/google.protobuf.Duration\",\"value\":\"1.5s\"}"
    ∷ declare duration "micro_duration"
    ∷ change "micro_duration" [] (set_seconds (pos 1))
    ∷ change "micro_duration" [] (set_nanos (pos 120000))
    ∷ print "micro_duration_json" "micro_duration"
    ∷ declare any "any_micro_duration_wkt"
    ∷ pack "any_micro_duration_wkt" "micro_duration"
    ∷ print "any_micro_duration_wkt_json" "any_micro_duration_wkt"
    ∷ declare duration "nano_duration"
    ∷ change "nano_duration" [] (set_seconds (pos 1))
    ∷ change "nano_duration" [] (set_nanos (pos 123456789))
    ∷ print "nano_duration_json" "nano_duration"
    ∷ declare any "any_nano_duration_wkt"
    ∷ pack "any_nano_duration_wkt" "nano_duration"
    ∷ print "any_nano_duration_wkt_json" "any_nano_duration_wkt"
    ∷ declare duration "negative_duration"
    ∷ change "negative_duration" [] (set_seconds (negsuc 0))
    ∷ change "negative_duration" [] (set_nanos (negsuc 499999999))
    ∷ declare any "any_negative_duration_wkt"
    ∷ pack "any_negative_duration_wkt" "negative_duration"
    ∷ print "any_negative_duration_wkt_json" "any_negative_duration_wkt"
    ∷ print "negative_duration_json" "negative_duration"
    ∷ declare duration "fractional_negative_duration"
    ∷ change "fractional_negative_duration" [] (set_nanos (negsuc 249999999))
    ∷ declare any "any_fractional_negative_duration_wkt"
    ∷ pack "any_fractional_negative_duration_wkt" "fractional_negative_duration"
    ∷ print "any_fractional_negative_duration_wkt_json" "any_fractional_negative_duration_wkt"
    ∷ print "fractional_negative_duration_json" "fractional_negative_duration"
    ∷ declare duration "max_duration"
    ∷ change "max_duration" [] (set_seconds (pos 315576000000))
    ∷ declare any "any_max_duration_wkt"
    ∷ pack "any_max_duration_wkt" "max_duration"
    ∷ print "any_max_duration_wkt_json" "any_max_duration_wkt"
    ∷ print "max_duration_json" "max_duration"
    ∷ declare duration "min_duration"
    ∷ change "min_duration" [] (set_seconds (negsuc 315575999999))
    ∷ declare any "any_min_duration_wkt"
    ∷ pack "any_min_duration_wkt" "min_duration"
    ∷ print "any_min_duration_wkt_json" "any_min_duration_wkt"
    ∷ print "min_duration_json" "min_duration"
    ∷ declare duration "zero_duration"
    ∷ declare any "any_zero_duration_wkt"
    ∷ pack "any_zero_duration_wkt" "zero_duration"
    ∷ print "any_zero_duration_wkt_json" "any_zero_duration_wkt"
    ∷ print "zero_duration_json" "zero_duration"
    ∷ []

abbrev pub field_mask_setup : List Statement
field_mask_setup =
    declare field_mask "field_mask"
    ∷ change "field_mask" [] (add_paths "foo_bar")
    ∷ change "field_mask" [] (add_paths "nested.value")
    ∷ print "field_mask_json" "field_mask"
    ∷ declare any "any_field_mask_wkt"
    ∷ pack "any_field_mask_wkt" "field_mask"
    ∷ print "any_field_mask_wkt_json" "any_field_mask_wkt"
    ∷ literal "field_mask_escape_json" "\"fooBar,\\u006eested.value\""
    ∷ literal "any_field_mask_escape_wkt_json"
        "{\"@type\":\"type.googleapis.com/google.protobuf.FieldMask\",\"value\":\"fooBar,\\u006eested.value\"}"
    ∷ declare field_mask "empty_field_mask"
    ∷ print "empty_field_mask_json" "empty_field_mask"
    ∷ declare any "any_empty_field_mask_wkt"
    ∷ pack "any_empty_field_mask_wkt" "empty_field_mask"
    ∷ print "any_empty_field_mask_wkt_json" "any_empty_field_mask_wkt"
    ∷ discard "any_field_mask_wkt"
    ∷ []

abbrev pub timestamp_setup : List Statement
timestamp_setup =
    declare timestamp "timestamp"
    ∷ change "timestamp" [] (set_seconds (pos 1577836800))
    ∷ change "timestamp" [] (set_nanos (pos 123000000))
    ∷ print "timestamp_json" "timestamp"
    ∷ declare any "any_timestamp_wkt"
    ∷ pack "any_timestamp_wkt" "timestamp"
    ∷ print "any_timestamp_wkt_json" "any_timestamp_wkt"
    ∷ literal "timestamp_escape_json" "\"2020-01-01T00:00:00\\u002e123Z\""
    ∷ literal "any_timestamp_escape_wkt_json"
        "{\"@type\":\"type.googleapis.com/google.protobuf.Timestamp\",\"value\":\"2020-01-01T00:00:00\\u002e123Z\"}"
    ∷ literal "short_fraction_timestamp_json" "\"2020-01-01T00:00:00.1Z\""
    ∷ literal "any_short_fraction_timestamp_wkt_json"
        "{\"@type\":\"type.googleapis.com/google.protobuf.Timestamp\",\"value\":\"2020-01-01T00:00:00.1Z\"}"
    ∷ declare timestamp "micro_timestamp"
    ∷ change "micro_timestamp" [] (set_seconds (pos 1577836800))
    ∷ change "micro_timestamp" [] (set_nanos (pos 123456000))
    ∷ print "micro_timestamp_json" "micro_timestamp"
    ∷ declare any "any_micro_timestamp_wkt"
    ∷ pack "any_micro_timestamp_wkt" "micro_timestamp"
    ∷ print "any_micro_timestamp_wkt_json" "any_micro_timestamp_wkt"
    ∷ declare timestamp "nano_timestamp"
    ∷ change "nano_timestamp" [] (set_seconds (pos 1577836800))
    ∷ change "nano_timestamp" [] (set_nanos (pos 123456789))
    ∷ print "nano_timestamp_json" "nano_timestamp"
    ∷ declare any "any_nano_timestamp_wkt"
    ∷ pack "any_nano_timestamp_wkt" "nano_timestamp"
    ∷ print "any_nano_timestamp_wkt_json" "any_nano_timestamp_wkt"
    ∷ literal "offset_timestamp_json" "\"2020-01-01T03:00:00.123456+03:00\""
    ∷ literal "any_offset_timestamp_wkt_json"
        "{\"@type\":\"type.googleapis.com/google.protobuf.Timestamp\",\"value\":\"2020-01-01T03:00:00.123456+03:00\"}"
    ∷ declare timestamp "pre_epoch_timestamp"
    ∷ change "pre_epoch_timestamp" [] (set_seconds (negsuc 0))
    ∷ print "pre_epoch_timestamp_json" "pre_epoch_timestamp"
    ∷ declare any "any_pre_epoch_timestamp_wkt"
    ∷ pack "any_pre_epoch_timestamp_wkt" "pre_epoch_timestamp"
    ∷ print "any_pre_epoch_timestamp_wkt_json" "any_pre_epoch_timestamp_wkt"
    ∷ declare timestamp "max_timestamp"
    ∷ change "max_timestamp" [] (set_seconds (pos 253402300799))
    ∷ change "max_timestamp" [] (set_nanos (pos 999999999))
    ∷ print "max_timestamp_json" "max_timestamp"
    ∷ declare any "any_max_timestamp_wkt"
    ∷ pack "any_max_timestamp_wkt" "max_timestamp"
    ∷ print "any_max_timestamp_wkt_json" "any_max_timestamp_wkt"
    ∷ declare timestamp "min_timestamp"
    ∷ change "min_timestamp" [] (set_seconds (negsuc 62135596799))
    ∷ print "min_timestamp_json" "min_timestamp"
    ∷ declare any "any_min_timestamp_wkt"
    ∷ pack "any_min_timestamp_wkt" "min_timestamp"
    ∷ print "any_min_timestamp_wkt_json" "any_min_timestamp_wkt"
    ∷ []
