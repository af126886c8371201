-- ===== src/Bench/Sizes/Variables.antt =====
-- The text variables of `main` whose sizes it prints, and what it prints of them.
use text.Mathlib.Text.{◌==◌ as str_eq}
use pbz.Common.{ℕ, List, [], ◌∷◌, Option, none, some, if◌then◌else◌}
use pbz.Bench.Timing.{String}
use pbz.Bench.Makers.{
  make_person, make_scalarmix, make_textbytes, make_largebytes, make_presencemix, make_complex,
}
use pbz.Bench.Payloads.{
  make_packed, make_fixed_packed, make_fixed64_packed, make_sfixed_packed, make_sfixed64_packed,
  make_float_packed, make_double_packed, make_uint64_packed, make_uint32_packed, make_int64_packed,
  make_sint32_packed, make_sint64_packed, make_bool_packed, make_enum_packed,
}
use pbz.Bench.Program.{Classes, Texts, large_map_message, shuffled_large_map_message}
use pbz.Bench.Setup.Run.{WktLibrary, Locals}

abbrev pub lookup : String → List (String × List ℕ) → Option (List ℕ)
lookup x [] = none
lookup x ((y, text) ∷ rest) = if str_eq y x then some text else lookup x rest

abbrev pub first_of : Option (List ℕ) → Option (List ℕ) → Option (List ℕ)
first_of none b = b
first_of (some a) b = some a

module _ (c : Classes) (texts : Texts) where
  -- The variables beside the JSON texts of the well-known types.
  abbrev pub other_variables : List (String × List ℕ)
  other_variables =
      ("bytes", c.person.message.serialize_to_string (make_person c.person))
      ∷ ("unknown_bytes", texts.unknown_bytes)
      ∷ ("json", texts.json_texts.json)
      ∷ ("scalarmix_json", texts.json_texts.scalarmix_json)
      ∷ ("always_print_stringify_json", texts.json_texts.always_print_stringify_json)
      ∷ ("proto_name_stringify_json", texts.json_texts.proto_name_stringify_json)
      ∷ ("enum_number_stringify_json", texts.json_texts.enum_number_stringify_json)
      ∷ ("presencemix_json", texts.presencemix_json)
      ∷ ("map_key_surrogate_json", texts.json_texts.map_key_surrogate_json)
      ∷ ("null_fields_json", texts.json_texts.null_fields_json)
      ∷ ("ignore_unknown_json", texts.json_texts.ignore_unknown_json)
      ∷ ("open_enum_json", texts.json_texts.open_enum_json)
      ∷ ("enum_name_json", texts.json_texts.enum_name_json)
      ∷ ("proto_name_json", texts.json_texts.proto_name_json)
      ∷ ("int_exponent_json", texts.json_texts.int_exponent_json)
      ∷ ("string_number_json", texts.json_texts.string_number_json)
      ∷ ("text", texts.text)
      ∷ ("scalarmix_bytes", c.scalarmix.message.serialize_to_string (make_scalarmix c.scalarmix))
      ∷ ("textbytes_bytes", c.textbytes.message.serialize_to_string (make_textbytes c.textbytes))
      ∷ ("textbytes_json", texts.textbytes_json)
      ∷ ("large_map_json", texts.large_map_json)
      ∷ (
        "largebytes_bytes",
        c.largebytes.message.serialize_to_string (make_largebytes c.largebytes),
      )
      ∷ (
        "presencemix_bytes",
        c.presencemix.message.serialize_to_string (make_presencemix c.presencemix),
      )
      ∷ ("complex_bytes", c.complex.message.serialize_to_string (make_complex c.complex))
      ∷ ("complex_json", texts.complex_json)
      ∷ ("complex_proto_name_json", texts.complex_proto_name_json)
      ∷ ("complex_text", texts.complex_text)
      ∷ ("packed_bytes", c.packed.packed.message.serialize_to_string (make_packed c.packed.packed))
      ∷ (
        "fixed_packed_bytes",
        c.packed.fixed_packed.message.serialize_to_string (make_fixed_packed c.packed.fixed_packed),
      )
      ∷ (
        "fixed64_packed_bytes",
        c.packed.fixed64_packed.message.serialize_to_string
            (make_fixed64_packed c.packed.fixed64_packed),
      )
      ∷ (
        "sfixed_packed_bytes",
        c.packed.sfixed_packed.message.serialize_to_string
            (make_sfixed_packed c.packed.sfixed_packed),
      )
      ∷ (
        "sfixed64_packed_bytes",
        c.packed.sfixed64_packed.message.serialize_to_string
            (make_sfixed64_packed c.packed.sfixed64_packed),
      )
      ∷ (
        "float_packed_bytes",
        c.packed.float_packed.message.serialize_to_string (make_float_packed c.packed.float_packed),
      )
      ∷ (
        "double_packed_bytes",
        c.packed.double_packed.message.serialize_to_string
            (make_double_packed c.packed.double_packed),
      )
      ∷ (
        "uint64_packed_bytes",
        c.packed.uint64_packed.message.serialize_to_string
            (make_uint64_packed c.packed.uint64_packed),
      )
      ∷ (
        "uint32_packed_bytes",
        c.packed.uint32_packed.message.serialize_to_string
            (make_uint32_packed c.packed.uint32_packed),
      )
      ∷ (
        "int64_packed_bytes",
        c.packed.int64_packed.message.serialize_to_string (make_int64_packed c.packed.int64_packed),
      )
      ∷ (
        "sint32_packed_bytes",
        c.packed.sint32_packed.message.serialize_to_string
            (make_sint32_packed c.packed.sint32_packed),
      )
      ∷ (
        "sint64_packed_bytes",
        c.packed.sint64_packed.message.serialize_to_string
            (make_sint64_packed c.packed.sint64_packed),
      )
      ∷ (
        "bool_packed_bytes",
        c.packed.bool_packed.message.serialize_to_string (make_bool_packed c.packed.bool_packed),
      )
      ∷ (
        "enum_packed_bytes",
        c.packed.enum_packed.message.serialize_to_string (make_enum_packed c.packed.enum_packed),
      )
      ∷ ("large_map_bytes", c.large_map.message.serialize_to_string (large_map_message c))
      ∷ (
        "shuffled_large_map_bytes",
        c.large_map.message.serialize_to_string (shuffled_large_map_message c),
      )
      ∷ []

  abbrev pub text_variables : (lib : WktLibrary) → Locals lib → String → Option (List ℕ)
  text_variables lib l x = first_of (lookup x other_variables) (l.texts x)
