-- ===== src/Bench/Main.antt =====
-- `main` of bench/cpp_protobuf/main.cc: its setup, which prepares and checks the texts, and the timed runs on
-- them.
pub mod Contracts
pub mod Checked
pub mod Complete
use pbz.Common.{ℕ, List, Option, none, some}
use pbz.Bench.Timing.{World, Main}
use pbz.Bench.Message.{message_to_json_string}
use pbz.Bench.Makers.{make_person, make_scalarmix, make_textbytes, make_presencemix, make_complex}
use pbz.Bench.Program.{Classes, Texts, large_map_message, main_runs}
use pbz.Bench.Runs.Json.{JsonTexts}
use pbz.Bench.Runs.Mixed.{checked_unknown}
use pbz.Bench.Unknown.{make_unknown_field_payload}
use pbz.Bench.Checks.{
  PersonReader, ScalarMixReader, TextBytesReader, PresenceMixReader, ComplexReader, LargeMapReader,
  ◌>>=◌, ◌>>◌,
}
use pbz.Bench.Checks.Mix.{
  open_enum_json, enum_name_json, proto_name_json, int_exponent_json, string_number_json,
  prepare_scalarmix_json, prepare_proto_name_stringify_json, prepare_enum_number_stringify_json,
  check_open_enum_json, check_enum_name_json, check_proto_name_json, check_int_exponent_json,
  check_string_number_json,
}
use pbz.Bench.Checks.Small.{
  map_key_surrogate_json, null_fields_json, ignore_unknown_json,
  prepare_always_print_stringify_json, check_null_fields_json, check_ignore_unknown_json,
  prepare_textbytes_json, prepare_presencemix_json, prepare_complex_proto_name_json,
  prepare_large_map_json,
}
use pbz.Bench.Setup.Run.{
  Outcome, done, aborted, ill_typed, WktLibrary, Locals, no_locals, run_statements, wkt_locals,
}
use pbz.Bench.Setup.Table.{wkt_setup}

-- The getters of the classes.
pub record Readers (c : Classes) : Type 0 where
  pub person : PersonReader c.person
  pub scalarmix : ScalarMixReader c.scalarmix
  pub textbytes : TextBytesReader c.textbytes
  pub presencemix : PresenceMixReader c.presencemix
  pub complex : ComplexReader c.complex
  pub large_map : LargeMapReader c.large_map

-- What a setup that returns leaves.
abbrev pub returned : {A : Type 0} → Outcome A → Option A
returned (done a) = some a
returned aborted = none
returned ill_typed = none

-- What `main` prepares: the texts, the message with unknown fields, and the variables of the well-known
-- types.
abbrev pub Prepared : Classes → WktLibrary → Type 0
Prepared c lib = Texts × c.person.message.Msg × Locals lib

module _ (c : Classes) (r : Readers c) where
  -- The payload of unknown fields, and the message that it is parsed to.
  unfoldable pub prepare_unknown : Option (List ℕ × c.person.message.Msg)
  prepare_unknown = do
    unknown_bytes ←
        make_unknown_field_payload (c.person.message.serialize_to_string (make_person c.person))
    unknown_person ←
        checked_unknown c.person.message c.unknown_fields unknown_bytes c.person.message.new
    some (unknown_bytes, unknown_person)

  -- The checks of the texts that are written out in `main`.
  unfoldable pub check_json_texts : Option (Unit {0})
  check_json_texts = do
    check_null_fields_json r.person
    check_ignore_unknown_json r.person
    check_open_enum_json r.scalarmix
    check_enum_name_json r.scalarmix
    check_proto_name_json r.scalarmix
    check_int_exponent_json r.scalarmix
    check_string_number_json r.scalarmix

  -- The JSON texts of Person and ScalarMix, and that of PresenceMix, which stands between them.
  unfoldable pub prepare_json_texts : Option (JsonTexts × List ℕ)
  unfolding check_json_texts
  prepare_json_texts = do
    json ← message_to_json_string c.person.message (make_person c.person)
    scalarmix_json ← prepare_scalarmix_json r.scalarmix (make_scalarmix c.scalarmix)
    always_print_stringify_json ← prepare_always_print_stringify_json r.person c.person.new
    proto_name_stringify_json ←
        prepare_proto_name_stringify_json r.scalarmix (make_scalarmix c.scalarmix)
    enum_number_stringify_json ←
        prepare_enum_number_stringify_json r.scalarmix (make_scalarmix c.scalarmix)
    presencemix_json ← prepare_presencemix_json r.presencemix (make_presencemix c.presencemix)
    check_json_texts
    some (
      record {
        json = json;
        scalarmix_json = scalarmix_json;
        always_print_stringify_json = always_print_stringify_json;
        proto_name_stringify_json = proto_name_stringify_json;
        enum_number_stringify_json = enum_number_stringify_json;
        map_key_surrogate_json = map_key_surrogate_json;
        null_fields_json = null_fields_json;
        ignore_unknown_json = ignore_unknown_json;
        open_enum_json = open_enum_json;
        enum_name_json = enum_name_json;
        proto_name_json = proto_name_json;
        int_exponent_json = int_exponent_json;
        string_number_json = string_number_json;
      },
      presencemix_json,
    )

  unfoldable pub prepare : (lib : WktLibrary) → Option (Prepared c lib)
  unfolding prepare_unknown prepare_json_texts
  prepare lib = do
    (unknown_bytes, unknown_person) ← prepare_unknown
    (json_texts, presencemix_json) ← prepare_json_texts
    text ← c.person.message.print_to_string (make_person c.person)
    textbytes_json ← prepare_textbytes_json r.textbytes (make_textbytes c.textbytes)
    complex_json ← message_to_json_string c.complex.message (make_complex c.complex)
    complex_proto_name_json ← prepare_complex_proto_name_json r.complex (make_complex c.complex)
    complex_text ← c.complex.message.print_to_string (make_complex c.complex)
    locals ← returned (run_statements lib wkt_setup (no_locals lib))
    large_map_json ← prepare_large_map_json r.large_map (large_map_message c)
    some (
      record {
        unknown_bytes = unknown_bytes;
        json_texts = json_texts;
        textbytes_json = textbytes_json;
        presencemix_json = presencemix_json;
        complex_json = complex_json;
        complex_proto_name_json = complex_proto_name_json;
        complex_text = complex_text;
        text = text;
        large_map_json = large_map_json;
      },
      unknown_person,
      locals,
    )

  -- The classes, with the variables that the setup leaves.
  abbrev pub with_locals : (lib : WktLibrary) → Locals lib → Classes
  with_locals lib locals = record c { wkt = wkt_locals lib locals }

  -- An abort of the setup ends the program.
  abbrev pub run_prepared : (ℕ → ℕ) → (lib : WktLibrary) → Option (Prepared c lib) → Main (Unit {0})
  run_prepared clock lib none w = none
  run_prepared clock lib (some (texts, unknown_person, locals)) w =
      main_runs clock (with_locals lib locals) texts unknown_person w

  unfoldable pub main : (ℕ → ℕ) → WktLibrary → Main (Unit {0})
  unfolding prepare
  main clock lib = run_prepared clock lib (prepare lib)
