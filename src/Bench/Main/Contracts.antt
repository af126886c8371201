-- ===== src/Bench/Main/Contracts.antt =====
-- What `main` relies on of the protobuf library.
use pbz.Common.{◌++◌, ℕ, ◌≡◌, List, some}
use pbz.Bench.Message.{Message, default_parse, message_to_json_string}
use pbz.Bench.Makers.{
  make_person, make_scalarmix, make_textbytes, make_largebytes, make_presencemix, make_complex,
}
use pbz.Bench.Program.{Classes, large_map_message, shuffled_large_map_message}
use pbz.Bench.Runs.Prints.{Contract}
use pbz.Bench.Runs.Packed.Complete.{PackedContracts}
use pbz.Bench.Runs.Json.Complete.{Succeeds, Parses, TextContract}
use pbz.Bench.Checks.Small.{map_key_surrogate_json, null_fields_json}
use pbz.Bench.Setup.Run.{done, WktLibrary, Locals, no_locals, run_statements}
use pbz.Bench.Setup.Table.{wkt_setup}
use pbz.Bench.Setup.Prepared.{TextsAccepted}
use pbz.Bench.Unknown.{unknown_field_stress_count}
use pbz.Bench.Unknown.Laws.{field_bytes, field_numbers}

-- The library accepts what it prints.
abbrev pub AcceptsJson : Message → Type 0
AcceptsJson M =
    (m : M.Msg) (json : List ℕ)
    → message_to_json_string M m ≡ some json
    → Parses M default_parse json

abbrev pub AcceptsText : Message → Type 0
AcceptsText M =
    (m : M.Msg) (text : List ℕ)
    → M.print_to_string m ≡ some text
    → Succeeds (M.parse_text text M.new)

-- The bytes of Person, and the unknown fields behind them.
abbrev pub unknown_payload : Classes → List ℕ
unknown_payload c =
    c.person.message.serialize_to_string (make_person c.person)
    ++ field_bytes unknown_field_stress_count 0

-- What `main` relies on of the library, beside what it checks itself.
pub record LibraryContracts (c : Classes) (lib : WktLibrary) : Type 0 where
  pub person : Contract c.person.message (make_person c.person)
  pub person_texts : TextContract c.person.message (make_person c.person)
  pub empty_person_texts : TextContract c.person.message c.person.new
  pub person_json : AcceptsJson c.person.message
  pub person_text : AcceptsText c.person.message
  pub map_key_surrogate : Parses c.person.message default_parse map_key_surrogate_json
  pub null_fields : Parses c.person.message default_parse null_fields_json
  pub unknown :
      (m : c.person.message.Msg)
      → c.person.message.parse_from_string (unknown_payload c) c.person.message.new ≡ some m
      → c.unknown_fields m ≡ field_numbers unknown_field_stress_count 0
  pub scalarmix : Contract c.scalarmix.message (make_scalarmix c.scalarmix)
  pub scalarmix_texts : TextContract c.scalarmix.message (make_scalarmix c.scalarmix)
  pub textbytes : Contract c.textbytes.message (make_textbytes c.textbytes)
  pub largebytes : Contract c.largebytes.message (make_largebytes c.largebytes)
  pub presencemix : Contract c.presencemix.message (make_presencemix c.presencemix)
  pub complex : Contract c.complex.message (make_complex c.complex)
  pub complex_texts : TextContract c.complex.message (make_complex c.complex)
  pub complex_json : AcceptsJson c.complex.message
  pub complex_text : AcceptsText c.complex.message
  pub wkt :
      (l : Locals lib) → run_statements lib wkt_setup (no_locals lib) ≡ done l → TextsAccepted lib l
  pub packed : PackedContracts c.packed
  pub large_map : Contract c.large_map.message (large_map_message c)
  pub shuffled_large_map : Contract c.large_map.message (shuffled_large_map_message c)
