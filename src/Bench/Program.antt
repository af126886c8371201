-- ===== src/Bench/Program.antt =====
-- The timed part of `main` in bench/cpp_protobuf/main.cc as a whole: all groups of runs, in their order,
-- on the messages that the makers fill.
pub mod Complete
use pbz.Common.{ℕ, List, Option}
use pbz.Bench.Timing.{Main, ◌>>=◌, ◌>>◌}
use pbz.Bench.Message.{Message}
use pbz.Bench.Makers.{
  PersonClass, ScalarMixClass, TextBytesClass, LargeBytesClass, PresenceMixClass, ComplexClass,
  make_person, make_scalarmix, make_textbytes, make_largebytes, make_presencemix, make_complex,
}
use pbz.Bench.LargeMap.{make_large_map, make_shuffled_large_map}
use pbz.Bench.Runs.Mixed.{
  person_runs, unknown_runs, scalarmix_runs, textbytes_runs, largebytes_runs, presencemix_runs,
  large_map_runs,
}
use pbz.Bench.Runs.Packed.{PackedClasses, all_packed_runs}
use pbz.Bench.Runs.Json.{
  JsonTexts, complex_binary_runs, complex_text_runs, json_runs, person_text_runs,
}
use pbz.Bench.Wkt.{WktLocals, run_wkts}
use pbz.Bench.Wkt.Table.{wkt_runs}

-- The class LargeMap: `with_counts` is the message that holds the given entries, and `key` the text of a
-- key.
pub record LargeMapClass : Type 1 where
  pub message : Message
  pub open message use *
  pub Key : Type 0
  pub same_key : Discrete Key
  pub key : ℕ → Key
  pub with_counts : (Key → Option ℕ) → Msg

-- The message classes of `main`, the reflection on Person, and the variables of the well-known types.
pub record Classes : Type 1 where
  pub person : PersonClass
  pub unknown_fields : person.message.Msg → List ℕ
  pub scalarmix : ScalarMixClass
  pub textbytes : TextBytesClass
  pub largebytes : LargeBytesClass
  pub presencemix : PresenceMixClass
  pub complex : ComplexClass
  pub wkt : WktLocals
  pub packed : PackedClasses
  pub large_map : LargeMapClass

-- The texts that `main` prepares.
pub record Texts : Type 0 where
  pub unknown_bytes : List ℕ
  pub json_texts : JsonTexts
  pub textbytes_json : List ℕ
  pub presencemix_json : List ℕ
  pub complex_json : List ℕ
  pub complex_proto_name_json : List ℕ
  pub complex_text : List ℕ
  pub text : List ℕ
  pub large_map_json : List ℕ

module _ (c : Classes) where
  open c.large_map use {same_key, key, with_counts}

  abbrev pub large_map_message : c.large_map.message.Msg
  large_map_message = with_counts (make_large_map same_key key)

  abbrev pub shuffled_large_map_message : c.large_map.message.Msg
  shuffled_large_map_message = with_counts (make_shuffled_large_map same_key key)

-- `unknown_person` is the message that `unknown_bytes` was parsed to.
unfoldable pub main_runs : (ℕ → ℕ) → (c : Classes) → Texts → c.person.message.Msg → Main (Unit {0})
main_runs clock c texts unknown_person = do
  person_runs clock c.person.message (make_person c.person)
  unknown_runs c.person.message c.unknown_fields clock texts.unknown_bytes unknown_person
  scalarmix_runs clock c.scalarmix.message (make_scalarmix c.scalarmix)
  textbytes_runs clock c.textbytes.message (make_textbytes c.textbytes) texts.textbytes_json
  largebytes_runs clock c.largebytes.message (make_largebytes c.largebytes)
  presencemix_runs clock c.presencemix.message (make_presencemix c.presencemix)
      texts.presencemix_json
  complex_binary_runs clock c.complex.message (make_complex c.complex)
  complex_text_runs clock c.complex.message (make_complex c.complex) texts.complex_json
      texts.complex_proto_name_json texts.complex_text
  json_runs clock c.person.message c.scalarmix.message (make_person c.person) c.person.new
      (make_scalarmix c.scalarmix) texts.json_texts
  run_wkts clock c.wkt wkt_runs
  person_text_runs clock c.person.message (make_person c.person) texts.text
  all_packed_runs clock c.packed
  large_map_runs clock c.large_map.message (large_map_message c) (shuffled_large_map_message c)
      texts.large_map_json
