-- ===== src/Bench/Program/Complete.antt =====
-- The timed part of `main` runs to its end.
use pbz.Common.{ℕ, List, ◌++◌, All}
use pbz.Bench.Timing.{String}
use pbz.Bench.Message.{default_parse}
use pbz.Bench.Makers.{
  make_person, make_scalarmix, make_textbytes, make_largebytes, make_presencemix, make_complex,
}
use pbz.Bench.Runs.Prints.{Prints, Prints-seq, Contract}
use pbz.Bench.Runs.Packed.Names.{all_packed_names}
use pbz.Bench.Runs.Packed.Complete.{PackedContracts, all_packed_runs-Prints}
use pbz.Bench.Runs.Mixed.Complete.{
  JsonContract, person_names, person_runs-Prints, scalarmix_names, scalarmix_runs-Prints,
  textbytes_names, textbytes_runs-Prints, largebytes_names, largebytes_runs-Prints,
  presencemix_names, presencemix_runs-Prints, large_map_names, large_map_runs-Prints,
}
use pbz.Bench.Runs.Mixed.Unknown.{Parsed, unknown_names, unknown_runs-Prints}
use pbz.Bench.Runs.Json.Complete.{
  Succeeds, Parses, TextContract, TextsParse, complex_binary_names, complex_binary_runs-Prints,
  complex_text_names, complex_text_runs-Prints, json_names, json_runs-Prints, person_text_names,
  person_text_runs-Prints,
}
use pbz.Bench.Wkt.Table.{wkt_runs}
use pbz.Bench.Wkt.Complete.{WktContract, all_wkt_names, run_wkts-Prints}
use pbz.Bench.Program.{Classes, Texts, large_map_message, shuffled_large_map_message, main_runs}

-- What `main` relies on.
pub record MainContracts (c : Classes) (texts : Texts) (unknown_person : c.person.message.Msg)
    : Type 0 where
  pub person : Contract c.person.message (make_person c.person)
  pub person_texts : TextContract c.person.message (make_person c.person)
  pub empty_person_texts : TextContract c.person.message c.person.new
  pub unknown : Parsed c.person.message c.unknown_fields texts.unknown_bytes unknown_person
  pub text : Succeeds (c.person.message.parse_text texts.text c.person.new)
  pub scalarmix : Contract c.scalarmix.message (make_scalarmix c.scalarmix)
  pub scalarmix_texts : TextContract c.scalarmix.message (make_scalarmix c.scalarmix)
  pub json_texts : TextsParse c.person.message c.scalarmix.message texts.json_texts
  pub textbytes : Contract c.textbytes.message (make_textbytes c.textbytes)
  pub textbytes_json :
      JsonContract c.textbytes.message (make_textbytes c.textbytes) texts.textbytes_json
  pub largebytes : Contract c.largebytes.message (make_largebytes c.largebytes)
  pub presencemix : Contract c.presencemix.message (make_presencemix c.presencemix)
  pub presencemix_json :
      JsonContract c.presencemix.message (make_presencemix c.presencemix) texts.presencemix_json
  pub complex : Contract c.complex.message (make_complex c.complex)
  pub complex_texts : TextContract c.complex.message (make_complex c.complex)
  pub complex_json : Parses c.complex.message default_parse texts.complex_json
  pub complex_proto_name_json : Parses c.complex.message default_parse texts.complex_proto_name_json
  pub complex_text : Succeeds (c.complex.message.parse_text texts.complex_text c.complex.new)
  pub wkt : All (WktContract c.wkt) wkt_runs
  pub packed : PackedContracts c.packed
  pub large_map : Contract c.large_map.message (large_map_message c)
  pub shuffled_large_map : Contract c.large_map.message (shuffled_large_map_message c)
  pub large_map_json : JsonContract c.large_map.message (large_map_message c) texts.large_map_json

abbrev pub main_names : List String
main_names =
    (person_names
      ++ (unknown_names
          ++ (scalarmix_names
              ++ (textbytes_names
                  ++ (largebytes_names
                      ++ (presencemix_names
                          ++ (complex_binary_names
                              ++ (complex_text_names
                                  ++ (json_names
                                      ++ ((all_wkt_names wkt_runs)
                                          ++ (person_text_names
                                              ++ (all_packed_names ++ large_map_names))))))))))))

-- Where the protobuf library keeps its contracts for the messages that the makers fill and for the texts
-- that `main` prepares, all of `main`'s timed runs complete without an abort, and print their results in
-- the order of the source.
pub main_runs-Prints :
    (clock : ℕ → ℕ) (c : Classes) (texts : Texts) (unknown_person : c.person.message.Msg)
    → MainContracts c texts unknown_person
    → Prints (main_runs clock c texts unknown_person) main_names
unfolding main_runs
main_runs-Prints clock c texts unknown_person k =
    Prints-seq person_names _
      (person_runs-Prints clock c.person.message (make_person c.person) k.person)
      (Prints-seq unknown_names _
        (unknown_runs-Prints clock c.person.message c.unknown_fields texts.unknown_bytes
          unknown_person k.unknown)
        (Prints-seq scalarmix_names _
          (scalarmix_runs-Prints clock c.scalarmix.message (make_scalarmix c.scalarmix) k.scalarmix)
          (Prints-seq textbytes_names _
            (textbytes_runs-Prints clock c.textbytes.message (make_textbytes c.textbytes)
              texts.textbytes_json k.textbytes k.textbytes_json)
            (Prints-seq largebytes_names _
              (largebytes_runs-Prints clock c.largebytes.message (make_largebytes c.largebytes)
                k.largebytes)
              (Prints-seq presencemix_names _
                (presencemix_runs-Prints clock c.presencemix.message
                  (make_presencemix c.presencemix) texts.presencemix_json k.presencemix
                  k.presencemix_json)
                (Prints-seq complex_binary_names _
                  (complex_binary_runs-Prints clock c.complex.message (make_complex c.complex)
                    k.complex)
                  (Prints-seq complex_text_names _
                    (complex_text_runs-Prints clock c.complex.message (make_complex c.complex)
                      texts.complex_json texts.complex_proto_name_json texts.complex_text
                      k.complex_texts k.complex_json k.complex_proto_name_json k.complex_text)
                    (Prints-seq json_names _
                      (json_runs-Prints clock c.person.message c.scalarmix.message
                        (make_person c.person) c.person.new (make_scalarmix c.scalarmix)
                        texts.json_texts k.person_texts k.empty_person_texts k.scalarmix_texts
                        k.json_texts)
                      (Prints-seq (all_wkt_names wkt_runs) _
                        (run_wkts-Prints clock c.wkt wkt_runs k.wkt)
                        (Prints-seq person_text_names _
                          (person_text_runs-Prints clock c.person.message (make_person c.person)
                            texts.text k.person_texts k.text)
                          (Prints-seq all_packed_names _
                            (all_packed_runs-Prints clock c.packed k.packed)
                            (large_map_runs-Prints clock c.large_map.message (large_map_message c)
                              (shuffled_large_map_message c) texts.large_map_json k.large_map
                              k.shuffled_large_map k.large_map_json))))))))))))
