-- ===== src/Bench/Main/Checked.antt =====
-- What the checks of the setup of `main` let through.
use mathlib.Core.Path.{subst}
use pbz.Common.{sym, ◌∙◌, ℕ, ◌≡◌, List, some}
use pbz.Bench.Message.{default_parse, message_to_json_string}
use pbz.Bench.Makers.{ScalarMixClass, make_person, make_scalarmix, make_presencemix}
use pbz.Bench.Program.{Classes}
use pbz.Bench.Runs.Mixed.Complete.{JsonContract}
use pbz.Bench.Runs.Mixed.Unknown.{Parsed, checked_unknown-parses}
use pbz.Bench.Runs.Json.{JsonTexts, ignore_unknown_json_options}
use pbz.Bench.Runs.Json.Complete.{Parses, TextsParse}
use pbz.Bench.Checks.{ScalarMixReader}
use pbz.Bench.Checks.Mix
use pbz.Bench.Checks.Small
use pbz.Bench.Checks.Small.{map_key_surrogate_json, null_fields_json}
use pbz.Bench.Checks.Chain.{after_call, some-injective}
use pbz.Bench.Checks.MixFacts.{
  Reads, PrintsBack, prepare_scalarmix_json-PrintsBack, check_int_exponent_json-Reads,
  check_string_number_json-Reads, check_open_enum_json-Reads, check_enum_name_json-Reads,
  check_proto_name_json-Reads,
}
use pbz.Bench.Checks.SmallFacts.{
  check_ignore_unknown_json-Parses, prepare_presencemix_json-JsonContract,
}
use pbz.Bench.Setup.Run.{WktLibrary}
use pbz.Bench.Runs.Mixed.{checked_unknown}
use pbz.Bench.Unknown.{make_unknown_field_payload}
use pbz.Bench.Unknown.Laws.{make_unknown_field_payload-bytes}
use pbz.Bench.Main.{prepare_unknown, Readers, check_json_texts, prepare_json_texts}
use pbz.Bench.Main.Contracts.{AcceptsJson, unknown_payload, LibraryContracts}

read_Parses :
    {S : ScalarMixClass} (r : ScalarMixReader S) {json : List ℕ} {P : S.Msg → Type 0}
    → Reads r json P
    → Parses S.message default_parse json
read_Parses r (m, e, p) = (m, e)

module _ (c : Classes) (r : Readers c) where
  -- What the setup has checked of the texts that are written out.
  pub record WrittenChecked : Type 0 where
    pub ignore_unknown_json :
        Parses c.person.message ignore_unknown_json_options Small.ignore_unknown_json
    pub open_enum_json : Parses c.scalarmix.message default_parse Mix.open_enum_json
    pub enum_name_json : Parses c.scalarmix.message default_parse Mix.enum_name_json
    pub proto_name_json : Parses c.scalarmix.message default_parse Mix.proto_name_json
    pub int_exponent_json : Parses c.scalarmix.message default_parse Mix.int_exponent_json
    pub string_number_json : Parses c.scalarmix.message default_parse Mix.string_number_json

  check_json_texts-Checked : check_json_texts c r ≡ some tt → WrittenChecked
  unfolding check_json_texts
  check_json_texts-Checked h = after_call (Small.check_null_fields_json r.person) _ h (λ u e h1.
      after_call (Small.check_ignore_unknown_json r.person) _ h1 (λ u1 e1 h2.
        after_call (Mix.check_open_enum_json r.scalarmix) _ h2 (λ u2 e2 h3.
          after_call (Mix.check_enum_name_json r.scalarmix) _ h3 (λ u3 e3 h4.
            after_call (Mix.check_proto_name_json r.scalarmix) _ h4 (λ u4 e4 h5.
              after_call (Mix.check_int_exponent_json r.scalarmix) _ h5 (λ u5 e5 h6. record {
                ignore_unknown_json = check_ignore_unknown_json-Parses r.person e1;
                open_enum_json =
                    read_Parses r.scalarmix (check_open_enum_json-Reads r.scalarmix e2);
                enum_name_json =
                    read_Parses r.scalarmix (check_enum_name_json-Reads r.scalarmix e3);
                proto_name_json =
                    read_Parses r.scalarmix (check_proto_name_json-Reads r.scalarmix e4);
                int_exponent_json =
                    read_Parses r.scalarmix (check_int_exponent_json-Reads r.scalarmix e5);
                string_number_json =
                    read_Parses r.scalarmix (check_string_number_json-Reads r.scalarmix h6);
              }))))))

  -- What the setup has checked of all JSON texts of Person, ScalarMix and PresenceMix.
  pub record JsonTextsChecked (p : JsonTexts × List ℕ) : Type 0 where
    pub json : message_to_json_string c.person.message (make_person c.person) ≡ some p.0.json
    pub scalarmix_json : PrintsBack r.scalarmix (make_scalarmix c.scalarmix) p.0.scalarmix_json
    pub presencemix_json : JsonContract c.presencemix.message (make_presencemix c.presencemix) p.1
    pub texts :
        Parses c.person.message default_parse map_key_surrogate_json
        → Parses c.person.message default_parse null_fields_json
        → AcceptsJson c.person.message
        → TextsParse c.person.message c.scalarmix.message p.0

  pub prepare_json_texts-Checked :
      (p : JsonTexts × List ℕ) → prepare_json_texts c r ≡ some p → JsonTextsChecked p
  unfolding prepare_json_texts
  prepare_json_texts-Checked p h =
      after_call (message_to_json_string c.person.message (make_person c.person)) _ h (λ json e1 h1.
        after_call (Mix.prepare_scalarmix_json r.scalarmix (make_scalarmix c.scalarmix)) _ h1
          (λ mix e2 h2.
            after_call (Small.prepare_always_print_stringify_json r.person c.person.new) _ h2
              (λ always e3 h3.
                after_call
                  (Mix.prepare_proto_name_stringify_json r.scalarmix (make_scalarmix c.scalarmix)) _
                  h3
                  (λ proto e4 h4.
                    after_call
                      (Mix.prepare_enum_number_stringify_json r.scalarmix
                        (make_scalarmix c.scalarmix))
                      _ h4
                      (λ number e5 h5.
                        after_call
                          (Small.prepare_presencemix_json r.presencemix
                            (make_presencemix c.presencemix))
                          _ h5
                          (λ presence e6 h6. after_call (check_json_texts c r) _ h6 (λ u e7 h7.
                            subst JsonTextsChecked (some-injective h7) (record {
                              json = e1;
                              scalarmix_json =
                                  prepare_scalarmix_json-PrintsBack r.scalarmix _ mix e2;
                              presencemix_json =
                                  prepare_presencemix_json-JsonContract r.presencemix _ presence e6;
                              texts = λ surrogate nulls accepts.
                                  let written = check_json_texts-Checked e7 in
                                  let back =
                                    prepare_scalarmix_json-PrintsBack r.scalarmix _ mix e2 in
                                  record {
                                    json = accepts _ json e1;
                                    scalarmix_json = (back.decoded, back.parses);
                                    map_key_surrogate_json = surrogate;
                                    null_fields_json = nulls;
                                    ignore_unknown_json = written.ignore_unknown_json;
                                    open_enum_json = written.open_enum_json;
                                    enum_name_json = written.enum_name_json;
                                    proto_name_json = written.proto_name_json;
                                    int_exponent_json = written.int_exponent_json;
                                    string_number_json = written.string_number_json;
                                  };
                            }))))))))

-- The check of the unknown fields gives what their runs need.
pub prepare_unknown-Parsed :
    (c : Classes) (r : Readers c) (lib : WktLibrary)
    → LibraryContracts c lib
    → (p : List ℕ × c.person.message.Msg) → prepare_unknown c r ≡ some p
    → Parsed c.person.message c.unknown_fields p.0 p.1
unfolding prepare_unknown
prepare_unknown-Parsed c r lib k p h =
    let M = c.person.message in
    after_call (make_unknown_field_payload (M.serialize_to_string (make_person c.person))) _ h
      (λ bytes e h1. after_call (checked_unknown M c.unknown_fields bytes M.new) _ h1 (λ m e1 h2.
        let same : bytes ≡ unknown_payload c =
          some-injective (sym e ∙ make_unknown_field_payload-bytes _) in
        let parses = checked_unknown-parses M c.unknown_fields bytes M.new e1 in
        subst (λ q. Parsed M c.unknown_fields q.0 q.1) (some-injective h2)
          (record {
            payload = parses;
            keeps = k.unknown m (subst (λ b. M.parse_from_string b M.new ≡ some m) same parses);
          })))
