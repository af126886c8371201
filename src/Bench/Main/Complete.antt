-- ===== src/Bench/Main/Complete.antt =====
-- `main` runs to its end where its setup does.
use mathlib.Core.Path.{subst}
use pbz.Common.{ℕ, ◌≡◌, some}
use pbz.Bench.Message.{message_to_json_string}
use pbz.Bench.Makers.{make_person, make_textbytes, make_complex}
use pbz.Bench.Program.{Classes, large_map_message}
use pbz.Bench.Program.Complete.{MainContracts, main_names, main_runs-Prints}
use pbz.Bench.Runs.Prints.{Prints}
use pbz.Bench.Wkt.Table.{wkt_runs}
use pbz.Bench.Checks.Small
use pbz.Bench.Checks.Small.{map_key_surrogate_json, null_fields_json}
use pbz.Bench.Checks.Chain.{after_call, some-injective}
use pbz.Bench.Checks.SmallFacts.{
  prepare_textbytes_json-JsonContract, prepare_complex_proto_name_json-Parses,
  prepare_large_map_json-JsonContract,
}
use pbz.Bench.Setup.Run.{Outcome, done, aborted, ill_typed, WktLibrary, no_locals, run_statements}
use pbz.Bench.Setup.Table.{wkt_setup}
use pbz.Bench.Setup.Prepared.{wkt_setup-PrintsText, runs-WktContract}
use pbz.Bench.Main.{
  Prepared, prepare_unknown, Readers, returned, prepare_json_texts, prepare, with_locals, main,
}
use pbz.Bench.Main.Contracts.{LibraryContracts}
use pbz.Bench.Main.Checked.{prepare_json_texts-Checked, prepare_unknown-Parsed}

returned-done : {A : Type 0} (o : Outcome A) {a : A} → returned o ≡ some a → o ≡ done a
returned-done (done a) h = cc
returned-done aborted h = absurd (cc)
returned-done ill_typed h = absurd (cc)

module _ (c : Classes) (r : Readers c) (lib : WktLibrary) (k : LibraryContracts c lib) where
  -- What `main` relies on, after a setup that returns `p`.
  abbrev Ready : Prepared c lib → Type 0
  Ready (texts, unknown_person, locals) =
      MainContracts (with_locals c r lib locals) texts unknown_person

  prepare-Ready : (p : Prepared c lib) → prepare c r lib ≡ some p → Ready p
  unfolding prepare
  prepare-Ready p h = after_call (prepare_unknown c r) _ h (λ unknown e0 h0.
      after_call (prepare_json_texts c r) _ h0 (λ q e1 h1.
        after_call (c.person.message.print_to_string (make_person c.person)) _ h1 (λ text e2 h2.
          after_call (Small.prepare_textbytes_json r.textbytes (make_textbytes c.textbytes)) _ h2
            (λ textbytes e3 h3.
              after_call (message_to_json_string c.complex.message (make_complex c.complex)) _ h3
                (λ complex e4 h4.
                  after_call
                    (Small.prepare_complex_proto_name_json r.complex (make_complex c.complex)) _ h4
                    (λ proto e5 h5.
                      after_call (c.complex.message.print_to_string (make_complex c.complex)) _ h5
                        (λ complex_text e6 h6.
                          after_call (returned (run_statements lib wkt_setup (no_locals lib))) _ h6
                            (λ locals e7 h7.
                              after_call
                                (Small.prepare_large_map_json r.large_map (large_map_message c)) _
                                h7
                                (λ large_map e8 h8.
                                  let checked = prepare_json_texts-Checked c r q e1 in
                                  let ran =
                                    returned-done (run_statements lib wkt_setup (no_locals lib))
                                      e7 in
                                  let accepted = k.wkt locals ran in
                                  subst Ready (some-injective h8) (record {
                                    person = k.person;
                                    person_texts = k.person_texts;
                                    empty_person_texts = k.empty_person_texts;
                                    unknown = prepare_unknown-Parsed c r lib k unknown e0;
                                    text = k.person_text _ text e2;
                                    scalarmix = k.scalarmix;
                                    scalarmix_texts = k.scalarmix_texts;
                                    json_texts =
                                        checked.texts k.map_key_surrogate k.null_fields
                                          k.person_json;
                                    textbytes = k.textbytes;
                                    textbytes_json =
                                        prepare_textbytes_json-JsonContract r.textbytes _ textbytes
                                          e3;
                                    largebytes = k.largebytes;
                                    presencemix = k.presencemix;
                                    presencemix_json = checked.presencemix_json;
                                    complex = k.complex;
                                    complex_texts = k.complex_texts;
                                    complex_json = k.complex_json _ complex e4;
                                    complex_proto_name_json =
                                        prepare_complex_proto_name_json-Parses r.complex _ proto e5;
                                    complex_text = k.complex_text _ complex_text e6;
                                    wkt =
                                        runs-WktContract lib locals wkt_runs accepted
                                          accepted.written (wkt_setup-PrintsText lib locals ran);
                                    packed = k.packed;
                                    large_map = k.large_map;
                                    shuffled_large_map = k.shuffled_large_map;
                                    large_map_json =
                                        prepare_large_map_json-JsonContract r.large_map _ large_map
                                          e8;
                                  }))))))))))

-- Where the protobuf library keeps its contracts and accepts the texts that it prints, the two texts of
-- Person that the setup does not try as the runs do, and the written texts of the well-known types, a
-- `main` whose setup returns completes all its timed runs without an abort, and prints their results in
-- the order of the source: what the runs need of the other texts the setup has checked.
pub main-Prints :
    (clock : ℕ → ℕ) (c : Classes) (r : Readers c) (lib : WktLibrary) (p : Prepared c lib)
    → LibraryContracts c lib
    → prepare c r lib ≡ some p
    → Prints (main c r clock lib) main_names
unfolding main
main-Prints clock c r lib (texts, unknown_person, locals) k h = rw h (
    main_runs-Prints clock (with_locals c r lib locals) texts unknown_person
      (prepare-Ready c r lib k (texts, unknown_person, locals) h))
