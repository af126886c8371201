-- ===== src/Bench/Toy/Passes.antt =====
-- The setup passes with the classes of `Printing`, and these keep the contracts.
use pbz.Common.{length, ◌≡◌, refl, List, [], ◌∷◌, Option, none, some, true, All}
use pbz.Bench.Unknown.{make_unknown_field_payload, append_unknown_fields, append_varint}
use pbz.Bench.Unknown.Laws.{field_numbers}
use pbz.Bench.Runs.Mixed.{checked_unknown}
use pbz.Bench.Wkt.{WktRun, bench_pair, parse_only, parse_block}
use pbz.Bench.Wkt.Table.{wkt_runs}
use pbz.Bench.Makers.{make_scalarmix, for_each}
use pbz.Bench.Checks.Mix.{
  prepare_scalarmix_json, prepare_proto_name_stringify_json, prepare_enum_number_stringify_json,
  check_open_enum_json, check_enum_name_json, check_proto_name_json, check_int_exponent_json,
  check_string_number_json,
}
use pbz.Bench.Checks.Small.{
  prepare_always_print_stringify_json, check_null_fields_json, check_ignore_unknown_json,
  prepare_textbytes_json, prepare_presencemix_json, prepare_complex_proto_name_json,
  prepare_large_map_json,
}
use pbz.Bench.Search.{contains}
use pbz.Bench.Setup.Run.{Outcome, done, aborted, ill_typed, Locals, no_locals, run_statements}
use pbz.Bench.Setup.Table.{wkt_setup}
use pbz.Bench.Setup.Scope.{is_some}
use pbz.Bench.Setup.Prepared.{ParsesText}
use pbz.Bench.Main.{Prepared, returned, prepare}
use pbz.Bench.Main.Contracts.{LibraryContracts}
use pbz.Bench.Toy.{toy_classes-PackedContracts}
use pbz.Bench.Toy.Printing.{printing, readers, toy_library, printer-Contract, printer-TextContract}

value_of : {A : Type 0} (o : Option A) → is_some o ≡ true → (a : A) × (o ≡ some a)
value_of none h = absurd (cc)
value_of (some a) h = (a, refl)

passes : is_some (prepare printing readers toy_library) ≡ true
unfolding prepare run_statements prepare_scalarmix_json prepare_proto_name_stringify_json
    prepare_enum_number_stringify_json check_open_enum_json check_enum_name_json
    check_proto_name_json check_int_exponent_json check_string_number_json
    prepare_always_print_stringify_json check_null_fields_json check_ignore_unknown_json
    prepare_textbytes_json prepare_presencemix_json prepare_complex_proto_name_json
    prepare_large_map_json contains make_scalarmix for_each make_unknown_field_payload
    append_unknown_fields append_varint checked_unknown field_numbers
passes = refl

-- What the setup leaves.
pub prepared : (p : Prepared printing toy_library) × (prepare printing readers toy_library ≡ some p)
prepared = value_of (prepare printing readers toy_library) passes

value_of_done : {A : Type 0} (o : Outcome A) → is_some (returned o) ≡ true → (a : A) × (o ≡ done a)
value_of_done (done a) h = (a, refl)
value_of_done aborted h = absurd (cc)
value_of_done ill_typed h = absurd (cc)

wkt_setup_passes :
    is_some (returned (run_statements toy_library wkt_setup (no_locals toy_library))) ≡ true
unfolding run_statements
wkt_setup_passes = refl

pub wkt_prepared :
    (l : Locals toy_library) × (run_statements toy_library wkt_setup (no_locals toy_library)
      ≡ done l)
wkt_prepared =
    value_of_done (run_statements toy_library wkt_setup (no_locals toy_library)) wkt_setup_passes

parses : (l : Locals toy_library) (runs : List WktRun) → All (ParsesText toy_library l) runs
parses l [] = tt
parses l (bench_pair t name x j ∷ runs) = (tt, parses l runs)
parses l (parse_only t name j ∷ runs) = ((_, refl), parses l runs)
parses l (parse_block t name j ∷ runs) = ((_, refl), parses l runs)

pub printing-LibraryContracts : LibraryContracts printing toy_library
printing-LibraryContracts = record {
  person = printer-Contract _ _;
  person_texts = printer-TextContract _ _;
  empty_person_texts = printer-TextContract _ _;
  person_json = λ m json h. (length json, refl);
  person_text = λ m text h. (0, refl);
  map_key_surrogate = (_, refl);
  null_fields = (_, refl);
  unknown = λ m h. refl;
  scalarmix = printer-Contract _ _;
  scalarmix_texts = printer-TextContract _ _;
  textbytes = printer-Contract _ _;
  largebytes = printer-Contract _ _;
  presencemix = printer-Contract _ _;
  complex = printer-Contract _ _;
  complex_texts = printer-TextContract _ _;
  complex_json = λ m json h. (length json, refl);
  complex_text = λ m text h. (0, refl);
  wkt = λ l h. record { printed = λ t m text e. (length text, refl); written = parses l wkt_runs };
  packed = toy_classes-PackedContracts;
  large_map = printer-Contract _ _;
  shuffled_large_map = printer-Contract _ _;
}
