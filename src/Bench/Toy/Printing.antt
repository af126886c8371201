-- ===== src/Bench/Toy/Printing.antt =====
-- Message classes in which the setup of `main` passes, for the examples: each class prints a text that
-- has the patterns which `main` looks for, and a parsed message is the length of its text.
use native.Mathlib.Decide.{ℕ_discrete}
use pbz.Common.{ℕ, suc, refl, List, [], length, some, Bool, true, ◌==◌, if◌then◌else◌}
use pbz.Wire.ZigZag.{pos, negsuc}
use pbz.Bench.Timing.{String}
use pbz.Bench.Search.{codes}
use pbz.Bench.Message.{Message, JsonPrintOptions}
use pbz.Bench.Unknown.{unknown_field_stress_count}
use pbz.Bench.Unknown.Laws.{field_numbers}
use pbz.Bench.Makers.{
  PersonClass, ScalarMixClass, TextBytesClass, LargeBytesClass, PresenceMixClass, ComplexClass,
}
use pbz.Bench.Program.{LargeMapClass, Classes}
use pbz.Bench.Runs.Prints.{Contract}
use pbz.Bench.Runs.Json.Complete.{TextContract}
use pbz.Bench.Checks.Mix.{open_enum_json, proto_name_json}
use pbz.Bench.Checks.Small.{ignore_unknown_json}
use pbz.Bench.Setup.Run.{WktLibrary, wkt_locals, no_locals}
use pbz.Bench.Main.{Readers}
use pbz.Bench.Toy.{toy_classes}

abbrev pub printer : (JsonPrintOptions → List ℕ) → Message
printer text = record {
  Msg = ℕ;
  new = 0;
  clear = λ m. 0;
  serialize_to_string = λ m. [];
  serialize_to_array = λ m buffer. some buffer;
  serialize_deterministic = λ m buffer. some buffer;
  parse_from_string = λ bytes m. some m;
  message_to_json_string_with = λ options m. some (text options);
  json_string_to_message_with = λ options json m. some (length json);
  print_to_string = λ m. some [];
  parse_text = λ text m. some 0;
}

abbrev prints : String → Message
prints text = printer (λ options. codes text)

pub printer-Contract : (text : JsonPrintOptions → List ℕ) (m : ℕ) → Contract (printer text) m
printer-Contract text m = record {
  fills_array = λ buffer h. (buffer, refl, refl);
  fills_deterministic = λ buffer h. (buffer, refl, refl);
  clears = λ m. refl;
  parses = (0, refl);
}

pub printer-TextContract :
    (text : JsonPrintOptions → List ℕ) (m : ℕ) → TextContract (printer text) m
printer-TextContract text m = record {
  json = λ options. (text options, refl);
  text = ([], refl);
  clears = λ m. refl;
}

abbrev person : PersonClass
person = record {
  message = prints "{\"id\":0,\"name\":\"\",\"scores\":[],\"counts\":{}}";
  set_id = λ v m. m;
  set_name = λ v m. m;
  add_scores = λ v m. m;
  put_counts = λ k v m. m;
}

abbrev mix_text : JsonPrintOptions → List ℕ
mix_text options =
    if options.preserve_proto_field_names
    then codes "{\"big_delta\":0,\"signed_fixed\":0,\"signed_big_fixed\":0}"
    else if options.always_print_enums_as_ints
    then codes "{\"kind\":2}"
    else codes
        "{\"bigDelta\":\"-9876543\",\"kind\":\"BENCH_KIND_BETA\",\"ids\":[\"1\",\"127\",\"128\"]}"

abbrev scalarmix : ScalarMixClass
scalarmix = record {
  message = printer mix_text;
  set_active = λ v m. m;
  set_count = λ v m. m;
  set_delta = λ v m. m;
  set_big_delta = λ v m. m;
  set_signed_fixed = λ v m. m;
  set_signed_big_fixed = λ v m. m;
  set_total = λ v m. m;
  set_checksum = λ v m. m;
  set_token = λ v m. m;
  set_ratio_bits = λ v m. m;
  set_score_bits = λ v m. m;
  set_kind = λ v m. m;
  add_flags = λ v m. m;
  add_ids = λ v m. m;
}

abbrev textbytes : TextBytesClass
textbytes = record {
  message =
      prints
        "{\"title\":\"ASCII title for protobuf\",\"payload\":\"MDEyMzQ1Njc4OWFiY2RlZjAxMjM0NTY3ODlhYmNkZWY=\",\"tags\":[\"alpha\",\"beta\",\"gamma\",\"delta\"],\"chunks\":[\"Y2h1bmstb25l\",\"Y2h1bmstdHdv\",\"Y2h1bmstdGhyZWU=\",\"Y2h1bmstZm91cg==\"]}";
  set_title = λ v m. m;
  set_payload = λ v m. m;
  add_tags = λ v m. m;
  add_chunks = λ v m. m;
}

abbrev largebytes : LargeBytesClass
largebytes = record { message = prints ""; set_payload = λ v m. m; add_chunks = λ v m. m }

abbrev presencemix : PresenceMixClass
presencemix = record {
  message =
      prints "{\"count\":0,\"note\":\"\",\"raw\":\"cHJlc2VuY2UtcmF3\",\"child\":{},\"nested\":{}}";
  Child = ℕ;
  new_child = 0;
  set_id = λ v c. c;
  set_label = λ v c. c;
  set_count = λ v m. m;
  set_note = λ v m. m;
  set_raw = λ v m. m;
  put_child = λ c m. m;
  put_nested = λ c m. m;
}

abbrev complex : ComplexClass
complex = record {
  message = prints "{\"audit_subject\":{\"at_unix\":777}}";
  Audit = ℕ;
  new_audit = 0;
  set_actor = λ v a. a;
  set_at_unix = λ v a. a;
  set_id = λ v m. m;
  put_audit = λ a m. m;
  add_history = λ a m. m;
  put_audit_subject = λ a m. m;
  put_audits = λ k a m. m;
}

abbrev large_map : LargeMapClass
large_map = record {
  message = prints "{\"key-0000\":1,\"key-1023\":1024}";
  Key = ℕ;
  same_key = ℕ_discrete;
  key = λ i. i;
  with_counts = λ counts. 0;
}

abbrev pub toy_library : WktLibrary
toy_library = record {
  class = λ t. prints "null";
  call = λ t path setter m. m;
  reach_part = λ t path m. m;
  copy_from = λ t path s n m. m;
  pack_from = λ s n m. m;
}

abbrev pub printing : Classes
printing = record {
  person = person;
  unknown_fields = λ m. field_numbers unknown_field_stress_count 0;
  scalarmix = scalarmix;
  textbytes = textbytes;
  largebytes = largebytes;
  presencemix = presencemix;
  complex = complex;
  wkt = wkt_locals toy_library (no_locals toy_library);
  packed = toy_classes;
  large_map = large_map;
}

-- A parsed message is told by the length of its text.
abbrev reads : List ℕ → ℕ → Bool
reads text m = m == length text

abbrev pub readers : Readers printing
readers = record {
  person = record {
    id = λ m. if reads ignore_unknown_json m then pos 7 else pos 0;
    name = λ m. if reads ignore_unknown_json m then "zig" else "";
    scores_size = λ m. if reads ignore_unknown_json m then 1 else 0;
    scores = λ m i. pos 3;
    counts_size = λ m. if reads ignore_unknown_json m then 1 else 0;
    counts_at = λ m k. some (pos 4);
  };
  scalarmix = record {
    count = λ m. pos 12345;
    total = λ m. 9876543210;
    delta = λ m. negsuc 320;
    big_delta = λ m. if reads proto_name_json m then negsuc 320 else negsuc 9876542;
    checksum = λ m. 321;
    token = λ m. 4096;
    signed_fixed = λ m. if reads proto_name_json m then negsuc 122 else negsuc 123455;
    signed_big_fixed = λ m. if reads proto_name_json m then negsuc 455 else negsuc 9876542;
    kind = λ m. if reads open_enum_json m then 123 else 2;
    ids_size = λ m. 3;
    ids = λ m i. if i == 0 then 1 else if i == 1 then 127 else if i == 2 then 128 else 9876543210;
  };
  textbytes = record {
    title = λ m. "";
    payload = λ m. "";
    tags_size = λ m. 1;
    tags = λ m i. "alpha";
    chunks_size = λ m. 1;
    chunks = λ m i. "chunk-one";
  };
  presencemix = record {
    has_count = λ m. true;
    count = λ m. pos 0;
    has_note = λ m. true;
    note = λ m. "";
    raw = λ m. "presence-raw";
    has_child = λ m. true;
    child = λ m. 7;
    has_nested = λ m. true;
    nested = λ m. 11;
    id = pos;
    label = λ c. if c == 7 then "child" else "nested";
  };
  complex = record {
    has_audit_subject = λ m. true;
    audit_subject = λ m. 777;
    has_audit = λ m. true;
    audit = λ m. 12345;
    audits_size = λ m. 2;
    audits_at = λ m k. some 67890;
    actor = λ a. "subject";
    at_unix = pos;
  };
  large_map = record { counts_size = λ m. 1024; counts_at = λ m k. some (pos (suc k)) };
}
