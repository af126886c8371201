-- ===== src/Bench/Checks/Small.antt =====
-- The checks of the texts of the other messages.
use pbz.Common.{Bool, ℕ, zero, suc, ◌+◌, List, Option, some, not, ◌||◌}
use mathlib.Core.Option.{map}
use pbz.Wire.ZigZag.{pos}
use pbz.Bench.Timing.{String}
use pbz.Bench.Search.{codes, lacks}
use pbz.Bench.Message.{message_to_json_string, json_string_to_message}
use pbz.Bench.Runs.Json.{
  always_print_json_options, proto_name_json_options, ignore_unknown_json_options,
}
use pbz.Bench.Program.{LargeMapClass}
use pbz.Bench.Makers.{PersonClass, TextBytesClass, PresenceMixClass, ComplexClass}
use pbz.Bench.Checks.{
  PersonReader, TextBytesReader, PresenceMixReader, ComplexReader, LargeMapReader, ◌>>=◌, ◌>>◌,
  abort_if, ◌!=◌, ◌!=ℤ◌, ◌!=str◌, at_differs,
}

abbrev pub map_key_surrogate_json : List ℕ
map_key_surrogate_json = codes "{\"counts\":{\"\\ud83d\\ude00\":9}}"

abbrev pub null_fields_json : List ℕ
null_fields_json = codes "{\"id\":null,\"name\":null,\"scores\":null,\"counts\":null}"

abbrev pub ignore_unknown_json : List ℕ
ignore_unknown_json =
    codes
      "{\"id\":7,\"name\":\"zig\",\"scores\":[3],\"counts\":{\"red\":4},\"unknownNested\":{\"x\":1},\"unknownList\":[1,2]}"

module _ {P : PersonClass} (r : PersonReader P) where
  unfoldable pub prepare_always_print_stringify_json : P.Msg → Option (List ℕ)
  prepare_always_print_stringify_json empty_person = do
    json ← P.message.message_to_json_string_with always_print_json_options empty_person
    abort_if (
        lacks json "\"id\":0"
        || lacks json "\"name\":\"\""
        || lacks json "\"scores\":[]"
        || lacks json "\"counts\":{}")
    some json

  -- The message is not empty before the parse.
  unfoldable pub check_null_fields_json : Option (Unit {0})
  check_null_fields_json = do
    let filled =
        P.put_counts "red" (pos 2) (P.add_scores (pos 1) (P.set_name "x" (P.set_id (pos 7) P.new)))
    decoded ← json_string_to_message P.message null_fields_json filled
    abort_if (
        r.id decoded !=ℤ pos 0
        || r.name decoded !=str ""
        || r.scores_size decoded != 0
        || r.counts_size decoded != 0)

  unfoldable pub check_ignore_unknown_json : Option (Unit {0})
  check_ignore_unknown_json = do
    decoded ←
        P.message.json_string_to_message_with ignore_unknown_json_options ignore_unknown_json P.new
    abort_if (
        r.id decoded !=ℤ pos 7
        || r.name decoded !=str "zig"
        || r.scores_size decoded != 1
        || r.scores decoded 0 !=ℤ pos 3
        || r.counts_size decoded != 1
        || at_differs (r.counts_at decoded "red") (pos 4))

-- `for (int i = 0; i < n; ++i) if (a(i) != b(i)) std::abort();`, from `i` on.
unfoldable pub check_same : (ℕ → String) → (ℕ → String) → ℕ → ℕ → Option (Unit {0})
check_same a b zero i = some tt
check_same a b (suc n) i = do abort_if (a i !=str b i); check_same a b n (i + 1)

module _ {T : TextBytesClass} (r : TextBytesReader T) where
  abbrev pub textbytes_differ : T.Msg → T.Msg → Bool
  textbytes_differ textbytes decoded =
      r.title decoded !=str r.title textbytes
      || r.payload decoded !=str r.payload textbytes
      || r.tags_size decoded != r.tags_size textbytes
      || r.chunks_size decoded != r.chunks_size textbytes

  unfoldable pub prepare_textbytes_json : T.Msg → Option (List ℕ)
  unfolding check_same
  prepare_textbytes_json textbytes = do
    json ← message_to_json_string T.message textbytes
    abort_if (
        lacks json "\"title\":\"ASCII title for protobuf\""
        || lacks json "\"payload\":\"MDEyMzQ1Njc4OWFiY2RlZjAxMjM0NTY3ODlhYmNkZWY=\""
        || lacks json "\"tags\":[\"alpha\",\"beta\",\"gamma\",\"delta\"]"
        || lacks json
            "\"chunks\":[\"Y2h1bmstb25l\",\"Y2h1bmstdHdv\",\"Y2h1bmstdGhyZWU=\",\"Y2h1bmstZm91cg==\"]")
    decoded ← json_string_to_message T.message json T.new
    abort_if (textbytes_differ textbytes decoded)
    check_same (r.tags decoded) (r.tags textbytes) (r.tags_size textbytes) 0
    check_same (r.chunks decoded) (r.chunks textbytes) (r.chunks_size textbytes) 0
    some json

module _ {P : PresenceMixClass} (r : PresenceMixReader P) where
  unfoldable pub prepare_presencemix_json : P.Msg → Option (List ℕ)
  prepare_presencemix_json presencemix = do
    json ← message_to_json_string P.message presencemix
    abort_if (
        lacks json "\"count\":0"
        || lacks json "\"note\":\"\""
        || lacks json "\"raw\":\"cHJlc2VuY2UtcmF3\""
        || lacks json "\"child\""
        || lacks json "\"nested\""
        || not (lacks json "\"name\""))
    decoded ← json_string_to_message P.message json P.new
    abort_if (
        not (r.has_count decoded)
        || r.count decoded !=ℤ pos 0
        || not (r.has_note decoded)
        || r.note decoded !=str ""
        || r.raw decoded !=str "presence-raw"
        || not (r.has_child decoded)
        || r.id (r.child decoded) !=ℤ pos 7
        || r.label (r.child decoded) !=str "child"
        || not (r.has_nested decoded)
        || r.id (r.nested decoded) !=ℤ pos 11
        || r.label (r.nested decoded) !=str "nested")
    some json

module _ {C : ComplexClass} (r : ComplexReader C) where
  unfoldable pub prepare_complex_proto_name_json : C.Msg → Option (List ℕ)
  prepare_complex_proto_name_json complex = do
    json ← C.message.message_to_json_string_with proto_name_json_options complex
    abort_if (
        lacks json "\"audit_subject\""
        || lacks json "\"at_unix\""
        || not (lacks json "\"auditSubject\"")
        || not (lacks json "\"atUnix\""))
    decoded ← json_string_to_message C.message json C.new
    abort_if (
        not (r.has_audit_subject decoded)
        || r.actor (r.audit_subject decoded) !=str "subject"
        || r.at_unix (r.audit_subject decoded) !=ℤ pos 777
        || not (r.has_audit decoded)
        || r.at_unix (r.audit decoded) !=ℤ pos 12345
        || r.audits_size decoded != 2
        || at_differs (map r.at_unix (r.audits_at decoded "latest")) (pos 67890))
    some json

module _ {L : LargeMapClass} (r : LargeMapReader L) where
  unfoldable pub prepare_large_map_json : L.Msg → Option (List ℕ)
  prepare_large_map_json large_map = do
    json ← message_to_json_string L.message large_map
    abort_if (lacks json "\"key-0000\":1" || lacks json "\"key-1023\":1024")
    decoded ← json_string_to_message L.message json L.new
    abort_if (
        r.counts_size decoded != r.counts_size large_map
        || at_differs (r.counts_at decoded (L.key 0)) (pos 1)
        || at_differs (r.counts_at decoded (L.key 1023)) (pos 1024))
    some json
