-- ===== src/Bench/Runs/Json/Complete.antt =====
-- The runs on JSON and on the text format run to their end.
use pbz.Common.{ℕ, ◌≡◌, List, [], ◌∷◌, Option, some}
use pbz.Bench.Timing.{String}
use pbz.Bench.Message.{Message, JsonPrintOptions, JsonParseOptions, default_print, default_parse}
use pbz.Bench.Runs.{timed, json_stringify, json_parse}
use pbz.Bench.Runs.Prints.{
  Prints, Prints-seq, Contract, timed-Prints, encode-Prints, encode_reuse-Prints,
  encode_array_reuse-Prints, encode_deterministic_reuse-Prints, decode-Prints, decode_reuse-Prints,
}
use pbz.Bench.Runs.Json.{
  always_print_json_options, proto_name_json_options, enum_number_json_options,
  ignore_unknown_json_options, json_stringify_with, json_stringify_reuse, json_parse_with,
  json_parse_reuse, text_format, text_format_reuse, text_parse, text_parse_reuse,
  complex_binary_runs, complex_text_runs, person_text_runs, JsonTexts, json_runs,
}

-- The call succeeds.
abbrev pub Succeeds : {A : Type 0} → Option A → Type 0
Succeeds {A} o = (a : A) × (o ≡ some a)

abbrev pub Parses : (M : Message) → JsonParseOptions → List ℕ → Type 0
Parses M options json = Succeeds (M.json_string_to_message_with options json M.new)

-- What the benchmark relies on for a message that it prints as JSON and text.
pub record TextContract (M : Message) (message : M.Msg) : Type 0 where
  pub json : (options : JsonPrintOptions) → Succeeds (M.message_to_json_string_with options message)
  pub text : Succeeds (M.print_to_string message)
  pub clears : (m : M.Msg) → M.clear m ≡ M.new

module _ (clock : ℕ → ℕ) (M : Message) where
  -- A body that does the same call each time, whatever the call before left.
  steady-Prints :
      {S : Type 0} (name : String) (n size : ℕ) (f : S → Option S) (s : S)
      → ((t : S) → Succeeds (f t))
      → Prints (timed clock M name n size f s) (name ∷ [])
  steady-Prints name n size f s steady =
      timed-Prints clock M name n size f s (λ t. Unit {0})
        (λ t h. let (a, e) = steady t in (a, e, tt)) tt

  module _ (message : M.Msg) (contract : TextContract M message) (name : String) (size : ℕ) where
    stringify-Prints : Prints (json_stringify clock M name size message) (name ∷ [])
    unfolding json_stringify
    stringify-Prints = steady-Prints name _ _ _ _ (λ t. contract.json default_print)

    stringify_reuse-Prints : Prints (json_stringify_reuse clock M name size message) (name ∷ [])
    unfolding json_stringify_reuse
    stringify_reuse-Prints = steady-Prints name _ _ _ _ (λ t. contract.json default_print)

    stringify_with-Prints :
        (options : JsonPrintOptions)
        → Prints (json_stringify_with clock M name size options message) (name ∷ [])
    unfolding json_stringify_with
    stringify_with-Prints options = steady-Prints name _ _ _ _ (λ t. contract.json options)

    format-Prints : Prints (text_format clock M name size message) (name ∷ [])
    unfolding text_format
    format-Prints = steady-Prints name _ _ _ _ (λ t. contract.text)

    format_reuse-Prints : Prints (text_format_reuse clock M name size message) (name ∷ [])
    unfolding text_format_reuse
    format_reuse-Prints = steady-Prints name _ _ _ _ (λ t. contract.text)

  module _ (text : List ℕ) (name : String) where
    parse-Prints : Parses M default_parse text → Prints (json_parse clock M name text) (name ∷ [])
    unfolding json_parse
    parse-Prints ok = steady-Prints name _ _ _ _ (λ t. ok)

    parse_with-Prints :
        (options : JsonParseOptions)
        → Parses M options text
        → Prints (json_parse_with clock M name options text) (name ∷ [])
    unfolding json_parse_with
    parse_with-Prints options ok = steady-Prints name _ _ _ _ (λ t. ok)

    -- The reused message is cleared in each round, so each parse starts from a new message.
    parse_reuse-Prints :
        ((m : M.Msg) → M.clear m ≡ M.new)
        → Parses M default_parse text
        → Prints (json_parse_reuse clock M name text) (name ∷ [])
    unfolding json_parse_reuse
    parse_reuse-Prints clears ok = steady-Prints name _ _ _ _ (λ t. rw (clears t) ok)

    text_parse-Prints :
        Succeeds (M.parse_text text M.new) → Prints (text_parse clock M name text) (name ∷ [])
    unfolding text_parse
    text_parse-Prints ok = steady-Prints name _ _ _ _ (λ t. ok)

    text_parse_reuse-Prints :
        ((m : M.Msg) → M.clear m ≡ M.new)
        → Succeeds (M.parse_text text M.new)
        → Prints (text_parse_reuse clock M name text) (name ∷ [])
    unfolding text_parse_reuse
    text_parse_reuse-Prints clears ok = steady-Prints name _ _ _ _ (λ t. rw (clears t) ok)

abbrev pub complex_binary_names : List String
complex_binary_names =
    "c++ protobuf complex encode" ∷ "c++ protobuf complex encode reuse"
    ∷ "c++ protobuf complex SerializeToArray reuse"
    ∷ "c++ protobuf complex deterministic binary encode reuse" ∷ "c++ protobuf complex decode"
    ∷ "c++ protobuf complex decode reuse" ∷ []

pub complex_binary_runs-Prints :
    (clock : ℕ → ℕ) (M : Message) (complex : M.Msg)
    → Contract M complex
    → Prints (complex_binary_runs clock M complex) complex_binary_names
unfolding complex_binary_runs
complex_binary_runs-Prints clock M complex contract =
    Prints-seq ("c++ protobuf complex encode" ∷ []) _ (encode-Prints clock M complex contract _) (
      Prints-seq ("c++ protobuf complex encode reuse" ∷ []) _
        (encode_reuse-Prints clock M complex contract _)
        (Prints-seq ("c++ protobuf complex SerializeToArray reuse" ∷ []) _
          (encode_array_reuse-Prints clock M complex contract _)
          (Prints-seq ("c++ protobuf complex deterministic binary encode reuse" ∷ []) _
            (encode_deterministic_reuse-Prints clock M complex contract _)
            (Prints-seq ("c++ protobuf complex decode" ∷ []) _
              (decode-Prints clock M complex contract _)
              (decode_reuse-Prints clock M complex contract _)))))

abbrev pub complex_text_names : List String
complex_text_names =
    "c++ protobuf complex JSON stringify" ∷ "c++ protobuf complex JSON stringify reuse"
    ∷ "c++ protobuf complex JSON parse" ∷ "c++ protobuf complex JSON parse reuse"
    ∷ "c++ protobuf Complex ProtoName JSON stringify" ∷ "c++ protobuf Complex ProtoName JSON parse"
    ∷ "c++ protobuf complex TextFormat format" ∷ "c++ protobuf complex TextFormat format reuse"
    ∷ "c++ protobuf complex TextFormat parse" ∷ "c++ protobuf complex TextFormat parse reuse" ∷ []

pub complex_text_runs-Prints :
    (clock : ℕ → ℕ) (M : Message) (complex : M.Msg) (json proto_name_json text : List ℕ)
    → TextContract M complex
    → Parses M default_parse json
    → Parses M default_parse proto_name_json
    → Succeeds (M.parse_text text M.new)
    → Prints (complex_text_runs clock M complex json proto_name_json text) complex_text_names
unfolding complex_text_runs
complex_text_runs-Prints clock M complex json proto_name_json text c parses proto texts =
    Prints-seq ("c++ protobuf complex JSON stringify" ∷ []) _
      (stringify-Prints clock M complex c _ _)
      (Prints-seq ("c++ protobuf complex JSON stringify reuse" ∷ []) _
        (stringify_reuse-Prints clock M complex c _ _)
        (Prints-seq ("c++ protobuf complex JSON parse" ∷ []) _ (parse-Prints clock M json _ parses)
          (Prints-seq ("c++ protobuf complex JSON parse reuse" ∷ []) _
            (parse_reuse-Prints clock M json _ c.clears parses)
            (Prints-seq ("c++ protobuf Complex ProtoName JSON stringify" ∷ []) _
              (stringify_with-Prints clock M complex c _ _ proto_name_json_options)
              (Prints-seq ("c++ protobuf Complex ProtoName JSON parse" ∷ []) _
                (parse-Prints clock M proto_name_json _ proto)
                (Prints-seq ("c++ protobuf complex TextFormat format" ∷ []) _
                  (format-Prints clock M complex c _ _)
                  (Prints-seq ("c++ protobuf complex TextFormat format reuse" ∷ []) _
                    (format_reuse-Prints clock M complex c _ _)
                    (Prints-seq ("c++ protobuf complex TextFormat parse" ∷ []) _
                      (text_parse-Prints clock M text _ texts)
                      (text_parse_reuse-Prints clock M text _ c.clears texts)))))))))

abbrev pub person_text_names : List String
person_text_names =
    "c++ protobuf TextFormat format" ∷ "c++ protobuf TextFormat format reuse"
    ∷ "c++ protobuf TextFormat parse" ∷ "c++ protobuf TextFormat parse reuse" ∷ []

pub person_text_runs-Prints :
    (clock : ℕ → ℕ) (M : Message) (person : M.Msg) (text : List ℕ)
    → TextContract M person
    → Succeeds (M.parse_text text M.new)
    → Prints (person_text_runs clock M person text) person_text_names
unfolding person_text_runs
person_text_runs-Prints clock M person text c texts =
    Prints-seq ("c++ protobuf TextFormat format" ∷ []) _ (format-Prints clock M person c _ _) (
      Prints-seq ("c++ protobuf TextFormat format reuse" ∷ []) _
        (format_reuse-Prints clock M person c _ _)
        (Prints-seq ("c++ protobuf TextFormat parse" ∷ []) _
          (text_parse-Prints clock M text _ texts)
          (text_parse_reuse-Prints clock M text _ c.clears texts)))

-- The texts that are parsed are accepted.
pub record TextsParse (P S : Message) (texts : JsonTexts) : Type 0 where
  pub json : Parses P default_parse texts.json
  pub scalarmix_json : Parses S default_parse texts.scalarmix_json
  pub map_key_surrogate_json : Parses P default_parse texts.map_key_surrogate_json
  pub null_fields_json : Parses P default_parse texts.null_fields_json
  pub ignore_unknown_json : Parses P ignore_unknown_json_options texts.ignore_unknown_json
  pub open_enum_json : Parses S default_parse texts.open_enum_json
  pub enum_name_json : Parses S default_parse texts.enum_name_json
  pub proto_name_json : Parses S default_parse texts.proto_name_json
  pub int_exponent_json : Parses S default_parse texts.int_exponent_json
  pub string_number_json : Parses S default_parse texts.string_number_json

abbrev pub json_names : List String
json_names =
    "c++ protobuf JSON stringify" ∷ "c++ protobuf ScalarMix JSON stringify"
    ∷ "c++ protobuf AlwaysPrint JSON stringify" ∷ "c++ protobuf ProtoName JSON stringify"
    ∷ "c++ protobuf EnumNumber JSON stringify" ∷ "c++ protobuf JSON stringify reuse"
    ∷ "c++ protobuf JSON parse" ∷ "c++ protobuf JSON parse reuse"
    ∷ "c++ protobuf ScalarMix JSON parse" ∷ "c++ protobuf MapKeySurrogate JSON parse"
    ∷ "c++ protobuf NullFields JSON parse" ∷ "c++ protobuf IgnoreUnknown JSON parse"
    ∷ "c++ protobuf OpenEnum JSON parse" ∷ "c++ protobuf EnumName JSON parse"
    ∷ "c++ protobuf ProtoName JSON parse" ∷ "c++ protobuf IntExponent JSON parse"
    ∷ "c++ protobuf StringNumber JSON parse" ∷ []

pub json_runs-Prints :
    (clock : ℕ → ℕ) (P S : Message) (person empty_person : P.Msg) (scalarmix : S.Msg)
    (texts : JsonTexts)
    → TextContract P person
    → TextContract P empty_person
    → TextContract S scalarmix
    → TextsParse P S texts
    → Prints (json_runs clock P S person empty_person scalarmix texts) json_names
unfolding json_runs
json_runs-Prints clock P S person empty_person scalarmix texts person_ok empty_ok scalarmix_ok k =
    Prints-seq ("c++ protobuf JSON stringify" ∷ []) _
      (stringify-Prints clock P person person_ok _ _)
      (Prints-seq ("c++ protobuf ScalarMix JSON stringify" ∷ []) _
        (stringify-Prints clock S scalarmix scalarmix_ok _ _)
        (Prints-seq ("c++ protobuf AlwaysPrint JSON stringify" ∷ []) _
          (stringify_with-Prints clock P empty_person empty_ok _ _ always_print_json_options)
          (Prints-seq ("c++ protobuf ProtoName JSON stringify" ∷ []) _
            (stringify_with-Prints clock S scalarmix scalarmix_ok _ _ proto_name_json_options)
            (Prints-seq ("c++ protobuf EnumNumber JSON stringify" ∷ []) _
              (stringify_with-Prints clock S scalarmix scalarmix_ok _ _ enum_number_json_options)
              (Prints-seq ("c++ protobuf JSON stringify reuse" ∷ []) _
                (stringify_reuse-Prints clock P person person_ok _ _)
                (Prints-seq ("c++ protobuf JSON parse" ∷ []) _
                  (parse-Prints clock P texts.json _ k.json)
                  (Prints-seq ("c++ protobuf JSON parse reuse" ∷ []) _
                    (parse_reuse-Prints clock P texts.json _ person_ok.clears k.json)
                    (Prints-seq ("c++ protobuf ScalarMix JSON parse" ∷ []) _
                      (parse-Prints clock S texts.scalarmix_json _ k.scalarmix_json)
                      (Prints-seq ("c++ protobuf MapKeySurrogate JSON parse" ∷ []) _
                        (parse-Prints clock P texts.map_key_surrogate_json _
                          k.map_key_surrogate_json)
                        (Prints-seq ("c++ protobuf NullFields JSON parse" ∷ []) _
                          (parse-Prints clock P texts.null_fields_json _ k.null_fields_json)
                          (Prints-seq ("c++ protobuf IgnoreUnknown JSON parse" ∷ []) _
                            (parse_with-Prints clock P texts.ignore_unknown_json _
                              ignore_unknown_json_options k.ignore_unknown_json)
                            (Prints-seq ("c++ protobuf OpenEnum JSON parse" ∷ []) _
                              (parse-Prints clock S texts.open_enum_json _ k.open_enum_json)
                              (Prints-seq ("c++ protobuf EnumName JSON parse" ∷ []) _
                                (parse-Prints clock S texts.enum_name_json _ k.enum_name_json)
                                (Prints-seq ("c++ protobuf ProtoName JSON parse" ∷ []) _
                                  (parse-Prints clock S texts.proto_name_json _ k.proto_name_json)
                                  (Prints-seq ("c++ protobuf IntExponent JSON parse" ∷ []) _
                                    (parse-Prints clock S texts.int_exponent_json _
                                      k.int_exponent_json)
                                    (parse-Prints clock S texts.string_number_json _
                                      k.string_number_json))))))))))))))))
