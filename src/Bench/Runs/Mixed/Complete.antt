-- ===== src/Bench/Runs/Mixed/Complete.antt =====
-- The other benchmarks run to their end, the checks of the unknown fields included.
use Prim.Native.String.{◌++◌ as str_append}
use pbz.Common.{ℕ, ◌≡◌, List, [], ◌∷◌, length, some}
use pbz.Bench.Timing.{String}
use pbz.Bench.Message.{Message, message_to_json_string, json_string_to_message}
use pbz.Bench.Runs.{json_stringify, json_parse}
use pbz.Bench.Runs.Prints.{
  Prints, Prints-seq, Contract, timed-Prints, encode-Prints, encode_reuse-Prints,
  encode_array_reuse-Prints, encode_deterministic_reuse-Prints, decode-Prints, decode_reuse-Prints,
}
use pbz.Bench.Runs.Mixed.{
  person_runs, scalarmix_runs, textbytes_runs, largebytes_runs, presencemix_runs, large_map_runs,
  run_wkt_json_bench_pair,
}

-- What the benchmark relies on for a message and its JSON text.
pub record JsonContract (M : Message) (message : M.Msg) (json : List ℕ) : Type 0 where
  pub prints : message_to_json_string M message ≡ some json
  pub parses : (m : M.Msg) × (json_string_to_message M json M.new ≡ some m)

module _ (clock : ℕ → ℕ) (M : Message) (message : M.Msg) (json : List ℕ)
    (j : JsonContract M message json) where
  json_stringify-Prints :
      (name : String) → Prints (json_stringify clock M name (length json) message) (name ∷ [])
  unfolding json_stringify
  json_stringify-Prints name =
      timed-Prints clock M name _ _ _ [] (λ out. Unit {0}) (λ s h. (json, j.prints, tt)) tt

  json_parse-Prints : (name : String) → Prints (json_parse clock M name json) (name ∷ [])
  unfolding json_parse
  json_parse-Prints name =
      timed-Prints clock M name _ _ _ _ (λ m. Unit {0}) (λ s h. let (m, e) = j.parses in (m, e, tt))
        tt

  -- Both runs of a well-known type complete, and print its stringify result and its parse result.
  pub run_wkt_json_bench_pair-Prints :
      (type_name : String) (n : ℕ)
      → Prints (run_wkt_json_bench_pair clock M type_name message json n) (
          str_append "c++ protobuf " (str_append type_name " JSON stringify")
          ∷ str_append "c++ protobuf " (str_append type_name " JSON parse")
          ∷ [])
  unfolding run_wkt_json_bench_pair
  run_wkt_json_bench_pair-Prints type_name n =
      Prints-seq (str_append "c++ protobuf " (str_append type_name " JSON stringify") ∷ []) _
        (timed-Prints clock M _ _ _ _ [] (λ out. Unit {0}) (λ s h. (json, j.prints, tt)) tt)
        (timed-Prints clock M _ _ _ _ _ (λ m. Unit {0}) (λ s h. let (m, e) = j.parses in (m, e, tt))
          tt)

abbrev pub person_names : List String
person_names =
    "c++ protobuf binary encode" ∷ "c++ protobuf binary encode reuse"
    ∷ "c++ protobuf binary SerializeToArray reuse"
    ∷ "c++ protobuf deterministic binary encode reuse" ∷ "c++ protobuf binary decode"
    ∷ "c++ protobuf binary decode reuse" ∷ []

-- Where the protobuf library keeps its contract for the message `person`, its six runs complete and
-- print their results in the order of the source.
pub person_runs-Prints :
    (clock : ℕ → ℕ) (M : Message) (person : M.Msg)
    → Contract M person
    → Prints (person_runs clock M person) person_names
unfolding person_runs
person_runs-Prints clock M person contract =
    Prints-seq ("c++ protobuf binary encode" ∷ []) _ (encode-Prints clock M person contract _) (
      Prints-seq ("c++ protobuf binary encode reuse" ∷ []) _
        (encode_reuse-Prints clock M person contract _)
        (Prints-seq ("c++ protobuf binary SerializeToArray reuse" ∷ []) _
          (encode_array_reuse-Prints clock M person contract _)
          (Prints-seq ("c++ protobuf deterministic binary encode reuse" ∷ []) _
            (encode_deterministic_reuse-Prints clock M person contract _)
            (Prints-seq ("c++ protobuf binary decode" ∷ []) _
              (decode-Prints clock M person contract _)
              (decode_reuse-Prints clock M person contract _)))))

abbrev pub scalarmix_names : List String
scalarmix_names =
    "c++ protobuf scalarmix encode" ∷ "c++ protobuf scalarmix SerializeToArray reuse"
    ∷ "c++ protobuf scalarmix decode" ∷ "c++ protobuf scalarmix decode reuse" ∷ []

pub scalarmix_runs-Prints :
    (clock : ℕ → ℕ) (M : Message) (scalarmix : M.Msg)
    → Contract M scalarmix
    → Prints (scalarmix_runs clock M scalarmix) scalarmix_names
unfolding scalarmix_runs
scalarmix_runs-Prints clock M scalarmix contract =
    Prints-seq ("c++ protobuf scalarmix encode" ∷ []) _ (encode-Prints clock M scalarmix contract _)
      (Prints-seq ("c++ protobuf scalarmix SerializeToArray reuse" ∷ []) _
        (encode_array_reuse-Prints clock M scalarmix contract _)
        (Prints-seq ("c++ protobuf scalarmix decode" ∷ []) _
          (decode-Prints clock M scalarmix contract _)
          (decode_reuse-Prints clock M scalarmix contract _)))

abbrev pub textbytes_names : List String
textbytes_names =
    "c++ protobuf textbytes encode" ∷ "c++ protobuf textbytes encode reuse"
    ∷ "c++ protobuf textbytes SerializeToArray reuse" ∷ "c++ protobuf textbytes decode"
    ∷ "c++ protobuf textbytes decode reuse" ∷ "c++ protobuf TextBytes JSON stringify"
    ∷ "c++ protobuf TextBytes JSON parse" ∷ []

-- Where the library keeps its contracts for `textbytes` and its JSON text, its seven runs complete and
-- print their results in the order of the source.
pub textbytes_runs-Prints :
    (clock : ℕ → ℕ) (M : Message) (textbytes : M.Msg) (json : List ℕ)
    → Contract M textbytes
    → JsonContract M textbytes json
    → Prints (textbytes_runs clock M textbytes json) textbytes_names
unfolding textbytes_runs
textbytes_runs-Prints clock M textbytes json contract j =
    Prints-seq ("c++ protobuf textbytes encode" ∷ []) _ (encode-Prints clock M textbytes contract _)
      (Prints-seq ("c++ protobuf textbytes encode reuse" ∷ []) _
        (encode_reuse-Prints clock M textbytes contract _)
        (Prints-seq ("c++ protobuf textbytes SerializeToArray reuse" ∷ []) _
          (encode_array_reuse-Prints clock M textbytes contract _)
          (Prints-seq ("c++ protobuf textbytes decode" ∷ []) _
            (decode-Prints clock M textbytes contract _)
            (Prints-seq ("c++ protobuf textbytes decode reuse" ∷ []) _
              (decode_reuse-Prints clock M textbytes contract _)
              (Prints-seq ("c++ protobuf TextBytes JSON stringify" ∷ []) _
                (json_stringify-Prints clock M textbytes json j _)
                (json_parse-Prints clock M textbytes json j _))))))

abbrev pub largebytes_names : List String
largebytes_names =
    "c++ protobuf largebytes encode" ∷ "c++ protobuf largebytes encode reuse"
    ∷ "c++ protobuf largebytes SerializeToArray reuse" ∷ "c++ protobuf largebytes decode"
    ∷ "c++ protobuf largebytes decode reuse" ∷ []

pub largebytes_runs-Prints :
    (clock : ℕ → ℕ) (M : Message) (largebytes : M.Msg)
    → Contract M largebytes
    → Prints (largebytes_runs clock M largebytes) largebytes_names
unfolding largebytes_runs
largebytes_runs-Prints clock M largebytes contract =
    Prints-seq ("c++ protobuf largebytes encode" ∷ []) _
      (encode-Prints clock M largebytes contract _)
      (Prints-seq ("c++ protobuf largebytes encode reuse" ∷ []) _
        (encode_reuse-Prints clock M largebytes contract _)
        (Prints-seq ("c++ protobuf largebytes SerializeToArray reuse" ∷ []) _
          (encode_array_reuse-Prints clock M largebytes contract _)
          (Prints-seq ("c++ protobuf largebytes decode" ∷ []) _
            (decode-Prints clock M largebytes contract _)
            (decode_reuse-Prints clock M largebytes contract _))))

abbrev pub presencemix_names : List String
presencemix_names =
    "c++ protobuf presencemix encode" ∷ "c++ protobuf presencemix encode reuse"
    ∷ "c++ protobuf presencemix SerializeToArray reuse" ∷ "c++ protobuf presencemix decode"
    ∷ "c++ protobuf presencemix decode reuse" ∷ "c++ protobuf PresenceMix JSON stringify"
    ∷ "c++ protobuf PresenceMix JSON parse" ∷ []

pub presencemix_runs-Prints :
    (clock : ℕ → ℕ) (M : Message) (presencemix : M.Msg) (json : List ℕ)
    → Contract M presencemix
    → JsonContract M presencemix json
    → Prints (presencemix_runs clock M presencemix json) presencemix_names
unfolding presencemix_runs
presencemix_runs-Prints clock M presencemix json contract j =
    Prints-seq ("c++ protobuf presencemix encode" ∷ []) _
      (encode-Prints clock M presencemix contract _)
      (Prints-seq ("c++ protobuf presencemix encode reuse" ∷ []) _
        (encode_reuse-Prints clock M presencemix contract _)
        (Prints-seq ("c++ protobuf presencemix SerializeToArray reuse" ∷ []) _
          (encode_array_reuse-Prints clock M presencemix contract _)
          (Prints-seq ("c++ protobuf presencemix decode" ∷ []) _
            (decode-Prints clock M presencemix contract _)
            (Prints-seq ("c++ protobuf presencemix decode reuse" ∷ []) _
              (decode_reuse-Prints clock M presencemix contract _)
              (Prints-seq ("c++ protobuf PresenceMix JSON stringify" ∷ []) _
                (json_stringify-Prints clock M presencemix json j _)
                (json_parse-Prints clock M presencemix json j _))))))

abbrev pub large_map_names : List String
large_map_names =
    "c++ protobuf large map encode" ∷ "c++ protobuf large map SerializeToArray reuse"
    ∷ "c++ protobuf shuffled large map deterministic binary encode reuse"
    ∷ "c++ protobuf large map decode" ∷ "c++ protobuf large map decode reuse"
    ∷ "c++ protobuf LargeMap JSON stringify" ∷ "c++ protobuf LargeMap JSON parse" ∷ []

-- Where the library keeps its contracts for the large map, for the map filled in shuffled order and for
-- the JSON text, the seven runs complete and print their results in the order of the source.
pub large_map_runs-Prints :
    (clock : ℕ → ℕ) (M : Message) (large_map shuffled_large_map : M.Msg) (json : List ℕ)
    → Contract M large_map
    → Contract M shuffled_large_map
    → JsonContract M large_map json
    → Prints (large_map_runs clock M large_map shuffled_large_map json) large_map_names
unfolding large_map_runs
large_map_runs-Prints clock M large_map shuffled_large_map json contract shuffled j =
    Prints-seq ("c++ protobuf large map encode" ∷ []) _ (encode-Prints clock M large_map contract _)
      (Prints-seq ("c++ protobuf large map SerializeToArray reuse" ∷ []) _
        (encode_array_reuse-Prints clock M large_map contract _)
        (Prints-seq ("c++ protobuf shuffled large map deterministic binary encode reuse" ∷ []) _
          (encode_deterministic_reuse-Prints clock M shuffled_large_map shuffled _)
          (Prints-seq ("c++ protobuf large map decode" ∷ []) _
            (decode-Prints clock M large_map contract _)
            (Prints-seq ("c++ protobuf large map decode reuse" ∷ []) _
              (decode_reuse-Prints clock M large_map contract _)
              (Prints-seq ("c++ protobuf LargeMap JSON stringify" ∷ []) _
                (json_stringify-Prints clock M large_map json j _)
                (json_parse-Prints clock M large_map json j _))))))
