-- ===== src/Bench/Wkt.antt =====
-- The JSON runs of the well-known types in `main` of bench/cpp_protobuf/main.cc: calls of
-- `RunWktJsonBenchPair` and `RunWktJsonParseOnly`, and the same body written out in a block. The calls
-- stand in tables, in their order; a variable of `main` is given by its name.
pub mod Table
pub mod Complete
use pbz.Common.{ℕ, List, [], ◌∷◌, ◌++◌, length}
use pbz.Bench.Timing.{String, Main, ◌>>=◌, ◌>>◌, pure}
use pbz.Bench.Message.{Message, json_string_to_message}
use pbz.Bench.Runs.{timed, iterations}
use pbz.Bench.Runs.Mixed.{run_wkt_json_bench_pair, run_wkt_json_parse_only}

-- The message classes of the well-known types.
pub data WktType : Type 0 where
  any duration timestamp field_mask empty struct value list_value double_value float_value : WktType
  int64_value uint64_value int32_value uint32_value bool_value string_value bytes_value : WktType

-- A call with the name of the type, the message's variable and the JSON text's variable; the last one
-- is a block, which gives the whole name of the run.
pub data WktRun : Type 0 where
  bench_pair : WktType → String → String → String → WktRun
  parse_only : WktType → String → String → WktRun
  parse_block : WktType → String → String → WktRun

-- The classes, and what the variables of `main` hold.
pub record WktLocals : Type 1 where
  pub class : WktType → Message
  pub message : (t : WktType) → String → (class t).Msg
  pub json : String → List ℕ

module _ (clock : ℕ → ℕ) (locals : WktLocals) where
  open locals use {class, message, json}

  unfoldable pub parse_in_block : (t : WktType) → String → List ℕ → Main (Unit {0})
  parse_in_block t name text =
      let M = class t in
      timed clock M name iterations (length text)
        (λ (decoded : M.Msg). json_string_to_message M text M.new) M.new

  unfoldable pub run_wkt : WktRun → Main (Unit {0})
  run_wkt (bench_pair t name variable text) =
      run_wkt_json_bench_pair clock (class t) name (message t variable) (json text) iterations
  run_wkt (parse_only t name text) =
      run_wkt_json_parse_only clock (class t) name (json text) iterations
  run_wkt (parse_block t name text) = parse_in_block t name (json text)

  unfoldable pub run_wkts : List WktRun → Main (Unit {0})
  run_wkts [] = pure tt
  run_wkts (run ∷ runs) = do run_wkt run; run_wkts runs
