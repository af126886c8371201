-- ===== src/Bench/Wkt/Complete.antt =====
-- The JSON runs of the well-known types run to their end.
use Prim.Native.String.{◌++◌ as str_append}
use pbz.Common.{ℕ, refl, List, [], ◌∷◌, ◌++◌, append-nil, sym, All, arith}
use pbz.Bench.Timing.{String, pure}
use pbz.Bench.Message.{default_parse}
use pbz.Bench.Runs.Prints.{Prints, Prints-seq, timed-Prints}
use pbz.Bench.Runs.Mixed.{run_wkt_json_parse_only}
use pbz.Bench.Runs.Mixed.Complete.{JsonContract, run_wkt_json_bench_pair-Prints}
use pbz.Bench.Runs.Json.Complete.{Parses}
use pbz.Bench.Wkt.{
  WktRun, bench_pair, parse_only, parse_block, WktLocals, parse_in_block, run_wkt, run_wkts,
}

-- The names of the results of a run.
abbrev pub wkt_names : WktRun → List String
wkt_names (bench_pair t name variable text) =
    str_append "c++ protobuf " (str_append name " JSON stringify")
    ∷ str_append "c++ protobuf " (str_append name " JSON parse")
    ∷ []
wkt_names (parse_only t name text) = str_append "c++ protobuf " (str_append name " JSON parse") ∷ []
wkt_names (parse_block t name text) = name ∷ []

abbrev pub all_wkt_names : List WktRun → List String
all_wkt_names [] = []
all_wkt_names (run ∷ runs) = wkt_names run ++ all_wkt_names runs

-- What the benchmark relies on for a run: the message prints as the text in its variable, and the text
-- is accepted.
abbrev pub WktContract : WktLocals → WktRun → Type 0
WktContract locals (bench_pair t name variable text) =
    JsonContract (locals.class t) (locals.message t variable) (locals.json text)
WktContract locals (parse_only t name text) =
    Parses (locals.class t) default_parse (locals.json text)
WktContract locals (parse_block t name text) =
    Parses (locals.class t) default_parse (locals.json text)

module _ (clock : ℕ → ℕ) (locals : WktLocals) where
  run_wkt-Prints :
      (run : WktRun) → WktContract locals run → Prints (run_wkt clock locals run) (wkt_names run)
  unfolding run_wkt run_wkt_json_parse_only parse_in_block
  run_wkt-Prints (bench_pair t name variable text) c =
      run_wkt_json_bench_pair-Prints clock (locals.class t) (locals.message t variable)
        (locals.json text) c name _
  run_wkt-Prints (parse_only t name text) (m, e) =
      timed-Prints clock (locals.class t) _ _ _ _ _ (λ x. Unit {0}) (λ s h. (m, e, tt)) tt
  run_wkt-Prints (parse_block t name text) (m, e) =
      timed-Prints clock (locals.class t) _ _ _ _ _ (λ x. Unit {0}) (λ s h. (m, e, tt)) tt

  pure-Prints : Prints (pure tt) []
  pure-Prints = record { at = λ w. (w, refl, sym (append-nil _), omega arith) }

  pub run_wkts-Prints :
      (runs : List WktRun)
      → All (WktContract locals) runs
      → Prints (run_wkts clock locals runs) (all_wkt_names runs)
  unfolding run_wkts
  run_wkts-Prints [] c = pure-Prints
  run_wkts-Prints (run ∷ runs) (c, cs) =
      Prints-seq (wkt_names run) (all_wkt_names runs) (run_wkt-Prints run c)
        (run_wkts-Prints runs cs)
