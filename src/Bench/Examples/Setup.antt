-- ===== src/Bench/Examples/Setup.antt =====
-- The theorems on the setup of `main` in bench/cpp_protobuf/main.cc, with the classes of `Toy.Printing`.
use pbz.Common.{ℕ, ◌*◌, ◌≡◌, ◌⊎◌, refl, List, map, true, Option, some, All}
use pbz.Bench.Timing.{String}
use pbz.Bench.Search.{codes, contains}
use pbz.Bench.Wkt.Table.{wkt_runs}
use pbz.Bench.Makers.{make_scalarmix, for_each}
use pbz.Bench.Runs.Prints.{Prints}
use pbz.Bench.Program.Complete.{main_names}
use pbz.Bench.Setup.Payloads.{AnyHoldsPayload, wkt_setup-AnyHoldsPayload}
use pbz.Bench.Setup.Prepared.{PrintsText, wkt_setup-PrintsText}
use pbz.Bench.Checks.Mix.{check_int_exponent_json, check_string_number_json, prepare_scalarmix_json}
use pbz.Bench.Main.{main}
use pbz.Bench.Main.Complete.{main-Prints}
use pbz.Bench.Sizes.{print_sizes}
use pbz.Bench.Sizes.Table.{size_lines}
use pbz.Bench.Sizes.Variables.{text_variables}
use pbz.Bench.Sizes.Printed.{is_unlisted, run_text, printed_line, SizeListed, sizes_printed}
use pbz.Bench.Toy.Printing.{toy_library, printing, readers}
use pbz.Bench.Toy.Passes.{prepared, wkt_prepared, printing-LibraryContracts}

-- A clock that ticks every 7 nanoseconds.
abbrev sevens : ℕ → ℕ
sevens k = 7 * k

wkt_setup-PrintsText_example : All (PrintsText toy_library wkt_prepared.0) wkt_runs
wkt_setup-PrintsText_example = wkt_setup-PrintsText toy_library wkt_prepared.0 wkt_prepared.1

wkt_setup-AnyHoldsPayload_example : All (AnyHoldsPayload toy_library wkt_prepared.0) wkt_runs
wkt_setup-AnyHoldsPayload_example =
    wkt_setup-AnyHoldsPayload toy_library wkt_prepared.0 wkt_prepared.1

int_exponent_passes : check_int_exponent_json readers.scalarmix ≡ some tt
unfolding check_int_exponent_json
int_exponent_passes = refl

string_number_passes : check_string_number_json readers.scalarmix ≡ some tt
unfolding check_string_number_json
string_number_passes = refl

abbrev scalarmix_text : List ℕ
scalarmix_text =
    codes "{\"bigDelta\":\"-9876543\",\"kind\":\"BENCH_KIND_BETA\",\"ids\":[\"1\",\"127\",\"128\"]}"

scalarmix_passes :
    prepare_scalarmix_json readers.scalarmix (make_scalarmix printing.scalarmix)
    ≡ some scalarmix_text
unfolding prepare_scalarmix_json make_scalarmix for_each contains
scalarmix_passes = refl

main-Prints_example : Prints (main printing readers sevens toy_library) main_names
main-Prints_example =
    main-Prints sevens printing readers toy_library prepared.0 printing-LibraryContracts prepared.1

abbrev variables : String → Option (List ℕ)
variables = text_variables printing prepared.0.0 toy_library wkt_prepared.0

sizes_printed_example :
    (print_sizes variables size_lines ≡ some (map (printed_line variables) size_lines))
    × All
        (λ run.
          (is_unlisted (run_text run) ≡ true)
          ⊎ SizeListed printing prepared.0.0 toy_library wkt_prepared.0 wkt_prepared.1 run)
        wkt_runs
sizes_printed_example =
    sizes_printed printing prepared.0.0 toy_library wkt_prepared.0 wkt_prepared.1
