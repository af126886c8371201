-- ===== src/Bench/Examples.antt =====
-- The theorems on bench/cpp_protobuf/main.cc at concrete inputs, with the message class of `Toy` in the
-- place of the protobuf library.
pub mod Setup
use native.Mathlib.Decide.{ℕ_discrete}
use pbz.Common.{
  ℕ, ◌+◌, ◌*◌, ◌<◌, ◌≡◌, refl, List, [], ◌∷◌, ◌++◌, ◌%◌, length, get_elem?, Option, some, arith,
}
use pbz.Wire.Varint.{ladder}
use pbz.Wire.ZigZag.{pos, negsuc}
use pbz.Bench.Unknown.{unknown_field_stress_count, append_varint, make_unknown_field_payload}
use pbz.Bench.Unknown.Laws.{append_varint-ladder, field_bytes, make_unknown_field_payload-bytes}
use pbz.Bench.LargeMap.{shuffled_large_map_index, make_large_map, make_shuffled_large_map}
use pbz.Bench.LargeMap.Laws.{shuffled_large_map_same}
use pbz.Bench.Timing.{World, run_timed, warmup_iterations}
use pbz.Bench.Timing.Laws.{
  iterate, timed_result, after_readings, run_timed_completes, run_timed-iterate,
}
use pbz.Bench.Payloads.{packed_count, add_all, uint32_packed_value, sint32_packed_value}
use pbz.Bench.Payloads.Ranges.{ValuesFit, packed_value-ValuesFit}
use pbz.Bench.Payloads.Values.{Appends, add_all-elem}
use pbz.Bench.Runs.Prints.{Prints}
use pbz.Bench.Makers.{payload_size, chunk_size, chunk_count, make_largebytes}
use pbz.Bench.Makers.Large.{make_largebytes-bytes}
use pbz.Bench.Program.{main_runs}
use pbz.Bench.Program.Complete.{main_names, main_runs-Prints}
use pbz.Bench.Toy.Large.{paired_largebytes, paired_payload, paired_chunks, paired_largebytes-Reads}
use pbz.Bench.Toy.{numbers}

-- A clock that ticks every 5 nanoseconds.
abbrev ticks : ℕ → ℕ
ticks k = 5 * k

abbrev start : World
start = record { readings = 0; printed = [] }

abbrev count_up : ℕ → Option ℕ
count_up n = some (n + 1)

append_varint-ladder_example : append_varint (7 ∷ []) 300 ≡ some ((7 ∷ []) ++ ladder 9 300)
append_varint-ladder_example = append_varint-ladder (7 ∷ []) 300 (omega arith)

make_unknown_field_payload-bytes_example :
    make_unknown_field_payload (8 ∷ 1 ∷ [])
    ≡ some ((8 ∷ 1 ∷ []) ++ field_bytes unknown_field_stress_count 0)
make_unknown_field_payload-bytes_example = make_unknown_field_payload-bytes (8 ∷ 1 ∷ [])

shuffled_first : shuffled_large_map_index 1 ≡ 144
unfolding shuffled_large_map_index
shuffled_first = refl

shuffled_large_map_same_example :
    make_shuffled_large_map ℕ_discrete (λ i. i) ≡ make_large_map ℕ_discrete (λ i. i)
shuffled_large_map_same_example = shuffled_large_map_same ℕ_discrete (λ i. i) (λ i j hi hj e. e)

run_timed_completes_example :
    (s' : ℕ) × (run_timed ticks "count" 40 0 count_up 3 start
      ≡ some ((timed_result ticks "count" 40 0 0, s'), after_readings ticks start))
    × (2 < s')
run_timed_completes_example =
    run_timed_completes ticks "count" 40 0 count_up 3 start (λ s. 2 < s)
      (λ s h. (s + 1, refl, omega arith)) (omega arith)

sint32_odd : (sint32_packed_value 2 ≡ pos 11) × (sint32_packed_value 3 ≡ negsuc 15)
unfolding sint32_packed_value
sint32_odd = (refl, refl)

packed_value-ValuesFit_example : ValuesFit 1023
packed_value-ValuesFit_example = packed_value-ValuesFit 1023 (omega arith)

-- The program prints 474 results.
main_names_count : length main_names ≡ 474
main_names_count = refl

make_largebytes-bytes_example :
    (length (paired_payload (make_largebytes paired_largebytes)) ≡ payload_size)
    × (get_elem? (paired_payload (make_largebytes paired_largebytes)) 65535
        ≡ some ((65535 * 31 + 7) % 256))
    × (length (paired_chunks (make_largebytes paired_largebytes)) ≡ chunk_count)
    × (chunk : List ℕ) × (get_elem? (paired_chunks (make_largebytes paired_largebytes)) 15
        ≡ some chunk)
    × (length chunk ≡ chunk_size)
    × (get_elem? chunk 4095 ≡ some ((15 * 17 + 4095 * 13 + 3) % 256))
make_largebytes-bytes_example =
    make_largebytes-bytes paired_largebytes paired_payload paired_chunks paired_largebytes-Reads
      65535 15 4095 (omega arith) (omega arith) (omega arith)

run_timed-iterate_example :
    run_timed ticks "count" 40 0 count_up 3 start
    ≡ some (
      (timed_result ticks "count" 40 0 0, iterate (λ n. n + 1) (warmup_iterations 40 + 3 * 40) 3),
      after_readings ticks start,
    )
run_timed-iterate_example =
    run_timed-iterate ticks "count" 40 0 count_up 3 start (λ n. n + 1) (λ t. refl)
