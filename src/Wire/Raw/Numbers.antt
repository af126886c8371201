-- ===== src/Wire/Raw/Numbers.antt =====
-- The field numbers of raw fields in src/wire.zig, beside the fields or as sorted runs, and the counts that
-- are read from them. The sort of the standard library is a parameter.
use pbz.Common.{
  ℕ, zero, suc, ◌+◌, ◌-◌, ◌/◌, Bool, Option, none, some, List, [], ◌∷◌, length, get_elem?, drop,
  ltb, ◌==◌, if◌then◌else◌,
}
use pbz.Wire.Result.{Result, ok, err, out_of_fuel, ◌>>=◌}
use pbz.Wire.Heap.{Heap, Outcome, done, out_of_memory, failed, no_fuel, alloc, free, after}
use pbz.Wire.Raw.{raw_field_number}

-- The loop that fills the numbers: 0 for an empty field.
unfoldable pub raw_field_numbers : List (List ℕ) → Result (List ℕ)
raw_field_numbers [] = ok []
raw_field_numbers (raw ∷ fields) =
    let rest = raw_field_numbers fields in
    do
      number ← if length raw == 0 then ok 0 else raw_field_number raw
      numbers ← rest
      ok (number ∷ numbers)

unfoldable pub raw_field_number_count : List ℕ → ℕ → ℕ
raw_field_number_count [] number = 0
raw_field_number_count (candidate ∷ numbers) number =
    let rest = raw_field_number_count numbers number in
    if candidate == number then rest + 1 else rest

pub record RawFieldNumberRun : Type 0 where
  pub number : ℕ
  pub count : ℕ

-- The rounds of the inner `while` loop, which stops at another number.
unfoldable pub leading : ℕ → List ℕ → ℕ
leading number [] = 0
leading number (x ∷ xs) = let rest = leading number xs in if x == number then suc rest else 0

-- The loop over the sorted numbers. It takes a number a round, so fuel for their length is enough.
unfoldable pub runs_loop : ℕ → List ℕ → List RawFieldNumberRun
runs_loop zero numbers = []
runs_loop (suc fuel) [] = []
runs_loop (suc fuel) (number ∷ numbers) =
    let more = leading number numbers in
    let rest = runs_loop fuel (drop more numbers) in
    if number == 0 then rest else record { number = number; count = suc more } ∷ rest

unfoldable pub runs_from_sorted_numbers : List ℕ → List RawFieldNumberRun
runs_from_sorted_numbers numbers = runs_loop (length numbers) numbers

module _ (answers : ℕ → Bool) (sort : List ℕ → List ℕ) where
  unfoldable pub raw_field_numbers_alloc : List (List ℕ) → Heap → Outcome (List ℕ) × Heap
  raw_field_numbers_alloc fields h =
      let (found, h1) = alloc answers (length fields) h in
      if length fields == 0
      then (done [], h)
      else if found
      then (elim (raw_field_numbers fields) [
        | ok numbers ↦ (done numbers, h1)
        | err e ↦ (failed e, free (length fields) h1)
        | out_of_fuel ↦ (no_fuel, h1)
      ])
      else (out_of_memory, h1)

  -- The first loop counts the runs that the second one stores.
  unfoldable pub runs_from_sorted_numbers_alloc :
      List ℕ → Heap → Outcome (List RawFieldNumberRun) × Heap
  runs_from_sorted_numbers_alloc numbers h =
      let runs = runs_from_sorted_numbers numbers in
      let (found, h1) = alloc answers (length runs) h in
      if length runs == 0
      then (done [], h)
      else if found
      then (done runs, h1)
      else (out_of_memory, h1)

  unfoldable pub raw_field_number_runs_from_numbers_in_place_alloc :
      List ℕ → Heap → Outcome (List RawFieldNumberRun) × Heap
  raw_field_number_runs_from_numbers_in_place_alloc numbers h =
      if length numbers == 0 then (done [], h) else runs_from_sorted_numbers_alloc (sort numbers) h

  -- The numbers are copied, and `defer allocator.free(scratch)`.
  unfoldable pub raw_field_number_runs_from_numbers_alloc :
      List ℕ → Heap → Outcome (List RawFieldNumberRun) × Heap
  raw_field_number_runs_from_numbers_alloc numbers h =
      let (found, h1) = alloc answers (length numbers) h in
      let (outcome, h2) = raw_field_number_runs_from_numbers_in_place_alloc numbers h1 in
      if length numbers == 0
      then (done [], h)
      else if found
      then (outcome, free (length numbers) h2)
      else (out_of_memory, h1)

  -- `defer allocator.free(numbers)`.
  unfoldable pub raw_field_number_runs_alloc :
      List (List ℕ) → Heap → Outcome (List RawFieldNumberRun) × Heap
  raw_field_number_runs_alloc fields h =
      if length fields == 0
      then (done [], h)
      else after (raw_field_numbers_alloc fields h) (λ numbers h1.
        let (outcome, h2) = raw_field_number_runs_from_numbers_in_place_alloc numbers h1 in
        (outcome, free (length numbers) h2))

-- The binary search between `low` and `high`; `none` when the fuel runs out or the slice is left.
unfoldable pub search : ℕ → List RawFieldNumberRun → ℕ → ℕ → ℕ → Option ℕ
search zero runs number low high = none
search (suc fuel) runs number low high =
    let mid = low + (high - low) / 2 in
    let above = search fuel runs number (mid + 1) high in
    let below = search fuel runs number low mid in
    if ltb low high
    then (elim (get_elem? runs mid) [
      | none ↦ none
      | some run ↦
          if ltb run.number number
          then above
          else if ltb number run.number
          then below
          else some run.count
    ])
    else some 0

-- The span halves in each round, so fuel for one round more than the runs is enough.
unfoldable pub raw_field_number_run_count : List RawFieldNumberRun → ℕ → Option ℕ
raw_field_number_run_count runs number = search (suc (length runs)) runs number 0 (length runs)
