-- ===== src/Wire/Raw/Compact.antt =====
-- The compact sidecar of raw fields: what `rawFieldNumberRunsAlloc` returns answers the counts that the
-- fields themselves give.
use pbz.Common.{
  ℕ, suc, ◌+◌, ◌<◌, ◌≡◌, refl, sym, ap, ◌∙◌, Bool, true, false, inl, inr, some, List, [], ◌∷◌,
  length, no_elements, ◌==◌, if◌then◌else◌, Bool-cases, arith,
}
use pbz.Wire.Result.{◌>>=◌, Result, ok, err, out_of_fuel}
use pbz.Wire.Heap.{
  Heap, Outcome, done, out_of_memory, failed, no_fuel, panicked, alloc, free, after,
}
use pbz.Wire.Reader.Ending.{Ends, bind-Ends, choice-Ends}
use pbz.Wire.Raw.{raw_field_number, raw_field_count_by_number}
use pbz.Wire.Raw.Numbers.{
  raw_field_numbers, raw_field_number_count, RawFieldNumberRun, runs_from_sorted_numbers,
  raw_field_numbers_alloc, runs_from_sorted_numbers_alloc,
  raw_field_number_runs_from_numbers_in_place_alloc, raw_field_number_runs_alloc,
  raw_field_number_run_count,
}
use pbz.Wire.Raw.Blocks.{block, live-free, live-alloc, live-alloc_fails}
use pbz.Wire.Raw.Removed.{raw_field_number-Ends}
use pbz.Wire.Raw.Runs.{Sorted, run_count-total}
use pbz.Wire.Raw.Counts.{run_count-Sorted}

-- What `std.mem.sort` documents: the elements ascend, and each is there as often as before.
pub record Sorts (sort : List ℕ → List ℕ) : Type 0 where
  pub sorted : (xs : List ℕ) → Sorted 0 (sort xs)
  pub same :
      (xs : List ℕ) (x : ℕ) → raw_field_number_count (sort xs) x ≡ raw_field_number_count xs x

-- The runs answer the count of the fields; an error is the one that the count meets, or a lack of memory, and
-- then no memory is kept.
abbrev pub CountsAs : List (List ℕ) → ℕ → Heap → Outcome (List RawFieldNumberRun) × Heap → Type 0
CountsAs fields number h (done runs, h') =
    (count : ℕ) × (raw_field_count_by_number fields number ≡ ok count)
    × (raw_field_number_run_count runs number ≡ some count)
    × (h'.live ≡ h.live + block (length runs))
CountsAs fields number h (out_of_memory, h') = h'.live ≡ h.live
CountsAs fields number h (failed e, h') =
    (raw_field_count_by_number fields number ≡ err e) × (h'.live ≡ h.live)
CountsAs fields number h (no_fuel, h') = ⊥
CountsAs fields number h (panicked, h') = ⊥

count_in : ℕ → Result (List ℕ) → Result ℕ
count_in number read = read >>= λ numbers. ok (raw_field_number_count numbers number)

count_step :
    (number : ℕ) (empty : Bool) (read : Result ℕ) (rest : Result (List ℕ))
    → 0 < number
    → (if empty
        then count_in number rest
        else (read >>= λ n.
            count_in number rest >>= λ count. ok (if n == number then count + 1 else count)))
      ≡ count_in number
          ((if empty then ok 0 else read) >>= λ n. rest >>= λ numbers. ok (n ∷ numbers))
unfolding count_in raw_field_number_count
count_step number true read (ok numbers) lo =
    let other : 0 == number ≡ false = ground arith in rw other refl
count_step number true read (err e) lo = refl
count_step number true read out_of_fuel lo = refl
count_step number false (err e) rest lo = refl
count_step number false out_of_fuel rest lo = refl
count_step number false (ok n) (ok numbers) lo = refl
count_step number false (ok n) (err e) lo = refl
count_step number false (ok n) out_of_fuel lo = refl

-- The scan over the fields is the scan over their numbers.
count-numbers :
    (fields : List (List ℕ)) (number : ℕ)
    → 0 < number
    → raw_field_count_by_number fields number ≡ count_in number (raw_field_numbers fields)
unfolding raw_field_count_by_number raw_field_numbers
count-numbers [] number lo = unfold count_in raw_field_number_count in refl
count-numbers (raw ∷ fields) number lo =
    rw (count-numbers fields number lo)
      (count_step number (length raw == 0) (raw_field_number raw) (raw_field_numbers fields) lo)

raw_field_numbers-Ends : (fields : List (List ℕ)) → Ends (raw_field_numbers fields)
unfolding raw_field_numbers
raw_field_numbers-Ends [] = tt
raw_field_numbers-Ends (raw ∷ fields) =
    bind-Ends (if length raw == 0 then ok 0 else raw_field_number raw) _
      (choice-Ends (length raw == 0) _ _ tt (raw_field_number-Ends raw))
      (λ n. bind-Ends (raw_field_numbers fields) _ (raw_field_numbers-Ends fields) (λ ns. tt))

module _ (answers : ℕ → Bool) (sort : List ℕ → List ℕ) (sorts : Sorts sort) (number : ℕ)
    (positive : 0 < number) where
  -- The runs of `numbers`, where the heap holds what it held before the call.
  Built : List ℕ → Heap → Outcome (List RawFieldNumberRun) × Heap → Type 0
  Built numbers h (done runs, h') =
      (raw_field_number_run_count runs number ≡ some (raw_field_number_count numbers number))
      × (h'.live ≡ h.live + block (length runs))
  Built numbers h (out_of_memory, h') = h'.live ≡ h.live
  Built numbers h _ = ⊥

  runs_from_sorted_numbers-Built :
      (numbers : List ℕ) (h : Heap)
      → Built numbers h (runs_from_sorted_numbers_alloc answers sort (sort numbers) h)
  unfolding runs_from_sorted_numbers_alloc Built
  runs_from_sorted_numbers-Built numbers h =
      let runs = runs_from_sorted_numbers (sort numbers) in
      let counts : raw_field_number_run_count runs number
          ≡ some (raw_field_number_count numbers number) =
        run_count-Sorted (sort numbers) number (sorts.sorted numbers) positive
        ∙ ap some (sorts.same numbers number) in
      elim (Bool-cases (length runs == 0)) [
        | inl empty ↦
            let nil = no_elements runs (ground arith) in
            rw empty
              (ap (λ rs. raw_field_number_run_count rs number) (sym nil) ∙ counts, omega arith)
        | inr filled ↦ elim (Bool-cases (alloc answers (length runs) h).0) [
          | inl found ↦ rw (filled, found) (counts, live-alloc answers (length runs) h found)
          | inr none_left ↦
              rw (filled, none_left) (live-alloc_fails answers (length runs) h none_left)
        ]
      ]

  in_place-Built :
      (numbers : List ℕ) (h : Heap)
      → Built numbers h (raw_field_number_runs_from_numbers_in_place_alloc answers sort numbers h)
  unfolding raw_field_number_runs_from_numbers_in_place_alloc Built
  in_place-Built [] h =
      (run_count-total number [] tt ∙ (unfold raw_field_number_count in refl), omega arith)
  in_place-Built (n ∷ numbers) h =
      let some_numbers : length (n ∷ numbers) == 0 ≡ false = ground arith in
      rw some_numbers (runs_from_sorted_numbers-Built (n ∷ numbers) h)

  freed :
      (numbers : List ℕ) (fields : List (List ℕ)) (h h1 : Heap)
      (built : Outcome (List RawFieldNumberRun) × Heap)
      → raw_field_numbers fields ≡ ok numbers
      → h1.live ≡ h.live + block (length numbers)
      → Built numbers h1 built
      → CountsAs fields number h (built.0, free (length numbers) built.1)
  unfolding Built
  freed numbers fields h h1 (done runs, h2) read live (counts, grown) =
      let scan = count-numbers fields number positive in
      (
        raw_field_number_count numbers number,
        scan ∙ rw read (unfold count_in in refl),
        counts,
        omega (arith, live-free (length numbers) h2, grown, live),
      )
  freed numbers fields h h1 (out_of_memory, h2) read live b =
      omega (arith, live-free (length numbers) h2, b, live)
  freed numbers fields h h1 (failed e, h2) read live b = absurd b
  freed numbers fields h h1 (no_fuel, h2) read live b = absurd b
  freed numbers fields h h1 (panicked, h2) read live b = absurd b

-- A result has `n` numbers, if any.
LengthIs : ℕ → Result (List ℕ) → Type 0
LengthIs n (ok numbers) = length numbers ≡ n
LengthIs n _ = Unit {0}

length_step :
    (n : ℕ) (read : Result ℕ) (rest : Result (List ℕ))
    → LengthIs n rest
    → LengthIs (suc n) (read >>= λ x. rest >>= λ numbers. ok (x ∷ numbers))
unfolding LengthIs
length_step n (ok x) (ok numbers) h = ap suc h
length_step n (ok x) (err e) h = tt
length_step n (ok x) out_of_fuel h = tt
length_step n (err e) rest h = tt
length_step n out_of_fuel rest h = tt

raw_field_numbers-LengthIs :
    (fields : List (List ℕ)) → LengthIs (length fields) (raw_field_numbers fields)
unfolding raw_field_numbers
raw_field_numbers-LengthIs [] = unfold LengthIs in refl
raw_field_numbers-LengthIs (raw ∷ fields) =
    length_step (length fields) (if length raw == 0 then ok 0 else raw_field_number raw) _
      (raw_field_numbers-LengthIs fields)

module _ (answers : ℕ → Bool) (sort : List ℕ → List ℕ) (sorts : Sorts sort) (number : ℕ)
    (positive : 0 < number) (fields : List (List ℕ)) (h : Heap) where
  with_numbers :
      (read : Result (List ℕ))
      → raw_field_numbers fields ≡ read
      → Ends read
      → LengthIs (length fields) read
      → (h1 : Heap) → h1.live ≡ h.live + block (length fields)
      → CountsAs fields number h (
          after
            (elim read [
              | ok numbers ↦ (done numbers, h1)
              | err e ↦ (failed e, free (length fields) h1)
              | out_of_fuel ↦ (no_fuel, h1)
            ])
            (λ numbers h1'.
              let (outcome, h2) =
                raw_field_number_runs_from_numbers_in_place_alloc answers sort numbers h1' in
              (outcome, free (length numbers) h2)))
  unfolding LengthIs
  with_numbers (ok numbers) e ends len h1 live =
      freed answers sort sorts number positive numbers fields h h1 _ e
        (live ∙ ap (λ n. h.live + block n) (sym len))
        (in_place-Built answers sort sorts number positive numbers h1)
  with_numbers (err x) e ends len h1 live = (
    count-numbers fields number positive ∙ rw e (unfold count_in in refl),
    omega (arith, live, live-free (length fields) h1),
  )
  with_numbers out_of_fuel e ends len h1 live = absurd ends

  -- For a field number other than 0, and a sort that sorts: whatever memory the allocator finds,
  -- `rawFieldNumberRunsAlloc` ends in one of two ways. On success the binary search in the runs returns what
  -- `rawFieldCountByNumber` counts in the fields, and the runs are all that is allocated. An error is the
  -- one that `rawFieldCountByNumber` returns, or a lack of memory, and then nothing stays allocated.
  pub raw_field_number_runs_alloc-CountsAs :
      CountsAs fields number h (raw_field_number_runs_alloc answers sort fields h)
  unfolding raw_field_number_runs_alloc raw_field_numbers_alloc
  raw_field_number_runs_alloc-CountsAs = elim (Bool-cases (length fields == 0)) [
    | inl empty ↦
        let nil = no_elements fields (ground arith) in
        rw empty (
          0,
          rw nil (unfold raw_field_count_by_number in refl),
          run_count-total number [] tt,
          omega arith,
        )
    | inr some_fields ↦ elim (Bool-cases (alloc answers (length fields) h).0) [
      | inr none_left ↦
          rw (some_fields, none_left) (live-alloc_fails answers (length fields) h none_left)
      | inl found ↦
          rw (some_fields, found)
            (with_numbers (raw_field_numbers fields) refl (raw_field_numbers-Ends fields)
              (raw_field_numbers-LengthIs fields) (alloc answers (length fields) h).1
              (live-alloc answers (length fields) h found))
    ]
  ]
