-- ===== src/Wire/Raw/Store.antt =====
-- The slices of raw fields and who owns them: cloning, appending and removing fields in src/wire.zig. Beside
-- the outcome stand the slice behind the pointer `fields` and the heap after the call.
use pbz.Common.{ℕ, ◌+◌, Bool, true, false, List, [], ◌∷◌, ◌++◌, length, ◌==◌, if◌then◌else◌}
use pbz.Wire.Result.{Result, ok, err, out_of_fuel, ◌>>=◌, ◌>>◌}
use pbz.Wire.Heap.{Heap, Outcome, done, out_of_memory, failed, no_fuel, panicked, alloc, free}
use pbz.Wire.Raw.{raw_field_number, validate_raw_field}

-- `for (raws) |raw| allocator.free(raw);`.
unfoldable pub free_each : List (List ℕ) → Heap → Heap
free_each [] h = h
free_each (raw ∷ raws) h = free_each raws (free (length raw) h)

unfoldable pub free_raw_fields : List (List ℕ) → Heap → Heap
free_raw_fields fields h = free (length fields) (free_each fields h)

-- `fields.* = &.{};`.
unfoldable pub clear_raw_fields : List (List ℕ) → Heap → List (List ℕ) × Heap
clear_raw_fields fields h = ([], free_raw_fields fields h)

-- `for (raws) |raw| try validateRawField(raw);`.
unfoldable pub validate_each : List (List ℕ) → Result (Unit {0})
validate_each [] = ok tt
validate_each (raw ∷ raws) = do validate_raw_field raw; validate_each raws

-- The first loop of `clearRawFieldsByNumber`: the fields that stay and those that go are counted.
unfoldable pub count_kept : List (List ℕ) → ℕ → Result (ℕ × ℕ)
count_kept [] number = ok (0, 0)
count_kept (raw ∷ fields) number =
    let rest = count_kept fields number in
    if length raw == 0 then (do (keep, remove) ← rest; ok (keep, remove + 1)) else do
      n ← raw_field_number raw
      (keep, remove) ← rest
      ok (if n == number then (keep, remove + 1) else (keep + 1, remove))

-- The second loop, which frees the fields that go. An error is `unreachable`: the first loop has read
-- every number.
unfoldable pub keep_each : List (List ℕ) → ℕ → Heap → Result (List (List ℕ) × Heap)
keep_each [] number h = ok ([], h)
keep_each (raw ∷ fields) number h =
    let gone = keep_each fields number (free (length raw) h) in
    let stays = keep_each fields number h in
    if length raw == 0 then gone else do
      n ← raw_field_number raw
      if n == number then gone else (do (kept, h') ← stays; ok (raw ∷ kept, h'))

-- What follows the second loop.
unfoldable pub keep_result :
    List (List ℕ)
    → ℕ
    → Result (List (List ℕ) × Heap)
    → Heap
    → Outcome (Unit {0}) × List (List ℕ) × Heap
keep_result old keep (ok (kept, h2)) h =
    if length kept == keep then (done tt, kept, free (length old) h2) else (panicked, old, h2)
keep_result old keep (err e) h = (panicked, old, h)
keep_result old keep out_of_fuel h = (panicked, old, h)

module _ (answers : ℕ → Bool) where
  -- The loop that duplicates each of `raws`; `cloned` are the clones so far. Stops where memory is out.
  unfoldable pub clone_each : List (List ℕ) → List (List ℕ) → Heap → Bool × List (List ℕ) × Heap
  clone_each [] cloned h = (true, cloned, h)
  clone_each (raw ∷ raws) cloned h =
      let (found, h') = alloc answers (length raw) h in
      let rest = clone_each raws (cloned ++ (raw ∷ [])) h' in
      if found then rest else (false, cloned, h')

  unfoldable pub clone_raw_fields : List (List ℕ) → Heap → Outcome (List (List ℕ)) × Heap
  clone_raw_fields fields h =
      if length fields == 0
      then (done [], h)
      else let (found, h1) = alloc answers (length fields) h in
        let (all, cloned, h2) = clone_each fields [] h1 in
        if found
        then (if all
            then (done cloned, h2)
            else (out_of_memory, free (length fields) (free_each cloned h2)))
        else (out_of_memory, h1)

  unfoldable pub append_raw_fields_clone_unchecked :
      List (List ℕ) → List (List ℕ) → Heap → Outcome (Unit {0}) × List (List ℕ) × Heap
  append_raw_fields_clone_unchecked old raws h =
      let size = length old + length raws in
      let (found, h1) = alloc answers size h in
      let (all, cloned, h2) = clone_each raws [] h1 in
      if found
      then (if all
          then (done tt, old ++ cloned, free (length old) h2)
          else (out_of_memory, old, free size (free_each cloned h2)))
      else (out_of_memory, old, h1)

  -- The whole batch is validated before anything is cloned.
  unfoldable pub append_raw_fields_clone :
      List (List ℕ) → List (List ℕ) → Heap → Outcome (Unit {0}) × List (List ℕ) × Heap
  append_raw_fields_clone fields raws h =
      if length raws == 0 then (done tt, fields, h) else elim (validate_each raws) [
        | ok _ ↦ append_raw_fields_clone_unchecked fields raws h
        | err e ↦ (failed e, fields, h)
        | out_of_fuel ↦ (no_fuel, fields, h)
      ]

  unfoldable pub append_raw_field_clone :
      List (List ℕ) → List ℕ → Heap → Outcome (Unit {0}) × List (List ℕ) × Heap
  append_raw_field_clone fields raw h = append_raw_fields_clone fields (raw ∷ []) h

  unfoldable pub clear_raw_fields_by_number :
      List (List ℕ) → ℕ → Heap → Outcome (Unit {0}) × List (List ℕ) × Heap
  clear_raw_fields_by_number fields number h = elim (count_kept fields number) [
    | err e ↦ (failed e, fields, h)
    | out_of_fuel ↦ (no_fuel, fields, h)
    | ok counts ↦
        let (found, h1) = alloc answers counts.0 h in
        if counts.1 == 0
        then (done tt, fields, h)
        else if found
        then keep_result fields counts.0 (keep_each fields number h1) h1
        else (out_of_memory, fields, h1)
  ]
