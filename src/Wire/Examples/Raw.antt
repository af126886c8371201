-- ===== src/Wire/Examples/Raw.antt =====
-- The theorems on the raw fields of src/wire.zig at concrete inputs, with an insertion sort in the place of the
-- standard library's.
use pbz.Common.{
  ℕ, ◌≤◌, ◌≡◌, refl, ◌∙◌, Bool, not, inl, inr, List, [], ◌∷◌, ◌++◌, ltb, ltb→lt, ltb→le, ◌==◌,
  if◌then◌else◌, Bool-cases, arith,
}
use pbz.Wire.Result.{ok}
use pbz.Wire.Tag.{decode, from_int}
use pbz.Wire.Varint.{read_groups, read_varint_at}
use pbz.Wire.Heap.{Heap, out_of_memory, alloc, free}
use pbz.Wire.Raw.{tag_number, raw_field_number, raw_field_count_by_number}
use pbz.Wire.Raw.Store.{
  validate_each, append_raw_fields_clone_unchecked, clone_each, free_each, append_raw_fields_clone,
  clear_raw_fields_by_number,
}
use pbz.Wire.Raw.Owned.{AllOrNothing, append_raw_fields_clone-AllOrNothing}
use pbz.Wire.Raw.Removed.{Readable, without, clear_raw_fields_by_number-AllOrNothing}
use pbz.Wire.Raw.Numbers.{raw_field_number_count, raw_field_number_runs_alloc}
use pbz.Wire.Raw.Runs.{Sorted}
use pbz.Wire.Raw.Compact.{Sorts, CountsAs, raw_field_number_runs_alloc-CountsAs}
use pbz.Wire.Raw.Matcher.{count_by_number_assume_valid, has_number_assume_valid}
use pbz.Wire.Raw.AssumeValid.{count_by_number_assume_valid-count}

-- Field 2 with the value 5, field 1, and field 2 again with a tag of two bytes.
abbrev some_fields : List (List ℕ)
some_fields = (0x10 ∷ 5 ∷ []) ∷ (0x08 ∷ 1 ∷ []) ∷ (0x90 ∷ 0x00 ∷ 7 ∷ []) ∷ []

abbrev heap : Heap
heap = record { calls = 0; live = 4 }

-- Memory for two calls.
abbrev two_calls : ℕ → Bool
two_calls k = ltb k 2

-- The table and the first clone are freed when there is no memory for the second clone.
append_out_of_memory :
    append_raw_fields_clone_unchecked two_calls some_fields some_fields heap
    ≡ (out_of_memory, some_fields, record { calls = 3; live = 4 })
unfolding append_raw_fields_clone_unchecked clone_each free_each alloc free
append_out_of_memory = refl

append_raw_fields_clone-AllOrNothing_example :
    AllOrNothing
      (validate_each ((0x10 ∷ 5 ∷ []) ∷ []) ≡ ok tt)
      some_fields
      heap
      (some_fields ++ ((0x10 ∷ 5 ∷ []) ∷ []))
      (append_raw_fields_clone two_calls some_fields ((0x10 ∷ 5 ∷ []) ∷ []) heap)
append_raw_fields_clone-AllOrNothing_example =
    append_raw_fields_clone-AllOrNothing two_calls some_fields ((0x10 ∷ 5 ∷ []) ∷ []) heap
      (omega arith)

clear_raw_fields_by_number-AllOrNothing_example :
    AllOrNothing
      (Readable some_fields)
      some_fields
      heap
      (without 2 some_fields)
      (clear_raw_fields_by_number two_calls some_fields 2 heap)
clear_raw_fields_by_number-AllOrNothing_example =
    clear_raw_fields_by_number-AllOrNothing two_calls some_fields 2 heap (omega arith)

abbrev insert : ℕ → List ℕ → List ℕ
insert x [] = x ∷ []
insert x (y ∷ ys) = let rest = insert x ys in if ltb y x then y ∷ rest else x ∷ y ∷ ys

abbrev insertion_sort : List ℕ → List ℕ
insertion_sort [] = []
insertion_sort (x ∷ xs) = insert x (insertion_sort xs)

insert-Sorted : (low x : ℕ) (xs : List ℕ) → low ≤ x → Sorted low xs → Sorted low (insert x xs)
insert-Sorted low x [] le h = (le, tt)
insert-Sorted low x (y ∷ ys) le (a, b) = elim (Bool-cases (ltb y x)) [
  | inl above ↦ rw above (a, insert-Sorted y x ys (omega (arith, ltb→lt y x above)) b)
  | inr below ↦ rw below (le, (ltb→le y x below, b))
]

count-insert :
    (x : ℕ) (xs : List ℕ) (n : ℕ)
    → raw_field_number_count (insert x xs) n ≡ raw_field_number_count (x ∷ xs) n
unfolding raw_field_number_count
count-insert x [] n = refl
count-insert x (y ∷ ys) n = elim (Bool-cases (ltb y x)) [
  | inl above ↦ rw above (ground (arith, count-insert x ys n))
  | inr below ↦ rw below refl
]

insertion_sort-Sorted : (xs : List ℕ) → Sorted 0 (insertion_sort xs)
insertion_sort-Sorted [] = tt
insertion_sort-Sorted (x ∷ xs) =
    insert-Sorted 0 x (insertion_sort xs) (omega arith) (insertion_sort-Sorted xs)

count-cons :
    (x : ℕ) (xs ys : List ℕ) (n : ℕ)
    → raw_field_number_count xs n ≡ raw_field_number_count ys n
    → raw_field_number_count (x ∷ xs) n ≡ raw_field_number_count (x ∷ ys) n
unfolding raw_field_number_count
count-cons x xs ys n h = rw h refl

count-insertion_sort :
    (xs : List ℕ) (n : ℕ)
    → raw_field_number_count (insertion_sort xs) n ≡ raw_field_number_count xs n
count-insertion_sort [] n = refl
count-insertion_sort (x ∷ xs) n =
    count-insert x (insertion_sort xs) n
    ∙ count-cons x (insertion_sort xs) xs n (count-insertion_sort xs n)

insertion_sort-Sorts : Sorts insertion_sort
insertion_sort-Sorts = record { sorted = insertion_sort-Sorted; same = count-insertion_sort }

raw_field_number_runs_alloc-CountsAs_example :
    CountsAs some_fields 2 heap
      (raw_field_number_runs_alloc two_calls insertion_sort some_fields heap)
raw_field_number_runs_alloc-CountsAs_example =
    raw_field_number_runs_alloc-CountsAs two_calls insertion_sort insertion_sort-Sorts 2
      (omega arith) some_fields heap

some_fields-Readable : Readable some_fields
unfolding raw_field_number tag_number read_varint_at read_groups decode from_int
some_fields-Readable = (inr (2, refl), (inr (1, refl), (inr (2, refl), tt)))

count_by_number_assume_valid-count_example :
    (raw_field_count_by_number some_fields 2 ≡ ok (count_by_number_assume_valid some_fields 2))
    × (has_number_assume_valid some_fields 2
        ≡ not (count_by_number_assume_valid some_fields 2 == 0))
count_by_number_assume_valid-count_example =
    count_by_number_assume_valid-count 2 (omega arith) some_fields
      (
        (omega arith, (omega arith, tt)),
        ((omega arith, (omega arith, tt)), ((omega arith, (omega arith, (omega arith, tt))), tt)),
      )
      some_fields-Readable
