-- ===== src/Wire/Raw/Counts.antt =====
-- The runs built from raw fields count what the fields themselves count.
use pbz.Common.{
  ℕ, zero, suc, ◌+◌, ◌≤◌, ◌<◌, ◌≡◌, refl, sym, ap, ◌∙◌, false, inl, inr, some, List, [], ◌∷◌,
  length, drop, ◌==◌, if◌then◌else◌, Bool-cases, arith,
}
use pbz.Wire.Raw.Numbers.{
  raw_field_number_count, leading, runs_loop, runs_from_sorted_numbers, raw_field_number_run_count,
}
use pbz.Wire.Raw.Runs.{Sorted, Above, total, run_count-total}

Sorted-weaken : (high low : ℕ) (xs : List ℕ) → low ≤ high → Sorted high xs → Sorted low xs
Sorted-weaken high low [] le h = tt
Sorted-weaken high low (x ∷ xs) le (a, h) = (omega arith, h)

drop-leading :
    (number : ℕ) (xs : List ℕ)
    → Sorted number xs
    → Sorted (suc number) (drop (leading number xs) xs)
unfolding leading
drop-leading number [] h = tt
drop-leading number (x ∷ xs) (le, h) = elim (Bool-cases (x == number)) [
  | inl same ↦
      let eq : x ≡ number = ground arith in rw same (drop-leading number xs (rw (sym eq) h))
  | inr other ↦ rw other (ground arith, h)
]

length-drop-leading : (number : ℕ) (xs : List ℕ) → length (drop (leading number xs) xs) ≤ length xs
unfolding leading
length-drop-leading number [] = omega arith
length-drop-leading number (x ∷ xs) = elim (Bool-cases (x == number)) [
  | inl same ↦ rw same (omega (arith, length-drop-leading number xs))
  | inr other ↦ rw other (omega arith)
]

count-leading :
    (number wanted : ℕ) (xs : List ℕ)
    → raw_field_number_count xs wanted
      ≡ (if number == wanted then leading number xs else 0)
        + raw_field_number_count (drop (leading number xs) xs) wanted
unfolding leading raw_field_number_count
count-leading number wanted [] = ground arith
count-leading number wanted (x ∷ xs) = elim (Bool-cases (x == number)) [
  | inl same ↦ rw same (ground (arith, count-leading number wanted xs))
  | inr other ↦ rw other (ground arith)
]

runs_loop-Above :
    (fuel low : ℕ) (numbers : List ℕ)
    → Sorted (suc low) numbers
    → Above low (runs_loop fuel numbers)
unfolding runs_loop
runs_loop-Above zero low numbers h = tt
runs_loop-Above (suc fuel) low [] h = tt
runs_loop-Above (suc fuel) low (number ∷ numbers) (le, h) =
    let positive : number == 0 ≡ false = ground arith in
    rw positive (
      omega arith,
      runs_loop-Above fuel number (drop (leading number numbers) numbers)
          (drop-leading number numbers h),
    )

runs_loop-total :
    (fuel wanted : ℕ) (numbers : List ℕ)
    → 0 < wanted
    → length numbers ≤ fuel
    → total (runs_loop fuel numbers) wanted ≡ raw_field_number_count numbers wanted
unfolding runs_loop raw_field_number_count
runs_loop-total zero wanted [] lo h = refl
runs_loop-total zero wanted (x ∷ xs) lo h = absurd (omega arith)
runs_loop-total (suc fuel) wanted [] lo h = refl
runs_loop-total (suc fuel) wanted (number ∷ numbers) lo h =
    let rest =
      runs_loop-total fuel wanted (drop (leading number numbers) numbers) lo
        (omega (arith, length-drop-leading number numbers)) in
    let split = count-leading number wanted numbers in
    elim (Bool-cases (number == 0)) [
      | inl empty ↦ rw empty (ground (arith, rest, split))
      | inr positive ↦ rw positive (ground (arith, rest, split))
    ]

runs-Above : (numbers : List ℕ) → Sorted 0 numbers → Above 0 (runs_from_sorted_numbers numbers)
unfolding runs_from_sorted_numbers runs_loop
runs-Above [] h = tt
runs-Above (number ∷ numbers) (le, h) = elim (Bool-cases (number == 0)) [
  | inl empty ↦ rw empty (
      runs_loop-Above (length numbers) 0 (drop (leading number numbers) numbers)
        (Sorted-weaken (suc number) 1 _ (omega arith) (drop-leading number numbers h)))
  | inr positive ↦ rw positive (
    ground arith,
    runs_loop-Above (length numbers) number (drop (leading number numbers) numbers)
        (drop-leading number numbers h),
  )
]

-- The binary search in the runs of sorted numbers counts as the scan over the numbers does.
pub run_count-Sorted :
    (numbers : List ℕ) (wanted : ℕ)
    → Sorted 0 numbers
    → 0 < wanted
    → raw_field_number_run_count (runs_from_sorted_numbers numbers) wanted
      ≡ some (raw_field_number_count numbers wanted)
unfolding runs_from_sorted_numbers
run_count-Sorted numbers wanted h lo =
    run_count-total wanted (runs_from_sorted_numbers numbers) (runs-Above numbers h)
    ∙ ap some (runs_loop-total (length numbers) wanted numbers lo (omega arith))
