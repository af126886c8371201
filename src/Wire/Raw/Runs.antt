-- ===== src/Wire/Raw/Runs.antt =====
-- Counting by the sorted runs agrees with counting the fields one by one.
use pbz.Common.{
  ℕ, zero, suc, ◌+◌, ◌-◌, ◌/◌, ◌≤◌, ◌<◌, ◌≡◌, ◌≢◌, refl, sym, ap, inl, inr, some, List, [], ◌∷◌,
  length, get_elem?, get_elem?-ge, get_elem?-lt, ltb, ltb→lt, ltb→le, ◌==◌, if◌then◌else◌,
  Bool-cases, Option-cases, arith,
}
use pbz.Wire.Raw.Numbers.{RawFieldNumberRun, search, raw_field_number_run_count}

-- The numbers ascend from `low` on.
abbrev pub Sorted : ℕ → List ℕ → Type 0
Sorted low [] = Unit {0}
Sorted low (x ∷ xs) = (low ≤ x) × Sorted x xs

-- The numbers of the runs ascend and are above `low`.
abbrev pub Above : ℕ → List RawFieldNumberRun → Type 0
Above low [] = Unit {0}
Above low (run ∷ runs) = (low < run.number) × Above run.number runs

-- The counts of the runs of a number.
abbrev pub total : List RawFieldNumberRun → ℕ → ℕ
total [] number = 0
total (run ∷ runs) number = (if run.number == number then run.count else 0) + total runs number

Above-mono :
    (low high : ℕ) (runs : List RawFieldNumberRun) → low ≤ high → Above high runs → Above low runs
Above-mono low high [] le h = tt
Above-mono low high (run ∷ runs) le (a, b) = (omega arith, b)

total-Above :
    (low number : ℕ) (runs : List RawFieldNumberRun)
    → Above low runs
    → number ≤ low
    → total runs number ≡ 0
total-Above low number [] h le = refl
total-Above low number (run ∷ runs) (a, b) le =
    ground (arith, total-Above run.number number runs b (omega arith))

Above-get :
    (low : ℕ) (runs : List RawFieldNumberRun) (i : ℕ) {run : RawFieldNumberRun}
    → Above low runs
    → get_elem? runs i ≡ some run
    → low < run.number
Above-get low [] i h e = ground arith
Above-get low (r ∷ runs) zero (a, b) e = ground arith
Above-get low (r ∷ runs) (suc i) (a, b) e = omega (arith, Above-get r.number runs i b e)

-- Where the search ends at a run, the run has all that the number counts.
total-found :
    (low number : ℕ) (runs : List RawFieldNumberRun) (i : ℕ) {run : RawFieldNumberRun}
    → Above low runs
    → get_elem? runs i ≡ some run
    → run.number ≡ number
    → total runs number ≡ run.count
total-found low number [] i h e same = ground arith
total-found low number (r ∷ runs) zero (a, b) e same =
    ground (arith, total-Above r.number number runs b)
total-found low number (r ∷ runs) (suc i) (a, b) e same =
    ground (arith, total-found r.number number runs i b e same, Above-get r.number runs i b e)

-- The runs before `low` are below the number, those from `high` on above it.
Between : List RawFieldNumberRun → ℕ → ℕ → ℕ → Type 0
Between runs number low high =
    (i : ℕ) (run : RawFieldNumberRun)
    → get_elem? runs i ≡ some run
    → (i < low → run.number < number) × (high ≤ i → number < run.number)

ascending :
    (low : ℕ) (runs : List RawFieldNumberRun) (i j : ℕ) {a b : RawFieldNumberRun}
    → Above low runs
    → get_elem? runs i ≡ some a
    → get_elem? runs j ≡ some b
    → i ≤ j
    → a.number ≤ b.number
ascending low [] i j h ea eb le = ground arith
ascending low (r ∷ runs) zero zero h ea eb le = ground arith
ascending low (r ∷ runs) zero (suc j) {a} {b} (p, q) ea eb le =
    let first : r.number ≡ a.number = ground arith in
    omega (arith, Above-get r.number runs j q eb, first)
ascending low (r ∷ runs) (suc i) zero h ea eb le = absurd (omega arith)
ascending low (r ∷ runs) (suc i) (suc j) (p, q) ea eb le =
    ascending r.number runs i j q ea eb (omega arith)

total-absent :
    (number : ℕ) (runs : List RawFieldNumberRun)
    → ((i : ℕ) (run : RawFieldNumberRun) → get_elem? runs i ≡ some run → run.number ≢ number)
    → total runs number ≡ 0
total-absent number [] h = refl
total-absent number (r ∷ runs) h =
    let other = h 0 r refl in ground (arith, total-absent number runs (λ i run e. h (suc i) run e))

-- No run has the number where the two ends have met.
outside :
    (number low high : ℕ) (runs : List RawFieldNumberRun)
    → Between runs number low high
    → (i : ℕ) (run : RawFieldNumberRun) → get_elem? runs i ≡ some run
    → high ≤ low
    → run.number ≢ number
unfolding Between
outside number low high runs between i run e over same =
    let (below, above) = between i run e in
    elim (Bool-cases (ltb i low)) [
      | inl before ↦ omega (arith, below (ltb→lt i low before))
      | inr behind ↦ omega (arith, above (omega (arith, ltb→le i low behind)))
    ]

module _ (floor number low high mid : ℕ) (runs : List RawFieldNumberRun) (up : Above floor runs)
    (between : Between runs number low high) (run : RawFieldNumberRun)
    (e : get_elem? runs mid ≡ some run) where
  raised : run.number < number → Between runs number (mid + 1) high
  unfolding Between
  raised under i r f =
      (λ lt. omega (arith, ascending floor runs i mid up f e (omega arith)), (between i r f).1)

  lowered : number < run.number → Between runs number low mid
  unfolding Between
  lowered over i r f =
      ((between i r f).0, λ le. omega (arith, ascending floor runs mid i up e f le))

search-total :
    (fuel floor number low high : ℕ) (runs : List RawFieldNumberRun)
    → Above floor runs
    → low ≤ high
    → high ≤ length runs
    → high < low + fuel
    → Between runs number low high
    → search fuel runs number low high ≡ some (total runs number)
unfolding search Between
search-total zero floor number low high runs up order inside enough between = absurd (omega arith)
search-total (suc fuel) floor number low high runs up order inside enough between =
    let mid = low + (high - low) / 2 in
    elim (Bool-cases (ltb low high)) [
      | inr empty ↦
          let over = ltb→le low high empty in
          let absent =
            total-absent number runs
              (λ i run e same. outside number low high runs between i run e over same) in
          rw (empty, absent) refl
      | inl span ↦
          let wide = ltb→lt low high span in
          elim (Option-cases (get_elem? runs mid)) [
            | inl missing ↦ absurd (omega (arith, get_elem?-ge runs mid missing))
            | inr (run, e) ↦ elim (Bool-cases (ltb run.number number)) [
              | inl under ↦
                  rw (span, e, under)
                    (search-total fuel floor number (mid + 1) high runs up (omega arith) inside
                      (omega arith)
                      (raised floor number low high mid runs up between run e
                        (ltb→lt run.number number under)))
              | inr not_under ↦ elim (Bool-cases (ltb number run.number)) [
                | inl over ↦
                    rw (span, e, not_under, over)
                      (search-total fuel floor number low mid runs up (omega arith) (omega arith)
                        (omega arith)
                        (lowered floor number low high mid runs up between run e
                          (ltb→lt number run.number over)))
                | inr not_over ↦
                    let same : run.number ≡ number = omega (
                      arith,
                      ltb→le run.number number not_under,
                      ltb→le number run.number not_over,
                    ) in
                    rw (span, e, not_under, not_over)
                      (ap some (sym (total-found floor number runs mid up e same)))
              ]
            ]
          ]
    ]

pub run_count-total :
    (number : ℕ) (runs : List RawFieldNumberRun)
    → Above 0 runs
    → raw_field_number_run_count runs number ≡ some (total runs number)
unfolding raw_field_number_run_count Between
run_count-total number runs up =
    search-total (suc (length runs)) 0 number 0 (length runs) runs up (omega arith) (omega arith)
      (omega arith)
      (λ i run e. (λ lt. absurd (omega arith), λ le. absurd (omega (arith, get_elem?-lt runs i e))))
