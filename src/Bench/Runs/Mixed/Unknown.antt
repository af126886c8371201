-- ===== src/Bench/Runs/Mixed/Unknown.antt =====
-- The runs on unknown fields in `main` of bench/cpp_protobuf/main.cc: their checks do not abort.
use mathlib.Core.Option.{none-ne-some}
use pbz.Common.{
  ℕ, zero, suc, ◌+◌, ◌≡◌, refl, List, [], ◌∷◌, length, Option, none, some, true, ◌==◌,
  if◌then◌else◌, inl, inr, Bool-cases, arith,
}
use pbz.Bench.Timing.{String}
use pbz.Bench.Message.{Message}
use pbz.Bench.Unknown.{
  unknown_field_stress_count, unknown_field_stress_first_number,
  unknown_field_stress_count_per_number,
}
use pbz.Bench.Unknown.Laws.{field_numbers, unknown_field_count-per_number}
use pbz.Bench.Runs.Prints.{Prints, Prints-seq, timed-Prints}
use pbz.Bench.Runs.Mixed.{checked_unknown, checked_count, unknown_runs}

abbrev pub unknown_names : List String
unknown_names =
    "c++ protobuf unknown fields decode" ∷ "c++ protobuf unknown fields count by number" ∷ []

length-field_numbers : (n i : ℕ) → length (field_numbers n i) ≡ n
unfolding field_numbers
length-field_numbers zero i = refl
length-field_numbers (suc n) i = omega (arith, length-field_numbers n (i + 1))

-- The check passes a message that the bytes are parsed to.
module _ (M : Message) (unknown_fields : M.Msg → List ℕ) where
  checked-same :
      (o : Option M.Msg) {m : M.Msg}
      → (elim o [
        | none ↦ none
        | some n ↦ if length (unknown_fields n) == unknown_field_stress_count then some n else none
      ])
        ≡ some m
      → o ≡ some m
  checked-same none h = absurd (cc)
  checked-same (some n) {m = m} h =
      elim (Bool-cases (length (unknown_fields n) == unknown_field_stress_count)) [
        | inl yes_same ↦ rw yes_same at h
        | inr differs ↦ absurd (none-ne-some m (rw differs at h))
      ]

  pub checked_unknown-parses :
      (bytes : List ℕ) (s : M.Msg) {m : M.Msg}
      → checked_unknown M unknown_fields bytes s ≡ some m
      → M.parse_from_string bytes M.new ≡ some m
  unfolding checked_unknown
  checked_unknown-parses bytes s h = checked-same (M.parse_from_string bytes M.new) h

-- The bytes parse to `m`, and `m` keeps the unknown fields in their order.
pub record Parsed (M : Message) (unknown_fields : M.Msg → List ℕ) (bytes : List ℕ) (m : M.Msg)
    : Type 0 where
  pub payload : M.parse_from_string bytes M.new ≡ some m
  pub keeps : unknown_fields m ≡ field_numbers unknown_field_stress_count 0

module _ (clock : ℕ → ℕ) (M : Message) (unknown_fields : M.Msg → List ℕ) (bytes : List ℕ)
    (m : M.Msg) (parsed : Parsed M unknown_fields bytes m) where
  checked_unknown-parsed : (s : M.Msg) → checked_unknown M unknown_fields bytes s ≡ some m
  unfolding checked_unknown
  checked_unknown-parsed s =
      let same : (length (unknown_fields m) == unknown_field_stress_count) ≡ true =
        rw (parsed.keeps, length-field_numbers unknown_field_stress_count 0) in
      rw (parsed.payload, same, checked_unknown)

  checked_count-parsed :
      (s : ℕ) → checked_count M unknown_fields m s ≡ some unknown_field_stress_count_per_number
  unfolding checked_count
  checked_count-parsed s = rw (
    parsed.keeps,
    unknown_field_count-per_number unknown_field_stress_first_number (omega arith) (omega arith),
  )

  -- Where a new message parses the payload to `m`, which keeps its 1024 unknown fields in their order,
  -- both runs on unknown fields complete: neither the parse, nor the number of the unknown fields, nor
  -- the count of one field number aborts.
  pub unknown_runs-Prints : Prints (unknown_runs M unknown_fields clock bytes m) unknown_names
  unfolding unknown_runs
  unknown_runs-Prints =
      Prints-seq ("c++ protobuf unknown fields decode" ∷ []) _
        (timed-Prints clock M _ _ _ _ _ (λ x. Unit {0}) (λ s h. (m, checked_unknown-parsed s, tt))
          tt)
        (timed-Prints clock M _ _ _ _ _ (λ x. Unit {0}) (λ s h. (_, checked_count-parsed s, tt)) tt)
