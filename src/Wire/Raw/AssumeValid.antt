-- ===== src/Wire/Raw/AssumeValid.antt =====
-- The queries for raw fields that were validated agree with those that validate.
use pbz.Common.{
  ℕ, ◌≤◌, ◌≡◌, refl, false, not, inl, inr, List, [], ◌∷◌, All, length, ◌==◌, Bool-cases, arith,
}
use pbz.Wire.Result.{ok}
use pbz.Wire.Tag.{max_field_number}
use pbz.Wire.Varint.Encoding.{IsByte}
use pbz.Wire.Raw.{raw_field_count_by_number}
use pbz.Wire.Raw.Matcher.{
  init, matches, count_with_matcher, count_by_number_assume_valid, has_match,
  has_number_assume_valid,
}
use pbz.Wire.Raw.Matches.{matches-number}
use pbz.Wire.Raw.Removed.{Readable}

module _ (m : ℕ) (fits : m ≤ max_field_number) where
  count_with_matcher-count :
      (fields : List (List ℕ))
      → All (All IsByte) fields
      → Readable fields
      → raw_field_count_by_number fields m ≡ ok (count_with_matcher fields (init m))
  unfolding raw_field_count_by_number count_with_matcher
  count_with_matcher-count [] bytes r = refl
  count_with_matcher-count ([] ∷ fields) (byte, bytes) (number, r) =
      rw (count_with_matcher-count fields bytes r) (unfold matches in refl)
  count_with_matcher-count ((b ∷ raw) ∷ fields) (byte, bytes) (inl empty, r) = absurd (omega arith)
  count_with_matcher-count ((b ∷ raw) ∷ fields) (byte, bytes) (inr (n, h), r) =
      let filled : length (b ∷ raw) == 0 ≡ false = ground arith in
      let found = matches-number m (b ∷ raw) n fits byte h in
      let rest = count_with_matcher-count fields bytes r in
      elim (Bool-cases (n == m)) [
        | inl same ↦ rw (filled, h, rest, found, same) refl
        | inr other ↦ rw (filled, h, rest, found, other) refl
      ]

  has_match-count :
      (fields : List (List ℕ))
      → has_match fields (init m) ≡ not (count_with_matcher fields (init m) == 0)
  unfolding has_match count_with_matcher
  has_match-count [] = refl
  has_match-count (raw ∷ fields) = elim (Bool-cases (matches (init m) raw)) [
    | inl found ↦ rw found (ground arith)
    | inr other ↦ rw other (has_match-count fields)
  ]

  -- For a field number of at most 2 ^ 29 - 1, and raw fields of bytes that are each empty or have a number that
  -- can be read: the matcher counts the fields of the number as `rawFieldCountByNumber` does, which succeeds,
  -- and `rawFieldHasNumberAssumeValid` says whether the count is not 0.
  pub count_by_number_assume_valid-count :
      (fields : List (List ℕ))
      → All (All IsByte) fields
      → Readable fields
      → (raw_field_count_by_number fields m ≡ ok (count_by_number_assume_valid fields m))
        × (has_number_assume_valid fields m ≡ not (count_by_number_assume_valid fields m == 0))
  unfolding count_by_number_assume_valid has_number_assume_valid
  count_by_number_assume_valid-count fields bytes r =
      (count_with_matcher-count fields bytes r, has_match-count fields)
