-- ===== src/Wire/Raw/Matcher.antt =====
-- `RawFieldNumberMatcher` of src/wire.zig, which compares the bytes of a raw field's tag with those of the
-- field number, and the queries that use it.
use pbz.Common.{
  ℕ, ◌+◌, ◌*◌, ◌^◌, Bool, true, false, ◌&&◌, ◌||◌, not, none, some, List, [], ◌∷◌, length,
  get_elem?, ltb, ◌==◌, if◌then◌else◌, bit_and,
}
use pbz.Wire.Varint.{write_varint_to_buffer}
use pbz.Wire.Raw.{raw_field_number, has_number}

pub record RawFieldNumberMatcher : Type 0 where
  pub number : ℕ
  pub low_start : ℕ
  pub canonical_tag : List ℕ
  pub canonical_tag_len : ℕ

-- `undefined` bytes, which are not read.
abbrev pub undefined_tag : List ℕ
undefined_tag = 0 ∷ 0 ∷ 0 ∷ 0 ∷ 0 ∷ []

unfoldable pub init : ℕ → RawFieldNumberMatcher
init number =
    let tag_base = number * 2 ^ 3 in
    let (canonical_tag, canonical_tag_len) = write_varint_to_buffer undefined_tag tag_base in
    record {
      number = number;
      low_start = bit_and tag_base 0x7f;
      canonical_tag = canonical_tag;
      canonical_tag_len = canonical_tag_len;
    }

unfoldable pub first_byte_may_match : RawFieldNumberMatcher → ℕ → Bool
first_byte_may_match self first =
    let low = bit_and first 0x7f in
    if ltb low self.low_start || ltb (self.low_start + 5) low
    then false
    else ltb self.number 16 || not (ltb first 0x80)

-- `raw[i] == self.canonical_tag[i]`.
unfoldable pub same_byte : List ℕ → List ℕ → ℕ → Bool
same_byte raw tag i = elim (get_elem? raw i) [
  | none ↦ false
  | some a ↦ elim (get_elem? tag i) [ none ↦ false | some b ↦ a == b ]
]

-- The `switch` on the length of the canonical tag, with `same i` for the comparison of byte `i`; another
-- length is `unreachable`.
unfoldable pub same_bytes : ℕ → (ℕ → Bool) → Bool
same_bytes len same =
    if len == 2
    then same 1
    else if len == 3
    then same 1 && same 2
    else if len == 4
    then same 1 && same 2 && same 3
    else if len == 5
    then same 1 && same 2 && same 3 && same 4
    else false

-- `first` is `raw[0]`.
unfoldable pub starts_with_canonical_number_tag : RawFieldNumberMatcher → List ℕ → ℕ → Bool
starts_with_canonical_number_tag self raw first =
    if ltb (length raw) self.canonical_tag_len
    then false
    else if self.canonical_tag_len == 1
    then ltb first 0x80
    else if ltb first 0x80
    then false
    else same_bytes self.canonical_tag_len (same_byte raw self.canonical_tag)

-- An error of `rawFieldNumber` is `unreachable` here.
unfoldable pub matches : RawFieldNumberMatcher → List ℕ → Bool
matches self [] = false
matches self (first ∷ raw) =
    if self.number == 0
    then false
    else if not (first_byte_may_match self first)
    then false
    else if starts_with_canonical_number_tag self (first ∷ raw) first
    then true
    else has_number (raw_field_number (first ∷ raw)) self.number

unfoldable pub count_with_matcher : List (List ℕ) → RawFieldNumberMatcher → ℕ
count_with_matcher [] matcher = 0
count_with_matcher (raw ∷ fields) matcher =
    let rest = count_with_matcher fields matcher in if matches matcher raw then rest + 1 else rest

unfoldable pub count_by_number_assume_valid : List (List ℕ) → ℕ → ℕ
count_by_number_assume_valid fields number = count_with_matcher fields (init number)

unfoldable pub has_match : List (List ℕ) → RawFieldNumberMatcher → Bool
has_match [] matcher = false
has_match (raw ∷ fields) matcher =
    let rest = has_match fields matcher in if matches matcher raw then true else rest

unfoldable pub has_number_assume_valid : List (List ℕ) → ℕ → Bool
has_number_assume_valid fields number = has_match fields (init number)
