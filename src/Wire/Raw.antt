-- ===== src/Wire/Raw.antt =====
-- The raw unknown fields of src/wire.zig: a slice of byte slices, each a whole field with its tag.
pub mod Store
pub mod Blocks
pub mod Owned
pub mod Removed
pub mod Numbers
pub mod Runs
pub mod Counts
pub mod Compact
pub mod Matcher
pub mod Starts
pub mod Matches
pub mod AssumeValid
use pbz.Common.{ℕ, ◌+◌, Bool, false, List, [], ◌∷◌, length, ltb, ◌==◌, if◌then◌else◌}
use pbz.Wire.Result.{Result, ok, err, malformed_varint, invalid_wire_type, ◌>>=◌, ◌>>◌}
use pbz.Wire.Tag.{decode, Tag}
use pbz.Wire.Varint.{Cursor, read_varint_at}
use pbz.Common.{Option, none, some}
use pbz.Wire.Reader.{Reader, init, eof, next_tag, skip_value}

-- The field number of a tag that was read, where the index behind it is `index`.
unfoldable pub tag_number : Cursor ℕ → Result ℕ
tag_number (raw_tag, index) = do
  tag ← raw_tag
  if ltb 5 index then err malformed_varint else do t ← decode tag; ok t.number

unfoldable pub raw_field_number : List ℕ → Result ℕ
raw_field_number raw_field = tag_number (read_varint_at raw_field 0)

-- `rawFieldNumber(raw) == number`, where there is no error.
abbrev pub has_number : Result ℕ → ℕ → Bool
has_number (ok n) number = n == number
has_number _ number = false

unfoldable pub raw_field_count_by_number : List (List ℕ) → ℕ → Result ℕ
raw_field_count_by_number [] number = ok 0
raw_field_count_by_number (raw ∷ fields) number =
    let rest = raw_field_count_by_number fields number in
    if length raw == 0
    then rest
    else do n ← raw_field_number raw; count ← rest; ok (if n == number then count + 1 else count)

-- What `validateRawField` does with the first tag.
unfoldable pub validate_tag : Option Tag → Reader → Result (Unit {0})
validate_tag none r = err invalid_wire_type
validate_tag (some tag) r =
    let (result, r') = skip_value tag r in
    do result; if eof r' then ok tt else err invalid_wire_type

unfoldable pub validate_raw_field : List ℕ → Result (Unit {0})
validate_raw_field raw =
    let (result, r) = next_tag (init raw) in do tag ← result; validate_tag tag r
