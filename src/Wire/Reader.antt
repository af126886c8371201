-- ===== src/Wire/Reader.antt =====
-- `Reader` of src/wire.zig: tags, bytes, and the skipping of values and groups. A method that may fail
-- is a function from the reader to a result and the reader after the call, also beside an error.
-- `skipValue` and `skipGroup` call each other; `fuel` bounds the rounds of their loops.
pub mod Keeps
pub mod Ending
pub mod Ends
pub mod RoundTrip
pub mod Scalars
use pbz.Common.{
  ℕ, zero, suc, ◌+◌, ◌-◌, ◌^◌, Bool, true, false, List, [], ◌∷◌, Option, none, some, length,
  get_elem?, take, drop, ltb, leb, ◌==◌, if◌then◌else◌,
}
use pbz.Wire.Result.{
  Error, Result, ok, err, out_of_fuel, map_ok, truncated_input, malformed_varint,
  invalid_field_number, unsupported_wire_type, recursion_limit_exceeded, overflow,
}
use pbz.Wire.Tag.{
  WireType, Tag, varint, fixed64, length_delimited, start_group, end_group, fixed32, decode,
}
use pbz.Wire.Varint.{read_varint_at}

pub record Reader : Type 0 where
  pub input : List ℕ
  pub index : ℕ
  pub last_tag_start : ℕ
  pub recursion_depth : ℕ
  pub recursion_limit : ℕ

abbrev pub init : List ℕ → Reader
init input = record {
  input = input;
  index = 0;
  last_tag_start = 0;
  recursion_depth = 0;
  recursion_limit = 100;
}

abbrev pub Run : Type 0 → Type 0
Run A = Reader → Result A × Reader

-- `try`.
abbrev pub after : {A B : Type 0} → Result A × Reader → (A → Run B) → Result B × Reader
after (ok a, r) f = f a r
after (err e, r) f = (err e, r)
after (out_of_fuel, r) f = (out_of_fuel, r)

infixl 5 ◌>>=◌ ◌>>◌
abbrev pub ◌>>=◌ : {A B : Type 0} → Run A → (A → Run B) → Run B
◌>>=◌ m f r = after (m r) f

abbrev pub ◌>>◌ : {B : Type 0} → Run (Unit {0}) → Run B → Run B
m >> k = m >>= λ _. k

abbrev pub pure : {A : Type 0} → A → Run A
pure a r = (ok a, r)

abbrev fail : {A : Type 0} → Error → Run A
fail e r = (err e, r)

abbrev pub eof : Reader → Bool
eof r = leb (length r.input) r.index

unfoldable pub read_varint : Run ℕ
read_varint r =
    let (result, index) = read_varint_at r.input r.index in (result, record r { index = index })

unfoldable pub enter_recursion : Run (Unit {0})
enter_recursion r =
    if leb r.recursion_limit r.recursion_depth
    then (err recursion_limit_exceeded, r)
    else (ok tt, record r { recursion_depth = r.recursion_depth + 1 })

-- The assertion that the depth is not 0 holds after `enterRecursion`.
unfoldable pub leave_recursion : Reader → Reader
leave_recursion r = record r { recursion_depth = r.recursion_depth - 1 }

-- The tag that `raw` stands for, where its varint started at `tag_start`.
unfoldable pub checked_tag : ℕ → ℕ → Run (Option Tag)
checked_tag tag_start raw r =
    if ltb 5 (r.index - tag_start) then (err malformed_varint, r) else (map_ok some (decode raw), r)

-- `none` is the end of the input.
unfoldable pub next_tag : Run (Option Tag)
next_tag r =
    if eof r
    then (ok none, r)
    else after (read_varint (record r { last_tag_start = r.index })) (checked_tag r.index)

-- `if (self.input.len - self.index < len) ...; self.index += len`.
unfoldable pub advance : ℕ → Run (Unit {0})
advance len r =
    if ltb (length r.input - r.index) len
    then (err truncated_input, r)
    else (ok tt, record r { index = r.index + len })

-- The length that stands before the bytes.
unfoldable pub read_length : Run ℕ
read_length r = elim (get_elem? r.input r.index) [
  | none ↦ (err truncated_input, r)
  | some first_len_byte ↦
      if ltb first_len_byte 0x80
      then (ok first_len_byte, record r { index = r.index + 1 })
      else after (read_varint r)
          (λ len64 r'. if ltb (2 ^ 64 - 1) len64 then (err overflow, r') else (ok len64, r'))
]

abbrev pub slice : List ℕ → ℕ → ℕ → List ℕ
slice input start end = take (end - start) (drop start input)

unfoldable pub read_bytes : Run (List ℕ)
read_bytes = do
  len ← read_length
  λ r. after (advance len r) (λ _ r'. (ok (slice r'.input r.index r'.index), r'))

-- `enterRecursion`, then `defer self.leaveRecursion()` on every way out of `body`.
unfoldable pub guarded : {A : Type 0} → Run A → Run A
guarded body = do enter_recursion; λ r. let (result, r') = body r in (result, leave_recursion r')

abbrev ignore : {A : Type 0} → Run A → Run (Unit {0})
ignore m = do _ ← m; pure tt

-- `skipValue` on a tag's field number and wire type, given `skipGroup`.
unfoldable pub skip_value_with : (ℕ → Run (Unit {0})) → ℕ → WireType → Run (Unit {0})
skip_value_with group number varint = ignore read_varint
skip_value_with group number fixed64 = advance 8
skip_value_with group number length_delimited = ignore read_bytes
skip_value_with group number fixed32 = advance 4
skip_value_with group number start_group = group number
skip_value_with group number end_group = fail unsupported_wire_type

abbrev pub is_end_group : WireType → Bool
is_end_group end_group = true
is_end_group _ = false

-- What a round of the loop does with the next tag, given the other calls.
unfoldable pub group_round : (ℕ → Run (Unit {0})) → Run (Unit {0}) → ℕ → Option Tag → Run (Unit {0})
group_round group rest number none r = (err truncated_input, r)
group_round group rest number (some tag) r =
    if is_end_group tag.wire_type
    then (if tag.number == number then (ok tt, r) else (err invalid_field_number, r))
    else after (skip_value_with group tag.number tag.wire_type r) (λ _. rest)

-- The `while (true)` loop of `skipGroup`.
unfoldable pub skip_loop : ℕ → ℕ → Run (Unit {0})
skip_loop zero number r = (out_of_fuel, r)
skip_loop (suc fuel) number r =
    after (next_tag r)
      (group_round (λ n. guarded (skip_loop fuel n)) (skip_loop fuel number) number)

-- Each round takes a byte of the input, so this fuel is enough.
unfoldable pub skip_group : ℕ → Run (Unit {0})
skip_group number r = guarded (skip_loop (suc (length r.input)) number) r

unfoldable pub skip_value : Tag → Run (Unit {0})
skip_value tag = skip_value_with skip_group tag.number tag.wire_type
