-- ===== src/Wire/Reader/RoundTrip.antt =====
-- The reader gives back the tags and the bytes that stand in its input.
use pbz.Common.{
  ℕ, ◌+◌, ◌-◌, ◌^◌, ◌≤◌, ◌<◌, ◌≡◌, refl, sym, ap, ◌∙◌, true, false, inl, inr, List, [], ◌∷◌, ◌++◌,
  some, length, length-append, append_assoc, ◌%◌, ◌/◌, get_elem?, take, drop, At-middle, ltb, leb,
  ltb→le, ltb→lt, le→ltb, lt→ltb, Bool-cases, arith,
}
use mathlib.Core.Path.{subst}
use pbz.Wire.Result.{Result, ok}
use pbz.Wire.Tag.{Tag, max_field_number, encode, decode}
use pbz.Wire.Tag.Codec.{tag_value, encode-eq-ok, decode_value, int_from_enum-lt}
use pbz.Wire.Varint.{ladder, read_varint_at}
use pbz.Wire.Varint.Encoding.{groups, ladder-groups, groups_enough, length-groups}
use pbz.Wire.Varint.Read.{read_varint_at-ladder}
use pbz.Wire.Reader.{Reader, read_varint, checked_tag, next_tag, advance, read_length, read_bytes}

-- `bytes` stand in the input from the index on.
pub record Stands (r : Reader) (bytes : List ℕ) : Type 0 where
  pub before : List ℕ
  pub rest : List ℕ
  pub input : r.input ≡ before ++ (bytes ++ rest)
  pub index : r.index ≡ length before

abbrev from_ok : {A : Type 0} → Result A → A → A
from_ok (ok a) b = a
from_ok _ b = b

ok_inj : {A : Type 0} {a b : A} → ok a ≡ ok b → a ≡ b
ok_inj {a = a} e = ap (λ r. from_ok r a) e

pub ladder-nonempty : (v : ℕ) → v < 2 ^ 64 → 1 ≤ length (ladder 9 v)
ladder-nonempty v h = rw (ladder-groups 9 v (omega arith)) (length-groups 9 v).0

-- A tag takes five bytes at most.
ladder-tag : (v : ℕ) → v < 2 ^ 32 → length (ladder 9 v) ≤ 5
ladder-tag v h =
    let (_, short) = length-groups 4 v in
    rw
      (
        ladder-groups 9 v (omega arith),
        groups_enough 8 v (omega arith),
        groups_enough 7 v (omega arith),
        groups_enough 6 v (omega arith),
        groups_enough 5 v (omega arith),
        groups_enough 4 v (omega arith),
      )
      short

pub length-Stands :
    (r : Reader) (bytes : List ℕ) → Stands r bytes → r.index + length bytes ≤ length r.input
length-Stands r bytes s =
    let whole : length r.input ≡ length (s.before ++ (bytes ++ s.rest)) = ap length s.input in
    omega (arith, s.index, length-append s.before (bytes ++ s.rest), length-append bytes s.rest)

pub read_varint-Stands :
    (r : Reader) (v : ℕ)
    → v < 2 ^ 64
    → Stands r (ladder 9 v)
    → read_varint r ≡ (ok v, record r { index = r.index + length (ladder 9 v) })
unfolding read_varint
read_varint-Stands r v h s =
    let c : read_varint_at r.input r.index ≡ (ok v, r.index + length (ladder 9 v)) =
      rw (s.input, s.index) (read_varint_at-ladder v s.before s.rest h) in
    rw c

-- For a field number of 1 to 2 ^ 29 - 1: where what `encode` returns for the tag stands in the
-- input at the index as a varint, `nextTag` returns the tag, leaves the index behind it and
-- remembers where it started.
pub next_tag-encode :
    (t : Tag) (v : ℕ) (r : Reader)
    → 0 < t.number
    → t.number ≤ max_field_number
    → encode t ≡ ok v
    → Stands r (ladder 9 v)
    → next_tag r
      ≡ (ok (some t), record r { index = r.index + length (ladder 9 v); last_tag_start = r.index })
unfolding next_tag checked_tag
next_tag-encode t v r lo hi e s =
    let value : tag_value t ≡ v = ok_inj (sym (encode-eq-ok t lo) ∙ e) in
    let small = int_from_enum-lt t.wire_type in
    let decoded : decode v ≡ ok t =
      subst (λ x. decode x ≡ ok t) value (decode_value t.number t.wire_type lo hi) in
    let some_byte = ladder-nonempty v (omega arith) in
    let short = ladder-tag v (omega arith) in
    let fits = length-Stands r (ladder 9 v) s in
    let more : leb (length r.input) r.index ≡ false = ground arith in
    let started = record r { last_tag_start = r.index } in
    let read =
      read_varint-Stands started v (omega arith)
        (record { before = s.before; rest = s.rest; input = s.input; index = s.index }) in
    let wide : ltb 5 (r.index + length (ladder 9 v) - r.index) ≡ false = le→ltb 5 _ (omega arith) in
    rw (more, read, wide, decoded)

first_byte : (v : ℕ) → v < 2 ^ 64 → 0x80 ≤ v → ladder 9 v ≡ (v % 128 + 128) ∷ groups 8 (v / 128)
unfolding groups
first_byte v h wide =
    let small : ltb v 128 ≡ false = le→ltb v 128 wide in rw (ladder-groups 9 v (omega arith), small)

one_byte : (v : ℕ) → v < 0x80 → ladder 9 v ≡ v ∷ []
unfolding groups
one_byte v h =
    let small : ltb v 128 ≡ true = lt→ltb v 128 h in rw (ladder-groups 9 v (omega arith), small)

get_elem?-Stands :
    (r : Reader) (b : ℕ) (bytes : List ℕ)
    → Stands r (b ∷ bytes)
    → get_elem? r.input r.index ≡ some b
get_elem?-Stands r b bytes s = rw (s.input, s.index) (At-middle s.before (b ∷ bytes) s.rest).0

read_length-Stands :
    (r : Reader) (v : ℕ)
    → v < 2 ^ 64
    → Stands r (ladder 9 v)
    → read_length r ≡ (ok v, record r { index = r.index + length (ladder 9 v) })
unfolding read_length
read_length-Stands r v h s = elim (Bool-cases (ltb v 0x80)) [
  | inl short ↦
      let one = one_byte v (ltb→lt v 0x80 short) in
      let here = get_elem?-Stands r v [] (subst (λ bytes. Stands r bytes) one s) in
      rw (here, read_length, short, one)
  | inr long ↦
      let many = first_byte v h (ltb→le v 0x80 long) in
      let here =
        get_elem?-Stands r (v % 128 + 128) (groups 8 (v / 128))
          (subst (λ bytes. Stands r bytes) many s) in
      let continues : ltb (v % 128 + 128) 0x80 ≡ false =
        le→ltb (v % 128 + 128) 0x80 (omega arith) in
      let fits : ltb (2 ^ 64 - 1) v ≡ false = le→ltb (2 ^ 64 - 1) v (omega arith) in
      rw (here, read_length, continues, read_varint-Stands r v h s, fits)
]

pub drop-append : (xs ys : List ℕ) → drop (length xs) (xs ++ ys) ≡ ys
drop-append [] ys = refl
drop-append (x ∷ xs) ys = drop-append xs ys

pub take-append : (xs ys : List ℕ) → take (length xs) (xs ++ ys) ≡ xs
take-append [] ys = refl
take-append (x ∷ xs) ys = ap (λ l. x ∷ l) (take-append xs ys)

-- For a payload of fewer than 2 ^ 64 bytes: where its length as a varint and then the payload
-- stand in the input at the index, `readBytes` returns the payload and leaves the index behind it.
pub read_bytes-payload :
    (payload : List ℕ) (r : Reader)
    → length payload < 2 ^ 64
    → Stands r (ladder 9 (length payload) ++ payload)
    → read_bytes r ≡ (
      ok payload,
      record r { index = r.index + length (ladder 9 (length payload)) + length payload },
    )
unfolding read_bytes advance
read_bytes-payload payload r h s =
    let header = ladder 9 (length payload) in
    let fits = length-Stands r (header ++ payload) s in
    let sizes = length-append header payload in
    let at_header : Stands r header = record {
      before = s.before;
      rest = payload ++ s.rest;
      input = s.input ∙ ap (λ l. s.before ++ l) (append_assoc header payload s.rest);
      index = s.index;
    } in
    let inside : ltb (length r.input - (r.index + length header)) (length payload) ≡ false =
      le→ltb _ (length payload) (omega arith) in
    let width : r.index + length header + length payload - (r.index + length header)
        ≡ length payload =
      omega arith in
    let start : r.index + length header ≡ length (s.before ++ header) =
      omega (arith, s.index, length-append s.before header) in
    let input : r.input ≡ (s.before ++ header) ++ (payload ++ s.rest) =
      at_header.input ∙ sym (append_assoc s.before header (payload ++ s.rest)) in
    let dropped : drop (r.index + length header) r.input ≡ payload ++ s.rest =
      rw (start, input) (drop-append (s.before ++ header) (payload ++ s.rest)) in
    rw (
      read_length-Stands r (length payload) h at_header,
      inside,
      width,
      dropped,
      take-append payload s.rest,
    )
