-- ===== src/Wire/Reader/Keeps.antt =====
-- What every call of `Reader` keeps: the input, the limits, and the recursion depth; the index moves
-- forward inside the input.
use pbz.Common.{
  ℕ, zero, suc, ◌+◌, ◌-◌, ◌≤◌, ◌≡◌, refl, ◌∙◌, ap, Bool, ltb→le, ◌^◌, inl, inr, true, false, Option,
  none, some, length, get_elem?, get_elem?-lt, ltb, leb, ◌==◌, Bool-cases, Option-cases,
  if◌then◌else◌, arith,
}
use pbz.Wire.Result.{Result, ok, err, out_of_fuel}
use pbz.Wire.Tag.{WireType, Tag, varint, fixed64, length_delimited, start_group, end_group, fixed32}
use pbz.Wire.Varint.{Cursor, read_varint_at}
use pbz.Wire.Varint.Bounds.{Takes, read_varint_at-Takes}
use pbz.Wire.Reader.{
  Reader, Run, after, ◌>>=◌, pure, read_varint, enter_recursion, leave_recursion, checked_tag,
  next_tag, advance, read_length, read_bytes, guarded, skip_value_with, group_round, skip_loop,
  skip_group, skip_value, is_end_group,
}

pub record Keeps (r r' : Reader) : Type 0 where
  pub input : r'.input ≡ r.input
  pub limit : r'.recursion_limit ≡ r.recursion_limit
  pub depth : r'.recursion_depth ≡ r.recursion_depth
  pub forward : r.index ≤ r'.index
  pub inside : r.index ≤ length r.input → r'.index ≤ length r.input

pub Keeps-refl : (r : Reader) → Keeps r r
Keeps-refl r = record {
  input = refl;
  limit = refl;
  depth = refl;
  forward = omega arith;
  inside = λ h. h;
}

pub Keeps-trans : {r s t : Reader} → Keeps r s → Keeps s t → Keeps r t
Keeps-trans {r} {s} {t} a b = record {
  input = b.input ∙ a.input;
  limit = b.limit ∙ a.limit;
  depth = b.depth ∙ a.depth;
  forward = omega (arith, a.forward, b.forward);
  inside = λ h.
      let same : length s.input ≡ length r.input = ap length a.input in
      let there = a.inside h in
      let b_inside : s.index ≤ length s.input → t.index ≤ length s.input = b.inside in
      let last = b_inside (omega arith) in omega arith;
}

-- Whatever the result is.
abbrev pub KeepsAll : {A : Type 0} → Run A → Type 0
KeepsAll m = (r : Reader) → Keeps r (m r).1

pub after-Keeps :
    {A B : Type 0} {r : Reader} (p : Result A × Reader) (f : A → Run B)
    → Keeps r p.1
    → ((a : A) → KeepsAll (f a))
    → Keeps r (after p f).1
after-Keeps (ok a, s) f k ks = Keeps-trans k (ks a s)
after-Keeps (err e, s) f k ks = k
after-Keeps (out_of_fuel, s) f k ks = k

cursor-Keeps :
    (r : Reader) (c : Cursor ℕ) → Takes r.input r.index 10 c → Keeps r (record r { index = c.1 })
cursor-Keeps r (ok v, j) (_, lo, _, hi) = record {
  input = refl;
  limit = refl;
  depth = refl;
  forward = omega arith;
  inside = λ h. hi;
}
cursor-Keeps r (err e, j) (lo, _, inl same, _) = record {
  input = refl;
  limit = refl;
  depth = refl;
  forward = lo;
  inside = λ h. omega arith;
}
cursor-Keeps r (err e, j) (lo, _, inr hi, _) = record {
  input = refl;
  limit = refl;
  depth = refl;
  forward = lo;
  inside = λ h. hi;
}
cursor-Keeps r (out_of_fuel, j) h = absurd h

pub read_varint-Keeps : KeepsAll read_varint
unfolding read_varint
read_varint-Keeps r =
    cursor-Keeps r (read_varint_at r.input r.index) (read_varint_at-Takes r.input r.index)

if-Keeps :
    {A : Type 0} {r : Reader} (b : Bool) (x y : Result A × Reader)
    → (b ≡ true → Keeps r x.1)
    → (b ≡ false → Keeps r y.1)
    → Keeps r (if b then x else y).1
if-Keeps true x y kx ky = kx refl
if-Keeps false x y kx ky = ky refl

checked_tag-Keeps : (tag_start raw : ℕ) → KeepsAll (checked_tag tag_start raw)
unfolding checked_tag
checked_tag-Keeps tag_start raw r =
    if-Keeps (ltb 5 (r.index - tag_start)) _ _ (λ e. Keeps-refl r) (λ e. Keeps-refl r)

start-Keeps : (r : Reader) (n : ℕ) → Keeps r (record r { last_tag_start = n })
start-Keeps r n = record {
  input = refl;
  limit = refl;
  depth = refl;
  forward = omega arith;
  inside = λ h. h;
}

pub next_tag-Keeps : KeepsAll next_tag
unfolding next_tag
next_tag-Keeps r =
    if-Keeps (leb (length r.input) r.index) _ _ (λ e. Keeps-refl r)
      (λ e.
        after-Keeps (read_varint (record r { last_tag_start = r.index })) (checked_tag r.index)
          (Keeps-trans (start-Keeps r r.index)
            (read_varint-Keeps (record r { last_tag_start = r.index })))
          (checked_tag-Keeps r.index))

advance-Keeps : (len : ℕ) → KeepsAll (advance len)
unfolding advance
advance-Keeps len r =
    if-Keeps (ltb (length r.input - r.index) len) _ _ (λ e. Keeps-refl r)
      (λ e.
        let fits = ltb→le (length r.input - r.index) len e in
        record {
          input = refl;
          limit = refl;
          depth = refl;
          forward = omega arith;
          inside = λ h. omega arith;
        })

read_length-Keeps : KeepsAll read_length
unfolding read_length
read_length-Keeps r = elim (Option-cases (get_elem? r.input r.index)) [
  | inl end ↦ rw (end, read_length) (Keeps-refl r)
  | inr (first, e) ↦
      let here = get_elem?-lt r.input r.index e in
      let step : Keeps r (record r { index = r.index + 1 }) = record {
        input = refl;
        limit = refl;
        depth = refl;
        forward = omega arith;
        inside = λ h. omega arith;
      } in
      rw (e, read_length)
        (if-Keeps (ltb first 0x80) _ _ (λ e. step)
          (λ e. after-Keeps (read_varint r) _ (read_varint-Keeps r) (λ len64 s.
            if-Keeps (ltb (2 ^ 64 - 1) len64) _ _ (λ e. Keeps-refl s) (λ e. Keeps-refl s))))
]

pub read_bytes-Keeps : KeepsAll read_bytes
unfolding read_bytes
read_bytes-Keeps r =
    after-Keeps (read_length r) _ (read_length-Keeps r)
      (λ len s. after-Keeps (advance len s) _ (advance-Keeps len s) (λ _ t. Keeps-refl t))

pub guarded-Keeps : {A : Type 0} (body : Run A) → KeepsAll body → KeepsAll (guarded body)
unfolding guarded enter_recursion leave_recursion
guarded-Keeps body k r = elim (Bool-cases (leb r.recursion_limit r.recursion_depth)) [
  | inl deep ↦ rw deep (Keeps-refl r)
  | inr room ↦
      let inner = record r { recursion_depth = r.recursion_depth + 1 } in
      let kept = k inner in
      let deeper : (body inner).1.recursion_depth ≡ r.recursion_depth + 1 = kept.depth in
      rw room (record {
        input = kept.input;
        limit = kept.limit;
        depth = omega arith;
        forward = kept.forward;
        inside = kept.inside;
      })
]

ignore-Keeps : {A : Type 0} (m : Run A) → KeepsAll m → KeepsAll (do _ ← m; pure tt)
ignore-Keeps m k r = after-Keeps (m r) _ (k r) (λ _ s. Keeps-refl s)

pub skip_value_with-Keeps :
    (group : ℕ → Run (Unit {0}))
    → ((n : ℕ) → KeepsAll (group n))
    → (number : ℕ) (wire_type : WireType) → KeepsAll (skip_value_with group number wire_type)
unfolding skip_value_with
skip_value_with-Keeps group k number varint r = ignore-Keeps read_varint read_varint-Keeps r
skip_value_with-Keeps group k number fixed64 r = advance-Keeps 8 r
skip_value_with-Keeps group k number length_delimited r = ignore-Keeps read_bytes read_bytes-Keeps r
skip_value_with-Keeps group k number fixed32 r = advance-Keeps 4 r
skip_value_with-Keeps group k number start_group r = k number r
skip_value_with-Keeps group k number end_group r = Keeps-refl r

group_round-Keeps :
    (group : ℕ → Run (Unit {0})) (rest : Run (Unit {0})) (number : ℕ)
    → ((n : ℕ) → KeepsAll (group n))
    → KeepsAll rest
    → (tag : Option Tag) → KeepsAll (group_round group rest number tag)
unfolding group_round
group_round-Keeps group rest number k kr none r = Keeps-refl r
group_round-Keeps group rest number k kr (some tag) r =
    if-Keeps (is_end_group tag.wire_type) _ _
      (λ e. if-Keeps (tag.number == number) _ _ (λ e. Keeps-refl r) (λ e. Keeps-refl r))
      (λ e.
        after-Keeps (skip_value_with group tag.number tag.wire_type r) _
          (skip_value_with-Keeps group k tag.number tag.wire_type r) (λ _. kr))

pub skip_loop-Keeps : (fuel number : ℕ) → KeepsAll (skip_loop fuel number)
unfolding skip_loop
skip_loop-Keeps zero number r = Keeps-refl r
skip_loop-Keeps (suc fuel) number r = after-Keeps (next_tag r) _ (next_tag-Keeps r) (
    group_round-Keeps _ _ number (λ n. guarded-Keeps (skip_loop fuel n) (skip_loop-Keeps fuel n))
      (skip_loop-Keeps fuel number))

skip_group-Keeps : (number : ℕ) → KeepsAll (skip_group number)
unfolding skip_group
skip_group-Keeps number r =
    guarded-Keeps (skip_loop (suc (length r.input)) number)
      (skip_loop-Keeps (suc (length r.input)) number) r

pub skip_value-Keeps : (tag : Tag) (r : Reader) → Keeps r (skip_value tag r).1
unfolding skip_value
skip_value-Keeps tag r =
    skip_value_with-Keeps skip_group skip_group-Keeps tag.number tag.wire_type r

-- The input and the recursion's depth and limit are the same; the index is not further back, and not beyond
-- the end of the input.
abbrev pub Stays : Reader → Reader → Type 0
Stays r r' =
    (r'.input ≡ r.input)
    × (r'.recursion_limit ≡ r.recursion_limit)
    × (r'.recursion_depth ≡ r.recursion_depth)
    × (r.index ≤ r'.index)
    × (r'.index ≤ length r.input)

-- Where the index stands inside the input or at its end, `skipValue` keeps the input, the recursion limit and
-- the recursion depth of the reader, also where it fails in a nested group; it never moves the index back, nor
-- beyond the end of the input.
pub skip_value-Stays :
    (tag : Tag) (r : Reader) → r.index ≤ length r.input → Stays r (skip_value tag r).1
skip_value-Stays tag r h =
    let k = skip_value-Keeps tag r in (k.input, k.limit, k.depth, k.forward, k.inside h)
