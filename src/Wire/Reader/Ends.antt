-- ===== src/Wire/Reader/Ends.antt =====
-- The loops that skip a group end: each round takes a byte, so the fuel never runs out.
use pbz.Common.{
  ℕ, zero, suc, ◌+◌, ◌-◌, ◌^◌, ◌≤◌, ◌<◌, ◌≡◌, refl, sym, ◌∙◌, ap, inl, inr, Option, none, some,
  length, get_elem?, ltb, leb, ◌==◌, Bool-cases, Option-cases, arith,
}
use pbz.Wire.Result.{Result, ok, err, out_of_fuel}
use pbz.Wire.Tag.{
  WireType, Tag, varint, fixed64, length_delimited, start_group, end_group, fixed32, decode,
}
use pbz.Wire.Reader.{
  Reader, Run, after, ◌>>=◌, pure, read_varint, enter_recursion, checked_tag, next_tag, advance,
  read_length, read_bytes, guarded, skip_value_with, group_round, skip_loop, skip_group, skip_value,
  is_end_group,
}
use pbz.Wire.Reader.Keeps.{
  Keeps, next_tag-Keeps, guarded-Keeps, skip_value_with-Keeps, skip_loop-Keeps,
}
use pbz.Wire.Reader.Ending.{
  Ends, after-Ends, if-Ends, read_varint-Ends, read_varint-later, map_ok-Ends, decode-Ends,
}

checked_tag-Ends : (start raw : ℕ) (r : Reader) → Ends (checked_tag start raw r).0
unfolding checked_tag
checked_tag-Ends start raw r =
    if-Ends (ltb 5 (r.index - start)) _ _ (λ e. tt)
      (λ e. map_ok-Ends some (decode raw) (decode-Ends raw))

checked_tag-index : (start raw : ℕ) (r : Reader) → (checked_tag start raw r).1 ≡ r
unfolding checked_tag
checked_tag-index start raw r = ground arith

pub next_tag-Ends : (r : Reader) → Ends (next_tag r).0
unfolding next_tag
next_tag-Ends r =
    if-Ends (leb (length r.input) r.index) _ _ (λ e. tt)
      (λ e.
        after-Ends (read_varint (record r { last_tag_start = r.index })) (checked_tag r.index)
          (read_varint-Ends (record r { last_tag_start = r.index }))
          (λ raw e.
            checked_tag-Ends r.index raw (read_varint (record r { last_tag_start = r.index })).1))

tagged-later :
    (start : ℕ) (p : Result ℕ × Reader) {t : Tag}
    → ((v : ℕ) → p.0 ≡ ok v → start < p.1.index)
    → (after p (checked_tag start)).0 ≡ ok (some t)
    → start < (after p (checked_tag start)).1.index
tagged-later start (ok v, s) k e = rw (checked_tag-index start v s) (k v refl)
tagged-later start (err x, s) k e = ground arith
tagged-later start (out_of_fuel, s) k e = ground arith

pub next_tag-later :
    (r : Reader) {t : Tag} → (next_tag r).0 ≡ ok (some t) → r.index < (next_tag r).1.index
unfolding next_tag
next_tag-later r {t} e = elim (Bool-cases (leb (length r.input) r.index)) [
  | inl end ↦ ground (arith, end)
  | inr more ↦
      let p = read_varint (record r { last_tag_start = r.index }) in
      let here : next_tag r ≡ after p (checked_tag r.index) = rw (more, next_tag) in
      let e' : (after p (checked_tag r.index)).0 ≡ ok (some t) = sym (ap (λ q. q.0) here) ∙ e in
      rw here (
        tagged-later r.index p
          (λ v e''. read_varint-later (record r { last_tag_start = r.index }) e'') e')
]

advance-Ends : (len : ℕ) (r : Reader) → Ends (advance len r).0
unfolding advance
advance-Ends len r = if-Ends (ltb (length r.input - r.index) len) _ _ (λ e. tt) (λ e. tt)

read_length-Ends : (r : Reader) → Ends (read_length r).0
unfolding read_length
read_length-Ends r = elim (Option-cases (get_elem? r.input r.index)) [
  | inl end ↦ rw (end, read_length) tt
  | inr (first, e) ↦
      rw (e, read_length)
        (if-Ends (ltb first 0x80) _ _ (λ e. tt)
          (λ e.
            after-Ends (read_varint r) _ (read_varint-Ends r)
              (λ len64 e. if-Ends (ltb (2 ^ 64 - 1) len64) _ _ (λ e. tt) (λ e. tt))))
]

pub read_bytes-Ends : (r : Reader) → Ends (read_bytes r).0
unfolding read_bytes
read_bytes-Ends r = after-Ends (read_length r) _ (read_length-Ends r) (λ len e.
    after-Ends (advance len (read_length r).1) _ (advance-Ends len (read_length r).1) (λ _ e. tt))

guarded-Ends :
    (body : Run (Unit {0})) (r : Reader)
    → Ends (body (record r { recursion_depth = r.recursion_depth + 1 })).0
    → Ends (guarded body r).0
unfolding guarded enter_recursion
guarded-Ends body r h = elim (Bool-cases (leb r.recursion_limit r.recursion_depth)) [
  | inl deep ↦ rw deep tt
  | inr room ↦ rw room h
]

ignore-Ends : {A : Type 0} (m : Run A) (r : Reader) → Ends (m r).0 → Ends ((do _ ← m; pure tt) r).0
ignore-Ends m r h = after-Ends (m r) _ h (λ _ e. tt)

skip_value_with-Ends :
    (group : ℕ → Run (Unit {0})) (number : ℕ) (wire_type : WireType) (r : Reader)
    → ((n : ℕ) → Ends (group n r).0)
    → Ends (skip_value_with group number wire_type r).0
unfolding skip_value_with
skip_value_with-Ends group number varint r h = ignore-Ends read_varint r (read_varint-Ends r)
skip_value_with-Ends group number fixed64 r h = advance-Ends 8 r
skip_value_with-Ends group number length_delimited r h =
    ignore-Ends read_bytes r (read_bytes-Ends r)
skip_value_with-Ends group number fixed32 r h = advance-Ends 4 r
skip_value_with-Ends group number start_group r h = h number
skip_value_with-Ends group number end_group r h = tt

group_round-Ends :
    (group : ℕ → Run (Unit {0})) (rest : Run (Unit {0})) (number : ℕ) (tag : Option Tag)
    (r : Reader)
    → ((t : Tag) → tag ≡ some t → (n : ℕ) → Ends (group n r).0)
    → ((t : Tag) → tag ≡ some t → Ends (rest (skip_value_with group t.number t.wire_type r).1).0)
    → Ends (group_round group rest number tag r).0
unfolding group_round
group_round-Ends group rest number none r h k = tt
group_round-Ends group rest number (some tag) r h k =
    if-Ends (is_end_group tag.wire_type) _ _
      (λ e. if-Ends (tag.number == number) _ _ (λ e. tt) (λ e. tt))
      (λ e.
        after-Ends (skip_value_with group tag.number tag.wire_type r) _
          (skip_value_with-Ends group tag.number tag.wire_type r (h tag refl)) (λ _ e. k tag refl))

-- The index stands in the input, and the fuel is above the number of bytes that are left.
abbrev pub Enough : ℕ → Reader → Type 0
Enough fuel r = (r.index ≤ length r.input) × (length r.input < r.index + fuel)

pub Enough-Keeps : {r s : Reader} (fuel : ℕ) → Keeps r s → Enough fuel r → Enough fuel s
Enough-Keeps {r} {s} fuel k (inside, enough) =
    let same : length s.input ≡ length r.input = ap length k.input in
    let there = k.inside inside in (omega arith, omega (arith, k.forward))

pub Enough-later :
    {r s : Reader} (fuel : ℕ) → Keeps r s → r.index < s.index → Enough (suc fuel) r → Enough fuel s
Enough-later {r} {s} fuel k later (inside, enough) =
    let same : length s.input ≡ length r.input = ap length k.input in
    let there = k.inside inside in (omega arith, omega arith)

skip_loop-Ends : (fuel number : ℕ) (r : Reader) → Enough fuel r → Ends (skip_loop fuel number r).0
unfolding skip_loop
skip_loop-Ends zero number r (inside, enough) = absurd (omega arith)
skip_loop-Ends (suc fuel) number r enough =
    let r1 = (next_tag r).1 in
    after-Ends (next_tag r) _ (next_tag-Ends r) (λ tag e.
      let left : (t : Tag) → tag ≡ some t → Enough fuel r1 =
        λ t et. Enough-later fuel (next_tag-Keeps r) (next_tag-later r (e ∙ ap ok et)) enough in
      group_round-Ends (λ n. guarded (skip_loop fuel n)) (skip_loop fuel number) number tag r1
        (λ t et n. guarded-Ends (skip_loop fuel n) r1 (
          skip_loop-Ends fuel n (record r1 { recursion_depth = r1.recursion_depth + 1 })
            (left t et)))
        (λ t et. skip_loop-Ends fuel number _ (
          Enough-Keeps fuel
            (skip_value_with-Keeps _
              (λ n. guarded-Keeps (skip_loop fuel n) (skip_loop-Keeps fuel n)) t.number t.wire_type
              r1)
            (left t et))))

skip_group-Ends :
    (number : ℕ) (r : Reader) → r.index ≤ length r.input → Ends (skip_group number r).0
unfolding skip_group
skip_group-Ends number r inside = guarded-Ends (skip_loop (suc (length r.input)) number) r (
    skip_loop-Ends (suc (length r.input)) number
      (record r { recursion_depth = r.recursion_depth + 1 }) (inside, omega arith))

-- Where the index stands inside the input or at its end, `skipValue` ends, with success or an error, on
-- every tag and whatever bytes are left: the fuel of the model's loop does not run out.
pub skip_value-Ends :
    (tag : Tag) (r : Reader) → r.index ≤ length r.input → Ends (skip_value tag r).0
unfolding skip_value
skip_value-Ends tag r inside =
    skip_value_with-Ends skip_group tag.number tag.wire_type r (λ n. skip_group-Ends n r inside)
