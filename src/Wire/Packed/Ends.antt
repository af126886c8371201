-- ===== src/Wire/Packed/Ends.antt =====
-- The loops of the packed iterators end: each round takes bytes from what is left.
use pbz.Common.{
  ℕ, zero, suc, ◌-◌, ◌≤◌, ◌<◌, ◌≡◌, refl, ap, inl, inr, Option, none, some, List, [], ◌∷◌, length,
  drop, ltb, ◌==◌, Bool-cases, arith,
}
use pbz.Wire.Result.{Result, ok, err, out_of_fuel}
use pbz.Wire.Tag.{WireType, Tag, varint, fixed64, length_delimited, start_group, end_group, fixed32}
use pbz.Wire.Varint.{read_varint_at}
use pbz.Wire.Varint.Bounds.{read_varint_at-Takes}
use pbz.Wire.Reader.{Reader, Run, init, after, next_tag, read_varint, skip_value}
use pbz.Wire.Reader.Keeps.{
  Keeps, Keeps-refl, after-Keeps, next_tag-Keeps, read_varint-Keeps, read_bytes-Keeps,
  skip_value-Keeps,
}
use pbz.Wire.Reader.Ending.{Ends, after-Ends, cursor-Ends, map_ok-Ends, read_varint-Ends}
use pbz.Wire.Reader.Ends.{
  next_tag-Ends, next_tag-later, read_bytes-Ends, skip_value-Ends, Enough, Enough-Keeps,
  Enough-later,
}
use pbz.Wire.Packed.{
  PackedVarintSegment, PackedIterator, read_payload, segment_round, segment_loop,
  next_packed_varint_segment, next_loop, next_packed_varint,
}

-- The search for a segment ended, and what is left behind a segment has fewer bytes than `n`.
abbrev Shorter : ℕ → Result (Option PackedVarintSegment) → Type 0
Shorter n (ok (some s)) = length s.remaining_fields < n
Shorter n (ok none) = Unit {0}
Shorter n (err e) = Unit {0}
Shorter n out_of_fuel = ⊥

after-Shorter :
    {A : Type 0} (n : ℕ) (p : Result A × Reader) (f : A → Run (Option PackedVarintSegment))
    → Ends p.0
    → ((a : A) → p.0 ≡ ok a → Shorter n (f a p.1).0)
    → Shorter n (after p f).0
after-Shorter n (ok a, s) f h k = k a refl
after-Shorter n (err e, s) f h k = tt
after-Shorter n (out_of_fuel, s) f h k = h

length-drop_le : (i : ℕ) (xs : List ℕ) → i ≤ length xs → length (drop i xs) ≡ length xs - i
length-drop_le zero xs h = omega arith
length-drop_le (suc i) [] h = absurd (omega arith)
length-drop_le (suc i) (x ∷ xs) h = omega (arith, length-drop_le i xs (omega arith))

read_payload-Ends : (w : WireType) (r : Reader) → Ends (read_payload w r).0
unfolding read_payload
read_payload-Ends varint r = after-Ends (read_varint r) _ (read_varint-Ends r) (λ v e. tt)
read_payload-Ends length_delimited r = read_bytes-Ends r
read_payload-Ends fixed64 r = tt
read_payload-Ends start_group r = tt
read_payload-Ends end_group r = tt
read_payload-Ends fixed32 r = tt

read_payload-Keeps : (w : WireType) (r : Reader) → Keeps r (read_payload w r).1
unfolding read_payload
read_payload-Keeps varint r =
    after-Keeps (read_varint r) _ (read_varint-Keeps r) (λ v s. Keeps-refl s)
read_payload-Keeps length_delimited r = read_bytes-Keeps r
read_payload-Keeps fixed64 r = Keeps-refl r
read_payload-Keeps start_group r = Keeps-refl r
read_payload-Keeps end_group r = Keeps-refl r
read_payload-Keeps fixed32 r = Keeps-refl r

-- A round with a tag, where at least a byte was read and the rounds behind it are good.
round-Shorter :
    (n number : ℕ) (rest : Run (Option PackedVarintSegment)) (tag : Tag) (r : Reader)
    → 0 < r.index
    → r.index ≤ length r.input
    → length r.input ≤ n
    → Shorter n (rest (skip_value tag r).1).0
    → Shorter n (segment_round rest number (some tag) r).0
unfolding segment_round
round-Shorter n number rest tag r lo inside small good = elim (Bool-cases (tag.number == number)) [
  | inl same ↦
      let p = read_payload tag.wire_type r in
      let k = read_payload-Keeps tag.wire_type r in
      let there = k.inside inside in
      let input : length p.1.input ≡ length r.input = ap length k.input in
      rw same (
        after-Shorter n p _ (read_payload-Ends tag.wire_type r)
          (λ payload e. omega (arith, length-drop_le p.1.index p.1.input (omega arith), k.forward)))
  | inr other ↦
      rw other (after-Shorter n (skip_value tag r) _ (skip_value-Ends tag r inside) (λ _ e. good))
]

-- A round of the loop, where the rounds behind it are good.
tagged-Shorter :
    (fuel number n : ℕ) (r : Reader)
    → Enough (suc fuel) r
    → length r.input ≤ n
    → ((s : Reader) → Enough fuel s → length s.input ≤ n → Shorter n (segment_loop fuel number s).0)
    → (tag : Option Tag) → (next_tag r).0 ≡ ok tag
    → Shorter n (segment_round (segment_loop fuel number) number tag (next_tag r).1).0
tagged-Shorter fuel number n r enough small good none e = unfold segment_round in tt
tagged-Shorter fuel number n r enough small good (some tag) e =
    let r1 = (next_tag r).1 in
    let keeps = next_tag-Keeps r in
    let later = next_tag-later r e in
    let left = Enough-later fuel keeps later enough in
    let input : length r1.input ≡ length r.input = ap length keeps.input in
    let skipped = skip_value-Keeps tag r1 in
    let input' : length (skip_value tag r1).1.input ≡ length r1.input = ap length skipped.input in
    round-Shorter n number (segment_loop fuel number) tag r1 (omega arith) left.0 (omega arith)
      (good (skip_value tag r1).1 (Enough-Keeps fuel skipped left) (omega arith))

segment_loop-Shorter :
    (fuel number n : ℕ) (r : Reader)
    → Enough fuel r
    → length r.input ≤ n
    → Shorter n (segment_loop fuel number r).0
unfolding segment_loop
segment_loop-Shorter zero number n r (inside, enough) small = absurd (omega arith)
segment_loop-Shorter (suc fuel) number n r enough small =
    after-Shorter n (next_tag r) _ (next_tag-Ends r)
      (tagged-Shorter fuel number n r enough small (segment_loop-Shorter fuel number n))

segment-Shorter :
    (bytes : List ℕ) (number : ℕ) → Shorter (length bytes) (next_packed_varint_segment bytes number)
unfolding next_packed_varint_segment
segment-Shorter bytes number =
    segment_loop-Shorter (suc (length bytes)) number (length bytes) (init bytes)
      (omega arith, omega arith) (omega arith)

-- What the iterator does with the next segment, given what it does with one that is found.
found-Ends :
    (it : PackedIterator) (n : ℕ) (rest : PackedVarintSegment → Result (Option ℕ) × PackedIterator)
    (found : Result (Option PackedVarintSegment))
    → Shorter n found
    → ((s : PackedVarintSegment) → length s.remaining_fields < n → Ends (rest s).0)
    → Ends
        (elim found as (λ x. Result (Option ℕ) × PackedIterator) [
          | err e ↦ (err e, it)
          | out_of_fuel ↦ (out_of_fuel, it)
          | ok segment ↦ elim segment as (λ x. Result (Option ℕ) × PackedIterator) [
            | none ↦ (ok none, it)
            | some s ↦ rest s
          ]
        ]).0
found-Ends it n rest (ok (some s)) h k = k s h
found-Ends it n rest (ok none) h k = tt
found-Ends it n rest (err e) h k = tt
found-Ends it n rest out_of_fuel h k = h

next_loop-Ends :
    (fuel : ℕ) (it : PackedIterator)
    → length it.remaining_fields < fuel
    → Ends (next_loop fuel it).0
unfolding next_loop
next_loop-Ends zero it h = absurd (omega arith)
next_loop-Ends (suc fuel) it h = elim (Bool-cases (ltb it.index (length it.payload))) [
  | inl more ↦ rw more (
      map_ok-Ends some (read_varint_at it.payload it.index).0 (
        cursor-Ends it.payload it.index 10 (read_varint_at it.payload it.index)
          (read_varint_at-Takes it.payload it.index)))
  | inr end ↦ elim (Bool-cases (it.field_number == 0)) [
    | inl raw ↦ rw (end, raw) tt
    | inr field ↦
        rw (end, field)
          (found-Ends it (length it.remaining_fields)
            (λ s. next_loop fuel (record {
              payload = s.payload;
              index = 0;
              remaining_fields = s.remaining_fields;
              field_number = it.field_number;
            }))
            (next_packed_varint_segment it.remaining_fields it.field_number)
            (segment-Shorter it.remaining_fields it.field_number)
            (λ s shorter. next_loop-Ends fuel _ (omega arith)))
  ]
]

-- On every iterator, whatever its bytes are, a call ends with a value, the end or an error: it takes a finite
-- number of occurrences of the field and of fields between them, so the fuel of the model's loops does
-- not run out.
pub next_packed_varint-Ends : (it : PackedIterator) → Ends (next_packed_varint it).0
unfolding next_packed_varint
next_packed_varint-Ends it =
    next_loop-Ends (suc (suc (length it.remaining_fields))) it (omega arith)
