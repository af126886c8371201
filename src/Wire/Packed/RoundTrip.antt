-- ===== src/Wire/Packed/RoundTrip.antt =====
-- The iterator goes through the values that `writePackedVarints` wrote.
use mathlib.Core.Path.{subst}
use pbz.Common.{
  ℕ, ◌+◌, ◌^◌, ◌≤◌, ◌<◌, ◌≡◌, refl, none, some, List, [], ◌∷◌, ◌++◌, append_assoc, length,
  length-append, All, lt→ltb, le→ltb, ◌==◌, Bool-cases, inl, inr, arith,
}
use pbz.Wire.Result.{ok}
use pbz.Wire.Varint.{ladder, read_varint_at}
use pbz.Wire.Varint.Read.{read_varint_at-ladder}
use pbz.Wire.Reader.{next_tag}
use pbz.Wire.Reader.RoundTrip.{ladder-nonempty}
use pbz.Wire.Packed.{
  PackedIterator, next_loop, next_packed_varint, next_packed_varint_segment, segment_loop,
  segment_round,
}

-- The varints of `values`, one behind the other.
abbrev pub ladders : List ℕ → List ℕ
ladders [] = []
ladders (v ∷ values) = ladder 9 v ++ ladders values

-- Call after call, the iterator returns the values in their order, and then none.
abbrev pub Yields : PackedIterator → List ℕ → Type 0
Yields it [] = next_packed_varint it ≡ (ok none, it)
Yields it (v ∷ values) =
    (it' : PackedIterator) × (next_packed_varint it ≡ (ok (some v), it')) × Yields it' values

no_more : (number : ℕ) → next_packed_varint_segment [] number ≡ ok none
unfolding next_packed_varint_segment segment_loop segment_round next_tag
no_more number = refl

-- The iterator over one payload, with no field behind it.
abbrev over : List ℕ → ℕ → ℕ → PackedIterator
over payload index number = record {
  payload = payload;
  index = index;
  remaining_fields = [];
  field_number = number;
}

next-value :
    (payload : List ℕ) (i number v j : ℕ)
    → i < length payload
    → read_varint_at payload i ≡ (ok v, j)
    → next_packed_varint (over payload i number) ≡ (ok (some v), over payload j number)
unfolding next_packed_varint next_loop
next-value payload i number v j inside read = rw (lt→ltb i (length payload) inside, read) refl

next-end :
    (payload : List ℕ) (i number : ℕ)
    → length payload ≤ i
    → next_packed_varint (over payload i number) ≡ (ok none, over payload i number)
unfolding next_packed_varint next_loop
next-end payload i number beyond = elim (Bool-cases (number == 0)) [
  | inl raw ↦ rw (le→ltb i (length payload) beyond, raw) refl
  | inr field ↦ rw (le→ltb i (length payload) beyond, field, no_more number) refl
]

pub over-Yields :
    (values before : List ℕ) (number : ℕ)
    → All (λ v. v < 2 ^ 64) values
    → Yields (over (before ++ ladders values) (length before) number) values
over-Yields [] before number fits =
    next-end (before ++ []) (length before) number (omega (arith, length-append before []))
over-Yields (v ∷ values) before number (fits, rest) =
    let bytes = ladder 9 v in
    let payload = before ++ (bytes ++ ladders values) in
    let inside : length before < length payload = omega (
      arith,
      length-append before (bytes ++ ladders values),
      length-append bytes (ladders values),
      ladder-nonempty v fits,
    ) in
    let later = over-Yields values (before ++ bytes) number rest in
    (
      over payload (length before + length bytes) number,
      next-value payload (length before) number v _ inside
          (read_varint_at-ladder v before (ladders values) fits),
      subst (λ p. Yields (over p (length before + length bytes) number) values)
          (append_assoc before bytes (ladders values))
          (subst (λ i. Yields (over ((before ++ bytes) ++ ladders values) i number) values)
            (length-append before bytes) later),
    )
