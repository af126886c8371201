-- ===== src/Wire/Packed/Written.antt =====
-- `writePackedVarints` and the iterator over the field that it writes.
use mathlib.Core.Path.{subst}
use pbz.Common.{
  ℕ, ◌+◌, ◌^◌, ◌≤◌, ◌<◌, ◌≡◌, refl, sym, ap, ◌∙◌, true, Bool, Option, some, List, [], ◌∷◌, ◌++◌,
  append-nil, length, length-append, drop, All, ◌==◌, arith,
}
use pbz.Wire.Result.{ok}
use pbz.Wire.Heap.{Outcome, done, out_of_memory, failed, no_fuel, panicked, after}
use pbz.Wire.Tag.{Tag, length_delimited, max_field_number}
use pbz.Wire.Tag.Codec.{tag_value, encode-eq-ok}
use pbz.Wire.Varint.{ladder}
use pbz.Wire.Reader.{Reader, Run, after as reader_after, init}
use pbz.Wire.Reader.RoundTrip.{Stands, next_tag-encode, read_bytes-payload}
use pbz.Wire.Packed.{
  PackedIterator, next_packed_varint_segment, segment_loop, segment_round, read_payload,
  PackedVarintSegment, packed_field_iterator,
}
use pbz.Wire.Packed.RoundTrip.{ladders, Yields, over-Yields}
use pbz.Wire.Writer.{Writer, write_varint, write_each_varint, write_bytes, write_packed_varints}
use pbz.Wire.Writer.Wrote.{Wrote, after-Wrote, write_varint-Wrote}
use pbz.Wire.Writer.Fields.{write_bytes-Wrote}

drop-all : (xs : List ℕ) → drop (length xs) xs ≡ []
drop-all [] = refl
drop-all (x ∷ xs) = drop-all xs

module _ (number : ℕ) (lo : 0 < number) (hi : number ≤ max_field_number) where
  abbrev tag : Tag
  tag = record { number = number; wire_type = length_delimited }

  -- The bytes of a field with the payload.
  abbrev encoded : List ℕ → List ℕ
  encoded payload = ladder 9 (tag_value tag) ++ (ladder 9 (length payload) ++ payload)

  -- The round that finds the field at the end of the input.
  round-encoded :
      (rest : Run (Option PackedVarintSegment)) (payload : List ℕ) (r : Reader)
      → length payload < 2 ^ 64
      → Stands r (ladder 9 (length payload) ++ payload)
      → r.index + length (ladder 9 (length payload)) + length payload ≡ length r.input
      → (segment_round rest number (some tag) r).0
        ≡ ok (some (record { payload = payload; remaining_fields = [] }))
  unfolding segment_round read_payload
  round-encoded rest payload r fits s whole =
      let read = read_bytes-payload payload r fits s in
      let same : number == number ≡ true = ground arith in
      rw (same, read, whole, drop-all r.input) refl

  segment-encoded :
      (payload : List ℕ)
      → length payload < 2 ^ 64
      → next_packed_varint_segment (encoded payload) number
        ≡ ok (some (record { payload = payload; remaining_fields = [] }))
  unfolding next_packed_varint_segment segment_loop
  segment-encoded payload fits =
      let header = ladder 9 (tag_value tag) in
      let size = ladder 9 (length payload) in
      let start = init (encoded payload) in
      let read =
        next_tag-encode tag (tag_value tag) start lo hi (encode-eq-ok tag lo)
          (record { before = []; rest = size ++ payload; input = refl; index = refl }) in
      let r : Reader = record start { index = length header; last_tag_start = 0 } in
      let at_body : 0 + length header ≡ length header = omega arith in
      let rest = segment_loop (length (encoded payload)) number in
      ap (λ q. q.0)
        (ap (λ q. reader_after q (segment_round rest number)) read
          ∙ ap
              (λ i.
                segment_round rest number (some tag)
                  (record start { index = i; last_tag_start = 0 }))
              at_body)
      ∙ round-encoded rest payload r fits
          (record {
            before = header;
            rest = [];
            input = ap (λ l. header ++ l) (sym (append-nil (size ++ payload)));
            index = refl;
          })
          (omega (arith, length-append header (size ++ payload), length-append size payload))

  -- With memory an iterator over the field gives the values and then none. Without, a first part of the field was
  -- written.
  abbrev pub PackedBack : List ℕ → Outcome (Unit {0}) × Writer → Type 0
  PackedBack values (done _, w') =
      (it : PackedIterator) × (packed_field_iterator w'.bytes number ≡ ok (some it))
      × Yields it values
  PackedBack values (out_of_memory, w') =
      (rest : List ℕ) × (w'.bytes ++ rest ≡ encoded (ladders values))
  PackedBack values (failed e, w') = ⊥
  PackedBack values (no_fuel, w') = ⊥
  PackedBack values (panicked, w') = ⊥

  encoded-PackedBack :
      (values : List ℕ) (w : Writer) (p : Outcome (Unit {0}) × Writer)
      → All (λ v. v < 2 ^ 64) values
      → length (ladders values) < 2 ^ 64
      → w.bytes ≡ []
      → Wrote (encoded (ladders values)) w p
      → PackedBack values p
  unfolding packed_field_iterator
  encoded-PackedBack values w (done _, w') each fits empty e =
      let bytes : w'.bytes ≡ encoded (ladders values) = e ∙ rw empty refl in
      let segment = segment-encoded (ladders values) fits in
      (_, rw (bytes, segment) refl, over-Yields values [] number each)
  encoded-PackedBack values w (out_of_memory, w') each fits empty (rest, e, part) =
      (rest, e ∙ rw empty refl)
  encoded-PackedBack values w (failed x, w') each fits empty e = e
  encoded-PackedBack values w (no_fuel, w') each fits empty e = e
  encoded-PackedBack values w (panicked, w') each fits empty e = e

  module _ (answers : ℕ → Bool) where
    write_each_varint-Wrote :
        (values : List ℕ) (w : Writer)
        → All (λ v. v < 2 ^ 64) values
        → Wrote (ladders values) w (write_each_varint answers values w)
    unfolding write_each_varint
    write_each_varint-Wrote [] w each = sym (append-nil w.bytes)
    write_each_varint-Wrote (v ∷ values) w (fits, each) =
        after-Wrote (ladder 9 v) (ladders values) w (write_varint answers v w) _
          (write_varint-Wrote answers v w fits) (λ w'. write_each_varint-Wrote values w' each)

    with_packed :
        (values : List ℕ) (growths : ℕ) (q : Outcome (Unit {0}) × Writer)
        → All (λ v. v < 2 ^ 64) values
        → length (ladders values) < 2 ^ 64
        → Wrote (ladders values) (record { bytes = []; growths = growths }) q
        → PackedBack values (
            after
              (q.0, record { bytes = []; growths = q.1.growths })
              (λ _. write_bytes answers number q.1.bytes))
    with_packed values growths (done _, packed) each fits e =
        let w : Writer = record { bytes = []; growths = packed.growths } in
        encoded-PackedBack values w (write_bytes answers number packed.bytes w) each fits refl (
          subst (λ bytes. Wrote (encoded bytes) w (write_bytes answers number packed.bytes w)) e
            (write_bytes-Wrote answers number w lo hi packed.bytes (rw e fits)))
    with_packed values growths (out_of_memory, packed) each fits e =
        (encoded (ladders values), refl)
    with_packed values growths (failed x, packed) each fits e = e
    with_packed values growths (no_fuel, packed) each fits e = e
    with_packed values growths (panicked, packed) each fits e = e

    -- For a field number of 1 to 2 ^ 29 - 1 and `u64` values whose varints take fewer than 2 ^ 64 bytes: where
    -- `writePackedVarints` finds memory, `packedUInt64FieldIterator` over what it wrote finds the field, and the
    -- iterator returns the values in their order, one a call, and then none. Without memory a first part of
    -- the field was written.
    pub write_packed_varints-PackedBack :
        (values : List ℕ) (growths : ℕ)
        → All (λ v. v < 2 ^ 64) values
        → length (ladders values) < 2 ^ 64
        → PackedBack values
            (write_packed_varints answers number values (record { bytes = []; growths = growths }))
    unfolding write_packed_varints
    write_packed_varints-PackedBack values growths each fits =
        with_packed values growths _ each fits
          (write_each_varint-Wrote values (record { bytes = []; growths = growths }) each)
