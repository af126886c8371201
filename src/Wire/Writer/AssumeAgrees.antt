-- ===== src/Wire/Writer/AssumeAgrees.antt =====
-- The writers that assume capacity append what the others do.
use mathlib.Core.Path.{subst}
use pbz.Common.{
  ℕ, ◌+◌, ◌*◌, ◌^◌, ◌≤◌, ◌<◌, ◌≡◌, refl, ap, sym, ◌∙◌, Bool, inl, inr, List, [], ◌∷◌, ◌++◌,
  append_assoc, length, ltb, ltb→lt, Bool-cases, if◌then◌else◌, arith,
}
use pbz.Common.Bits.{or_fields_high}
use pbz.Wire.Heap.{Outcome, done, out_of_memory, failed, no_fuel, panicked, after}
use pbz.Wire.Tag.{
  WireType, Tag, max_field_number, varint, fixed64, length_delimited, fixed32, int_from_enum,
}
use pbz.Wire.Tag.Codec.{tag_value, int_from_enum-lt}
use pbz.Wire.Varint.{ladder}
use pbz.Wire.Varint.Buffer.{ladder_one}
use pbz.Wire.ZigZag.{zig_zag_encode32, zig_zag_encode64}
use pbz.Wire.ZigZag.Codec.{zig_zag_encode32-lt, zig_zag_encode64-lt}
use pbz.Wire.Writer.{
  Writer, little, varint_slice, sign_extend, append_byte, append_slice, write_tag, write_varint,
  write_raw_little, write_uint32, write_uint64, write_int32, write_int64, write_sint32,
  write_sint64, write_bool, write_fixed32, write_fixed64, write_bytes,
}
use pbz.Wire.Writer.Assume.{
  append_slice_assume_capacity, write_varint_assume_capacity, write_short_assume_capacity,
  write_tag_assume_capacity, write_raw_little_assume_capacity, write_uint32_assume_capacity,
  write_uint64_assume_capacity, write_int32_assume_capacity, write_int64_assume_capacity,
  write_sint32_assume_capacity, write_sint64_assume_capacity, write_fixed32_assume_capacity,
  write_fixed64_assume_capacity, write_bool_assume_capacity, write_bytes_assume_capacity,
}
use pbz.Wire.Writer.Fields.{write_bytes-Wrote}
use pbz.Wire.Writer.Wrote.{
  Wrote, after-Wrote, varint_slice-ladder, append_slice-Wrote, write_varint-Wrote, write_tag-Wrote,
}

-- With memory the call leaves the bytes of `assumed`, without memory a first part of them.
abbrev pub PartOf : Writer → Outcome (Unit {0}) × Writer → Type 0
PartOf assumed (done _, w') = w'.bytes ≡ assumed.bytes
PartOf assumed (out_of_memory, w') = (rest : List ℕ) × (w'.bytes ++ rest ≡ assumed.bytes)
PartOf assumed (failed e, w') = ⊥
PartOf assumed (no_fuel, w') = ⊥
PartOf assumed (panicked, w') = ⊥

agrees :
    (items : List ℕ) (w assumed : Writer) (p : Outcome (Unit {0}) × Writer)
    → Wrote items w p
    → assumed.bytes ≡ w.bytes ++ items
    → PartOf assumed p
agrees items w assumed (done _, w') h e = h ∙ sym e
agrees items w assumed (out_of_memory, w') (rest, h, part) e = (rest, h ∙ sym e)
agrees items w assumed (failed x, w') h e = h
agrees items w assumed (no_fuel, w') h e = h
agrees items w assumed (panicked, w') h e = h

-- A call that appends `items`, whatever stands before.
Appends : (Writer → Writer) → List ℕ → Type 0
Appends f items = (w : Writer) → (f w).bytes ≡ w.bytes ++ items

slice-Appends : (items : List ℕ) → Appends (append_slice_assume_capacity items) items
unfolding append_slice_assume_capacity Appends
slice-Appends items w = refl

two-Appends :
    (f g : Writer → Writer) (first second : List ℕ)
    → Appends f first
    → Appends g second
    → Appends (λ w. g (f w)) (first ++ second)
unfolding Appends
two-Appends f g first second hf hg w = hg (f w) ∙ rw (hf w) (append_assoc w.bytes first second)

varint-Appends : (v : ℕ) → v < 2 ^ 64 → Appends (write_varint_assume_capacity v) (ladder 9 v)
unfolding write_varint_assume_capacity
varint-Appends v fits =
    subst (λ items. Appends (append_slice_assume_capacity (varint_slice v)) items)
      (varint_slice-ladder v fits) (slice-Appends (varint_slice v))

short-Appends : (v : ℕ) → v < 2 ^ 64 → Appends (write_short_assume_capacity v) (ladder 9 v)
unfolding write_short_assume_capacity
short-Appends v fits = elim (Bool-cases (ltb v 0x80)) [
  | inl short ↦ rw (short, ladder_one v (ltb→lt v 0x80 short)) (slice-Appends (v ∷ []))
  | inr long ↦ rw long (varint-Appends v fits)
]

tag-Appends :
    (number : ℕ) (wire_type : WireType)
    → number ≤ max_field_number
    → Appends
        (write_tag_assume_capacity number wire_type)
        (ladder 9 (tag_value (record { number = number; wire_type = wire_type })))
unfolding write_tag_assume_capacity
tag-Appends number wire_type hi =
    let small = int_from_enum-lt wire_type in
    rw (or_fields_high 3 number (int_from_enum wire_type) small)
      (short-Appends (number * 2 ^ 3 + int_from_enum wire_type) (omega arith))

module _ (answers : ℕ → Bool) (number : ℕ) (w : Writer) (lo : 0 < number)
    (hi : number ≤ max_field_number) where
  -- A tag and then a payload, both ways.
  field_agrees :
      (wire_type : WireType) (payload : List ℕ)
      (f : Unit {0} → Writer → Outcome (Unit {0}) × Writer) (g : Writer → Writer)
      → ((w' : Writer) → Wrote payload w' (f tt w'))
      → Appends g payload
      → PartOf
          (g (write_tag_assume_capacity number wire_type w))
          (after (write_tag answers number wire_type w) f)
  unfolding Appends
  field_agrees wire_type payload f g wrote appends =
      let tag : Tag = record { number = number; wire_type = wire_type } in
      let header = ladder 9 (tag_value tag) in
      agrees (header ++ payload) w (g (write_tag_assume_capacity number wire_type w)) _
        (after-Wrote header payload w _ f (write_tag-Wrote answers number wire_type w lo hi) wrote)
        (two-Appends (write_tag_assume_capacity number wire_type) g header payload
          (tag-Appends number wire_type hi) appends w)

  varint_agrees :
      (v : ℕ)
      → v < 2 ^ 64
      → PartOf
          (write_varint_assume_capacity v (write_tag_assume_capacity number varint w))
          (after (write_tag answers number varint w) (λ _. write_varint answers v))
  varint_agrees v fits =
      field_agrees varint (ladder 9 v) _ (write_varint_assume_capacity v)
        (λ w'. write_varint-Wrote answers v w' fits) (varint-Appends v fits)

  slice_agrees :
      (wire_type : WireType) (items : List ℕ)
      → PartOf
          (append_slice_assume_capacity items (write_tag_assume_capacity number wire_type w))
          (after (write_tag answers number wire_type w) (λ _. append_slice answers items))
  slice_agrees wire_type items =
      field_agrees wire_type items _ (append_slice_assume_capacity items)
        (λ w'. append_slice-Wrote answers items w') (slice-Appends items)

  bytes_agrees :
      (value : List ℕ)
      → length value < 2 ^ 64
      → PartOf (write_bytes_assume_capacity number value w) (write_bytes answers number value w)
  unfolding write_bytes_assume_capacity Appends
  bytes_agrees value fits =
      let size = ladder 9 (length value) in
      let tag : Tag = record { number = number; wire_type = length_delimited } in
      let header = ladder 9 (tag_value tag) in
      agrees (header ++ (size ++ value)) w (write_bytes_assume_capacity number value w) _
        (write_bytes-Wrote answers number w lo hi value fits)
        (two-Appends
            (λ w'.
              write_short_assume_capacity (length value)
                (write_tag_assume_capacity number length_delimited w'))
            (append_slice_assume_capacity value) (header ++ size) value
            (two-Appends (write_tag_assume_capacity number length_delimited)
              (write_short_assume_capacity (length value)) header size
              (tag-Appends number length_delimited hi) (short-Appends (length value) fits))
            (slice-Appends value) w
          ∙ ap (λ l. w.bytes ++ l) (append_assoc header size value))

  -- For a field number of 1 to 2 ^ 29 - 1, a `u32` or `i32` `v`, a `u64` or `i64` `x`, a `bool` `b` and fewer than
  -- 2 ^ 64 bytes: each writer that assumes capacity leaves the bytes that the writer which allocates leaves
  -- when it finds memory; otherwise that one leaves a first part of them.
  pub assume_capacity_agrees :
      (v x : ℕ) (b : Bool) (value : List ℕ)
      → v < 2 ^ 32
      → x < 2 ^ 64
      → length value < 2 ^ 64
      → PartOf (write_uint32_assume_capacity number v w) (write_uint32 answers number v w)
        × PartOf (write_uint64_assume_capacity number x w) (write_uint64 answers number x w)
        × PartOf (write_int32_assume_capacity number v w) (write_int32 answers number v w)
        × PartOf (write_int64_assume_capacity number x w) (write_int64 answers number x w)
        × PartOf (write_sint32_assume_capacity number v w) (write_sint32 answers number v w)
        × PartOf (write_sint64_assume_capacity number x w) (write_sint64 answers number x w)
        × PartOf (write_bool_assume_capacity number b w) (write_bool answers number b w)
        × PartOf (write_fixed32_assume_capacity number v w) (write_fixed32 answers number v w)
        × PartOf (write_fixed64_assume_capacity number x w) (write_fixed64 answers number x w)
        × PartOf (write_bytes_assume_capacity number value w) (write_bytes answers number value w)
  unfolding write_uint32 write_uint64 write_int32 write_int64 write_sint32 write_sint64 write_bool
      write_fixed32 write_fixed64 append_byte write_raw_little write_raw_little_assume_capacity
      write_uint32_assume_capacity write_uint64_assume_capacity write_int32_assume_capacity
      write_int64_assume_capacity write_sint32_assume_capacity write_sint64_assume_capacity
      write_bool_assume_capacity write_fixed32_assume_capacity write_fixed64_assume_capacity
  assume_capacity_agrees v x b value fits32 fits64 fits =
      let code32 = zig_zag_encode32-lt v fits32 in
      let extended : sign_extend v < 2 ^ 64 = ground arith in
      (
        varint_agrees v (omega arith),
        varint_agrees x fits64,
        varint_agrees (sign_extend v) extended,
        varint_agrees x fits64,
        varint_agrees (zig_zag_encode32 v) (omega arith),
        varint_agrees (zig_zag_encode64 x) (zig_zag_encode64-lt x fits64),
        slice_agrees varint ((if b then 1 else 0) ∷ []),
        slice_agrees fixed32 (little 4 v),
        slice_agrees fixed64 (little 8 x),
        bytes_agrees value fits,
      )
