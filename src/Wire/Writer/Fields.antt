-- ===== src/Wire/Writer/Fields.antt =====
-- The field writers of src/wire.zig and the reader's calls that undo them.
use mathlib.Core.Path.{subst}
use pbz.Common.{
  ℕ, ◌+◌, ◌%◌, ◌^◌, ◌≤◌, ◌<◌, ◌≡◌, refl, ◌∙◌, Bool, true, false, not, List, [], ◌∷◌, ◌++◌,
  append_assoc, length, length-append, ◌==◌, if◌then◌else◌, arith,
}
use pbz.Wire.Heap.{after}
use pbz.Wire.Tag.{WireType, Tag, max_field_number, varint, fixed64, length_delimited, fixed32}
use pbz.Wire.Tag.Codec.{tag_value}
use pbz.Wire.Varint.{ladder}
use pbz.Wire.Varint.Buffer.{ladder_one}
use pbz.Wire.ZigZag.{zig_zag_encode32, zig_zag_encode64}
use pbz.Wire.ZigZag.Codec.{
  zig_zag_decode32-encode, zig_zag_decode64-encode, zig_zag_encode32-lt, zig_zag_encode64-lt,
}
use pbz.Wire.Reader.{read_bytes, read_varint}
use pbz.Wire.Reader.RoundTrip.{read_bytes-payload}
use pbz.Wire.Reader.Scalars.{
  converted, read_uint32, read_uint64, read_int32, read_int64, read_sint32, read_sint64, read_bool,
  read_raw_little, read_fixed32, read_fixed64,
}
use pbz.Wire.Writer.{
  Writer, little, sign_extend, append_byte, write_tag, write_varint, write_raw_little, write_uint32,
  write_uint64, write_int32, write_int64, write_sint32, write_sint64, write_bool, write_fixed32,
  write_fixed64, write_bytes,
}
use pbz.Wire.Writer.Wrote.{
  Wrote, after-Wrote, append_slice-Wrote, write_varint-Wrote, write_short-Wrote, write_tag-Wrote,
}
use pbz.Wire.Writer.RoundTrip.{
  ReadsBack, Decodes, written, field, converted-Decodes, read_varint-Decodes,
  read_raw_little-Decodes,
}

append_byte-Wrote :
    (answers : ℕ → Bool) (b : ℕ) (w : Writer)
    → b < 0x80
    → Wrote (ladder 9 b) w (append_byte answers b w)
unfolding append_byte
append_byte-Wrote answers b w h = rw (ladder_one b h) (append_slice-Wrote answers (b ∷ []) w)

write_raw_little-Wrote :
    (answers : ℕ → Bool) (n v : ℕ) (w : Writer)
    → Wrote (little n v) w (write_raw_little answers n v w)
unfolding write_raw_little
write_raw_little-Wrote answers n v w = append_slice-Wrote answers (little n v) w

read_bytes-Decodes :
    (payload : List ℕ)
    → length payload < 2 ^ 64
    → Decodes read_bytes (ladder 9 (length payload) ++ payload) payload
unfolding Decodes
read_bytes-Decodes payload h r s =
    let total : r.index + length (ladder 9 (length payload)) + length payload
        ≡ r.index + length (ladder 9 (length payload) ++ payload) =
      omega (arith, length-append (ladder 9 (length payload)) payload) in
    read_bytes-payload payload r h s ∙ rw total refl

module _ (answers : ℕ → Bool) (number : ℕ) (w : Writer) (lo : 0 < number)
    (hi : number ≤ max_field_number) where
  -- A payload that is one varint.
  varint_field :
      {A : Type 0} (f : ℕ → A) (v : ℕ) (value : A)
      → v < 2 ^ 64
      → f v ≡ value
      → ReadsBack number varint
          (converted f read_varint)
          value
          w
          (after (write_tag answers number varint w) (λ _. write_varint answers v))
  varint_field f v value fits same =
      field number varint lo hi answers (converted f read_varint) (ladder 9 v) value w _
        (converted-Decodes f v value fits same) (λ w'. write_varint-Wrote answers v w' fits)

  plain_field :
      (v : ℕ)
      → v < 2 ^ 64
      → ReadsBack number varint read_varint v w
          (after (write_tag answers number varint w) (λ _. write_varint answers v))
  plain_field v fits =
      field number varint lo hi answers read_varint (ladder 9 v) v w _ (read_varint-Decodes v fits)
        (λ w'. write_varint-Wrote answers v w' fits)

  little_field :
      (wire_type : WireType) (n v : ℕ)
      → v < 256 ^ n
      → ReadsBack number wire_type
          (read_raw_little n)
          v
          w
          (after (write_tag answers number wire_type w) (λ _. write_raw_little answers n v))
  little_field wire_type n v fits =
      field number wire_type lo hi answers (read_raw_little n) (little n v) v w _
        (read_raw_little-Decodes n v fits) (λ w'. write_raw_little-Wrote answers n v w')

  bool_field :
      (b : Bool)
      → ReadsBack number varint (converted (λ value. not (value == 0)) read_varint) b w (
          after (write_tag answers number varint w) (λ _. append_byte answers (if b then 1 else 0)))
  bool_field b =
      field number varint lo hi answers _ (ladder 9 (if b then 1 else 0)) b w _
        (converted-Decodes (λ value. not (value == 0)) (if b then 1 else 0) b (bit-lt b) (bit b))
        (λ w'. append_byte-Wrote answers (if b then 1 else 0) w' (small b))
    where
      small : (b : Bool) → (if b then 1 else 0) < 0x80
      small true = omega arith
      small false = omega arith

      bit-lt : (b : Bool) → (if b then 1 else 0) < 2 ^ 64
      bit-lt true = omega arith
      bit-lt false = omega arith

      bit : (b : Bool) → not ((if b then 1 else 0) == 0) ≡ b
      bit true = refl
      bit false = refl

  -- For a field number of 1 to 2 ^ 29 - 1, a `u32` or `i32` `v`, a `u64` or `i64` `x` and a `bool` `b`: what each
  -- scalar writer writes at the end of any bytes, `nextTag` and the scalar reader of the same kind give back,
  -- and the reader stands at the end of what was written. Without memory the bytes from before stay.
  pub scalar_fields_read_back :
      (v x : ℕ) (b : Bool)
      → v < 2 ^ 32
      → x < 2 ^ 64
      → ReadsBack number varint read_uint32 v w (write_uint32 answers number v w)
        × ReadsBack number varint read_uint64 x w (write_uint64 answers number x w)
        × ReadsBack number varint read_int32 v w (write_int32 answers number v w)
        × ReadsBack number varint read_int64 x w (write_int64 answers number x w)
        × ReadsBack number varint read_sint32 v w (write_sint32 answers number v w)
        × ReadsBack number varint read_sint64 x w (write_sint64 answers number x w)
        × ReadsBack number varint read_bool b w (write_bool answers number b w)
        × ReadsBack number fixed32 read_fixed32 v w (write_fixed32 answers number v w)
        × ReadsBack number fixed64 read_fixed64 x w (write_fixed64 answers number x w)
  unfolding read_uint32 read_uint64 read_int32 read_int64 read_sint32 read_sint64 read_bool
      read_fixed32 read_fixed64 write_uint32 write_uint64 write_int32 write_int64 write_sint32
      write_sint64 write_bool write_fixed32 write_fixed64
  scalar_fields_read_back v x b fits32 fits64 =
      let code32 = zig_zag_encode32-lt v fits32 in
      let low : zig_zag_encode32 v % 2 ^ 32 ≡ zig_zag_encode32 v = omega arith in
      let extended : (sign_extend v < 2 ^ 64) × (sign_extend v % 2 ^ 32 ≡ v) = ground arith in
      (
        varint_field _ v v (omega arith) (omega arith),
        plain_field x fits64,
        varint_field _ (sign_extend v) v extended.0 extended.1,
        plain_field x fits64,
        varint_field _ (zig_zag_encode32 v) v (omega arith)
            (rw low (zig_zag_decode32-encode v fits32)),
        varint_field _ (zig_zag_encode64 x) x (zig_zag_encode64-lt x fits64)
            (zig_zag_decode64-encode x fits64),
        bool_field b,
        little_field fixed32 4 v (omega arith),
        little_field fixed64 8 x (omega arith),
      )

  abbrev bytes_tag : Tag
  bytes_tag = record { number = number; wire_type = length_delimited }

  pub write_bytes-Wrote :
      (value : List ℕ)
      → length value < 2 ^ 64
      → Wrote
          (ladder 9 (tag_value bytes_tag) ++ (ladder 9 (length value) ++ value))
          w
          (write_bytes answers number value w)
  unfolding write_bytes
  write_bytes-Wrote value fits =
      let size = ladder 9 (length value) in
      let header = ladder 9 (tag_value bytes_tag) in
      subst (λ items. Wrote items w (write_bytes answers number value w))
        (append_assoc header size value)
        (after-Wrote (header ++ size) value w _ _
          (after-Wrote header size w _ _ (write_tag-Wrote answers number length_delimited w lo hi)
            (λ w'. write_short-Wrote answers (length value) w' fits))
          (λ w'. append_slice-Wrote answers value w'))

  -- For a field number of 1 to 2 ^ 29 - 1 and fewer than 2 ^ 64 bytes: what `writeBytes` writes at the end of
  -- any bytes, `nextTag` and `readBytes` give back, and the reader stands at the end of what was written.
  -- Without memory the bytes from before stay.
  pub write_bytes-ReadsBack :
      (value : List ℕ)
      → length value < 2 ^ 64
      → ReadsBack number length_delimited read_bytes value w (write_bytes answers number value w)
  write_bytes-ReadsBack value fits =
      written number length_delimited lo hi read_bytes (ladder 9 (length value) ++ value) value w _
        (read_bytes-Decodes value fits) (write_bytes-Wrote value fits)
