-- ===== src/Wire/Writer/Wrote.antt =====
-- What each writer appends, in memory or not: with room the bytes of its encoding, without it a first part of
-- them.
use mathlib.Core.Path.{subst}
use pbz.Common.{
  ℕ, zero, suc, ◌^◌, ◌≤◌, ◌<◌, ◌≡◌, refl, sym, ap, ◌∙◌, Bool, inl, inr, List, [], ◌∷◌, ◌++◌,
  append-nil, append_assoc, length, length-replicate, replicate, drop, ltb, ltb→lt, Bool-cases,
  arith,
}
use pbz.Wire.Result.{ok, err, out_of_fuel}
use pbz.Wire.Heap.{Outcome, done, out_of_memory, failed, no_fuel, panicked, after}
use pbz.Wire.Tag.{WireType, Tag, max_field_number}
use pbz.Wire.Tag.Codec.{tag_value, encode-eq-ok, int_from_enum-lt}
use pbz.Wire.Varint.{ladder, write_varint_to_buffer}
use pbz.Wire.Varint.Size.{encoded_varint_size-length}
use pbz.Wire.Varint.Buffer.{store-append, ladder_one}
use pbz.Wire.Writer.{
  Writer, Write, grow, append_slice, append_byte, varint_slice, write_varint, write_short,
  write_tag,
}

-- The call appended `items`, or ran out of memory after a first part of them.
abbrev pub Wrote : List ℕ → Writer → Outcome (Unit {0}) × Writer → Type 0
Wrote items w (done _, w') = w'.bytes ≡ w.bytes ++ items
Wrote items w (out_of_memory, w') =
    (rest : List ℕ) × (w'.bytes ++ rest ≡ w.bytes ++ items)
    × ((part : List ℕ) × (w'.bytes ≡ w.bytes ++ part))
Wrote items w (failed e, w') = ⊥
Wrote items w (no_fuel, w') = ⊥
Wrote items w (panicked, w') = ⊥

-- One writer after another.
pub after-Wrote :
    (first second : List ℕ) (w : Writer) (p : Outcome (Unit {0}) × Writer) (f : Unit {0} → Write)
    → Wrote first w p
    → ((w' : Writer) → Wrote second w' (f tt w'))
    → Wrote (first ++ second) w (after p f)
after-Wrote first second w (done tt, w') f h k = step (f tt w') (k w')
  where
    step : (q : Outcome (Unit {0}) × Writer) → Wrote second w' q → Wrote (first ++ second) w q
    step (done _, w2) e = e ∙ rw h (append_assoc w.bytes first second)
    step (out_of_memory, w2) (rest, e, (part, e')) = (
      rest,
      e ∙ rw h (append_assoc w.bytes first second),
      (first ++ part, e' ∙ rw h (append_assoc w.bytes first part)),
    )
    step (failed x, w2) e = e
    step (no_fuel, w2) e = e
    step (panicked, w2) e = e
after-Wrote first second w (out_of_memory, w') f (rest, e, p) k = (
  rest ++ second,
  sym (append_assoc w'.bytes rest second)
      ∙ ap (λ l. l ++ second) e
      ∙ append_assoc w.bytes first second,
  p,
)
after-Wrote first second w (failed x, w') f h k = h
after-Wrote first second w (no_fuel, w') f h k = h
after-Wrote first second w (panicked, w') f h k = h

drop-replicate : (n a : ℕ) → drop n (replicate n a) ≡ []
drop-replicate zero a = refl
drop-replicate (suc n) a = drop-replicate n a

pub varint_slice-ladder : (v : ℕ) → v < 2 ^ 64 → varint_slice v ≡ ladder 9 v
unfolding varint_slice write_varint_to_buffer
varint_slice-ladder v fits =
    let size = encoded_varint_size-length v fits in
    let zeros = replicate (length (ladder 9 v)) 0 in
    let room : length (ladder 9 v) ≤ length zeros =
      omega (arith, length-replicate {A = ℕ} (length (ladder 9 v)) 0) in
    rw size (
      store-append zeros (ladder 9 v) room
      ∙ ap (λ l. ladder 9 v ++ l) (drop-replicate (length (ladder 9 v)) 0)
      ∙ append-nil (ladder 9 v))

module _ (answers : ℕ → Bool) where
  pub append_slice-Wrote :
      (items : List ℕ) (w : Writer) → Wrote items w (append_slice answers items w)
  unfolding append_slice grow
  append_slice-Wrote items w = elim (Bool-cases (answers w.growths)) [
    | inl found ↦ rw found refl
    | inr none_left ↦ rw none_left (items, refl, ([], sym (append-nil w.bytes)))
  ]

  pub write_varint-Wrote :
      (v : ℕ) (w : Writer) → v < 2 ^ 64 → Wrote (ladder 9 v) w (write_varint answers v w)
  unfolding write_varint
  write_varint-Wrote v w fits = rw (varint_slice-ladder v fits) (append_slice-Wrote (ladder 9 v) w)

  pub write_short-Wrote :
      (v : ℕ) (w : Writer) → v < 2 ^ 64 → Wrote (ladder 9 v) w (write_short answers v w)
  unfolding write_short append_byte
  write_short-Wrote v w fits = elim (Bool-cases (ltb v 0x80)) [
    | inl short ↦
        let one = ladder_one v (ltb→lt v 0x80 short) in
        rw (short, one) (append_slice-Wrote (v ∷ []) w)
    | inr long ↦ rw long (write_varint-Wrote v w fits)
  ]

  pub write_tag-Wrote :
      (number : ℕ) (wire_type : WireType) (w : Writer)
      → 0 < number
      → number ≤ max_field_number
      → Wrote
          (ladder 9 (tag_value (record { number = number; wire_type = wire_type })))
          w
          (write_tag answers number wire_type w)
  unfolding write_tag
  write_tag-Wrote number wire_type w lo hi =
      let t : Tag = record { number = number; wire_type = wire_type } in
      let small = int_from_enum-lt wire_type in
      subst
        (λ r. Wrote (ladder 9 (tag_value t)) w (elim r [
          | ok raw ↦ write_short answers raw w
          | err e ↦ (failed e, w)
          | out_of_fuel ↦ (no_fuel, w)
        ]))
        (sym (encode-eq-ok t lo)) (write_short-Wrote (tag_value t) w (omega arith))
