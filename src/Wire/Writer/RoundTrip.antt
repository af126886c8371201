-- ===== src/Wire/Writer/RoundTrip.antt =====
-- What the writers append the reader gives back.
use mathlib.Core.Path.{subst}
use native.Mathlib.Nat.{pow-suc}
use pbz.Common.{
  ℕ, zero, suc, ◌+◌, ◌-◌, ◌/◌, ◌^◌, ◌≤◌, ◌<◌, ◌≡◌, refl, sym, ap, ◌∙◌, Bool, false, List, [], ◌++◌,
  append-nil, append_assoc, some, take, drop, length, length-append, ltb, le→ltb, arith,
}
use pbz.Wire.Result.{ok}
use pbz.Wire.Heap.{Outcome, done, out_of_memory, failed, no_fuel, panicked, after}
use pbz.Wire.Tag.{WireType, Tag, max_field_number}
use pbz.Wire.Tag.Codec.{tag_value, encode-eq-ok}
use pbz.Wire.Varint.{ladder}
use pbz.Wire.Reader.{Reader, Run, init, read_varint, next_tag}
use pbz.Wire.Reader.RoundTrip.{
  Stands, next_tag-encode, read_varint-Stands, length-Stands, drop-append, take-append,
}
use pbz.Wire.Reader.Scalars.{from_little, read_raw_little, converted}
use pbz.Wire.Writer.{Writer, little, write_tag}
use pbz.Wire.Writer.Wrote.{Wrote, after-Wrote, write_tag-Wrote}

-- With memory, a reader that stands where the writer stood reads a tag of the number and the wire type, then
-- `run` returns the value, and the reader stands at the end of what was written. Without, what was written
-- before stays.
abbrev pub ReadsBack :
    {A : Type 0} → ℕ → WireType → Run A → A → Writer → Outcome (Unit {0}) × Writer → Type 0
ReadsBack number wire_type run value w (done _, w') =
    (r : Reader) × (next_tag (record (init w'.bytes) { index = length w.bytes })
      ≡ (ok (some (record { number = number; wire_type = wire_type })), r))
    × ((run r).0 ≡ ok value)
    × ((run r).1.index ≡ length w'.bytes)
ReadsBack number wire_type run value w (out_of_memory, w') =
    (part : List ℕ) × (w'.bytes ≡ w.bytes ++ part)
ReadsBack number wire_type run value w (failed e, w') = ⊥
ReadsBack number wire_type run value w (no_fuel, w') = ⊥
ReadsBack number wire_type run value w (panicked, w') = ⊥

-- `run` reads the payload, wherever it stands, as the value.
unfoldable pub Decodes : {A : Type 0} → Run A → List ℕ → A → Type 0
Decodes run payload value =
    (r : Reader)
    → Stands r payload
    → run r ≡ (ok value, record r { index = r.index + length payload })

module _ (number : ℕ) (wire_type : WireType) (lo : 0 < number)
    (hi : number ≤ max_field_number) where
  abbrev tag : Tag
  tag = record { number = number; wire_type = wire_type }

  pub written :
      {A : Type 0} (run : Run A) (payload : List ℕ) (value : A) (w : Writer)
      (p : Outcome (Unit {0}) × Writer)
      → Decodes run payload value
      → Wrote (ladder 9 (tag_value tag) ++ payload) w p
      → ReadsBack number wire_type run value w p
  unfolding Decodes
  written run payload value w (done _, w') decodes e =
      let header = ladder 9 (tag_value tag) in
      let start : Reader = record (init w'.bytes) { index = length w.bytes } in
      let at_tag : Stands start header = record {
        before = w.bytes;
        rest = payload;
        input = e;
        index = refl;
      } in
      let r : Reader = record start {
        index = length w.bytes + length header;
        last_tag_start = length w.bytes;
      } in
      let read = next_tag-encode tag (tag_value tag) start lo hi (encode-eq-ok tag lo) at_tag in
      let at_payload : Stands r payload = record {
        before = w.bytes ++ header;
        rest = [];
        input = rw (append-nil payload) (e ∙ sym (append_assoc w.bytes header payload));
        index = sym (length-append w.bytes header);
      } in
      let total : length w.bytes + length header + length payload ≡ length w'.bytes = omega (
        arith,
        ap length e,
        length-append w.bytes (header ++ payload),
        length-append header payload,
      ) in
      let value_read = decodes r at_payload in
      (r, read, ap (λ q. q.0) value_read, ap (λ q. q.1.index) value_read ∙ total)
  written run payload value w (out_of_memory, w') decodes (rest, e, part) = part
  written run payload value w (failed x, w') decodes e = e
  written run payload value w (no_fuel, w') decodes e = e
  written run payload value w (panicked, w') decodes e = e

  -- A writer of a tag and then a payload.
  pub field :
      {A : Type 0} (answers : ℕ → Bool) (run : Run A) (payload : List ℕ) (value : A) (w : Writer)
      (f : Unit {0} → Writer → Outcome (Unit {0}) × Writer)
      → Decodes run payload value
      → ((w' : Writer) → Wrote payload w' (f tt w'))
      → ReadsBack number wire_type run value w (after (write_tag answers number wire_type w) f)
  field answers run payload value w f decodes wrote = written run payload value w _ decodes (
      after-Wrote (ladder 9 (tag_value tag)) payload w (write_tag answers number wire_type w) f
        (write_tag-Wrote answers number wire_type w lo hi) wrote)

-- A varint that is converted.
pub converted-Decodes :
    {A : Type 0} (f : ℕ → A) (v : ℕ) (value : A)
    → v < 2 ^ 64
    → f v ≡ value
    → Decodes (converted f read_varint) (ladder 9 v) value
unfolding Decodes
converted-Decodes f v value fits same r s = rw (read_varint-Stands r v fits s, same) refl

pub read_varint-Decodes : (v : ℕ) → v < 2 ^ 64 → Decodes read_varint (ladder 9 v) v
unfolding Decodes
read_varint-Decodes v fits r s = read_varint-Stands r v fits s

length-little : (n v : ℕ) → length (little n v) ≡ n
unfolding little
length-little zero v = refl
length-little (suc n) v = ap suc (length-little n (v / 256))

from_little-little : (n v : ℕ) → v < 256 ^ n → from_little (little n v) ≡ v
unfolding little from_little
from_little-little zero v h = omega arith
from_little-little (suc n) v h =
    omega (arith, from_little-little n (v / 256) (omega (arith, pow-suc 256 n)))

pub read_raw_little-Decodes : (n v : ℕ) → v < 256 ^ n → Decodes (read_raw_little n) (little n v) v
unfolding Decodes read_raw_little
read_raw_little-Decodes n v h r s =
    let size = length-little n v in
    let room = length-Stands r (little n v) s in
    let inside : ltb (length r.input - r.index) n ≡ false = le→ltb _ n (omega arith) in
    let width : r.index + n - r.index ≡ n = omega arith in
    let dropped : drop r.index r.input ≡ little n v ++ s.rest =
      rw (s.input, s.index) (drop-append s.before (little n v ++ s.rest)) in
    let taken : take n (little n v ++ s.rest) ≡ little n v =
      subst (λ k. take k (little n v ++ s.rest) ≡ little n v) size
        (take-append (little n v) s.rest) in
    rw (inside, width, dropped, taken, from_little-little n v h, size) refl
