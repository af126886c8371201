-- ===== src/Wire/Group/Contents.antt =====
-- What `readGroupBytes` returns.
use pbz.Common.{
  ℕ, zero, suc, ◌+◌, ◌-◌, ◌≡◌, refl, sym, ap, ◌∙◌, Bool, true, false, List, Option, none, some,
  length, ==_iff, ◌==◌, if◌then◌else◌, arith,
}
use mathlib.Core.Path.{subst}
use pbz.Wire.Result.{Result, ok, err, out_of_fuel}
use pbz.Wire.Tag.{WireType, Tag, varint, fixed64, length_delimited, start_group, end_group, fixed32}
use pbz.Wire.Reader.{
  Reader, Run, after, next_tag, enter_recursion, leave_recursion, guarded, skip_value_with,
  is_end_group, skip_loop, slice,
}
use pbz.Wire.Group.{tag_size, group_contents, bytes_round, bytes_loop, read_group_bytes}

-- The tag that ends the group of a number.
abbrev pub end_tag : ℕ → Tag
end_tag number = record { number = number; wire_type = end_group }

end_tag_eq :
    {number : ℕ} (t : Tag) → t.wire_type ≡ end_group → t.number ≡ number → t ≡ end_tag number
end_tag_eq t we ne i = record { number = ne i; wire_type = we i }

-- If the call returns bytes, and its last tag takes the `size` bytes of the shortest encoding, then the bytes are
-- those from `start` to that tag.
abbrev Contents : ℕ → ℕ → Result (List ℕ) × Reader → Type 0
Contents size start (result, s) =
    (bytes : List ℕ)
    → result ≡ ok bytes
    → s.last_tag_start + size ≡ s.index
    → bytes ≡ slice s.input start s.last_tag_start

after-Contents :
    {A : Type 0} (size start : ℕ) (p : Result A × Reader) (f : A → Run (List ℕ))
    → ((a : A) → p.0 ≡ ok a → Contents size start (f a p.1))
    → Contents size start (after p f)
after-Contents size start (ok a, s) f h bytes e = h a refl bytes e
after-Contents size start (err x, s) f h bytes e = ground arith
after-Contents size start (out_of_fuel, s) f h bytes e = ground arith

ends : (w : WireType) → is_end_group w ≡ true → w ≡ end_group
ends end_group e = refl
ends varint e = ground arith
ends fixed64 e = ground arith
ends length_delimited e = ground arith
ends start_group e = ground arith
ends fixed32 e = ground arith

from_ok : {A : Type 0} {a b : A} → ok a ≡ ok b → a ≡ b
from_ok {a = a} e = ground arith

-- The number of bytes that `tagSize` gives for the tag that ends the group.
module _ (size start number : ℕ) (sized : tag_size (end_tag number) ≡ ok size) where
  group_contents-Contents :
      (t : Tag) (s : Reader) → t ≡ end_tag number → Contents size start (group_contents start t s)
  unfolding group_contents
  group_contents-Contents t s te =
      let sized' : tag_size t ≡ ok size = rw te sized in
      let here : group_contents start t s ≡ (ok (slice s.input start (s.index - size)), s) =
        rw (sized', group_contents) in
      subst (λ p. Contents size start p) (sym here)
        (λ bytes e last.
          let same : s.index - size ≡ s.last_tag_start = omega arith in
          sym (from_ok e) ∙ ap (λ end. slice s.input start end) same)

  if-Contents :
      (b : Bool) (x y : Result (List ℕ) × Reader)
      → (b ≡ true → Contents size start x)
      → (b ≡ false → Contents size start y)
      → Contents size start (if b then x else y)
  if-Contents true x y hx hy = hx refl
  if-Contents false x y hx hy = hy refl

  bytes_round-Contents :
      (group : ℕ → Run (Unit {0})) (rest : Run (List ℕ)) (tag : Option Tag) (r : Reader)
      → ((s : Reader) → Contents size start (rest s))
      → Contents size start (bytes_round group rest start number tag r)
  unfolding bytes_round
  bytes_round-Contents group rest none r h = λ bytes e. ground arith
  bytes_round-Contents group rest (some t) r h =
      if-Contents (is_end_group t.wire_type) _ _
        (λ end.
          if-Contents (t.number == number) _ _
            (λ same.
              group_contents-Contents t r
                (end_tag_eq t (ends t.wire_type end) ((==_iff t.number number).0 same)))
            (λ other bytes e. ground arith))
        (λ inner.
          after-Contents size start (skip_value_with group t.number t.wire_type r) _ (λ _ e. h _))

  bytes_loop-Contents :
      (fuel : ℕ) (r : Reader) → Contents size start (bytes_loop fuel start number r)
  unfolding bytes_loop
  bytes_loop-Contents zero r = λ bytes e. ground arith
  bytes_loop-Contents (suc fuel) r = after-Contents size start (next_tag r) _ (λ tag e.
      bytes_round-Contents (λ n. guarded (skip_loop fuel n)) (bytes_loop fuel start number) tag
        (next_tag r).1 (bytes_loop-Contents fuel))

-- If `readGroupBytes` returns bytes, and the end tag that it read last takes as many bytes as its shortest
-- encoding, then they are the bytes from where the reader stood to the start of that tag.
pub read_group_bytes-slice :
    (number size : ℕ) (r : Reader) (bytes : List ℕ)
    → tag_size (end_tag number) ≡ ok size
    → (read_group_bytes number r).0 ≡ ok bytes
    → (read_group_bytes number r).1.last_tag_start + size ≡ (read_group_bytes number r).1.index
    → bytes
      ≡ slice
          (read_group_bytes number r).1.input
          r.index
          (read_group_bytes number r).1.last_tag_start
unfolding read_group_bytes guarded leave_recursion
read_group_bytes-slice number size r bytes sized =
    after-Contents size r.index (enter_recursion r) _
      (λ _ e.
        bytes_loop-Contents size r.index number sized (suc (length r.input)) (enter_recursion r).1)
      bytes
