-- ===== src/Wire/Group/Skips.antt =====
-- `readGroupBytes` reads what `skipGroup` skips.
use pbz.Common.{
  ℕ, zero, suc, ◌-◌, ◌<◌, ◌≡◌, refl, sym, ap, ◌∙◌, inl, inr, List, Option, none, some, length, leb,
  ltb, ◌==◌, Bool-cases, arith,
}
use pbz.Wire.Result.{Result, ok, err, out_of_fuel, map_ok}
use pbz.Wire.Tag.{Tag, decode}
use pbz.Wire.Tag.Codec.{encode-eq-ok, decode_inv}
use pbz.Wire.Reader.{
  Reader, Run, after, read_varint, checked_tag, next_tag, enter_recursion, leave_recursion, guarded,
  skip_value_with, is_end_group, group_round, skip_loop, skip_group,
}
use pbz.Wire.Group.{tag_size, group_contents, bytes_round, bytes_loop, read_group_bytes}

-- The call without its value.
abbrev pub forget : {A : Type 0} → Result A × Reader → Result (Unit {0}) × Reader
forget (result, r) = (map_ok (λ _. tt) result, r)

from_ok-some : (p : Result Tag) {t : Tag} → map_ok some p ≡ ok (some t) → p ≡ ok t
from_ok-some p e = ground arith

checked_tag-number :
    (start raw : ℕ) (r : Reader) {t : Tag}
    → (checked_tag start raw r).0 ≡ ok (some t)
    → 0 < t.number
unfolding checked_tag
checked_tag-number start raw r {t} e = elim (Bool-cases (ltb 5 (r.index - start))) [
  | inl wide ↦ ground (arith, wide)
  | inr short ↦
      let here : (checked_tag start raw r).0 ≡ map_ok some (decode raw) = rw (short, checked_tag) in
      (decode_inv raw {t = t} (from_ok-some (decode raw) (sym here ∙ e))).0
]

tagged-number :
    (start : ℕ) (p : Result ℕ × Reader) {t : Tag}
    → (after p (checked_tag start)).0 ≡ ok (some t)
    → 0 < t.number
tagged-number start (ok raw, r) e = checked_tag-number start raw r e
tagged-number start (err x, r) e = ground arith
tagged-number start (out_of_fuel, r) e = ground arith

-- The tags that `nextTag` returns have a number other than 0.
next_tag-number : (r : Reader) {t : Tag} → (next_tag r).0 ≡ ok (some t) → 0 < t.number
unfolding next_tag
next_tag-number r {t} e = elim (Bool-cases (leb (length r.input) r.index)) [
  | inl end ↦ ground (arith, end)
  | inr more ↦
      let p = read_varint (record r { last_tag_start = r.index }) in
      let here : (next_tag r).0 ≡ (after p (checked_tag r.index)).0 = rw (more, next_tag) in
      tagged-number r.index p (sym here ∙ e)
]

group_contents-forget :
    (start : ℕ) (t : Tag) (r : Reader)
    → 0 < t.number
    → forget (group_contents start t r) ≡ (ok tt, r)
unfolding group_contents tag_size
group_contents-forget start t r lo = rw (encode-eq-ok t lo, group_contents, tag_size)

after-forget :
    {A B : Type 0} (p : Result A × Reader) (f : A → Run B) (g : A → Run (Unit {0}))
    → ((a : A) → p.0 ≡ ok a → forget (f a p.1) ≡ g a p.1)
    → forget (after p f) ≡ after p g
after-forget (ok a, r) f g h = h a refl
after-forget (err e, r) f g h = refl
after-forget (out_of_fuel, r) f g h = refl

bytes_round-forget :
    (group : ℕ → Run (Unit {0})) (rest : Run (List ℕ)) (rest' : Run (Unit {0})) (start number : ℕ)
    (tag : Option Tag) (r : Reader)
    → ((t : Tag) → tag ≡ some t → 0 < t.number)
    → ((s : Reader) → forget (rest s) ≡ rest' s)
    → forget (bytes_round group rest start number tag r) ≡ group_round group rest' number tag r
unfolding bytes_round group_round
bytes_round-forget group rest rest' start number none r lo same = refl
bytes_round-forget group rest rest' start number (some t) r lo same =
    elim (Bool-cases (is_end_group t.wire_type)) [
      | inl end ↦ elim (Bool-cases (t.number == number)) [
        | inl right ↦
            rw (end, right, bytes_round, group_round) (group_contents-forget start t r (lo t refl))
        | inr wrong ↦ rw (end, wrong, bytes_round, group_round)
      ]
      | inr inner ↦
          rw (inner, bytes_round, group_round)
            (after-forget (skip_value_with group t.number t.wire_type r) _ _ (λ _ e. same _))
    ]

bytes_loop-forget :
    (fuel start number : ℕ) (r : Reader)
    → forget (bytes_loop fuel start number r) ≡ skip_loop fuel number r
unfolding bytes_loop skip_loop
bytes_loop-forget zero start number r = refl
bytes_loop-forget (suc fuel) start number r = after-forget (next_tag r) _ _ (λ tag e.
    bytes_round-forget (λ n. guarded (skip_loop fuel n)) (bytes_loop fuel start number)
      (skip_loop fuel number) start number tag (next_tag r).1
      (λ t et. next_tag-number r (e ∙ ap ok et)) (bytes_loop-forget fuel start number))

-- `readGroupBytes` succeeds where `skipGroup` does, fails with the same error, and leaves the reader in the
-- same state.
pub read_group_bytes-skips :
    (number : ℕ) (r : Reader) → forget (read_group_bytes number r) ≡ skip_group number r
unfolding read_group_bytes skip_group guarded
read_group_bytes-skips number r =
    let fuel = suc (length r.input) in
    after-forget (enter_recursion r) _ _ (λ _ e.
      ap (λ (p : Result (Unit {0}) × Reader). (p.0, leave_recursion p.1))
        (bytes_loop-forget fuel r.index number (enter_recursion r).1))
