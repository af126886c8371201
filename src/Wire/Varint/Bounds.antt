-- ===== src/Wire/Varint/Bounds.antt =====
-- What `readVarintAt` does on any input, well formed or not.
use mathlib.Core.Path.{subst}
use native.Mathlib.Nat.{pow-le-pow_right}
use pbz.Common.{
  ℕ, zero, suc, ◌+◌, ◌*◌, ◌%◌, ◌^◌, ◌≤◌, ◌<◌, ◌≡◌, List, length, get_elem?, get_elem?-lt,
  Option-cases, inl, inr, ltb, Bool-cases, arith, ◌⊎◌, refl,
}
use pbz.Common.Bits.{and_127, or_fields}
use pbz.Wire.Result.{ok, err, out_of_fuel, truncated_input, malformed_varint}
use pbz.Wire.Varint.{Cursor, last_group, read_groups, read_varint_at}
use pbz.Wire.Varint.Read.{shifts_from, group_sum, group_bound}

-- From index `i` at most `n` bytes are read, all of them inside the input. A success takes at least
-- one of them and returns a `u64`.
abbrev pub Takes : List ℕ → ℕ → ℕ → Cursor ℕ → Type 0
Takes input i n (ok v, j) = (v < 2 ^ 64) × (i < j) × (j ≤ i + n) × (j ≤ length input)
Takes input i n (err e, j) =
    (i ≤ j)
    × (j ≤ i + n)
    × ((j ≡ i) ⊎ (j ≤ length input))
    × ((e ≡ truncated_input) ⊎ (e ≡ malformed_varint))
Takes input i n (out_of_fuel, j) = ⊥

last_group-Takes :
    (byte acc i : ℕ) (input : List ℕ)
    → acc < 2 ^ 63
    → i < length input
    → Takes input i 1 (last_group byte i acc)
unfolding last_group
last_group-Takes byte acc i input ha hi =
    ground (arith, and_127 byte, or_fields 63 acc (byte % 2) ha)

Takes-suc :
    (input : List ℕ) (i n : ℕ) (r : Cursor ℕ)
    → i < length input
    → Takes input (suc i) n r
    → Takes input i (suc n) r
Takes-suc input i n (ok v, j) hi h = omega arith
Takes-suc input i n (err e, j) hi h = ground arith
Takes-suc input i n (out_of_fuel, j) hi h = h

read_groups-Takes :
    (n s acc i : ℕ) (input : List ℕ)
    → s + 7 * n ≡ 63
    → acc < 2 ^ s
    → Takes input i (suc n) (read_groups input (shifts_from s n) i acc)
unfolding read_groups
read_groups-Takes zero s acc i input hs ha = elim (Option-cases (get_elem? input i)) [
  | inl e ↦ rw (e, read_groups) (ground arith)
  | inr (b, e) ↦
      rw (e, read_groups)
        (last_group-Takes b acc i input (subst (λ k. acc < 2 ^ k) {y = 63} (omega arith) ha)
          (get_elem?-lt input i e))
]
read_groups-Takes (suc n) s acc i input hs ha = elim (Option-cases (get_elem? input i)) [
  | inl e ↦ rw (e, read_groups) (ground arith)
  | inr (b, e) ↦
      let hi : i < length input = get_elem?-lt input i e in
      let sum : acc + b % 128 * 2 ^ s < 2 ^ (s + 7) =
        group_bound (b % 128) acc s (omega arith) ha in
      let more : Takes input (suc i) (suc n)
          (read_groups input (shifts_from (s + 7) n) (suc i) (acc + b % 128 * 2 ^ s)) =
        read_groups-Takes n (s + 7) (acc + b % 128 * 2 ^ s) (suc i) input (omega arith) sum in
      let fits : 2 ^ (s + 7) ≤ 2 ^ 63 =
        pow-le-pow_right {n = 2} (omega arith) {i = s + 7} {j = 63} (omega arith) in
      elim (Bool-cases (ltb b 128)) [
        | inl last ↦ rw (e, read_groups) (rw (last, group_sum b acc s ha) (omega arith))
        | inr big ↦
            rw (e, read_groups)
              (rw (big, group_sum b acc s ha) (Takes-suc input i (suc n) _ hi more))
      ]
]

-- `readVarintAt` at any index: a success returns a `u64` and moves the index by 1 to 10 bytes, at
-- most to the end of the input; a failure is `TruncatedInput` or `MalformedVarint`, and moves the
-- index by at most 10 bytes; it leaves it where it was or not beyond the end.
pub read_varint_at-Takes : (input : List ℕ) (i : ℕ) → Takes input i 10 (read_varint_at input i)
unfolding read_varint_at
read_varint_at-Takes input i = elim (Option-cases (get_elem? input i)) [
  | inl e ↦ rw (e, read_varint_at) (ground arith)
  | inr (b, e) ↦
      let hi : i < length input = get_elem?-lt input i e in
      let low : b % 128 < 2 ^ 7 = omega arith in
      elim (Bool-cases (ltb b 128)) [
        | inl last ↦ rw (e, read_varint_at) (rw (last, and_127 b) (omega arith))
        | inr big ↦
            rw (e, read_varint_at)
              (rw (big, and_127 b)
                (Takes-suc input i 9 _ hi (read_groups-Takes 8 7 (b % 128) (suc i) input refl low)))
      ]
]
