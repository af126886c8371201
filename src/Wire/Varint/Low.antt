-- ===== src/Wire/Varint/Low.antt =====
-- The first byte that `readVarintAt` reads has the lowest group of the value.
use mathlib.Core.Path.{subst}
use pbz.Common.{
  ℕ, zero, suc, ◌+◌, ◌*◌, ◌%◌, ◌^◌, ◌≤◌, ◌<◌, ◌≡◌, refl, ap, List, get_elem?, Option-cases, inl,
  inr, some, ltb, ltb→le, Bool-cases, arith,
}
use pbz.Common.Bits.{and_127, or_fields}
use pbz.Wire.Result.{ok, err, out_of_fuel}
use pbz.Wire.Varint.{Cursor, last_group, read_groups, read_varint_at}
use pbz.Wire.Varint.Read.{shifts_from, group_sum, group_bound, pow_seven}

-- A value that was read has the lowest group `low`.
abbrev LowIs : ℕ → Cursor ℕ → Type 0
LowIs low (ok v, j) = v % 128 ≡ low
LowIs low _ = Unit {0}

low_sum : (acc g t : ℕ) → (acc + g * 2 ^ (t + 7)) % 128 ≡ acc % 128
low_sum acc g t = omega (arith, ap (λ (p : ℕ). g * p) (pow_seven t))

last_group-LowIs : (byte acc i : ℕ) → acc < 2 ^ 63 → LowIs (acc % 128) (last_group byte i acc)
unfolding last_group
last_group-LowIs byte acc i ha = ground (arith, and_127 byte, or_fields 63 acc (byte % 2) ha)

read_groups-LowIs :
    (n t acc i : ℕ) (input : List ℕ)
    → t + 7 + 7 * n ≡ 63
    → acc < 2 ^ (t + 7)
    → LowIs (acc % 128) (read_groups input (shifts_from (t + 7) n) i acc)
unfolding read_groups
read_groups-LowIs zero t acc i input hs ha = elim (Option-cases (get_elem? input i)) [
  | inl e ↦ rw (e, read_groups) tt
  | inr (b, e) ↦
      rw (e, read_groups)
        (last_group-LowIs b acc i (subst (λ k. acc < 2 ^ k) {y = 63} (omega arith) ha))
]
read_groups-LowIs (suc n) t acc i input hs ha = elim (Option-cases (get_elem? input i)) [
  | inl e ↦ rw (e, read_groups) tt
  | inr (b, e) ↦
      let sum : acc + b % 128 * 2 ^ (t + 7) < 2 ^ (t + 7 + 7) =
        group_bound (b % 128) acc (t + 7) (omega arith) ha in
      let low = low_sum acc (b % 128) t in
      let more =
        read_groups-LowIs n (t + 7) (acc + b % 128 * 2 ^ (t + 7)) (suc i) input (omega arith) sum in
      elim (Bool-cases (ltb b 128)) [
        | inl last ↦ rw (e, read_groups) (rw (last, group_sum b acc (t + 7) ha) low)
        | inr big ↦
            rw (e, read_groups)
              (rw (big, group_sum b acc (t + 7) ha)
                (subst
                  (λ l. LowIs l (
                    read_groups input (shifts_from (t + 7 + 7) n) (suc i)
                      (acc + b % 128 * 2 ^ (t + 7))))
                  low more))
      ]
]

-- A value that was read has the lowest group of the first byte, and is that byte where it ends there.
abbrev StartsWith : ℕ → Cursor ℕ → Type 0
StartsWith b (ok v, j) = (v % 128 ≡ b % 128) × ((b < 128) → v ≡ b)
StartsWith b _ = Unit {0}

long_StartsWith : (b : ℕ) (c : Cursor ℕ) → 128 ≤ b → LowIs (b % 128 % 128) c → StartsWith b c
long_StartsWith b (ok v, j) long low = (omega (arith, low), λ h. absurd (omega arith))
long_StartsWith b (err e, j) long low = tt
long_StartsWith b (out_of_fuel, j) long low = tt

read_varint_at-StartsWith :
    (input : List ℕ) (i : ℕ) {b : ℕ}
    → get_elem? input i ≡ some b
    → StartsWith b (read_varint_at input i)
unfolding read_varint_at
read_varint_at-StartsWith input i {b} e = elim (Bool-cases (ltb b 128)) [
  | inl last ↦ rw (e, read_varint_at) (rw (last, and_127 b) (omega arith, λ h. omega arith))
  | inr big ↦
      rw (e, read_varint_at)
        (rw (big, and_127 b)
          (long_StartsWith b _ (ltb→le b 128 big)
            (read_groups-LowIs 8 0 (b % 128) (suc i) input refl (omega arith))))
]

pub first_byte_read :
    (input : List ℕ) (i v j : ℕ) {b : ℕ}
    → get_elem? input i ≡ some b
    → read_varint_at input i ≡ (ok v, j)
    → (v % 128 ≡ b % 128) × (b < 128 → v ≡ b)
first_byte_read input i v j {b} e read =
    subst (λ c. StartsWith b c) read (read_varint_at-StartsWith input i e)
