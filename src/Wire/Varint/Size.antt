-- ===== src/Wire/Varint/Size.antt =====
-- `encodedVarintSize` is the number of bytes that the ladder stores.
use native.Mathlib.Nat.{pow-suc, one-le-pow, pow-le-pow_right, div-add-mod, mod-lt}
use native.Mathlib.Decide.{dec_le}
use mathlib.Core.Path.{subst}
use native.Mathlib.Numerals.{towards_suc}
use pbz.Common.{
  ℕ, zero, suc, ◌+◌, ◌-◌, ◌*◌, ◌/◌, ◌^◌, ◌≤◌, ◌<◌, ◌≡◌, refl, sym, ◌∙◌, inl, inr, arith, length,
  ltb, ◌==◌, Bool-cases, ltb→lt, ltb→le,
}
use pbz.Wire.Varint.{clz_below, clz, ladder, encoded_varint_size}
use pbz.Wire.Varint.Encoding.{groups, ladder-groups}

-- The highest one of `v` is bit `m`.
record HasTop (m v : ℕ) : Type 0 where
  reaches : 2 ^ m ≤ v
  below : v < 2 ^ suc m

div-zero→lt : (v p : ℕ) → 0 < p → v / p ≡ 0 → v < p
div-zero→lt v p pos e = grind (arith, div-add-mod v p, mod-lt v pos)

div-pos→le : (v p : ℕ) → 0 < p → 0 < v / p → p ≤ v
div-pos→le v p pos e = grind (arith, div-add-mod v p)

clz_below-HasTop :
    (k v : ℕ) → 0 < v → v < 2 ^ k → (m : ℕ) × (clz_below k v + suc m ≡ k) × HasTop m v
unfolding clz_below
clz_below-HasTop zero v pos fits = absurd (omega arith)
clz_below-HasTop (suc k) v pos fits = elim (Bool-cases (v / 2 ^ k == 0)) [
  | inl e ↦
      let small : v < 2 ^ k = div-zero→lt v (2 ^ k) (one-le-pow k 2 (omega arith)) (ground arith) in
      let (m, sum, top) = clz_below-HasTop k v pos small in (m, rw e (omega arith), top)
  | inr e ↦
      let large : 2 ^ k ≤ v = div-pos→le v (2 ^ k) (one-le-pow k 2 (omega arith)) (ground arith) in
      (k, rw e (omega arith), record { reaches = large; below = fits })
]

pow_seven : (m : ℕ) → 2 ^ (m + 7) ≡ 128 * 2 ^ m
pow_seven m = simp towards_suc (omega arith)

-- A value one group shorter is seven bits narrower.
HasTop-div : (m v : ℕ) → HasTop (m + 7) v → HasTop m (v / 128)
HasTop-div m v h = record {
  reaches = omega (arith, h.reaches, pow_seven m);
  below = omega (arith, h.below, pow_seven m, pow-suc 2 (m + 7), pow-suc 2 m);
}

-- A value below 2 ^ n has its highest one below bit `n`.
top_lt : (n m v : ℕ) → HasTop m v → v < 2 ^ n → m < n
top_lt n m v h small = elim (dec_le n m) [
  | yes wide ↦
      absurd (omega (arith, h.reaches, pow-le-pow_right {n = 2} (omega arith) {i = n} {j = m} wide))
  | no narrow ↦ omega arith
]

top_ge : (n m v : ℕ) → HasTop m v → 2 ^ n ≤ v → n ≤ m
top_ge n m v h large = elim (dec_le n m) [
  | yes wide ↦ wide
  | no narrow ↦ absurd (
      omega
        (arith, h.below, pow-le-pow_right {n = 2} (omega arith) {i = suc m} {j = n} (omega arith)))
]

length-groups_top : (j m v : ℕ) → HasTop m v → v < 128 ^ suc j → length (groups j v) ≡ m / 7 + 1
unfolding groups
length-groups_top zero m v h fits = omega (arith, top_lt 7 m v h (omega (arith, pow-suc 128 0)))
length-groups_top (suc j) m v h fits = elim (Bool-cases (ltb v 128)) [
  | inl e ↦ rw e (omega (arith, top_lt 7 m v h (ltb→lt v 128 e)))
  | inr e ↦
      let wide : 7 ≤ m = top_ge 7 m v h (ltb→le v 128 e) in
      let back : m ≡ m - 7 + 7 = omega arith in
      let h' : HasTop (m - 7 + 7) v = subst (λ k. HasTop k v) back h in
      let shorter : length (groups j (v / 128)) ≡ (m - 7) / 7 + 1 =
        length-groups_top j (m - 7) (v / 128) (HasTop-div (m - 7) v h')
          (omega (arith, pow-suc 128 (suc j))) in
      rw e (omega (arith, shorter))
]

clz-HasTop : (v : ℕ) → 0 < v → v < 2 ^ 64 → (m : ℕ) × (clz v + suc m ≡ 64) × HasTop m v
unfolding clz
clz-HasTop v pos fits = clz_below-HasTop 64 v pos fits

size_top : (m v : ℕ) → HasTop m v → clz v + suc m ≡ 64 → encoded_varint_size v ≡ m / 7 + 1
unfolding encoded_varint_size
size_top m v h sum =
    ground (
      arith,
      top_lt 7 m v h,
      top_lt 14 m v h,
      top_lt 21 m v h,
      top_ge 7 m v h,
      top_ge 14 m v h,
      sum,
    )

-- For every `u64` the size that `encodedVarintSize` returns is the number of bytes that the ladder
-- of `writeVarintToBuffer` stores.
pub encoded_varint_size-length : (v : ℕ) → v < 2 ^ 64 → encoded_varint_size v ≡ length (ladder 9 v)
encoded_varint_size-length zero fits = unfold encoded_varint_size ladder in refl
encoded_varint_size-length (suc v) fits =
    let (m, sum, top) = clz-HasTop (suc v) (omega arith) fits in
    rw (ladder-groups 9 (suc v) (omega arith))
      (size_top m (suc v) top sum ∙ sym (length-groups_top 9 m (suc v) top (omega arith)))
