-- ===== src/Wire/Varint/Read.antt =====
-- `readVarintAt` reads what the ladder stores, and never leaves the input.
use mathlib.Core.Path.{subst}
use native.Mathlib.Numerals.{towards_suc}
use native.Mathlib.Nat.{pow-suc, div-add-mod}
use pbz.Common.{
  ℕ, zero, suc, ◌+◌, ◌*◌, ◌/◌, ◌%◌, ◌^◌, ◌<◌, ◌≡◌, refl, sym, ap, ◌∙◌, inl, inr, List, [], ◌∷◌,
  ◌++◌, ltb, ltb→lt, lt→ltb, le→ltb, Bool-cases, length, At, At-middle, get_elem?, bit_and, bit_or,
  some, arith,
}
use pbz.Common.Bits.{and_127, or_fields}
use pbz.Wire.Result.{ok}
use pbz.Wire.Varint.{Cursor, ladder, last_group, read_groups, group_shifts, read_varint_at}
use pbz.Wire.Varint.Encoding.{groups, ladder-groups}

-- The shifts of `n` more rounds, from `s` on.
abbrev pub shifts_from : ℕ → ℕ → List ℕ
shifts_from s zero = []
shifts_from s (suc n) = s ∷ shifts_from (s + 7) n

pub pow_seven : (s : ℕ) → 2 ^ (s + 7) ≡ 128 * 2 ^ s
pow_seven s = simp towards_suc (omega arith)

-- The lowest group of `w` and the rest, both shifted by `s`.
split_lowest : (w s : ℕ) → w * 2 ^ s ≡ w % 128 * 2 ^ s + w / 128 * 2 ^ (s + 7)
split_lowest w s = omega (
  arith,
  ap (λ (t : ℕ). t * 2 ^ s) (div-add-mod w 128),
  ap (λ (t : ℕ). w / 128 * t) (pow_seven s),
)

pub group_bound : (g acc s : ℕ) → g < 128 → acc < 2 ^ s → acc + g * 2 ^ s < 2 ^ (s + 7)
group_bound g acc s hg ha = grind (arith, pow_seven s)

last_group-ok :
    (w acc i : ℕ)
    → acc < 2 ^ 63
    → acc + w * 2 ^ 63 < 2 ^ 64
    → last_group w i acc ≡ (ok (acc + w * 2 ^ 63), suc i)
unfolding last_group
last_group-ok w acc i ha fits = ground (arith, and_127 w, or_fields 63 acc w ha)

cursor_eq : {v w i j : ℕ} → v ≡ w → i ≡ j → ◌≡◌ {A = Cursor ℕ} (ok v, i) (ok w, j)
cursor_eq p q = cc

-- One `|=` of the ladder.
pub group_sum :
    (b acc s : ℕ) → acc < 2 ^ s → bit_or acc (bit_and b 0x7f * 2 ^ s) ≡ acc + b % 128 * 2 ^ s
group_sum b acc s ha = rw and_127 (or_fields s acc (b % 128) ha)

module _ (input : List ℕ) (i s : ℕ) (shifts : List ℕ) (acc : ℕ) (small : acc < 2 ^ s) where
  round_last :
      (w : ℕ)
      → w < 128
      → get_elem? input i ≡ some w
      → read_groups input (s ∷ shifts) i acc ≡ (ok (acc + w * 2 ^ s), suc i)
  unfolding read_groups
  round_last w hw e =
      let low : w % 128 ≡ w = omega arith in
      rw (e, read_groups) (rw (lt→ltb w 128 hw, group_sum w acc s small, low))

  round_more :
      (g : ℕ)
      → g < 128
      → get_elem? input i ≡ some (g + 128)
      → read_groups input (s ∷ shifts) i acc ≡ read_groups input shifts (suc i) (acc + g * 2 ^ s)
  unfolding read_groups
  round_more g hg e =
      let low : (g + 128) % 128 ≡ g = omega arith in
      rw (e, read_groups)
        (rw (le→ltb (g + 128) 128 (omega arith), group_sum (g + 128) acc s small, low))

read_groups-groups :
    (n s w acc i : ℕ) (input : List ℕ)
    → s + 7 * n ≡ 63
    → w < 128 ^ suc n
    → acc < 2 ^ s
    → acc + w * 2 ^ s < 2 ^ 64
    → At input i (groups n w)
    → read_groups input (shifts_from s n) i acc ≡ (ok (acc + w * 2 ^ s), i + length (groups n w))
unfolding groups read_groups
read_groups-groups zero s w acc i input hs hw ha fits (e, _) =
    let s63 : s ≡ 63 = omega arith in
    let ha' : acc < 2 ^ 63 = subst (λ k. acc < 2 ^ k) s63 ha in
    let fits' : acc + w * 2 ^ 63 < 2 ^ 64 = subst (λ k. acc + w * 2 ^ k < 2 ^ 64) s63 fits in
    rw (s63, e, read_groups) (last_group-ok w acc i ha' fits' ∙ cursor_eq refl (omega arith))
read_groups-groups (suc n) s w acc i input hs hw ha fits at = elim (Bool-cases (ltb w 128)) [
  | inl small ↦
      let at' : At input i (w ∷ []) = rw small at at in
      rw small (
        round_last input i s (shifts_from (s + 7) n) acc ha w (ltb→lt w 128 small) at'.0
        ∙ cursor_eq refl (omega arith))
  | inr large ↦
      let at' : At input i ((w % 128 + 128) ∷ groups n (w / 128)) = rw large at at in
      let rest : read_groups input (shifts_from (s + 7) n) (suc i) (acc + w % 128 * 2 ^ s) ≡ (
        ok (acc + w % 128 * 2 ^ s + w / 128 * 2 ^ (s + 7)),
        suc i + length (groups n (w / 128)),
      ) =
        read_groups-groups n (s + 7) (w / 128) (acc + w % 128 * 2 ^ s) (suc i) input (omega arith)
          (omega (arith, pow-suc 128 (suc n))) (group_bound (w % 128) acc s (omega arith) ha)
          (omega (arith, split_lowest w s)) at'.1 in
      rw large (
        round_more input i s (shifts_from (s + 7) n) acc ha (w % 128) (omega arith) at'.0
        ∙ rest
        ∙ cursor_eq (omega (arith, split_lowest w s)) (omega arith))
]

-- The first round, with `k` shifts after it; `k` is kept a variable, and is 8.
first_round :
    (k v i : ℕ) (input : List ℕ)
    → shifts_from 7 k ≡ group_shifts
    → k ≡ 8
    → v < 2 ^ 64
    → At input i (groups (suc k) v)
    → read_varint_at input i ≡ (ok v, i + length (groups (suc k) v))
unfolding read_varint_at groups
first_round k v i input shifts hk fits at = elim (Bool-cases (ltb v 128)) [
  | inl small ↦
      let at' : At input i (v ∷ []) = rw small at at in
      let low : v % 128 ≡ v = omega (arith, ltb→lt v 128 small) in
      rw small
        (rw (at'.0, read_varint_at) (rw (small, and_127 v, low) (cursor_eq refl (omega arith))))
  | inr large ↦
      let at' : At input i ((v % 128 + 128) ∷ groups k (v / 128)) = rw large at at in
      let low : (v % 128 + 128) % 128 ≡ v % 128 = omega arith in
      let wide : v / 128 < 128 ^ suc k = rw hk (omega arith) in
      let rest : read_groups input (shifts_from 7 k) (suc i) (v % 128)
          ≡ (ok (v % 128 + v / 128 * 2 ^ 7), suc i + length (groups k (v / 128))) =
        read_groups-groups k 7 (v / 128) (v % 128) (suc i) input (omega arith) wide (omega arith)
          (omega arith) at'.1 in
      rw large (
        rw (at'.0, read_varint_at)
          (rw (le→ltb (v % 128 + 128) 128 (omega arith), and_127 (v % 128 + 128), low, ← shifts)
            (rest ∙ cursor_eq (omega arith) (omega arith))))
]

pub read_varint_at-groups :
    (v i : ℕ) (input : List ℕ)
    → v < 2 ^ 64
    → At input i (groups 9 v)
    → read_varint_at input i ≡ (ok v, i + length (groups 9 v))
read_varint_at-groups v i input fits at = first_round 8 v i input refl refl fits at

-- Where the bytes that the ladder stores for a `u64` stand in the input, `readVarintAt` returns the
-- value and leaves the index behind them, whatever comes before and after.
pub read_varint_at-ladder :
    (v : ℕ) (before after : List ℕ)
    → v < 2 ^ 64
    → read_varint_at (before ++ (ladder 9 v ++ after)) (length before)
      ≡ (ok v, length before + length (ladder 9 v))
read_varint_at-ladder v before after fits =
    let at : At (before ++ (ladder 9 v ++ after)) (length before) (groups 9 v) =
      rw (sym (ladder-groups 9 v (omega arith))) (At-middle before (ladder 9 v) after) in
    read_varint_at-groups v (length before) (before ++ (ladder 9 v ++ after)) fits at
    ∙ rw (ladder-groups 9 v (omega arith))
