-- ===== src/Wire/Varint/Encoding.antt =====
-- What the varint ladder stores, in plain arithmetic.
use pbz.Common.{
  ℕ, zero, suc, ◌+◌, ◌*◌, ◌/◌, ◌%◌, ◌^◌, ◌≤◌, ◌<◌, ◌≡◌, List, [], ◌∷◌, ltb, if◌then◌else◌, length,
  All, arith,
}
use native.Mathlib.Nat.{pow-suc}
use pbz.Common.Bits.{or_128_byte}
use pbz.Wire.Varint.{ladder}

abbrev pub IsByte : ℕ → Type 0
IsByte b = b < 256

-- The groups of seven bits of `v`, lowest first, for `v` below 128 ^ (k + 1).
unfoldable pub groups : ℕ → ℕ → List ℕ
groups zero v = v ∷ []
groups (suc k) v = if ltb v 128 then v ∷ [] else (v % 128 + 128) ∷ groups k (v / 128)

pub groups-long : (k v : ℕ) → 128 ≤ v → groups (suc k) v ≡ (v % 128 + 128) ∷ groups k (v / 128)
unfolding groups
groups-long k v h = ground arith

pub groups-short : (k v : ℕ) → v < 128 → groups (suc k) v ≡ v ∷ []
unfolding groups
groups-short k v h = ground arith

pub ladder-groups : (k v : ℕ) → v < 128 ^ suc k → ladder k v ≡ groups k v
unfolding ladder groups
ladder-groups zero v h = ground (arith, pow-suc 128 0)
ladder-groups (suc k) v h =
    ground (arith, or_128_byte v, pow-suc 128 (suc k), ladder-groups k (v / 128))

groups-IsByte : (k v : ℕ) → v < 128 ^ suc k → All IsByte (groups k v)
unfolding groups
groups-IsByte zero v h = omega arith
groups-IsByte (suc k) v h = ground (arith, pow-suc 128 (suc k), groups-IsByte k (v / 128))

-- More rounds than a value needs change nothing.
pub groups_enough : (k v : ℕ) → v < 128 ^ suc k → groups (suc k) v ≡ groups k v
unfolding groups
groups_enough zero v h = ground arith
groups_enough (suc k) v h = ground (arith, pow-suc 128 (suc k), groups_enough k (v / 128))

pub length-groups : (k v : ℕ) → (1 ≤ length (groups k v)) × (length (groups k v) ≤ k + 1)
unfolding groups
length-groups zero v = omega arith
length-groups (suc k) v = ground (arith, length-groups k (v / 128))

-- The number that a list of groups stands for.
abbrev pub value : List ℕ → ℕ
value [] = 0
value (b ∷ bs) = b % 128 + 128 * value bs

value-groups : (k v : ℕ) → v < 128 ^ suc k → value (groups k v) ≡ v
unfolding groups
value-groups zero v h = ground arith
value-groups (suc k) v h = ground (arith, pow-suc 128 (suc k), value-groups k (v / 128))
