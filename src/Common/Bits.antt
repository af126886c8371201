-- ===== src/Common/Bits.antt =====
-- Masks, shifts and `|` of disjoint fields as arithmetic on the native numbers.
use Prim.Native.Nat.{ℕ, zero, suc, ◌+◌, ◌*◌, ◌/◌, ◌%◌, ◌^◌, ◌≤◌, ◌<◌, min, max}
use Prim.Native.Nat.{bit_and, bit_or, bit_xor, differ, digits, ◌-◌}
use Prim.Native.Nat.{bit_and-bitwise, bit_or-bitwise, bit_xor-bitwise}
use mathlib.Core.Path.{◌≡◌, refl, ap}
use native.Mathlib.Nat.{pow-suc, one-le-pow}
use native.Mathlib.Omega.{arith}

-- The fuel of the native recursion on binary digits does not matter once it reaches the first
-- argument.
fuel_irrelevant :
    (z : ℕ → ℕ) (f : ℕ → ℕ → ℕ) (n m a b : ℕ) → a ≤ n → a ≤ m → digits z f n a b ≡ digits z f m a b
fuel_irrelevant z f zero zero a b p q = refl
fuel_irrelevant z f (suc n) zero zero b p q = refl
fuel_irrelevant z f (suc n) zero (suc a) b p q = absurd (omega arith)
fuel_irrelevant z f zero (suc m) zero b p q = refl
fuel_irrelevant z f zero (suc m) (suc a) b p q = absurd (omega arith)
fuel_irrelevant z f (suc n) (suc m) zero b p q = refl
fuel_irrelevant z f (suc n) (suc m) (suc a) b p q =
    rw (fuel_irrelevant z f n m (suc a / 2) (b / 2) (omega arith) (omega arith))

-- One binary digit of `|` and of `&`.
or_digit : (a b : ℕ) → bit_or a b ≡ bit_or (a / 2) (b / 2) * 2 + max (a % 2) (b % 2)
or_digit zero b = omega (arith, bit_or-bitwise 0 b, bit_or-bitwise 0 (b / 2))
or_digit (suc a) b = omega (
  arith,
  bit_or-bitwise (suc a) b,
  bit_or-bitwise (suc a / 2) (b / 2),
  fuel_irrelevant (λ y. y) max a (suc a / 2) (suc a / 2) (b / 2) (omega arith) (omega arith),
)

and_digit : (a b : ℕ) → bit_and a b ≡ bit_and (a / 2) (b / 2) * 2 + min (a % 2) (b % 2)
and_digit zero b = omega (arith, bit_and-bitwise 0 b, bit_and-bitwise 0 (b / 2))
and_digit (suc a) b = omega (
  arith,
  bit_and-bitwise (suc a) b,
  bit_and-bitwise (suc a / 2) (b / 2),
  fuel_irrelevant (λ y. 0) min a (suc a / 2) (suc a / 2) (b / 2) (omega arith) (omega arith),
)

-- `differ` of two binary digits.
xor_digit : (a b : ℕ) → bit_xor a b ≡ bit_xor (a / 2) (b / 2) * 2 + differ (a % 2) (b % 2)
xor_digit zero b = omega (arith, bit_xor-bitwise 0 b, bit_xor-bitwise 0 (b / 2))
xor_digit (suc a) b = omega (
  arith,
  bit_xor-bitwise (suc a) b,
  bit_xor-bitwise (suc a / 2) (b / 2),
  fuel_irrelevant (λ y. y) differ a (suc a / 2) (suc a / 2) (b / 2) (omega arith) (omega arith),
)

differ-zero : (d : ℕ) → differ d 0 ≡ d
differ-zero zero = refl
differ-zero (suc d) = refl

differ_one : (d : ℕ) → d < 2 → differ d 1 ≡ 1 - d
differ_one zero h = refl
differ_one (suc zero) h = refl
differ_one (suc (suc d)) h = absurd (omega arith)

-- `x ^ mask`, where the mask has `k` ones and `x` fits `k` bits, is the complement of `x`.
pub xor_ones : (k x : ℕ) → x < 2 ^ k → bit_xor x (2 ^ k - 1) ≡ 2 ^ k - 1 - x
xor_ones zero x h = let e : x ≡ 0 = omega arith in rw e
xor_ones (suc k) x h =
    let half : (2 ^ suc k - 1) / 2 ≡ 2 ^ k - 1 =
      omega (arith, pow-suc 2 k, one-le-pow k 2 (omega arith)) in
    let odd : (2 ^ suc k - 1) % 2 ≡ 1 = omega (arith, pow-suc 2 k, one-le-pow k 2 (omega arith)) in
    rw xor_digit (
      rw (half, odd)
        (omega (
          arith,
          pow-suc 2 k,
          one-le-pow k 2 (omega arith),
          differ_one (x % 2) (omega arith),
          xor_ones k (x / 2) (omega (arith, pow-suc 2 k)),
        )))

xor_zero_fuel : (n a : ℕ) → a ≤ n → bit_xor a 0 ≡ a
xor_zero_fuel n zero h = refl
xor_zero_fuel zero (suc a) h = absurd (omega arith)
xor_zero_fuel (suc n) (suc a) h =
    let same : differ (suc a % 2) 0 ≡ suc a % 2 = differ-zero (suc a % 2) in
    omega (arith, xor_digit (suc a) 0, same, xor_zero_fuel n (suc a / 2) (omega arith))

pub bit_xor-zero : (a : ℕ) → bit_xor a 0 ≡ a
bit_xor-zero a = xor_zero_fuel a a (omega arith)

and_zero_fuel : (n a : ℕ) → a ≤ n → bit_and a 0 ≡ 0
and_zero_fuel n zero h = refl
and_zero_fuel zero (suc a) h = absurd (omega arith)
and_zero_fuel (suc n) (suc a) h =
    omega (arith, and_digit (suc a) 0, and_zero_fuel n (suc a / 2) (omega arith))

bit_and-zero : (a : ℕ) → bit_and a 0 ≡ 0
bit_and-zero a = and_zero_fuel a a (omega arith)

or_zero_fuel : (n a : ℕ) → a ≤ n → bit_or a 0 ≡ a
or_zero_fuel n zero h = refl
or_zero_fuel zero (suc a) h = absurd (omega arith)
or_zero_fuel (suc n) (suc a) h =
    omega (arith, or_digit (suc a) 0, or_zero_fuel n (suc a / 2) (omega arith))

pub bit_or-zero : (a : ℕ) → bit_or a 0 ≡ a
bit_or-zero a = or_zero_fuel a a (omega arith)

zero-bit_or : (b : ℕ) → bit_or 0 b ≡ b
zero-bit_or b = bit_or-bitwise 0 b

double_pow : (q k : ℕ) → q * 2 ^ suc k ≡ 2 * (q * 2 ^ k)
double_pow q k = omega (arith, ap (λ (t : ℕ). q * t) (pow-suc 2 k))

-- `low | (high << k)` is a sum when `low` fits `k` bits.
pub or_fields : (k low high : ℕ) → low < 2 ^ k → bit_or low (high * 2 ^ k) ≡ low + high * 2 ^ k
or_fields zero low high fits = let e : low ≡ 0 = omega arith in rw (e, zero-bit_or) (omega arith)
or_fields (suc k) low high fits = ground (
  arith,
  or_digit low (high * 2 ^ suc k),
  double_pow high k,
  pow-suc 2 k,
  or_fields k (low / 2) high (omega (arith, pow-suc 2 k)),
)

-- `(high << k) | low`, the other way round.
pub or_fields_high : (k high low : ℕ) → low < 2 ^ k → bit_or (high * 2 ^ k) low ≡ high * 2 ^ k + low
or_fields_high zero high low fits =
    let e : low ≡ 0 = omega arith in rw (e, bit_or-zero) (omega arith)
or_fields_high (suc k) high low fits = ground (
  arith,
  or_digit (high * 2 ^ suc k) low,
  double_pow high k,
  pow-suc 2 k,
  or_fields_high k high (low / 2) (omega (arith, pow-suc 2 k)),
)

-- `x & 1`, `x & 7` and `x & 0x7f` are remainders.
pub and_one : (a : ℕ) → bit_and a 1 ≡ a % 2
and_one a = omega (arith, and_digit a 1, bit_and-zero (a / 2))

and_three : (a : ℕ) → bit_and a 3 ≡ a % 4
and_three a = omega (arith, and_digit a 3, and_one (a / 2))

pub and_seven : (a : ℕ) → bit_and a 7 ≡ a % 8
and_seven a = omega (arith, and_digit a 7, and_three (a / 2))

pub and_15 : (a : ℕ) → bit_and a 15 ≡ a % 16
and_15 a = omega (arith, and_digit a 15, and_seven (a / 2))

and_31 : (a : ℕ) → bit_and a 31 ≡ a % 32
and_31 a = omega (arith, and_digit a 31, and_15 (a / 2))

and_63 : (a : ℕ) → bit_and a 63 ≡ a % 64
and_63 a = omega (arith, and_digit a 63, and_31 (a / 2))

pub and_127 : (a : ℕ) → bit_and a 0x7f ≡ a % 128
and_127 a = omega (arith, and_digit a 127, and_63 (a / 2))

pub and_255 : (a : ℕ) → bit_and a 0xff ≡ a % 256
and_255 a = omega (arith, and_digit a 255, and_127 (a / 2))

-- The low byte of `v | 0x80`: the lowest seven bits of `v`, with the top bit of the byte set.
or_one : (v : ℕ) → bit_or v 1 ≡ v / 2 * 2 + 1
or_one v = omega (arith, or_digit v 1, bit_or-zero (v / 2))

-- `|` with an even constant leaves the lowest binary digit alone.
or_even : (v c : ℕ) → bit_or v (c * 2) ≡ bit_or (v / 2) c * 2 + v % 2
or_even v c = let e : c * 2 / 2 ≡ c = omega arith in omega (arith, rw e at (or_digit v (c * 2)))

or_four : (v : ℕ) → bit_or v 4 ≡ v / 8 * 8 + v % 4 + 4
or_four v = omega (arith, or_even v 2, or_even (v / 2) 1, or_one (v / 2 / 2))

or_16 : (v : ℕ) → bit_or v 16 ≡ v / 32 * 32 + v % 16 + 16
or_16 v = omega (arith, or_even v 8, or_even (v / 2) 4, or_four (v / 2 / 2))

or_64 : (v : ℕ) → bit_or v 64 ≡ v / 128 * 128 + v % 64 + 64
or_64 v = omega (arith, or_even v 32, or_even (v / 2) 16, or_16 (v / 2 / 2))

pub or_128 : (v : ℕ) → bit_or v 0x80 ≡ v / 256 * 256 + v % 128 + 128
or_128 v = omega (arith, or_even v 64, or_64 (v / 2))

pub or_128_byte : (v : ℕ) → bit_or v 0x80 % 256 ≡ v % 128 + 128
or_128_byte v = omega (arith, or_128 v)
