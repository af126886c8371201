-- ===== src/Bench/Checks/Chain.antt =====
-- A chain of checks that lets a value through.
use pbz.Common.{ℕ, ◌≡◌, refl, ap, Option, none, some, Bool, true, false, ◌||◌, arith}
use pbz.Wire.ZigZag.{ℤ, pos, negsuc}
use pbz.Bench.Checks.{◌>>=◌, abort_if, ◌!=◌, ◌!=ℤ◌}

pub some-injective : {A : Type 0} {a b : A} → some a ≡ some b → a ≡ b
some-injective h = cc

-- Inversion of a chain that succeeds: of a call, and of a test that did not abort.
pub called :
    {A B : Type 0} (o : Option A) (f : A → Option B) {b : B}
    → (o >>= f) ≡ some b
    → (a : A) × (o ≡ some a) × (f a ≡ some b)
called none f h = absurd (cc)
called (some a) f h = (a, refl, h)

-- The same for a long chain: what comes after a call sees its value as a variable.
pub after_call :
    {A B Q : Type 0} (o : Option A) (f : A → Option B) {b : B}
    → (o >>= f) ≡ some b
    → ((a : A) → o ≡ some a → f a ≡ some b → Q)
    → Q
after_call none f h k = absurd (cc)
after_call (some a) f h k = k a refl h

pub not_aborted :
    {B : Type 0} (test : Bool) {k : Option B} {b : B}
    → (abort_if test >>= λ _. k) ≡ some b
    → (test ≡ false) × (k ≡ some b)
not_aborted true h = absurd (cc)
not_aborted false h = (refl, h)

pub abort_if-some : (test : Bool) {u : Unit {0}} → abort_if test ≡ some u → test ≡ false
abort_if-some true h = absurd (cc)
abort_if-some false h = refl

pub or_false : {a b : Bool} → (a || b) ≡ false → (a ≡ false) × (b ≡ false)
or_false {a = true} h = absurd (cc)
or_false {a = false} h = (refl, h)

pub eq_of_test : (a b : ℕ) → (a != b) ≡ false → a ≡ b
eq_of_test a b h = ground arith

pub eq_of_testℤ : (a b : ℤ) → (a !=ℤ b) ≡ false → a ≡ b
eq_of_testℤ (pos a) (pos b) h = ap pos (eq_of_test a b h)
eq_of_testℤ (negsuc a) (negsuc b) h = ap negsuc (eq_of_test a b h)
eq_of_testℤ (pos a) (negsuc b) h = absurd (cc)
eq_of_testℤ (negsuc a) (pos b) h = absurd (cc)
