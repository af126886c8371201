-- ===== src/Bench/Timing.antt =====
-- `BenchResult` and `RunTimed` of bench/cpp_protobuf/main.cc. The clock is the parameter `clock`, its
-- k-th reading in nanoseconds; `std::abort` ends the run with `none`. The floating-point rates that
-- `Print` derives from a result are not modelled: the standard output is the list of the results.
pub mod Laws
use pbz.Common.{
  ℕ, zero, suc, ◌+◌, ◌-◌, ◌*◌, ◌/◌, ◌^◌, min, max, List, [], ◌∷◌, ◌++◌, Option, none, some,
}
pub use Prim.Native.String.{String}

abbrev pub benchmark_samples : ℕ
benchmark_samples = 3

pub record BenchResult : Type 0 where
  pub name : String
  pub iterations : ℕ
  pub samples : ℕ
  pub elapsed : ℕ
  pub bytes_per_iter : ℕ

-- The readings that the clock has given, and what was printed.
pub record World : Type 0 where
  pub readings : ℕ
  pub printed : List BenchResult

abbrev pub Main : Type 0 → Type 0
Main A = World → Option (A × World)

infixl 5 ◌>>=◌ ◌>>◌
abbrev pub ◌>>=◌ : {A B : Type 0} → Main A → (A → Main B) → Main B
◌>>=◌ m f w = elim (m w) [ none ↦ none | some (a, w') ↦ f a w' ]

abbrev pub ◌>>◌ : {B : Type 0} → Main (Unit {0}) → Main B → Main B
m >> k = m >>= λ _. k

abbrev pub pure : {A : Type 0} → A → Main A
pure a w = some (a, w)

-- `Print()`.
unfoldable pub print : BenchResult → Main (Unit {0})
print r w = some (tt, record w { printed = w.printed ++ (r ∷ []) })

-- `std::chrono::nanoseconds::max()`.
abbrev pub max_nanoseconds : ℕ
max_nanoseconds = 2 ^ 63 - 1

abbrev pub warmup_iterations : ℕ → ℕ
warmup_iterations iterations = max 1 (min (iterations / 10) 1000)

-- `for (int i = 0; i < n; ++i) f();`, where `f` may abort and works on the variables `s` that it
-- captures by reference.
unfoldable pub calls : {S : Type 0} → (S → Option S) → ℕ → S → Option S
calls f zero s = some s
calls f (suc n) s = elim (f s) [ none ↦ none | some s' ↦ calls f n s' ]

module _ (clock : ℕ → ℕ) where
  unfoldable now : Main ℕ
  now w = some (clock w.readings, record w { readings = w.readings + 1 })

  lift : {A : Type 0} → Option A → Main A
  lift none w = none
  lift (some a) w = some (a, w)

  -- The loop over the samples that are left. A steady clock does not go back, so the difference of two
  -- readings is not negative.
  sample_loop : {S : Type 0} → (S → Option S) → ℕ → ℕ → ℕ → S → Main (ℕ × S)
  unfolding now lift
  sample_loop f iterations zero best s = pure (best, s)
  sample_loop f iterations (suc n) best s = do
    start ← now
    s' ← lift (calls f iterations s)
    end ← now
    sample_loop f iterations n (min best (end - start)) s'

  -- The result, and the captured variables after the call.
  unfoldable pub run_timed :
      {S : Type 0} → String → ℕ → ℕ → (S → Option S) → S → Main (BenchResult × S)
  unfolding sample_loop
  run_timed name iterations bytes_per_iter f s = do
    warm ← lift (calls f (warmup_iterations iterations) s)
    (best, s') ← sample_loop f iterations benchmark_samples max_nanoseconds warm
    pure (
      record {
        name = name;
        iterations = iterations;
        samples = benchmark_samples;
        elapsed = best;
        bytes_per_iter = bytes_per_iter;
      },
      s',
    )
