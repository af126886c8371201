-- ===== src/Bench/Timing/Laws.antt =====
-- What `RunTimed` calls, returns and reads from the clock.
use pbz.Common.{
  ℕ, zero, suc, ◌+◌, ◌-◌, ◌*◌, ◌≤◌, ◌≡◌, refl, ap, ◌∙◌, Option, none, some, min, arith,
}
use pbz.Bench.Timing.{
  String, BenchResult, World, calls, lift, run_timed, warmup_iterations, benchmark_samples,
  max_nanoseconds,
}

-- `n` rounds of a step that does not abort.
abbrev pub iterate : {S : Type 0} → (S → S) → ℕ → S → S
iterate g zero s = s
iterate g (suc n) s = iterate g n (g s)

module _ {S : Type 0} (f : S → Option S) where
  -- The body does not abort where `P` holds, and keeps `P`.
  abbrev pub KeepsGoing : (S → Type 0) → Type 0
  KeepsGoing P = (s : S) → P s → (s' : S) × (f s ≡ some s') × P s'

  calls_keep :
      (P : S → Type 0)
      → KeepsGoing P
      → (n : ℕ) (s : S) → P s
      → (s' : S) × (calls f n s ≡ some s') × P s'
  unfolding calls
  calls_keep P keep zero s h = (s, refl, h)
  calls_keep P keep (suc n) s h =
      let (s', e, h') = keep s h in
      let (s'', e', h'') = calls_keep P keep n s' h' in (s'', rw (e, calls) e', h'')

  calls-iterate :
      (g : S → S)
      → ((s : S) → f s ≡ some (g s))
      → (n : ℕ) (s : S) → calls f n s ≡ some (iterate g n s)
  unfolding calls
  calls-iterate g total zero s = refl
  calls-iterate g total (suc n) s = rw (total s, calls) (calls-iterate g total n (g s))

calls-none :
    {S : Type 0} (f : S → Option S) (s : S) → f s ≡ none → (n : ℕ) → 1 ≤ n → calls f n s ≡ none
unfolding calls
calls-none f s e zero h = absurd (omega arith)
calls-none f s e (suc n) h = rw (e, calls)

iterate-add :
    {S : Type 0} (g : S → S) (m n : ℕ) (s : S) → iterate g n (iterate g m s) ≡ iterate g (m + n) s
iterate-add g zero n s = let e : n ≡ 0 + n = omega arith in ap (λ k. iterate g k s) e
iterate-add g (suc m) n s =
    let e : suc (m + n) ≡ suc m + n = omega arith in
    iterate-add g m n (g s) ∙ ap (λ k. iterate g k s) e

module _ (clock : ℕ → ℕ) where
  -- The shortest of the three intervals between the readings `k` and `k + 1`, `k + 2` and `k + 3`,
  -- `k + 4` and `k + 5`.
  abbrev best_of_three : ℕ → ℕ
  best_of_three k =
      min
        (min (min max_nanoseconds (clock (k + 1) - clock k))
          (clock (k + 1 + 1 + 1) - clock (k + 1 + 1)))
        (clock (k + 1 + 1 + 1 + 1 + 1) - clock (k + 1 + 1 + 1 + 1))

  abbrev pub timed_result : String → ℕ → ℕ → ℕ → BenchResult
  timed_result name iterations bytes_per_iter k = record {
    name = name;
    iterations = iterations;
    samples = benchmark_samples;
    elapsed = best_of_three k;
    bytes_per_iter = bytes_per_iter;
  }

  abbrev pub after_readings : World → World
  after_readings w = record w { readings = w.readings + 1 + 1 + 1 + 1 + 1 + 1 }

  module _ {S : Type 0} (name : String) (iterations bytes_per_iter : ℕ) (f : S → Option S) (s : S)
      (w : World) where
    -- The four loops of calls are the only ones.
    run_timed_chain :
        (s0 s1 s2 s3 : S)
        → calls f (warmup_iterations iterations) s ≡ some s0
        → calls f iterations s0 ≡ some s1
        → calls f iterations s1 ≡ some s2
        → calls f iterations s2 ≡ some s3
        → run_timed clock name iterations bytes_per_iter f s w
          ≡ some ((timed_result name iterations bytes_per_iter w.readings, s3), after_readings w)
    unfolding run_timed
    run_timed_chain s0 s1 s2 s3 e0 e1 e2 e3 = ground arith

    -- A body that does not abort where `P` holds, and keeps `P`, is run to the end: `RunTimed` reads
    -- the clock six times, prints nothing, and returns the given name, number of iterations and size,
    -- three samples, and the shortest of the three measured intervals.
    pub run_timed_completes :
        (P : S → Type 0)
        → KeepsGoing f P
        → P s
        → (s' : S) × (run_timed clock name iterations bytes_per_iter f s w
            ≡ some ((timed_result name iterations bytes_per_iter w.readings, s'), after_readings w))
          × P s'
    run_timed_completes P keep h =
        let (s0, e0, h0) = calls_keep f P keep (warmup_iterations iterations) s h in
        let (s1, e1, h1) = calls_keep f P keep iterations s0 h0 in
        let (s2, e2, h2) = calls_keep f P keep iterations s1 h1 in
        let (s3, e3, h3) = calls_keep f P keep iterations s2 h2 in
        (s3, run_timed_chain s0 s1 s2 s3 e0 e1 e2 e3, h3)

    -- Where the body never aborts and maps each state by `g`, `RunTimed` returns with the result that its
    -- six clock readings give, and leaves the state after exactly as many calls of the body as there are
    -- warm-up iterations and three times the given iterations.
    pub run_timed-iterate :
        (g : S → S)
        → ((t : S) → f t ≡ some (g t))
        → run_timed clock name iterations bytes_per_iter f s w
          ≡ some (
            (
              timed_result name iterations bytes_per_iter w.readings,
              iterate g (warmup_iterations iterations + 3 * iterations) s,
            ),
            after_readings w,
          )
    run_timed-iterate g total =
        let warm : ℕ = warmup_iterations iterations in
        let s0 : S = iterate g warm s in
        let s1 : S = iterate g iterations s0 in
        let s2 : S = iterate g iterations s1 in
        let s3 : S = iterate g iterations s2 in
        let count : warm + iterations + iterations + iterations ≡ warm + 3 * iterations =
          omega arith in
        let whole : s3 ≡ iterate g (warm + 3 * iterations) s =
          ap (λ t. iterate g iterations (iterate g iterations t)) (iterate-add g warm iterations s)
          ∙ ap (λ t. iterate g iterations t) (iterate-add g (warm + iterations) iterations s)
          ∙ iterate-add g (warm + iterations + iterations) iterations s
          ∙ ap (λ k. iterate g k s) count in
        run_timed_chain s0 s1 s2 s3 (calls-iterate f g total warm s)
          (calls-iterate f g total iterations s0) (calls-iterate f g total iterations s1)
          (calls-iterate f g total iterations s2)
        ∙ ap
            (λ t.
              some ((timed_result name iterations bytes_per_iter w.readings, t), after_readings w))
            whole

    -- A body that aborts at its first call ends the program, also where the number of iterations is 0:
    -- the warm-up makes one call at least.
    pub run_timed_aborts : f s ≡ none → run_timed clock name iterations bytes_per_iter f s w ≡ none
    unfolding run_timed
    run_timed_aborts e = rw (calls-none f s e (warmup_iterations iterations) (omega arith), lift)
