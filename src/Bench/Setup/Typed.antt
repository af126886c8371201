-- ===== src/Bench/Setup/Typed.antt =====
-- The setup of the well-known types is well-typed, and leaves in scope what the runs use.
use pbz.Common.{
  Bool, and_true, Option-cases, inl, inr, ap, ℕ, ◌≡◌, refl, ◌∙◌, true, List, [], ◌∷◌, Option, none,
  some, All, arith,
}
use pbz.Bench.Timing.{String}
use pbz.Bench.Wkt.{WktRun, bench_pair, parse_only, parse_block}
use pbz.Bench.Wkt.Table.{wkt_runs}
use pbz.Bench.Setup.Run.{done, WktLibrary, Locals, no_locals, same_class, run_statements}
use pbz.Bench.Setup.Table.{wkt_setup}
use pbz.Bench.Setup.Scope.{Scope, no_scope, check_statements, is_some, run_in_scope, runs_in_scope}
use pbz.Bench.Setup.IsSafe.{
  of_safe, same_class-eq, IsSafe-weaken, IsSafe, InScope, run_statements-IsSafe, object_in_scope,
  text_in_scope,
}

-- The variables that a run uses have values, the message of the run's class.
abbrev pub HasVariables : (lib : WktLibrary) → Locals lib → WktRun → Type 0
HasVariables lib l (bench_pair t name variable json) =
    ((m : (lib.class t).Msg) × (l.objects variable ≡ some (t, m)))
    × ((text : List ℕ) × (l.texts json ≡ some text))
HasVariables lib l (parse_only t name json) = (text : List ℕ) × (l.texts json ≡ some text)
HasVariables lib l (parse_block t name json) = (text : List ℕ) × (l.texts json ≡ some text)

-- The scope after the setup.
abbrev pub scope_or_none : Option Scope → Scope
scope_or_none none = no_scope
scope_or_none (some g) = g

scope_or_none-some : (o : Option Scope) → is_some o ≡ true → o ≡ some (scope_or_none o)
scope_or_none-some none h = absurd (cc)
scope_or_none-some (some g) h = refl

unfoldable pub wkt_scope : Option Scope
wkt_scope = check_statements wkt_setup no_scope

wkt_scope-is_some : is_some wkt_scope ≡ true
unfolding wkt_scope check_statements
wkt_scope-is_some = refl

wkt_runs_in_scope : runs_in_scope (scope_or_none wkt_scope) wkt_runs ≡ true
unfolding wkt_scope check_statements same_class
wkt_runs_in_scope = refl

is_some-unit : (o : Option (Unit {0})) → is_some o ≡ true → o ≡ some tt
is_some-unit none h = absurd (cc)
is_some-unit (some tt) h = refl

module _ (lib : WktLibrary) {g : Scope} {l : Locals lib} (h : InScope lib g l) where
  has_text : (j : String) → is_some (g.texts j) ≡ true → (text : List ℕ) × (l.texts j ≡ some text)
  has_text j e = text_in_scope lib h j (is_some-unit (g.texts j) e)

  run-HasVariables : (run : WktRun) → run_in_scope g run ≡ true → HasVariables lib l run
  run-HasVariables (bench_pair t name variable json) e = elim (Option-cases (g.objects variable)) [
    | inl missing ↦ absurd (ground (arith, and_true (is_some (g.texts json))))
    | inr (u, found) ↦
        let both = and_true (is_some (g.texts json)) _ (rw found at e) in
        let same = same_class-eq u t both.1 in
        (object_in_scope lib h variable t (found ∙ ap some same), has_text json both.0)
  ]
  run-HasVariables (parse_only t name json) e = has_text json e
  run-HasVariables (parse_block t name json) e = has_text json e

  runs-HasVariables :
      (runs : List WktRun) → runs_in_scope g runs ≡ true → All (HasVariables lib l) runs
  runs-HasVariables [] e = tt
  runs-HasVariables (run ∷ runs) e =
      let both = and_true (run_in_scope g run) (runs_in_scope g runs) e in
      (run-HasVariables run both.0, runs-HasVariables runs both.1)

no_locals-InScope : (lib : WktLibrary) → InScope lib no_scope (no_locals lib)
no_locals-InScope lib = record { objects = λ x. refl; texts = λ x. refl }

wkt_setup-InScope :
    (lib : WktLibrary)
    → IsSafe (InScope lib (scope_or_none wkt_scope)) (run_statements lib wkt_setup (no_locals lib))
unfolding wkt_scope
wkt_setup-InScope lib =
    run_statements-IsSafe lib wkt_setup no_scope (scope_or_none wkt_scope) (no_locals lib)
      (no_locals-InScope lib) (scope_or_none-some wkt_scope wkt_scope-is_some)

-- The text variables that the setup leaves in scope.
abbrev pub text_prepared : String → Bool
text_prepared j = is_some ((scope_or_none wkt_scope).texts j)

pub prepared_text :
    (lib : WktLibrary) (l : Locals lib)
    → run_statements lib wkt_setup (no_locals lib) ≡ done l
    → (j : String) → text_prepared j ≡ true
    → (text : List ℕ) × (l.texts j ≡ some text)
prepared_text lib l e =
    has_text lib (of_safe (InScope lib (scope_or_none wkt_scope)) e (wkt_setup-InScope lib))

-- With any library the setup of the well-known types runs without a type error: each variable is in scope
-- where it is used, and each setter and each call belongs to the class of its object. It aborts, where a
-- message cannot be printed, or it ends with every message variable that a run uses holding an object of
-- the run's class, and every text variable a text.
pub wkt_setup-IsSafe :
    (lib : WktLibrary)
    → IsSafe (λ l. All (HasVariables lib l) wkt_runs) (run_statements lib wkt_setup (no_locals lib))
wkt_setup-IsSafe lib =
    IsSafe-weaken (InScope lib (scope_or_none wkt_scope)) _
      (run_statements lib wkt_setup (no_locals lib))
      (λ l h. runs-HasVariables lib h wkt_runs wkt_runs_in_scope) (wkt_setup-InScope lib)
