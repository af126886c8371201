-- ===== src/Bench/Setup/Scope.antt =====
-- What the C++ compiler checks of the setup's statements: each variable is in scope, each setter belongs to
-- the class of the object, and `PackFrom` and `CopyFrom` are called on objects of the right classes.
use pbz.Common.{◌&&◌, Bool, true, false, List, [], ◌∷◌, Option, none, some}
use pbz.Bench.Checks.{◌>>=◌, ◌>>◌}
use pbz.Bench.Timing.{String}
use pbz.Bench.Wkt.{WktType, any, WktRun, bench_pair, parse_only, parse_block}
use pbz.Bench.Setup.{
  Statement, declare, change, reach, copy, pack, print, literal, alias, discard, has_setter,
}
use pbz.Bench.Setup.Run.{assign, place_is, same_class}

-- The classes of the objects, and the texts, that are in scope.
pub record Scope : Type 0 where
  pub objects : String → Option WktType
  pub texts : String → Option (Unit {0})

abbrev pub is_some : {A : Type 0} → Option A → Bool
is_some none = false
is_some (some a) = true

abbrev pub ensure : Bool → Option (Unit {0})
ensure true = some tt
ensure false = none

abbrev pub no_scope : Scope
no_scope = record { objects = λ x. none; texts = λ x. none }

abbrev pub add_object : String → WktType → Scope → Scope
add_object x t g = record g { objects = assign x t g.objects }

abbrev pub add_text : String → Scope → Scope
add_text x g = record g { texts = assign x tt g.texts }

-- The scope after a statement, where the statement is well-typed.
unfoldable pub check_statement : Statement → Scope → Option Scope
unfolding same_class
check_statement (declare t x) g = some (add_object x t g)
check_statement (change x path setter) g = do
  t ← g.objects x
  ensure (place_is t path (λ u. has_setter u setter))
  some (add_object x t g)
check_statement (reach x path) g = do
  t ← g.objects x
  ensure (place_is t path (λ u. true))
  some (add_object x t g)
check_statement (copy x path y) g = do
  s ← g.objects y
  t ← g.objects x
  ensure (place_is t path (same_class s))
  some (add_object x t g)
check_statement (pack x y) g = do
  s ← g.objects y
  t ← g.objects x
  ensure (same_class t any)
  some (add_object x any g)
check_statement (print j x) g = do t ← g.objects x; some (add_text j g)
check_statement (discard x) g = do t ← g.objects x; some g
check_statement (literal j text) g = some (add_text j g)
check_statement (alias j k) g = do t ← g.texts k; some (add_text j g)

unfoldable pub check_statements : List Statement → Scope → Option Scope
unfolding check_statement
check_statements [] g = some g
check_statements (s ∷ ss) g = do g' ← check_statement s g; check_statements ss g'

-- Whether the variables of a run are in scope, the message with its class.
abbrev pub run_in_scope : Scope → WktRun → Bool
run_in_scope g (bench_pair t name variable json) =
    is_some (g.texts json) && elim (g.objects variable) [ none ↦ false | some u ↦ same_class u t ]
run_in_scope g (parse_only t name json) = is_some (g.texts json)
run_in_scope g (parse_block t name json) = is_some (g.texts json)

abbrev pub runs_in_scope : Scope → List WktRun → Bool
runs_in_scope g [] = true
runs_in_scope g (run ∷ runs) = run_in_scope g run && runs_in_scope g runs
