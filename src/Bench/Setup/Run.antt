-- ===== src/Bench/Setup/Run.antt =====
-- Running the statements of the setup: the classes of the library, the variables, and what a statement
-- does to them.
use mathlib.Core.Path.{subst}
use text.Mathlib.Text.{◌==◌}
use pbz.Common.{ℕ, Bool, true, false, List, [], ◌∷◌, Option, none, some, if◌then◌else◌}
use pbz.Bench.Timing.{String}
use pbz.Bench.Search.{codes}
use pbz.Bench.Message.{Message, message_to_json_string}
use pbz.Bench.Wkt.{WktType, WktLocals, any}
use pbz.Bench.Setup.{
  Access, Setter, Statement, declare, change, reach, copy, pack, print, literal, alias, discard,
  place_class, has_setter,
}

-- The message classes of the well-known types. `call t path setter` calls the setter on the part of an
-- object of the class `t` that the path leads to, `reach t path` makes the path, `copy_from t path s`
-- calls `CopyFrom` on the part, and `pack_from s` is `PackFrom` with an object of the class `s`.
pub record WktLibrary : Type 1 where
  pub class : WktType → Message
  pub call : (t : WktType) → List Access → Setter → (class t).Msg → (class t).Msg
  pub reach_part : (t : WktType) → List Access → (class t).Msg → (class t).Msg
  pub copy_from :
      (t : WktType) → List Access → (s : WktType) → (class s).Msg → (class t).Msg → (class t).Msg
  pub pack_from : (s : WktType) → (class s).Msg → (class any).Msg → (class any).Msg

-- How a statement ends; `ill_typed` is a statement that the C++ compiler refuses.
pub data Outcome (A : Type 0) : Type 0 where
  done : A → Outcome A
  aborted ill_typed : Outcome A

infixl 5 ◌>>=◌ ◌>>◌
abbrev pub ◌>>=◌ : {A B : Type 0} → Outcome A → (A → Outcome B) → Outcome B
done a >>= f = f a
aborted >>= f = aborted
ill_typed >>= f = ill_typed

abbrev pub ◌>>◌ : {B : Type 0} → Outcome (Unit {0}) → Outcome B → Outcome B
m >> k = m >>= λ _. k

abbrev pub require : Bool → Outcome (Unit {0})
require true = done tt
require false = ill_typed

-- The variable `x` gets the value `a`.
abbrev pub assign : {A : Type 0} → String → A → (String → Option A) → String → Option A
assign x a vars y = if x == y then some a else vars y

unfoldable pub WktType-discrete : Discrete WktType
WktType-discrete = hlevel

-- Whether a path from an object of the class `t` leads to one that the test accepts.
abbrev pub place_is : WktType → List Access → (WktType → Bool) → Bool
place_is t path test = elim (place_class t path) [ none ↦ false | some u ↦ test u ]

unfoldable pub same_class : WktType → WktType → Bool
unfolding WktType-discrete
same_class t u = elim (WktType-discrete t u) [ yes p ↦ true | no p ↦ false ]

module _ (lib : WktLibrary) where
  open lib use {class, call, reach_part, copy_from, pack_from}

  -- An object of one of the classes.
  abbrev pub Object : Type 0
  Object = (t : WktType) × (class t).Msg

-- The text of a variable; one that is not in scope, which the setup never leaves, counts as empty.
abbrev pub text_or_empty : Option (List ℕ) → List ℕ
text_or_empty none = []
text_or_empty (some text) = text

-- The variables in scope.
pub record Locals (lib : WktLibrary) : Type 0 where
  pub objects : String → Option (Object lib)
  pub texts : String → Option (List ℕ)

module _ (lib : WktLibrary) where
  open lib use {class, call, reach_part, copy_from, pack_from}

  abbrev pub no_locals : Locals lib
  no_locals = record { objects = λ x. none; texts = λ x. none }

  abbrev pub set_object : String → Object lib → Locals lib → Locals lib
  set_object x o l = record l { objects = assign x o l.objects }

  abbrev pub set_text : String → List ℕ → Locals lib → Locals lib
  set_text x text l = record l { texts = assign x text l.texts }

  -- The value of a variable that is in scope.
  abbrev pub find : {A : Type 0} → Option A → Outcome A
  find none = ill_typed
  find (some a) = done a

  -- `std::abort()` where the call failed.
  abbrev pub or_abort : {A : Type 0} → Option A → Outcome A
  or_abort none = aborted
  or_abort (some a) = done a

  abbrev pub json_string_for : Object lib → Outcome (List ℕ)
  json_string_for (t, m) = or_abort (message_to_json_string (class t) m)

  abbrev pub pack_into : Object lib → Object lib → Outcome (Object lib)
  pack_into (any, m) (s, n) = done (any, pack_from s n m)
  pack_into (t, m) o = ill_typed

  unfoldable pub run_statement : Statement → Locals lib → Outcome (Locals lib)
  unfolding same_class
  run_statement (declare t x) l = done (set_object x (t, (class t).new) l)
  run_statement (change x path setter) l = do
    (t, m) ← find (l.objects x)
    require (place_is t path (λ u. has_setter u setter))
    done (set_object x (t, call t path setter m) l)
  run_statement (reach x path) l = do
    (t, m) ← find (l.objects x)
    require (place_is t path (λ u. true))
    done (set_object x (t, reach_part t path m) l)
  run_statement (copy x path y) l = do
    (s, n) ← find (l.objects y)
    (t, m) ← find (l.objects x)
    require (place_is t path (same_class s))
    done (set_object x (t, copy_from t path s n m) l)
  run_statement (pack x y) l = do
    o ← find (l.objects y)
    a ← find (l.objects x)
    packed ← pack_into a o
    done (set_object x packed l)
  run_statement (print j x) l = do
    o ← find (l.objects x)
    json ← json_string_for o
    done (set_text j json l)
  run_statement (discard x) l = do o ← find (l.objects x); json ← json_string_for o; done l
  run_statement (literal j text) l = done (set_text j (codes text) l)
  run_statement (alias j k) l = do text ← find (l.texts k); done (set_text j text l)

  unfoldable pub run_statements : List Statement → Locals lib → Outcome (Locals lib)
  unfolding run_statement
  run_statements [] l = done l
  run_statements (s ∷ ss) l = do l' ← run_statement s l; run_statements ss l'

  -- The object of the class `t` that a variable holds.
  abbrev pub object_as : (t : WktType) → Option (Object lib) → (class t).Msg
  object_as t none = (class t).new
  object_as t (some (u, m)) = elim (WktType-discrete u t) [
    | yes same ↦ subst (λ c. (class c).Msg) same m
    | no other ↦ (class t).new
  ]

  -- What the runs find in the variables.
  abbrev pub wkt_locals : Locals lib → WktLocals
  wkt_locals l = record {
    class = class;
    message = λ t x. object_as t (l.objects x);
    json = λ x. text_or_empty (l.texts x);
  }
