-- ===== src/Bench/Setup.antt =====
-- The setup of the well-known types in `main` of bench/cpp_protobuf/main.cc, as a list of statements, and
-- what running them does. A variable of `main` is given by its name, and a pointer by the place that it
-- points to. An object is changed by calls of its class, which are not part of the repository: the record
-- `WktLibrary` holds them.
pub mod Run
pub mod Scope
pub mod IsSafe
pub mod Typed
pub mod Printed
pub mod Packed
pub mod Prepared
pub mod Payloads
pub mod Table
use pbz.Common.{ℕ, Bool, true, false, List, [], ◌∷◌, Option, none, some}
use pbz.Wire.ZigZag.{ℤ}
use pbz.Bench.Timing.{String}
use pbz.Bench.Wkt.{
  WktType, any, duration, timestamp, field_mask, struct, value, list_value, double_value,
  float_value, int64_value, uint64_value, int32_value, uint32_value, bool_value, string_value,
  bytes_value,
}

-- A step from an object to one that it holds: `(*mutable_fields())[key]`, `add_values()`,
-- `mutable_list_value()` and `mutable_struct_value()`. `mutable_values i` is the element that the call
-- `add_values()` number i, from 0 on, has made; a pointer to it stands for that element.
pub data Access : Type 0 where
  fields : String → Access
  add_values : Access
  mutable_values : ℕ → Access
  mutable_list_value mutable_struct_value : Access

-- An argument of `set_value`. `decimal n k` is the number n / 10 ^ k.
pub data Constant : Type 0 where
  integer : ℤ → Constant
  decimal : ℤ → ℕ → Constant
  quiet_nan infinity negative_infinity : Constant
  truth : Bool → Constant
  text : String → Constant

pub data Setter : Type 0 where
  set_seconds set_nanos : ℤ → Setter
  add_paths set_string_value : String → Setter
  set_value set_number_value : Constant → Setter
  set_bool_value : Bool → Setter
  set_null_value : Setter

-- `declare t x` is `T x;`, `pack x y` is `x.PackFrom(y);`, `print j x` is `j = JsonStringFor(x);` or the
-- same call written out, `discard x` is `JsonStringFor(x);`, `literal j s` is `j = R"(s)";`, and
-- `alias j k` is `j = k;` between texts. `reach x path` takes a pointer to a part of `x`.
pub data Statement : Type 0 where
  declare : WktType → String → Statement
  change : String → List Access → Setter → Statement
  reach : String → List Access → Statement
  copy : String → List Access → String → Statement
  pack print literal alias : String → String → Statement
  discard : String → Statement

-- The class of the object that a step leads to.
abbrev pub step_class : WktType → Access → Option WktType
step_class struct (fields key) = some value
step_class list_value add_values = some value
step_class list_value (mutable_values i) = some value
step_class value mutable_list_value = some list_value
step_class value mutable_struct_value = some struct
step_class t access = none

abbrev pub place_class : WktType → List Access → Option WktType
place_class t [] = some t
place_class t (access ∷ path) = elim (step_class t access) [
  | none ↦ none
  | some u ↦ place_class u path
]

-- The constants that `set_value` of a class takes.
abbrev pub takes_constant : WktType → Constant → Bool
takes_constant double_value (integer n) = true
takes_constant double_value (decimal n k) = true
takes_constant double_value quiet_nan = true
takes_constant double_value infinity = true
takes_constant double_value negative_infinity = true
takes_constant float_value (integer n) = true
takes_constant float_value (decimal n k) = true
takes_constant float_value quiet_nan = true
takes_constant float_value infinity = true
takes_constant float_value negative_infinity = true
takes_constant int64_value (integer n) = true
takes_constant uint64_value (integer n) = true
takes_constant int32_value (integer n) = true
takes_constant uint32_value (integer n) = true
takes_constant bool_value (truth b) = true
takes_constant string_value (text s) = true
takes_constant bytes_value (text s) = true
takes_constant t constant = false

-- Whether the class has the setter.
abbrev pub has_setter : WktType → Setter → Bool
has_setter duration (set_seconds n) = true
has_setter duration (set_nanos n) = true
has_setter timestamp (set_seconds n) = true
has_setter timestamp (set_nanos n) = true
has_setter field_mask (add_paths s) = true
has_setter value (set_string_value s) = true
has_setter value (set_number_value c) = takes_constant double_value c
has_setter value (set_bool_value b) = true
has_setter value set_null_value = true
has_setter t (set_value c) = takes_constant t c
has_setter t setter = false
