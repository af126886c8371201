-- ===== src/Bench/Sizes.antt =====
-- The payload sizes that `main` of bench/cpp_protobuf/main.cc prints between its setup and its runs. A line of
-- the output is its label and the number behind it.
pub mod Table
pub mod Variables
pub mod Printed
use text.Mathlib.Text.{◌==◌ as str_eq}
use pbz.Common.{ℕ, List, [], ◌∷◌, Option, none, some, length, if◌then◌else◌}
use pbz.Bench.Timing.{String}
use pbz.Bench.Makers.{
  make_person, make_scalarmix, make_textbytes, make_largebytes, make_presencemix, make_complex,
}
use pbz.Bench.Unknown.{make_unknown_field_payload}
use pbz.Bench.Checks.{◌>>=◌}

-- A label, and a variable of `main`.
abbrev pub SizeLine : Type 0
SizeLine = String × String

-- `std::cout << label << variable.size() << "\n";` for each line; `none` is a variable that is not in scope.
unfoldable pub print_sizes : (String → Option (List ℕ)) → List SizeLine → Option (List (String × ℕ))
print_sizes variables [] = some []
print_sizes variables ((label, variable) ∷ lines) = do
  text ← variables variable
  rest ← print_sizes variables lines
  some ((label, length text) ∷ rest)
