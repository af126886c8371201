-- ===== src/Bench/Sizes/Table.antt =====
-- The payload sizes that `main` of bench/cpp_protobuf/main.cc prints, in their order: a label, and the variable
-- whose size stands behind it.
pub mod First
pub mod Second
use pbz.Common.{List, ◌++◌}
use pbz.Bench.Sizes.{SizeLine}
use pbz.Bench.Sizes.Table.First.{time_sizes, value_sizes}
use pbz.Bench.Sizes.Table.Second.{number_sizes, wrapper_sizes}

abbrev pub size_lines : List SizeLine
size_lines = time_sizes ++ (value_sizes ++ (number_sizes ++ (wrapper_sizes)))
