-- ===== src/Bench/Wkt/Table.antt =====
-- The runs of the well-known types in `main` of bench/cpp_protobuf/main.cc, in their order.
pub mod Packed
pub mod Plain
pub mod Numbers
use pbz.Common.{List, ◌++◌}
use pbz.Bench.Wkt.{WktRun}
use pbz.Bench.Wkt.Table.Packed.{any_time_runs, any_struct_runs}
use pbz.Bench.Wkt.Table.Plain.{time_runs, struct_runs, bool_string_bytes_runs}
use pbz.Bench.Wkt.Table.Numbers.{
  double_value_runs, float_value_runs, int64_value_runs, int32_value_runs,
}

abbrev pub wkt_runs : List WktRun
wkt_runs =
    (any_time_runs
      ++ (any_struct_runs
          ++ (time_runs
              ++ (struct_runs
                  ++ (double_value_runs
                      ++ (float_value_runs
                          ++ (int64_value_runs
                              ++ (int32_value_runs ++ bool_string_bytes_runs))))))))
